-- ===== src/Activities/Retries.antt =====
-- Which failures of a call of the model are retried: the errors of internal/llm/client.go, as
-- FailureDetails of internal/activities/errors.go reports them.

use self_imp_bin_eval.Base.{
  ◌≡◌, refl, sym, ◌∙◌, ap, subst, ℕ, ◌+◌, ◌^◌, ◌≤◌, Bool, true, false, [], ◌∷◌, length, Option,
  none, some, ◌⊎◌, inl, inr, String, Bool-cases, ◌↔◌, arith,
}
use self_imp_bin_eval.Base.Int.{ℤ, pos}
use self_imp_bin_eval.Errors.{
  Message, lit, int, GoError, Cause, model_output, no_cause, cause, infra, opaque, response_size,
  Result, ok, err, error_chain, cause_chain,
}
use self_imp_bin_eval.Activities.{
  as_model_output, as_semantic, as_infra, as_response_size, failure_details,
}
use self_imp_bin_eval.Llm.{Bytes}
use self_imp_bin_eval.Llm.Bounded.{Read}
use self_imp_bin_eval.Llm.Bounds.{IsBounded, read_bounded_response-IsBounded}
use self_imp_bin_eval.Llm.Stream.{read_structured_responses_stream}
use self_imp_bin_eval.Llm.Failures.{IsOpaque, stream-IsOpaque}
use self_imp_bin_eval.Activities.Transient.{
  is_retryable_status_iff, IsTransientBody, IsTransientResponse, IsTransientAnswer, IsTransient,
}
use self_imp_bin_eval.Llm.Client.{
  HttpClient, GenerateRequest, HttpResponse, Library, body_of, request_of, generate_json,
  from_marshal, from_request, from_response, from_read, from_body, from_content, from_decoded,
  checked, is_success, is_retryable_status,
}

abbrev is_retried {ℓ} : {A : Type ℓ} → Result A → ℤ → Bool
is_retried (ok a) n = false
is_retried (err e) n = (failure_details e n).retryable

model_output-final :
    (message : Message) (c : Cause) (n : ℤ)
    → (failure_details (model_output message c) n).retryable ≡ false
unfolding failure_details error_chain as_model_output
model_output-final message c n = refl

response_size-final : (l o n : ℤ) → (failure_details (response_size l o) n).retryable ≡ false
unfolding failure_details error_chain as_model_output as_semantic as_infra as_response_size
response_size-final l o n = refl

infra-bare :
    (message : Message) (retryable : Bool) (n : ℤ)
    → (failure_details (infra message retryable no_cause) n).retryable ≡ retryable
unfolding failure_details error_chain cause_chain as_model_output as_semantic as_infra
infra-bare message retryable n = refl

infra-opaque :
    (message m : Message) (retryable : Bool) (n : ℤ)
    → (failure_details (infra message retryable (cause (opaque m))) n).retryable ≡ retryable
unfolding failure_details error_chain cause_chain as_model_output as_semantic as_infra
infra-opaque message m retryable n = refl

module _ {Output : Type 0} (library : Library Output) (validate : Output → Result (Unit {0}))
    (n : ℤ) where
  from_decoded-final :
      (d : Message ⊎ Output) → is_retried (from_decoded library validate d) n ≡ false
  from_decoded-final (inl m) = model_output-final _ _ n
  from_decoded-final (inr o) =
      elim (validate o) as (λ v. is_retried (checked library validate o v) n ≡ false) [
        | err e ↦ model_output-final _ _ n
        | ok u ↦ refl
      ]

  from_content-retried :
      (r : Result String)
      → IsOpaque r
      → (is_retried (from_content library validate r) n ≡ true) ↔ ((e : GoError) × (r ≡ err e))
  from_content-retried (err e) (m, same) = (λ h. (e, refl), λ h. rw same (infra-opaque _ m true n))
  from_content-retried (ok content) o =
      let d = from_decoded-final (library.decode_output content) in
      let f = model_output-final in
      (
        λ h. absurd (
            ground (arith, h, d, f (lit "LLM response contained no JSON content" ∷ []) no_cause n)),
        λ h. absurd (cc h.1),
      )

  from_body-retried_of :
      (tool : String) (status : ℤ) (bytes : Bytes)
      → IsTransientBody library tool status bytes
      → is_retried (from_body library validate tool status bytes) n ≡ true
  from_body-retried_of tool status bytes (inl r) =
      let i =
        infra-bare (lit "LLM endpoint returned HTTP " ∷ int status ∷ [])
          (is_retryable_status status) n in
      let q = (is_retryable_status_iff status).1 r in
      let s : is_success status ≡ false = ground arith in rw s (i ∙ q)
  from_body-retried_of tool status bytes (inr (success, f)) =
      let c =
        from_content-retried (read_structured_responses_stream library.decode_event bytes tool)
          (stream-IsOpaque library.decode_event tool bytes) in
      let s : is_success status ≡ true = ground (arith, success) in rw s (c.1 f)

  from_body-retried :
      (tool : String) (status : ℤ) (bytes : Bytes)
      → (is_retried (from_body library validate tool status bytes) n ≡ true)
        ↔ IsTransientBody library tool status bytes
  from_body-retried tool status bytes =
      let c =
        from_content-retried (read_structured_responses_stream library.decode_event bytes tool)
          (stream-IsOpaque library.decode_event tool bytes) in
      let i =
        infra-bare (lit "LLM endpoint returned HTTP " ∷ int status ∷ [])
          (is_retryable_status status) n in
      elim (Bool-cases (is_success status)) [
        | inl e ↦
            (λ h. inr (ground arith, c.0 (ground arith)), from_body-retried_of tool status bytes)
        | inr e ↦ (
          λ h. inl ((is_retryable_status_iff status).0 (ground arith)),
          from_body-retried_of tool status bytes,
        )
      ]

  whole_reason :
      (tool : String) (response : HttpResponse)
      → response.body.broken ≡ none
      → ((m : Message) × (response.body.broken ≡ some m))
        ⊎ ((response.body.broken ≡ none)
            × IsTransientBody library tool response.status_code response.body.bytes)
      → IsTransientBody library tool response.status_code response.body.bytes
  whole_reason tool response whole (inl (m, broken)) = absurd cc
  whole_reason tool response whole (inr (again, transient)) = transient

  from_read-retried :
      (tool : String) (limit : ℕ) (response : HttpResponse) (read : Read) (error : Option Message)
      → read.error ≡ error
      → IsBounded response.body limit read
      → (is_retried (from_read library validate tool (pos limit) response.status_code read error) n
          ≡ true)
        ↔ IsTransientResponse library tool limit response
  from_read-retried tool limit response read (some m) e b =
      let short : read.truncated ≡ false = ground (arith, b.complete, e) in
      let fits : length response.body.bytes ≤ limit = ground (arith, b.truncated, short) in
      let broken = sym (b.error fits) ∙ e in
      (λ h. (fits, inl (m, broken)), λ t. infra-opaque _ m true n)
  from_read-retried tool limit response read none e b = elim (Bool-cases read.truncated) [
    | inl cut ↦
        let final = response_size-final (pos limit) read.observed n in
        (
          λ h. absurd (ground (arith, h, cut, final)),
          λ t. absurd (ground (arith, b.truncated, cut, t.0)),
        )
    | inr short ↦
        let fits : length response.body.bytes ≤ limit = ground (arith, b.truncated, short) in
        let whole = sym (b.error fits) ∙ e in
        let retried = from_body-retried tool response.status_code response.body.bytes in
        let kept = b.whole short e in
        let same : is_retried
              (from_read library validate tool (pos limit) response.status_code read none) n
            ≡ is_retried (from_body library validate tool response.status_code response.body.bytes)
                n =
          rw short (
            ap (λ bytes. is_retried (from_body library validate tool response.status_code bytes) n)
              kept) in
        (
          λ h. (fits, inr (whole, retried.0 (sym same ∙ h))),
          λ t. same ∙ retried.1 (whole_reason tool response whole t.1),
        )
  ]

  from_response-retried :
      (limit : ℕ) (tool : String) (request : Bytes) (s : Message ⊎ HttpResponse)
      → 1 ≤ limit
      → limit + 2 ≤ 2 ^ 63
      → (is_retried (from_response library validate (pos limit) tool request s).1 n ≡ true)
        ↔ IsTransientAnswer library tool limit s
  from_response-retried limit tool request (inl m) l bound = (λ h. tt, λ t. infra-opaque _ m true n)
  from_response-retried limit tool request (inr response) l bound =
      from_read-retried tool limit response _ _ refl
        (read_bounded_response-IsBounded response.body limit l bound)

  from_request-retried :
      (limit : ℕ) (c : HttpClient) (tool : String) (request : Bytes) (check : Option Message)
      → c.max_response_bytes ≡ pos limit
      → 1 ≤ limit
      → limit + 2 ≤ 2 ^ 63
      → (is_retried (from_request library validate c tool request check).1 n ≡ true) ↔ (
          (check ≡ none)
          × IsTransientAnswer library tool limit (library.send (request_of c request)))
  from_request-retried limit c tool request (some m) h l bound =
      let final = infra-opaque (lit "failed to build LLM request" ∷ []) m false n in
      (λ e. absurd (ground (arith, e, final)), λ t. absurd (cc t.0))
  from_request-retried limit c tool request none h l bound =
      let r =
        from_response-retried limit tool request (library.send (request_of c request)) l bound in
      rw h (λ e. (refl, r.0 e), λ t. r.1 t.1)

  from_marshal-retried :
      (limit : ℕ) (c : HttpClient) (req : GenerateRequest) (m : Message ⊎ Bytes)
      → c.max_response_bytes ≡ pos limit
      → 1 ≤ limit
      → limit + 2 ≤ 2 ^ 63
      → library.marshal (body_of req) ≡ m
      → (is_retried (from_marshal library validate c req.schema_name m).1 n ≡ true)
        ↔ IsTransient library c req limit
  from_marshal-retried limit c req (inl m) h l bound e =
      let final =
        model_output-final (lit "failed to marshal LLM request" ∷ []) (cause (opaque m)) n in
      (λ r. absurd (ground (arith, r, final)), λ t. absurd (ground (arith, e, t.marshalled)))
  from_marshal-retried limit c req (inr request) h l bound e =
      let r = from_request-retried limit c req.schema_name request _ h l bound in
      (
        λ q.
            let (built, answer) = r.0 q in
            record { request = request; marshalled = e; built = built; answer = answer },
        λ t.
            let same : t.request ≡ request = ground (arith, e, t.marshalled) in
            r.1 (
              subst
                (λ b.
                  (library.check_request (request_of c b) ≡ none)
                  × IsTransientAnswer library req.schema_name limit (library.send (request_of c b)))
                same (t.built, t.answer)),
      )

  -- A failed call of the model is reported as retryable exactly if its request was sent and either no
  -- answer came, or one of at most the limit that broke off, that has the status 429 or one of at
  -- least 500, or that is a success whose stream fails. An answer that is too large, and one that is
  -- empty, does not decode or does not pass its check, is not.
  pub generate_json-retryable_iff :
      (limit : ℕ) (c : HttpClient) (req : GenerateRequest) (e : GoError)
      → c.max_response_bytes ≡ pos limit
      → 1 ≤ limit
      → limit + 2 ≤ 2 ^ 63
      → (generate_json library validate c req).1 ≡ err e
      → ((failure_details e n).retryable ≡ true) ↔ IsTransient library c req limit
  unfolding generate_json
  generate_json-retryable_iff limit c req e h l bound failed =
      subst (λ r. (is_retried r n ≡ true) ↔ IsTransient library c req limit) failed
        (from_marshal-retried limit c req (library.marshal (body_of req)) h l bound refl)
