-- ===== src/Llm/Kept.antt =====
-- What the trace of a call holds.
use self_imp_bin_eval.Base.{
  ◌≡◌, ◌≢◌, refl, sym, ◌∙◌, ap, subst, ℕ, suc, ◌+◌, ◌^◌, ◌≤◌, true, [], length, Option, none, some,
  ◌⊎◌, inl, inr, String, ◌↔◌, arith,
}
use self_imp_bin_eval.Base.Int.{pos, ◌≤ℤ◌}
use self_imp_bin_eval.Errors.{Message, GoError, response_size, Result, ok, err}
use self_imp_bin_eval.Llm.{Bytes, Trace}
use self_imp_bin_eval.Llm.Bounded.{Read, read_bounded_response}
use self_imp_bin_eval.Llm.Bounds.{IsBounded, read_bounded_response-IsBounded}
use self_imp_bin_eval.Llm.Stream.{read_structured_responses_stream}
use self_imp_bin_eval.Llm.Client.{
  HttpClient, GenerateRequest, HttpResponse, Library, generate_json, from_marshal, from_request,
  from_response, from_read, from_content, from_decoded, checked, sent,
}

module _ {Output : Type 0} where
  abbrev IsTooLarge : ℕ → Result Output → Type 0
  IsTooLarge limit result = result ≡ err (response_size (pos limit) (pos (suc limit)))

  -- A trace under a limit, with the result of its call.
  pub record IsKept (limit : ℕ) (call : Trace × Result Output) : Type 0 where
    pub body : length (call.0).response_body ≤ limit
    pub read : (call.0).response_bytes_read ≤ℤ pos (suc limit)
    pub truncated : ((call.0).response_truncated ≡ true) ↔ IsTooLarge limit call.1

  sent-IsKept :
      (limit : ℕ) (request : Bytes) (e : GoError)
      → e ≢ response_size (pos limit) (pos (suc limit))
      → IsKept limit (sent request, err e)
  sent-IsKept limit request e differ = record {
    body = omega arith;
    read = omega arith;
    truncated = (λ h. absurd cc, λ h. absurd (differ cc));
  }

module _ {Output : Type 0} (library : Library Output) (validate : Output → Result (Unit {0})) where
  from_decoded-size :
      (limit : ℕ) (d : Message ⊎ Output) → IsTooLarge limit (from_decoded library validate d) → ⊥
  from_decoded-size limit (inl m) h = cc
  from_decoded-size limit (inr o) h =
      elim (validate o) as (λ v. IsTooLarge limit (checked library validate o v) → ⊥) [
        | err e ↦ λ t. cc
        | ok u ↦ λ t. cc
      ]
        h

  from_content-size :
      (limit : ℕ) (r : Result String) → IsTooLarge limit (from_content library validate r) → ⊥
  from_content-size limit (err e) h = cc
  from_content-size limit (ok content) h =
      let d = from_decoded-size limit (library.decode_output content) in ground arith

  from_read-size :
      (tool : String) (limit : ℕ) (response : HttpResponse) (read : Read) (error : Option Message)
      → read.error ≡ error
      → IsBounded response.body limit read
      → (read.truncated ≡ true)
        ↔ IsTooLarge limit
            (from_read library validate tool (pos limit) response.status_code read error)
  from_read-size tool limit response read (some m) e b =
      (λ h. absurd (ground (arith, b.complete h, e)), λ h. absurd cc)
  from_read-size tool limit response read none e b =
      let s =
        from_content-size limit
          (read_structured_responses_stream library.decode_event read.kept tool) in
      (
        λ h.
            let n : read.observed ≡ pos (suc limit) =
              b.observed ∙ ap pos (ground (arith, b.truncated, h)) in
            ground (arith, h, n),
        λ h. ground arith,
      )

  from_response-IsKept :
      (limit : ℕ) (tool : String) (request : Bytes) (s : Message ⊎ HttpResponse)
      → 1 ≤ limit
      → limit + 2 ≤ 2 ^ 63
      → IsKept limit (from_response library validate (pos limit) tool request s)
  from_response-IsKept limit tool request (inl m) l bound = sent-IsKept limit request _ (λ e. cc)
  from_response-IsKept limit tool request (inr response) l bound =
      let read = read_bounded_response response.body (pos limit) in
      let b = read_bounded_response-IsBounded response.body limit l bound in
      record {
        body = b.kept;
        read = subst (λ o. o ≤ℤ pos (suc limit)) (sym b.observed) (ground arith);
        truncated = from_read-size tool limit response read read.error refl b;
      }

  from_request-IsKept :
      (limit : ℕ) (c : HttpClient) (tool : String) (request : Bytes) (check : Option Message)
      → c.max_response_bytes ≡ pos limit
      → 1 ≤ limit
      → limit + 2 ≤ 2 ^ 63
      → IsKept limit (from_request library validate c tool request check)
  from_request-IsKept limit c tool request (some m) h l bound =
      sent-IsKept limit request _ (λ e. cc)
  from_request-IsKept limit c tool request none h l bound =
      rw h (from_response-IsKept limit tool request _ l bound)

  from_marshal-IsKept :
      (limit : ℕ) (c : HttpClient) (tool : String) (m : Message ⊎ Bytes)
      → c.max_response_bytes ≡ pos limit
      → 1 ≤ limit
      → limit + 2 ≤ 2 ^ 63
      → IsKept limit (from_marshal library validate c tool m)
  from_marshal-IsKept limit c tool (inl m) h l bound = sent-IsKept limit [] _ (λ e. cc)
  from_marshal-IsKept limit c tool (inr request) h l bound =
      from_request-IsKept limit c tool request _ h l bound

  -- Whatever the endpoint answers, the trace of a call holds at most as many bytes of the response as
  -- the limit allows and counts at most one more, and it says that the response was cut exactly if
  -- the call fails since the response was too large.
  pub generate_json-IsKept :
      (limit : ℕ) (c : HttpClient) (req : GenerateRequest)
      → c.max_response_bytes ≡ pos limit
      → 1 ≤ limit
      → limit + 2 ≤ 2 ^ 63
      → IsKept limit (generate_json library validate c req)
  unfolding generate_json
  generate_json-IsKept limit c req h l bound =
      from_marshal-IsKept limit c req.schema_name _ h l bound
