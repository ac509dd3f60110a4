-- ===== src/Llm/Answers.antt =====
-- When the client gives an answer, and what it keeps of a call.
use self_imp_bin_eval.Base.{
  ◌≡◌, refl, sym, ◌∙◌, ap, subst, ℕ, ◌+◌, ◌^◌, ◌≤◌, false, length, Option, none, some, ◌⊎◌, inl,
  inr, String, ◌↔◌, arith,
}
use self_imp_bin_eval.Base.Int.{ℤ, pos, ◌≤ℤ◌, ◌<ℤ◌}
use self_imp_bin_eval.Base.Text.{is_blank}
use self_imp_bin_eval.Errors.{Message, Result, ok, err, ok_injective}
use self_imp_bin_eval.Llm.{Bytes}
use self_imp_bin_eval.Llm.Bounded.{Read, read_bounded_response}
use self_imp_bin_eval.Llm.Bounds.{IsBounded, read_bounded_response-IsBounded}
use self_imp_bin_eval.Llm.Stream.{read_structured_responses_stream}
use self_imp_bin_eval.Llm.Client.{
  HttpClient, GenerateRequest, HttpResponse, Library, body_of, request_of, generate_json,
  from_marshal, from_request, from_response, from_read, from_content, from_decoded, checked,
}

-- The request is made, sent and answered.
pub record IsReceived {Output : Type 0} (library : Library Output) (c : HttpClient)
    (req : GenerateRequest) (request : Bytes) (response : HttpResponse) : Type 0 where
  pub marshalled : library.marshal (body_of req) ≡ inr request
  pub checked : library.check_request (request_of c request) ≡ none
  pub sent : library.send (request_of c request) ≡ inr response

module _ {Output : Type 0} (library : Library Output) (validate : Output → Result (Unit {0})) where
  -- A response with a content that is accepted.
  pub record IsAccepted (tool : String) (limit : ℕ) (response : HttpResponse) (output : Output)
      : Type 0 where
    pub content : String
    pub whole : response.body.broken ≡ none
    pub fits : length response.body.bytes ≤ limit
    pub success : (pos 200 ≤ℤ response.status_code) × (response.status_code <ℤ pos 300)
    pub stream :
        read_structured_responses_stream library.decode_event response.body.bytes tool ≡ ok content
    pub filled : is_blank content ≡ false
    pub decoded : library.decode_output content ≡ inr output
    pub valid : validate output ≡ ok tt

  abbrev IsDecoded : Message ⊎ Output → Output → Type 0
  IsDecoded d output = (d ≡ inr output) × (validate output ≡ ok tt)

  inr_injective : (a b : Output) → ◌≡◌ {A = Message ⊎ Output} (inr a) (inr b) → a ≡ b
  inr_injective a b h = cc

  from_decoded_iff :
      (d : Message ⊎ Output) (output : Output)
      → (from_decoded library validate d ≡ ok output) ↔ IsDecoded d output
  from_decoded_iff (inl m) output = (λ h. absurd cc, λ h. absurd (cc h.0))
  from_decoded_iff (inr o) output =
      elim (validate o)
          as (λ v.
            (validate o ≡ v)
            → (checked library validate o v ≡ ok output) ↔ IsDecoded (inr o) output) [
              | err e ↦ λ v. (λ h. absurd cc, λ h. absurd (ground (arith, h.0, h.1)))
              | ok u ↦ λ v. (
                λ h. (
                  ap inr (ok_injective o output h),
                  subst (λ t. validate t ≡ ok tt) (ok_injective o output h) v,
                ),
                λ h. ap ok (inr_injective o output h.0),
              )
            ]
        refl

  from_content_iff :
      (r : Result String) (output : Output)
      → (from_content library validate r ≡ ok output) ↔ (
          (content : String) × (r ≡ ok content)
          × (is_blank content ≡ false)
          × IsDecoded (library.decode_output content) output)
  from_content_iff (err e) output = (λ h. absurd cc, λ h. absurd (cc h.1))
  from_content_iff (ok content) output =
      let d = from_decoded_iff (library.decode_output content) output in
      (
        λ h. (content, refl, ground arith, d.0 (ground arith)),
        λ h.
            let same = ok_injective content h.0 h.1 in
            ground (
              arith,
              same,
              h.2,
              d.1 (subst (λ t. IsDecoded (library.decode_output t) output) (sym same) h.3),
            ),
      )

  from_read-ok :
      (tool : String) (limit : ℤ) (status : ℤ) (read : Read) (error : Option Message)
      (output : Output)
      → from_read library validate tool limit status read error ≡ ok output
      → (error ≡ none)
        × (read.truncated ≡ false)
        × ((pos 200 ≤ℤ status) × (status <ℤ pos 300))
        × (from_content library validate
              (read_structured_responses_stream library.decode_event read.kept tool)
            ≡ ok output)
  from_read-ok tool limit status read (some m) output h = absurd cc
  from_read-ok tool limit status read none output h =
      (refl, ground arith, (ground arith, ground arith), ground arith)

  from_read_iff :
      (tool : String) (limit : ℕ) (response : HttpResponse) (read : Read) (output : Output)
      → IsBounded response.body limit read
      → (from_read library validate tool (pos limit) response.status_code read read.error
          ≡ ok output)
        ↔ IsAccepted tool limit response output
  from_read_iff tool limit response read output b =
      let s =
        from_content_iff (read_structured_responses_stream library.decode_event read.kept tool)
          output in
      (
        λ e.
            let (whole, short, success, answer) =
              from_read-ok tool (pos limit) response.status_code read read.error output e in
            let (content, stream, filled, decoded) = s.0 answer in
            let fits : length response.body.bytes ≤ limit = ground (arith, b.truncated) in
            record {
              content = content;
              whole = sym (b.error fits) ∙ whole;
              fits = fits;
              success = success;
              stream =
                  subst
                    (λ t. read_structured_responses_stream library.decode_event t tool ≡ ok content)
                    (b.whole short whole) stream;
              filled = filled;
              decoded = decoded.0;
              valid = decoded.1;
            },
        λ a.
            let whole = b.error a.fits ∙ a.whole in
            let short : read.truncated ≡ false = ground (arith, b.truncated, a.fits) in
            let answer = s.1 (
              a.content,
              subst
                  (λ t. read_structured_responses_stream library.decode_event t tool ≡ ok a.content)
                  (sym (b.whole short whole)) a.stream,
              a.filled,
              (a.decoded, a.valid),
            ) in
            rw whole (ground (arith, short, answer, a.success.0, a.success.1)),
      )

  -- What is read of the response is judged to give the output.
  abbrev IsRead : String → ℤ → HttpResponse → Output → Type 0
  IsRead tool limit response output =
      let read = read_bounded_response response.body limit in
      from_read library validate tool limit response.status_code read read.error ≡ ok output

  from_response-ok :
      (limit : ℤ) (tool : String) (request : Bytes) (s : Message ⊎ HttpResponse) (output : Output)
      → (from_response library validate limit tool request s).1 ≡ ok output
      → (response : HttpResponse) × (s ≡ inr response) × IsRead tool limit response output
  from_response-ok limit tool request (inl m) output h = absurd cc
  from_response-ok limit tool request (inr response) output h = (response, refl, h)

  from_request-ok :
      (c : HttpClient) (tool : String) (request : Bytes) (check : Option Message) (output : Output)
      → (from_request library validate c tool request check).1 ≡ ok output
      → (check ≡ none)
        × ((response : HttpResponse) × (library.send (request_of c request) ≡ inr response)
            × IsRead tool c.max_response_bytes response output)
  from_request-ok c tool request (some m) output h = absurd cc
  from_request-ok c tool request none output h =
      (refl, from_response-ok c.max_response_bytes tool request _ output h)

  from_marshal-ok :
      (c : HttpClient) (req : GenerateRequest) (m : Message ⊎ Bytes) (output : Output)
      → library.marshal (body_of req) ≡ m
      → (from_marshal library validate c req.schema_name m).1 ≡ ok output
      → (request : Bytes) × (response : HttpResponse) × IsReceived library c req request response
        × IsRead req.schema_name c.max_response_bytes response output
  from_marshal-ok c req (inl m) output e h = absurd cc
  from_marshal-ok c req (inr request) output e h =
      let (check, (response, sent, read)) = from_request-ok c req.schema_name request _ output h in
      (request, response, record { marshalled = e; checked = check; sent = sent }, read)

  -- The client gives an output exactly if the request can be encoded and built, the endpoint answers
  -- it with a status from 200 to 299 and with a whole body of at most the limit, and the stream in it
  -- yields a content that is not blank, decodes to that output and passes its check.
  pub generate_json_iff :
      (c : HttpClient) (req : GenerateRequest) (limit : ℕ) (output : Output)
      → c.max_response_bytes ≡ pos limit
      → 1 ≤ limit
      → limit + 2 ≤ 2 ^ 63
      → ((generate_json library validate c req).1 ≡ ok output) ↔ (
          (request : Bytes) × (response : HttpResponse) × IsReceived library c req request response
          × IsAccepted req.schema_name limit response output)
  unfolding generate_json
  generate_json_iff c req limit output h l bound = (
    λ e.
        let (request, response, r, read) = from_marshal-ok c req _ output refl e in
        let b = read_bounded_response-IsBounded response.body limit l bound in
        (
          request,
          response,
          r,
          (from_read_iff req.schema_name limit response _ output b).0
              (subst (λ t. IsRead req.schema_name t response output) h read),
        ),
    λ a.
        let (request, response, r, accepted) = a in
        let b = read_bounded_response-IsBounded response.body limit l bound in
        let answer = (from_read_iff req.schema_name limit response _ output b).1 accepted in
        rw r.marshalled (rw r.checked (rw r.sent (rw h answer))),
  )
