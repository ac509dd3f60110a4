-- ===== src/Activities/Transient.antt =====
-- Which calls of the model are worth another try.
use self_imp_bin_eval.Base.{
  ◌≡◌, ℕ, ◌≤◌, true, length, none, some, ◌⊎◌, inl, inr, String, Bool-cases, ◌↔◌, arith,
}
use self_imp_bin_eval.Base.Int.{ℤ, pos, leb_ℤ, eq_of_parts, ◌≤ℤ◌, ◌<ℤ◌}
use self_imp_bin_eval.Errors.{Message, GoError, err}
use self_imp_bin_eval.Llm.{Bytes}
use self_imp_bin_eval.Llm.Stream.{read_structured_responses_stream}
use self_imp_bin_eval.Llm.Client.{
  HttpClient, GenerateRequest, HttpResponse, Library, body_of, request_of, is_retryable_status,
}

abbrev pub IsSuccess : ℤ → Type 0
IsSuccess status = (pos 200 ≤ℤ status) × (status <ℤ pos 300)

-- Too many requests, or a server's error.
abbrev pub IsRetryableStatus : ℤ → Type 0
IsRetryableStatus status = (status ≡ pos 429) ⊎ (pos 500 ≤ℤ status)

pub is_retryable_status_iff :
    (status : ℤ) → (is_retryable_status status ≡ true) ↔ IsRetryableStatus status
is_retryable_status_iff status = (
  λ h. elim (Bool-cases (leb_ℤ (pos 500) status)) [
    | inl e ↦ inr (ground arith)
    | inr e ↦ inl (eq_of_parts status (pos 429) (ground arith))
  ],
  λ r. ground (arith, r),
)

module _ {Output : Type 0} (library : Library Output) where
  abbrev pub StreamFails : (tool : String) → Bytes → Type 0
  StreamFails tool bytes =
      (e : GoError) × (read_structured_responses_stream library.decode_event bytes tool ≡ err e)

  -- A whole body within the limit is worth another try with a status that asks for it, or if it is a
  -- success whose stream fails.
  abbrev pub IsTransientBody : (tool : String) (status : ℤ) → Bytes → Type 0
  IsTransientBody tool status bytes =
      IsRetryableStatus status ⊎ (IsSuccess status × StreamFails tool bytes)

  -- A response is worth another try if it is no longer than the limit and either breaks off or has a
  -- body that is.
  abbrev pub IsTransientResponse : (tool : String) (limit : ℕ) → HttpResponse → Type 0
  IsTransientResponse tool limit response =
      (length response.body.bytes ≤ limit)
      × (((m : Message) × (response.body.broken ≡ some m))
          ⊎ ((response.body.broken ≡ none)
              × IsTransientBody tool response.status_code response.body.bytes))

  -- No answer comes, or one that is worth another try.
  abbrev pub IsTransientAnswer : (tool : String) (limit : ℕ) → Message ⊎ HttpResponse → Type 0
  IsTransientAnswer tool limit (inl m) = Unit
  IsTransientAnswer tool limit (inr response) = IsTransientResponse tool limit response

  -- The request is made, and its answer is worth another try.
  pub record IsTransient (c : HttpClient) (req : GenerateRequest) (limit : ℕ) : Type 0 where
    pub request : Bytes
    pub marshalled : library.marshal (body_of req) ≡ inr request
    pub built : library.check_request (request_of c request) ≡ none
    pub answer : IsTransientAnswer req.schema_name limit (library.send (request_of c request))
