-- ===== src/Errors.antt =====
-- The errors that the packages return: internal/evalcore/types.go, internal/failure/failure.go,
-- internal/llm/errors.go, internal/llm/client.go and the sentinels of internal/db/store.go.
-- A message is kept as the pieces that `fmt.Sprintf` joins.
use self_imp_bin_eval.Base.{String, Bool, ◌&&◌, true, false, List, [], ◌∷◌, ◌≡◌, refl}
use self_imp_bin_eval.Base.Int.{ℤ}
use self_imp_bin_eval.Base.Text.{is_blank}

-- Text of the format, `%s`, `%q` and `%d`.
pub data Piece : Type 0 where
  lit : String → Piece
  str : String → Piece
  quote : String → Piece
  int : ℤ → Piece

abbrev pub Message : Type 0
Message = List Piece

pub data ErrorCode : Type 0 where
  invalid_question_generation invalid_dimension_analysis invalid_weights : ErrorCode
  invalid_splits invalid_final_checklist invalid_judgments : ErrorCode

-- `string(code)`
abbrev pub code_text : ErrorCode → String
code_text invalid_question_generation = "invalid_question_generation"
code_text invalid_dimension_analysis = "invalid_dimension_analysis"
code_text invalid_weights = "invalid_weights"
code_text invalid_splits = "invalid_splits"
code_text invalid_final_checklist = "invalid_final_checklist"
code_text invalid_judgments = "invalid_judgments"

pub record LimitDiagnostic : Type 0 where
  pub limit_name : String
  pub configured_limit : ℤ
  pub observed_count : ℤ
  pub checklist_id : String
  pub stage : String

pub record SemanticError : Type 0 where
  pub code : ErrorCode
  pub message : Message
  pub diagnostics : List LimitDiagnostic

-- `failure.Details`
pub record Details : Type 0 where
  pub workflow_id : String
  pub stage : String
  pub error_class : String
  pub error_code : String
  pub message : Message
  pub retryable : Bool
  pub attempt_count : ℤ
  pub diagnostics : List LimitDiagnostic
  pub artifact_references : List String

mutual
  -- Go's `error` values by their dynamic type. `opaque` is any error with no type that the code
  -- asks for; `wrapped` is `fmt.Errorf` with `%w`.
  pub data GoError : Type 0 where
    semantic : SemanticError → GoError
    model_output : Message → Cause → GoError
    infra : Message → Bool → Cause → GoError
    response_size : (configured_limit observed_count : ℤ) → GoError
    application : (message : Message) (type : String) (non_retryable : Bool) → Details → GoError
    workflow_start : (definitive : Bool) → GoError → GoError
    wrapped : Message → GoError → GoError
    not_found conflict already_started execution_not_found : GoError
    opaque : Message → GoError

  -- The `Cause` field, which may be nil.
  pub data Cause : Type 0 where
    no_cause : Cause
    cause : GoError → Cause

-- A call that returns a value and an `error`.
pub data Result {ℓ} (A : Type ℓ) : Type ℓ where
  ok : A → Result A
  err : GoError → Result A

-- `if err != nil { return err }`, then the rest.
module _ {ℓ κ} {S : Type ℓ} {T : Type κ} where
  infixl 5 ◌>>=◌
  abbrev pub ◌>>=◌ : Result S → (S → Result T) → Result T
  err problem >>= next = err problem
  ok value >>= next = next value

  -- A chain that succeeds has a first step that does.
  pub >>=-eq-ok :
      (step : Result S) (next : S → Result T) {result : T}
      → (step >>= next) ≡ ok result
      → (value : S) × (step ≡ ok value) × (next value ≡ ok result)
  >>=-eq-ok (err problem) next e = absurd (cc e)
  >>=-eq-ok (ok value) next e = (value, refl, e)

module _ {κ} {T : Type κ} where
  infixl 5 ◌>>◌
  abbrev pub ◌>>◌ : Result (Unit {0}) → Result T → Result T
  step >> rest = step >>= (λ done. rest)

-- `if test { return err }`
abbrev pub fail_if : Bool → GoError → Result (Unit {0})
fail_if true e = err e
fail_if false e = ok tt

unfoldable pub semantic_error : ErrorCode → Message → GoError
semantic_error code message = semantic (record { code = code; message = message; diagnostics = [] })

unfoldable pub limit_error : ErrorCode → LimitDiagnostic → GoError
limit_error code d = semantic (record {
  code = code;
  message =
      str d.limit_name
      ∷ lit " exceeded: configured_limit="
      ∷ int d.configured_limit
      ∷ lit " observed_count="
      ∷ int d.observed_count
      ∷ lit " checklist_id="
      ∷ str d.checklist_id
      ∷ lit " stage="
      ∷ str d.stage
      ∷ [];
  diagnostics = d ∷ [];
})

-- A semantic error with the code.
abbrev pub HasCode : ErrorCode → GoError → Type 0
HasCode code (semantic e) = e.code ≡ code
HasCode code _ = ⊥

-- `if err != nil { return fmt.Errorf("...%w", err) }`
abbrev pub wrap_error {ℓ} : {A : Type ℓ} → Message → Result A → Result A
wrap_error message (ok a) = ok a
wrap_error message (err e) = err (wrapped message e)

pub wrap_error-eq-ok {ℓ} :
    {A : Type ℓ} (message : Message) (m : Result A) {a : A} → wrap_error message m ≡ ok a → m ≡ ok a
wrap_error-eq-ok message (ok b) h = h
wrap_error-eq-ok message (err e) h = cc

pub ok_injective {ℓ} : {A : Type ℓ} (a b : A) → ok a ≡ ok b → a ≡ b
ok_injective a b h = cc

unfoldable mutual
  -- The errors that `errors.As` walks: the error and, one by one, what each wraps.
  pub error_chain : GoError → List GoError
  error_chain (model_output message c) = model_output message c ∷ cause_chain c
  error_chain (infra message retryable c) = infra message retryable c ∷ cause_chain c
  error_chain (wrapped message e) = wrapped message e ∷ error_chain e
  error_chain (workflow_start definitive e) = workflow_start definitive e ∷ error_chain e
  error_chain e = e ∷ []

  pub cause_chain : Cause → List GoError
  cause_chain no_cause = []
  cause_chain (cause e) = error_chain e

-- A message is blank if all its pieces are; a number and a quoted text never are.
abbrev pub is_blank_piece : Piece → Bool
is_blank_piece (lit s) = is_blank s
is_blank_piece (str s) = is_blank s
is_blank_piece _ = false

abbrev pub is_blank_message : Message → Bool
is_blank_message [] = true
is_blank_message (p ∷ ps) = is_blank_piece p && is_blank_message ps
