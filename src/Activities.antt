-- ===== src/Activities.antt =====
-- internal/activities/errors.go: FailureDetails and ToTemporalError, and
-- internal/workflows/failure.go: workflowFailureDetails, which reads what they report.
pub mod Reports
pub mod Storable
pub mod Inputs
pub mod Asking
pub mod Storing
pub mod Llm
pub mod Transient
pub mod Retries
use self_imp_bin_eval.Base.{
  ◌≡◌, String, Bool, true, false, not, List, [], ◌∷◌, Option, none, some, if◌then◌else◌,
}
use self_imp_bin_eval.Base.Int.{ℤ, pos, leb_ℤ}
use self_imp_bin_eval.Errors.{
  Result, ok, err, GoError, Cause, Message, Details, LimitDiagnostic, SemanticError, code_text,
  error_chain, semantic, model_output, infra, response_size, application, lit, int,
}
use self_imp_bin_eval.Failure.{
  class_model_output_invalid, class_infra_retryable, class_infra_non_retryable,
}

-- `errors.As` for each type that the code asks for: the first such error of the chain.
unfoldable pub as_model_output : List GoError → Option Message
as_model_output [] = none
as_model_output (model_output message c ∷ es) = some message
as_model_output (_ ∷ es) = as_model_output es

unfoldable pub as_semantic : List GoError → Option SemanticError
as_semantic [] = none
as_semantic (semantic e ∷ es) = some e
as_semantic (_ ∷ es) = as_semantic es

-- The message, and whether it is retryable.
unfoldable pub as_infra : List GoError → Option (Message × Bool)
as_infra [] = none
as_infra (infra message retryable c ∷ es) = some (message, retryable)
as_infra (_ ∷ es) = as_infra es

-- The limit, and how many bytes were seen.
unfoldable pub as_response_size : List GoError → Option (ℤ × ℤ)
as_response_size [] = none
as_response_size (response_size limit observed ∷ es) = some (limit, observed)
as_response_size (_ ∷ es) = as_response_size es

-- An application error with its details, which is how the workflow receives a failed activity.
unfoldable pub as_application : List GoError → Option Details
as_application [] = none
as_application (application message type non_retryable d ∷ es) = some d
as_application (_ ∷ es) = as_application es

-- Details with the fields that FailureDetails sets.
abbrev pub report :
    (class code : String) (message : Message) (retryable : Bool)
    → ℤ
    → List LimitDiagnostic
    → Details
report class code message retryable attempt_count diagnostics = record {
  workflow_id = "";
  stage = "";
  error_class = class;
  error_code = code;
  message = message;
  retryable = retryable;
  attempt_count = attempt_count;
  diagnostics = diagnostics;
  artifact_references = [];
}

abbrev pub infra_report : Message × Bool → ℤ → Details
infra_report (message, retryable) n =
    report (if retryable then class_infra_retryable else class_infra_non_retryable)
      "llm_infrastructure_error" message retryable n []

abbrev pub response_size_report : ℤ × ℤ → ℤ → Details
response_size_report (limit, observed) n =
    report class_infra_non_retryable "llm_response_too_large"
      (lit "LLM response exceeded " ∷ int limit ∷ lit " byte capture limit" ∷ []) false n
      (record {
        limit_name = "max_llm_response_bytes";
        configured_limit = limit;
        observed_count = observed;
        checklist_id = "";
        stage = "";
      }
        ∷ [])

-- The four tests, in their order.
abbrev pub classify :
    Option Message → Option SemanticError → Option (Message × Bool) → Option (ℤ × ℤ) → ℤ → Details
classify (some message) s i r n =
    report class_model_output_invalid "model_output_invalid" message false n []
classify none (some e) i r n =
    report class_model_output_invalid (code_text e.code) e.message false n e.diagnostics
classify none none (some i) r n = infra_report i n
classify none none none (some r) n = response_size_report r n
classify none none none none n =
    report class_infra_retryable "internal_operation_failed" (lit "internal operation failed" ∷ [])
      true n []

unfoldable pub failure_details : GoError → ℤ → Details
failure_details e attempt_count =
    let chain = error_chain e in
    classify (as_model_output chain) (as_semantic chain) (as_infra chain) (as_response_size chain)
      (if leb_ℤ attempt_count (pos 0) then pos 1 else attempt_count)

abbrev pub with_references : List String → Details → Details
with_references references d = record {
  workflow_id = d.workflow_id;
  stage = d.stage;
  error_class = d.error_class;
  error_code = d.error_code;
  message = d.message;
  retryable = d.retryable;
  attempt_count = d.attempt_count;
  diagnostics = d.diagnostics;
  artifact_references = references;
}

-- `ToTemporalError` of an error, in the given attempt of the activity.
unfoldable pub to_temporal_error : ℤ → List String → GoError → GoError
to_temporal_error attempt references e =
    let d = with_references references (failure_details e attempt) in
    application d.message d.error_class (not d.retryable) d

-- `if err != nil { return ..., ToTemporalError(ctx, err, references...) }`
abbrev pub reported {ℓ} : {A : Type ℓ} → ℤ → List String → Result A → Result A
reported attempt references (ok a) = ok a
reported attempt references (err e) = err (to_temporal_error attempt references e)

pub reported-eq-ok {ℓ} :
    {A : Type ℓ} (attempt : ℤ) (references : List String) (r : Result A) {a : A}
    → reported attempt references r ≡ ok a
    → r ≡ ok a
reported-eq-ok attempt references (ok b) h = h
reported-eq-ok attempt references (err e) h = absurd (cc h)

abbrev pub carried_or : Details → Option Details → Details
carried_or details none = details
carried_or details (some carried) = carried

-- What the workflow adds to the details.
abbrev pub in_workflow : (workflow_id stage : String) → Details → Details
in_workflow workflow_id stage d = record {
  workflow_id = workflow_id;
  stage = stage;
  error_class = d.error_class;
  error_code = d.error_code;
  message = d.message;
  retryable = d.retryable;
  attempt_count = if leb_ℤ d.attempt_count (pos 0) then pos 1 else d.attempt_count;
  diagnostics = d.diagnostics;
  artifact_references = d.artifact_references;
}

unfoldable pub workflow_failure_details : (workflow_id stage : String) → GoError → Details
workflow_failure_details workflow_id stage e =
    in_workflow workflow_id stage
      (carried_or (failure_details e (pos 1)) (as_application (error_chain e)))
