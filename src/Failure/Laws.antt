-- ===== src/Failure/Laws.antt =====
-- What the check of failure details accepts.
use self_imp_bin_eval.Base.{◌≡◌, ◌⊎◌, String, false, All}
use self_imp_bin_eval.Base.Int.{pos, ◌<ℤ◌}
use self_imp_bin_eval.Base.Text.{is_blank}
use self_imp_bin_eval.Errors.{Details, ok, is_blank_message}
use self_imp_bin_eval.Failure.{
  class_model_output_invalid, class_infra_retryable, class_infra_non_retryable,
  validate_artifact_reference,
}

abbrev pub IsReference : String → Type 0
IsReference r = validate_artifact_reference r ≡ ok tt

abbrev pub IsClass : String → Type 0
IsClass c =
    (c ≡ class_model_output_invalid)
    ⊎ ((c ≡ class_infra_retryable) ⊎ (c ≡ class_infra_non_retryable))

-- Details that can be stored.
pub record IsComplete (d : Details) : Type 0 where
  pub workflow_id : is_blank d.workflow_id ≡ false
  pub stage : is_blank d.stage ≡ false
  pub error_code : is_blank d.error_code ≡ false
  pub message : is_blank_message d.message ≡ false
  pub class : IsClass d.error_class
  pub attempts : pos 0 <ℤ d.attempt_count
  pub references : All IsReference d.artifact_references
