-- ===== src/Failure.antt =====
-- internal/failure/failure.go: the error classes and the check of failure details.
pub mod Laws
use self_imp_bin_eval.Base.{
  ℕ, String, Bool, true, false, not, ◌&&◌, ◌||◌, ◌==◌, leb, eq_ℕ, if◌then◌else◌, List, [], ◌∷◌,
}
use self_imp_bin_eval.Base.Int.{ℤ, pos, leb_ℤ}
use self_imp_bin_eval.Base.Text.{is_blank, is_space, any_code}
use self_imp_bin_eval.Base.Paths.{is_abs, clean, begins_with_up}
use self_imp_bin_eval.Errors.{
  GoError, Details, Result, ok, fail_if, ◌>>=◌, ◌>>◌, opaque, lit, str, quote, is_blank_message,
}

abbrev pub class_model_output_invalid : String
class_model_output_invalid = "model_output_invalid"

abbrev pub class_infra_retryable : String
class_infra_retryable = "infra_retryable"

abbrev pub class_infra_non_retryable : String
class_infra_non_retryable = "infra_non_retryable"

-- `unicode.IsControl`
abbrev pub is_control : ℕ → Bool
is_control c = leb c 0x1f || (leb 0x7f c && leb c 0x9f)

unfoldable pub validate_artifact_reference : String → Result (Unit {0})
validate_artifact_reference reference = do
  fail_if
      (is_blank reference
        || is_abs reference
        || not (clean reference == reference)
        || begins_with_up reference)
      (opaque (lit "invalid failure artifact reference " ∷ quote reference ∷ []))
  fail_if (any_code (λ c. is_control c || is_space c) reference)
      (opaque (lit "invalid failure artifact reference " ∷ quote reference ∷ []))

unfoldable pub check_references : List String → Result (Unit {0})
check_references [] = ok tt
check_references (reference ∷ references) = do
  validate_artifact_reference reference
  check_references references

abbrev pub missing : String → GoError
missing field = opaque (lit "failure " ∷ str field ∷ lit " is required" ∷ [])

-- `Details.Validate`. The code walks its five required fields as a map, in no fixed order: where
-- several are blank, any of them may be the one that the error names.
unfoldable pub validate_details : Details → Result (Unit {0})
validate_details d = do
  fail_if (is_blank d.workflow_id) (missing "workflow_id")
  fail_if (is_blank d.stage) (missing "stage")
  fail_if (is_blank d.error_class) (missing "error_class")
  fail_if (is_blank d.error_code) (missing "error_code")
  fail_if (is_blank_message d.message) (missing "message")
  fail_if
      (not (d.error_class == class_model_output_invalid)
        && not (d.error_class == class_infra_retryable)
        && not (d.error_class == class_infra_non_retryable))
      (opaque (lit "unsupported failure error_class " ∷ quote d.error_class ∷ []))
  fail_if (leb_ℤ d.attempt_count (pos 0))
      (opaque (lit "failure attempt_count must be positive" ∷ []))
  check_references d.artifact_references
