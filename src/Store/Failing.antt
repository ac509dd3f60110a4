-- ===== src/Store/Failing.antt =====
-- internal/db/store.go: FailChecklist and compareFailedChecklist, with the comparison of failure
-- details of internal/failure/failure.go.
pub mod Laws
use self_imp_bin_eval.Base.{
  ℕ, String, Bool, true, false, not, ◌&&◌, ◌||◌, ◌==◌, List, [], ◌∷◌, Option, none, some,
  if◌then◌else◌,
}
use self_imp_bin_eval.Base.Int.{ℤ, eq_ℤ}
use self_imp_bin_eval.Errors.{
  Message, LimitDiagnostic, Details, Result, ok, err, ◌>>=◌, ◌>>◌, not_found, conflict,
}
use self_imp_bin_eval.Failure.{validate_details}
use self_imp_bin_eval.Store.{Checklist, status_running, status_failed}
use self_imp_bin_eval.Store.Checklists.{
  Checklists, get_checklist, same_list, after_commit, if_valid,
}

-- `==` on the struct.
abbrev pub same_diagnostic : LimitDiagnostic → LimitDiagnostic → Bool
same_diagnostic a b =
    a.limit_name == b.limit_name
    && eq_ℤ a.configured_limit b.configured_limit
    && eq_ℤ a.observed_count b.observed_count
    && a.checklist_id == b.checklist_id
    && a.stage == b.stage

abbrev pub same_bool : Bool → Bool → Bool
same_bool true b = b
same_bool false b = not b

abbrev pub failed_row : Checklist → Details → Checklist
failed_row row details = record {
  id = row.id;
  status = status_failed;
  evaluation_runs = row.evaluation_runs;
  task_artifact_key = row.task_artifact_key;
  context_artifact_key = row.context_artifact_key;
  failure = some details;
  dimensions = row.dimensions;
  candidate_questions = row.candidate_questions;
  weights = row.weights;
  questions = row.questions;
}

-- `text` is the text that `fmt.Sprintf` makes of the pieces of a message.
module _ (text : Message → String) where
  unfoldable pub equal_details : Details → Details → Bool
  equal_details a b =
      a.workflow_id == b.workflow_id
      && a.stage == b.stage
      && a.error_class == b.error_class
      && a.error_code == b.error_code
      && text a.message == text b.message
      && same_bool a.retryable b.retryable
      && eq_ℤ a.attempt_count b.attempt_count
      && same_list same_diagnostic a.diagnostics b.diagnostics
      && same_list (λ r s. r == s) a.artifact_references b.artifact_references

  -- `existing.Failure != nil && existing.Failure.Details.Equal(details)`
  abbrev pub has_failure : Option Details → Details → Bool
  has_failure none details = false
  has_failure (some stored) details = equal_details stored details

  unfoldable pub compare_failed_checklist : Checklists → String → Details → Result (Unit {0})
  compare_failed_checklist s id details = do
    existing ← get_checklist s id
    if existing.status == status_failed && has_failure existing.failure details
        then ok tt
        else err conflict

  -- `commit` is what the database answers to a transaction that leaves the row as given.
  module _ (commit : Checklist → Result (Unit {0})) where
    abbrev pub failing :
        Checklists → String → Details → Option Checklist → Checklists × Result (Unit {0})
    failing s id details none = (s, err not_found)
    failing s id details (some row) =
        let new = failed_row row details in
        if row.status == status_running
        then after_commit commit s id new (commit new)
        else (s, compare_failed_checklist s id details)

    unfoldable pub fail_checklist : Checklists → String → Details → Checklists × Result (Unit {0})
    fail_checklist s id details =
        if_valid commit (validate_details details) s (failing s id details (s id))
