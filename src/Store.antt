-- ===== src/Store.antt =====
-- internal/db/store.go: the statuses, and what the store returns of a checklist. Times are left out:
-- nothing of the code depends on them.
pub mod Checklists
pub mod Creation
pub mod Evaluations
pub mod Failing
pub mod Lifecycle
use self_imp_bin_eval.Base.{String, List, Option}
use self_imp_bin_eval.Base.Int.{ℤ}
use self_imp_bin_eval.Errors.{Details}
use self_imp_bin_eval.Evalcore.Types.{Dimension, CandidateQuestion, Weight, FinalQuestion}

abbrev pub status_running : String
status_running = "running"

abbrev pub status_succeeded : String
status_succeeded = "succeeded"

abbrev pub status_failed : String
status_failed = "failed"

-- `failure` is nil unless the checklist has failed.
pub record Checklist : Type 0 where
  pub id : String
  pub status : String
  pub evaluation_runs : ℤ
  pub task_artifact_key : String
  pub context_artifact_key : String
  pub failure : Option Details
  pub dimensions : List Dimension
  pub candidate_questions : List CandidateQuestion
  pub weights : List Weight
  pub questions : List FinalQuestion
