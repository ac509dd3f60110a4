-- ===== src/Store/Lifecycle.antt =====
-- What the store promises of its tables, whatever is called on it: a specification that the
-- operations of internal/db/store.go implement.
pub mod OfChecklists
pub mod OfEvaluations
pub mod Rows
pub mod Steps
pub mod Reach
pub mod Reads
use self_imp_bin_eval.Base.{◌≡◌, String, Option, none, some}
use self_imp_bin_eval.Errors.{Details, ok}
use self_imp_bin_eval.Evalcore.Types.{ChecklistLimits, AggregationResult}
use self_imp_bin_eval.Evalcore.Aggregate.{aggregate_judgments}
use self_imp_bin_eval.Failure.{validate_details}
use self_imp_bin_eval.Store.{Checklist, status_running, status_succeeded, status_failed}
use self_imp_bin_eval.Store.Checklists.{Checklists, put, get_checklist, check_submission}
use self_imp_bin_eval.Store.Evaluations.{Evaluation, Evaluations, put_evaluation}

-- A checklist that runs, or one that was completed with rows that pass the checks under some
-- limits, or one that was failed with details that pass theirs.
pub data IsSoundChecklist (row : Checklist) : Type 0 where
  running : row.status ≡ status_running → IsSoundChecklist row
  completed :
      row.status ≡ status_succeeded
      → (limits : ChecklistLimits)
      → check_submission row.dimensions row.candidate_questions row.weights row.questions limits
        ≡ ok tt
      → IsSoundChecklist row
  given_up :
      row.status ≡ status_failed
      → (details : Details) → row.failure ≡ some details
      → validate_details details ≡ ok tt
      → IsSoundChecklist row

-- What a call may do to the checklists: nothing, or start one under a new identifier, or end one
-- that runs, soundly.
pub data ChangesChecklists (s t : Checklists) : Type 0 where
  kept : t ≡ s → ChangesChecklists s t
  started :
      (id : String) (row : Checklist)
      → s id ≡ none
      → row.status ≡ status_running
      → t ≡ put s id row
      → ChangesChecklists s t
  ended :
      (id : String) (old new : Checklist)
      → s id ≡ some old
      → old.status ≡ status_running
      → IsSoundChecklist new
      → t ≡ put s id new
      → ChangesChecklists s t

-- An evaluation that runs, or one that was completed with the score of its judgments, or one that
-- was failed with details that pass their check.
pub data IsSoundEvaluation (checklists : Checklists) (row : Evaluation) : Type 0 where
  running : row.status ≡ status_running → IsSoundEvaluation checklists row
  completed :
      row.status ≡ status_succeeded
      → (checklist : Checklist) (aggregated : AggregationResult)
      → get_checklist checklists row.checklist_id ≡ ok checklist
      → aggregate_judgments checklist.questions row.run_judgments checklist.evaluation_runs
        ≡ ok aggregated
      → row.satisfied_points ≡ some aggregated.score.satisfied_points
      → row.total_possible_points ≡ some aggregated.score.total_possible_points
      → IsSoundEvaluation checklists row
  given_up :
      row.status ≡ status_failed
      → (details : Details) → row.failure ≡ some details
      → validate_details details ≡ ok tt
      → IsSoundEvaluation checklists row

-- The checklist is there and has succeeded.
abbrev pub HasSucceededChecklist : Checklists → String → Type 0
HasSucceededChecklist checklists id =
    (checklist : Checklist) × (checklists id ≡ some checklist)
    × (checklist.status ≡ status_succeeded)

-- The same for evaluations, each of which belongs to a checklist that has succeeded.
pub data ChangesEvaluations (checklists : Checklists) (s t : Evaluations) : Type 0 where
  kept : t ≡ s → ChangesEvaluations checklists s t
  started :
      (id : String) (row : Evaluation)
      → s id ≡ none
      → row.status ≡ status_running
      → HasSucceededChecklist checklists row.checklist_id
      → t ≡ put_evaluation s id row
      → ChangesEvaluations checklists s t
  ended :
      (id : String) (old new : Evaluation)
      → s id ≡ some old
      → old.status ≡ status_running
      → new.checklist_id ≡ old.checklist_id
      → IsSoundEvaluation checklists new
      → t ≡ put_evaluation s id new
      → ChangesEvaluations checklists s t
