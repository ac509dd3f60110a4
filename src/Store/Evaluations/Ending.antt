-- ===== src/Store/Evaluations/Ending.antt =====
-- internal/db/store.go: SucceedEvaluation and FailEvaluation, with the comparisons of a repeated
-- call.
use self_imp_bin_eval.Base.{
  ℕ, String, Bool, false, not, ◌&&◌, ◌==◌, List, [], ◌∷◌, Option, none, some, if◌then◌else◌, eq_ℕ,
}
use self_imp_bin_eval.Errors.{
  Message, Details, Result, ok, err, ◌>>=◌, conflict, not_found, semantic_error, invalid_judgments,
  lit, str,
}
use self_imp_bin_eval.Evalcore.Types.{Rate, RunJudgment, ScoreResult}
use self_imp_bin_eval.Evalcore.Aggregate.{aggregate_judgments}
use self_imp_bin_eval.Failure.{validate_details}
use self_imp_bin_eval.Store.{status_running, status_succeeded, status_failed}
use self_imp_bin_eval.Store.Checklists.{Checklists, get_checklist, same_list}
use self_imp_bin_eval.Store.Failing.{has_failure}
use self_imp_bin_eval.Store.Evaluations.{Evaluation, Evaluations, put_evaluation}
use self_imp_bin_eval.Store.Evaluations.Reading.{
  get_evaluation, run_judgments_equal, score_results_equal, same_rate,
}

-- `p != nil && *p == v`
abbrev pub points_to : Option ℕ → ℕ → Bool
points_to none v = false
points_to (some w) v = eq_ℕ w v

abbrev pub rate_is : Option Rate → Rate → Bool
rate_is none v = false
rate_is (some w) v = same_rate w v

abbrev pub agrees_evaluation : Evaluation → String → List RunJudgment → ScoreResult → Bool
agrees_evaluation existing checklist_id js score =
    existing.checklist_id == checklist_id
    && existing.status == status_succeeded
    && run_judgments_equal existing.run_judgments js
    && points_to existing.satisfied_points score.satisfied_points
    && points_to existing.total_possible_points score.total_possible_points
    && rate_is existing.checklist_pass_rate score.checklist_pass_rate
    && same_list (λ x y. x == y) existing.failed_question_ids score.failed_question_ids

abbrev pub succeeded_evaluation : Evaluation → List RunJudgment → ScoreResult → Evaluation
succeeded_evaluation row js score = record row {
  status = status_succeeded;
  satisfied_points = some score.satisfied_points;
  total_possible_points = some score.total_possible_points;
  checklist_pass_rate = some score.checklist_pass_rate;
  run_judgments = js;
}

abbrev pub failed_evaluation : Evaluation → Details → Evaluation
failed_evaluation row details = record row { status = status_failed; failure = some details }

-- The row that a transaction locks: that of the evaluation, if it is one of the checklist.
abbrev pub of_checklist : String → Option Evaluation → Option Evaluation
of_checklist checklist_id none = none
of_checklist checklist_id (some row) = if row.checklist_id == checklist_id then some row else none

-- `before` is the order of the database on texts, `text` the text of a message, and `commit` what
-- the database answers to a transaction that leaves the row as given.
module _ (before : String → String → Bool) (text : Message → String)
    (commit : Evaluation → Result (Unit {0})) where
  unfoldable pub compare_succeeded_evaluation :
      Checklists
      → Evaluations
      → (id checklist_id : String) → List RunJudgment
      → ScoreResult
      → Result (Unit {0})
  compare_succeeded_evaluation checklists s id checklist_id js score = do
    existing ← get_evaluation before checklists s id
    if agrees_evaluation existing checklist_id js score then ok tt else err conflict

  unfoldable pub compare_failed_evaluation :
      Checklists → Evaluations → (id checklist_id : String) → Details → Result (Unit {0})
  compare_failed_evaluation checklists s id checklist_id details = do
    existing ← get_evaluation before checklists s id
    if existing.checklist_id == checklist_id
          && existing.status == status_failed
          && has_failure text existing.failure details
        then ok tt
        else err conflict

  abbrev pub after_evaluation_commit :
      Evaluations → String → Evaluation → Result (Unit {0}) → Evaluations × Result (Unit {0})
  after_evaluation_commit s id row (ok committed) = (put_evaluation s id row, ok tt)
  after_evaluation_commit s id row (err e) = (s, err e)

  -- A transaction on the locked row: `new` is what it leaves of a running one, `compared` what the
  -- call answers if the evaluation has ended.
  abbrev pub end_evaluation :
      Evaluations
      → String
      → (Evaluation → Evaluation)
      → Result (Unit {0})
      → Option Evaluation
      → Evaluations × Result (Unit {0})
  end_evaluation s id new compared none = (s, err not_found)
  end_evaluation s id new compared (some row) =
      if row.status == status_running
      then after_evaluation_commit s id (new row) (commit (new row))
      else (s, compared)

  -- The checks before the transaction.
  unfoldable pub check_score :
      Checklists → (id checklist_id : String) → List RunJudgment → ScoreResult → Result (Unit {0})
  check_score checklists id checklist_id js score = do
    checklist ← get_checklist checklists checklist_id
    aggregated ← aggregate_judgments checklist.questions js checklist.evaluation_runs
    if not (score_results_equal score aggregated.score)
        then err (
            semantic_error invalid_judgments
              (lit "score does not match judgments for evaluation " ∷ str id ∷ []))
        else ok tt

  abbrev pub if_checked :
      Result (Unit {0})
      → Evaluations
      → Evaluations × Result (Unit {0})
      → Evaluations × Result (Unit {0})
  if_checked (ok checked) s rest = rest
  if_checked (err e) s rest = (s, err e)

  unfoldable pub succeed_evaluation :
      Checklists
      → Evaluations
      → (id checklist_id : String) → List RunJudgment
      → ScoreResult
      → Evaluations × Result (Unit {0})
  succeed_evaluation checklists s id checklist_id js score =
      if_checked (check_score checklists id checklist_id js score) s (
        end_evaluation s id (λ row. succeeded_evaluation row js score)
          (compare_succeeded_evaluation checklists s id checklist_id js score)
          (of_checklist checklist_id (s id)))

  unfoldable pub fail_evaluation :
      Checklists
      → Evaluations
      → (id checklist_id : String) → Details
      → Evaluations × Result (Unit {0})
  fail_evaluation checklists s id checklist_id details = if_checked (validate_details details) s (
      end_evaluation s id (λ row. failed_evaluation row details)
        (compare_failed_evaluation checklists s id checklist_id details)
        (of_checklist checklist_id (s id)))
