-- ===== src/Store/Evaluations/Reading.antt =====
-- internal/db/store.go: GetEvaluation, runJudgmentsEqual and scoreResultsEqual.
use self_imp_bin_eval.Base.{
  ◌*◌, String, Bool, true, false, not, ◌&&◌, ◌||◌, ◌==◌, List, [], ◌∷◌, Option, none, some, length,
  if◌then◌else◌, eq_ℕ,
}
use self_imp_bin_eval.Base.Int.{ℤ, pos, ltb_ℤ, eq_ℤ}
use self_imp_bin_eval.Errors.{Details, Result, ok, err, ◌>>=◌, not_found}
use self_imp_bin_eval.Evalcore.Types.{Rate, RunJudgment, AggregatedJudgment, ScoreResult}
use self_imp_bin_eval.Evalcore.Aggregate.{aggregate_judgments}
use self_imp_bin_eval.Store.{status_succeeded, status_failed}
use self_imp_bin_eval.Store.Checklists.{Checklists, get_checklist, same_list}
use self_imp_bin_eval.Store.Evaluations.{Evaluation, Evaluations}

abbrev pub JudgmentIndex : Type 0
JudgmentIndex = ℤ → String → RunJudgment

-- The zero value, which a Go map holds for a key that is missing.
abbrev pub no_run_judgment : RunJudgment
no_run_judgment = record { run_index = pos 0; question_id = ""; evidence = ""; answer = "" }

abbrev pub has_key : ℤ → String → RunJudgment → Bool
has_key run id j = eq_ℤ j.run_index run && j.question_id == id

abbrev pub index_judgment : JudgmentIndex → RunJudgment → JudgmentIndex
index_judgment m j run id = if has_key run id j then j else m run id

-- The loop that fills `indexed`.
unfoldable pub index_judgments : JudgmentIndex → List RunJudgment → JudgmentIndex
index_judgments m [] = m
index_judgments m (j ∷ js) = index_judgments (index_judgment m j) js

abbrev pub same_run_judgment : RunJudgment → RunJudgment → Bool
same_run_judgment a b =
    eq_ℤ a.run_index b.run_index
    && a.question_id == b.question_id
    && a.evidence == b.evidence
    && a.answer == b.answer

-- The loop over the other judgments.
unfoldable pub all_indexed : JudgmentIndex → List RunJudgment → Bool
all_indexed m [] = true
all_indexed m (j ∷ js) = same_run_judgment (m j.run_index j.question_id) j && all_indexed m js

unfoldable pub run_judgments_equal : List RunJudgment → List RunJudgment → Bool
run_judgments_equal a b =
    if not (eq_ℕ (length a) (length b))
    then false
    else all_indexed (index_judgments (λ run id. no_run_judgment) a) b

-- Equality of the quotients, whose denominators are positive.
abbrev pub same_rate : Rate → Rate → Bool
same_rate a b = eq_ℕ (a.numerator * b.denominator) (b.numerator * a.denominator)

unfoldable pub score_results_equal : ScoreResult → ScoreResult → Bool
score_results_equal a b =
    eq_ℕ a.satisfied_points b.satisfied_points
    && eq_ℕ a.total_possible_points b.total_possible_points
    && same_rate a.checklist_pass_rate b.checklist_pass_rate
    && same_list (λ x y. x == y) a.failed_question_ids b.failed_question_ids

-- `before` is the order of the database on texts.
module _ (before : String → String → Bool) where
  -- `order by run_index, question_id`: whether the second row stands before the first.
  abbrev pub stands_before : RunJudgment → RunJudgment → Bool
  stands_before b a =
      ltb_ℤ b.run_index a.run_index
      || (eq_ℤ b.run_index a.run_index && before b.question_id a.question_id)

  unfoldable pub insert_judgment : RunJudgment → List RunJudgment → List RunJudgment
  insert_judgment x [] = x ∷ []
  insert_judgment x (y ∷ ys) = if stands_before y x then y ∷ insert_judgment x ys else x ∷ y ∷ ys

  unfoldable pub order_judgments : List RunJudgment → List RunJudgment
  order_judgments [] = []
  order_judgments (x ∷ xs) = insert_judgment x (order_judgments xs)

  -- An evaluation as it is read, with its failure and what is derived from its judgments.
  abbrev pub read_evaluation :
      Option Details → List AggregatedJudgment → List String → Evaluation → Evaluation
  read_evaluation failure judgments failed_ids row = record {
    id = row.id;
    checklist_id = row.checklist_id;
    status = row.status;
    answer_artifact_key = row.answer_artifact_key;
    satisfied_points = row.satisfied_points;
    total_possible_points = row.total_possible_points;
    checklist_pass_rate = row.checklist_pass_rate;
    failed_question_ids = failed_ids;
    failure = failure;
    run_judgments = order_judgments row.run_judgments;
    judgments = judgments;
  }

  -- A failed evaluation is read with the record of its failure, which must be there.
  abbrev pub with_evaluation_failure : Evaluation → Option Details → Result Evaluation
  with_evaluation_failure row none = err not_found
  with_evaluation_failure row (some details) = ok (read_evaluation (some details) [] [] row)

  -- What a succeeded evaluation derives from the checklist and the judgments.
  abbrev pub with_judgments : Checklists → Evaluation → Result Evaluation
  with_judgments checklists row = do
    checklist ← get_checklist checklists row.checklist_id
    aggregated ←
        aggregate_judgments checklist.questions (order_judgments row.run_judgments)
          checklist.evaluation_runs
    ok (read_evaluation none aggregated.judgments aggregated.score.failed_question_ids row)

  abbrev pub found_evaluation : Checklists → Option Evaluation → Result Evaluation
  found_evaluation checklists none = err not_found
  found_evaluation checklists (some row) =
      if row.status == status_failed
      then with_evaluation_failure row row.failure
      else if row.status == status_succeeded
      then with_judgments checklists row
      else ok (read_evaluation none [] [] row)

  unfoldable pub get_evaluation : Checklists → Evaluations → String → Result Evaluation
  get_evaluation checklists s id = found_evaluation checklists (s id)
