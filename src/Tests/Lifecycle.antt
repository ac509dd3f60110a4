-- ===== src/Tests/Lifecycle.antt =====
-- A run of the store: a checklist is created and completed, and an evaluation of it created and
-- completed.
use self_imp_bin_eval.Base.{
  ◌≡◌, refl, String, Bool, ◌&&◌, ◌==◌, [], ◌∷◌, Option, none, some, String-discrete,
}
use self_imp_bin_eval.Base.Int.{pos, wrap64, ◌+ℤ◌}
use self_imp_bin_eval.Base.Keys.{contains, get, get_or, index_onto, find}
use self_imp_bin_eval.Base.Ordinals.{contains_ordinal}
use self_imp_bin_eval.Base.Text.{is_blank}
use self_imp_bin_eval.Errors.{Result, ok}
use self_imp_bin_eval.Evalcore.Types.{
  ScoreResult, with_defaults, validate_limits, validate_evaluation_runs,
}
use self_imp_bin_eval.Evalcore.Dimensions.{validate_dimensions, check_dimensions}
use self_imp_bin_eval.Evalcore.Questions.{validate_candidate_questions, check_candidates}
use self_imp_bin_eval.Evalcore.Weights.{
  validate_weights, validate_weight_shape, check_weight_shape, check_weighed_candidates,
  check_known_weights, check_all_weighed,
}
use self_imp_bin_eval.Evalcore.FinalQuestions.{
  validate_final_questions, check_final_questions, check_source,
}
use self_imp_bin_eval.Evalcore.Judgments.{
  validate_judgments, validate_judgment_shape, check_judgment_shape, check_judged_questions,
  check_known_judgments, check_all_judged,
}
use self_imp_bin_eval.Evalcore.Score.{score_checklist, tally_questions}
use self_imp_bin_eval.Evalcore.Aggregate.{
  aggregate_judgments, group_runs, index_runs, aggregate_question, collect_votes,
}
use self_imp_bin_eval.Store.{Checklist}
use self_imp_bin_eval.Store.Checklists.{
  succeed_checklist, check_submission, get_checklist, order_by, same_list, succeeded_row,
}
use self_imp_bin_eval.Store.Creation.{created_row, create_checklist_for_workflow}
use self_imp_bin_eval.Store.Evaluations.{
  Evaluation, created_evaluation, create_evaluation_for_workflow,
}
use self_imp_bin_eval.Store.Evaluations.Reading.{get_evaluation, score_results_equal}
use self_imp_bin_eval.Store.Evaluations.Ending.{
  succeeded_evaluation, succeed_evaluation, check_score,
}
use self_imp_bin_eval.Store.Lifecycle.Steps.{Database, no_rows, Step, Reach, here, next}
use self_imp_bin_eval.Store.Lifecycle.Reach.{IsSound}
use self_imp_bin_eval.Store.Lifecycle.Reads.{
  KeepsEnded, Reach-IsSound, Reach-KeepsEnded, Reach-get_evaluation_total,
}
use self_imp_bin_eval.Store.Evaluations.Laws.{succeed_evaluation-twice}
use self_imp_bin_eval.Tests.Data.{no_limits, dimensions, candidates, weights, run_judgments}
use self_imp_bin_eval.Tests.Stores.{committed, finals, piece_text}

abbrev pub in_order : String → String → Bool
in_order a b = a == "q1" && b == "q2"

abbrev score : ScoreResult
score = record {
  satisfied_points = 1;
  total_possible_points = 2;
  checklist_pass_rate = record { numerator = 1; denominator = 2 };
  failed_question_ids = "q2" ∷ [];
}

abbrev stored : Evaluation → Result (Unit {0})
stored row = ok tt

abbrev created : Database
created = record no_rows {
  checklists = (create_checklist_for_workflow (ok "a") no_rows.checklists (pos 3)).0;
}

abbrev completed : Database
completed = record created {
  checklists =
      (succeed_checklist committed created.checklists "a" dimensions candidates weights finals
        no_limits).0;
}

abbrev started : Database
started = record completed {
  evaluations =
      (create_evaluation_for_workflow (ok "e") completed.checklists completed.evaluations "a").0;
}

abbrev pub judged : Database
judged = record started {
  evaluations =
      (succeed_evaluation in_order piece_text stored started.checklists started.evaluations "e" "a"
        run_judgments score).0;
}

creating : Step in_order piece_text no_rows created
creating = Step.creates_checklist_for_workflow (ok "a") (pos 3) (λ id e. refl) refl

completing : Step in_order piece_text created completed
completing =
    Step.succeeds_checklist committed "a" dimensions candidates weights finals no_limits refl

starting : Step in_order piece_text completed started
starting = Step.creates_evaluation_for_workflow (ok "e") "a" (λ id e. refl) refl

judging : Step in_order piece_text started judged
judging = Step.succeeds_evaluation stored "e" "a" run_judgments score refl

pub run : Reach in_order piece_text no_rows judged
run = next (next (next (next here creating) completing) starting) judging

abbrev status_of : Option Evaluation → String
status_of none = ""
status_of (some row) = row.status

ended : status_of (judged.evaluations "e") ≡ "succeeded"
unfolding succeed_checklist check_submission validate_limits validate_dimensions check_dimensions
    validate_candidate_questions check_candidates validate_weights validate_weight_shape
    check_weight_shape check_weighed_candidates check_known_weights check_all_weighed
    validate_final_questions check_final_questions check_source with_defaults contains
    contains_ordinal get get_or index_onto find is_blank String-discrete
    create_checklist_for_workflow validate_evaluation_runs create_evaluation_for_workflow
    succeed_evaluation check_score get_checklist order_by aggregate_judgments group_runs index_runs
    aggregate_question collect_votes validate_judgments validate_judgment_shape check_judgment_shape
    check_judged_questions check_known_judgments check_all_judged score_checklist tally_questions
    score_results_equal same_list wrap64 ◌+ℤ◌
ended = refl

Reach-IsSound_example : IsSound judged
Reach-IsSound_example = Reach-IsSound in_order piece_text run

Reach-KeepsEnded_example : KeepsEnded started judged
Reach-KeepsEnded_example = Reach-KeepsEnded in_order piece_text started (next here judging)

abbrev checklist_row : Checklist
checklist_row =
    succeeded_row
      (created_row "a" "checklists/a/inputs/task.txt" "checklists/a/inputs/context.txt" (pos 3))
      dimensions candidates weights finals

abbrev evaluation_row : Evaluation
evaluation_row = created_evaluation "e" "a" "evaluations/e/inputs/model_answer.txt"

in_checklists : judged.checklists "a" ≡ some checklist_row
unfolding succeed_checklist check_submission validate_limits validate_dimensions check_dimensions
    validate_candidate_questions check_candidates validate_weights validate_weight_shape
    check_weight_shape check_weighed_candidates check_known_weights check_all_weighed
    validate_final_questions check_final_questions check_source with_defaults contains
    contains_ordinal get get_or index_onto is_blank String-discrete create_checklist_for_workflow
    validate_evaluation_runs
in_checklists = refl

in_evaluations : started.evaluations "e" ≡ some evaluation_row
unfolding succeed_checklist check_submission validate_limits validate_dimensions check_dimensions
    validate_candidate_questions check_candidates validate_weights validate_weight_shape
    check_weight_shape check_weighed_candidates check_known_weights check_all_weighed
    validate_final_questions check_final_questions check_source with_defaults contains
    contains_ordinal get get_or index_onto is_blank String-discrete create_checklist_for_workflow
    validate_evaluation_runs create_evaluation_for_workflow
in_evaluations = refl

accepted :
    (succeed_evaluation in_order piece_text stored started.checklists started.evaluations "e" "a"
      run_judgments score).1
    ≡ ok tt
unfolding succeed_checklist check_submission validate_limits validate_dimensions check_dimensions
    validate_candidate_questions check_candidates validate_weights validate_weight_shape
    check_weight_shape check_weighed_candidates check_known_weights check_all_weighed
    validate_final_questions check_final_questions check_source with_defaults contains
    contains_ordinal get get_or index_onto find is_blank String-discrete
    create_checklist_for_workflow validate_evaluation_runs create_evaluation_for_workflow
    succeed_evaluation check_score get_checklist order_by aggregate_judgments group_runs index_runs
    aggregate_question collect_votes validate_judgments validate_judgment_shape check_judgment_shape
    check_judged_questions check_known_judgments check_all_judged score_checklist tally_questions
    score_results_equal same_list wrap64 ◌+ℤ◌
accepted = refl

succeed_evaluation-twice_example :
    succeed_evaluation in_order piece_text stored judged.checklists judged.evaluations "e" "a"
      run_judgments score
    ≡ (judged.evaluations, ok tt)
succeed_evaluation-twice_example =
    succeed_evaluation-twice in_order piece_text stored started.checklists started.evaluations "e"
      run_judgments score evaluation_row in_evaluations refl accepted

in_judged : judged.evaluations "e" ≡ some (succeeded_evaluation evaluation_row run_judgments score)
unfolding succeed_checklist check_submission validate_limits validate_dimensions check_dimensions
    validate_candidate_questions check_candidates validate_weights validate_weight_shape
    check_weight_shape check_weighed_candidates check_known_weights check_all_weighed
    validate_final_questions check_final_questions check_source with_defaults contains
    contains_ordinal get get_or index_onto find is_blank String-discrete
    create_checklist_for_workflow validate_evaluation_runs create_evaluation_for_workflow
    succeed_evaluation check_score get_checklist order_by aggregate_judgments group_runs index_runs
    aggregate_question collect_votes validate_judgments validate_judgment_shape check_judgment_shape
    check_judged_questions check_known_judgments check_all_judged score_checklist tally_questions
    score_results_equal same_list wrap64 ◌+ℤ◌
in_judged = refl

Reach-get_evaluation_total_example :
    (read : Evaluation) × (get_evaluation in_order judged.checklists judged.evaluations "e"
      ≡ ok read)
    × (read.status ≡ "succeeded")
Reach-get_evaluation_total_example =
    Reach-get_evaluation_total in_order piece_text "e"
      (succeeded_evaluation evaluation_row run_judgments score) run in_judged
