-- ===== src/Tests/Evaluations.antt =====
-- A run of the evaluation workflow.
use self_imp_bin_eval.Base.{false, ◌≡◌, refl, none, String, List, [], ◌∷◌, String-discrete}
use self_imp_bin_eval.Base.Int.{pos}
use self_imp_bin_eval.Base.Keys.{contains, get_or, index_onto, find}
use self_imp_bin_eval.Base.Text.{is_blank}
use self_imp_bin_eval.Errors.{Result, ok}
use self_imp_bin_eval.Evalcore.Types.{Judgment, RunJudgment, validate_evaluation_runs}
use self_imp_bin_eval.Evalcore.Judgments.{
  validate_judgments, validate_judgment_shape, check_judgment_shape, check_judged_questions,
  check_known_judgments, check_all_judged,
}
use self_imp_bin_eval.Evalcore.Score.{score_checklist, tally_questions}
use self_imp_bin_eval.Evalcore.Aggregate.{
  aggregate_judgments, group_runs, index_runs, collect_votes, aggregate_question,
}
use self_imp_bin_eval.Evalcore.Aggregate.Counting.{aggregation_of}
use self_imp_bin_eval.Store.{Checklist, status_succeeded}
use self_imp_bin_eval.Llm.{Bytes, ascii}
use self_imp_bin_eval.Activities.Inputs.{LoadChecklistResult}
use self_imp_bin_eval.Activities.Llm.{Reply, judge_answer, run_evaluation_llm, run_llm}
use self_imp_bin_eval.Workflows.Evaluate.{
  EvaluateAnswerInput, EvaluationResults, judge_inputs, gather_judgments, judge, evaluate_body,
  evaluate_answer_workflow,
}
use self_imp_bin_eval.Workflows.Evaluate.Ends.{
  EndsEvaluation, evaluate_answer_workflow-EndsEvaluation,
}
use self_imp_bin_eval.Workflows.Evaluate.Judged.{aggregate_judgments-gather_judgments}
use self_imp_bin_eval.Tests.Data.{dimensions, candidates, weights, questions, judgments}

abbrev checklist : Checklist
checklist = record {
  id = "1";
  status = status_succeeded;
  evaluation_runs = pos 3;
  task_artifact_key = "task";
  context_artifact_key = "context";
  failure = none;
  dimensions = dimensions;
  candidate_questions = candidates;
  weights = weights;
  questions = questions;
}

abbrev loaded : LoadChecklistResult
loaded = record { checklist = checklist; task = "t"; context = "" }

abbrev write : (key : String) (body : Bytes) → Result (Unit {0})
write key body = ok tt

abbrev reply : Reply (List Judgment)
reply = (
  record {
    request_body = ascii "{}";
    response_body = ascii "{}";
    http_status = pos 200;
    response_bytes_read = pos 2;
    response_truncated = false;
  },
  ok judgments,
)

abbrev results : EvaluationResults
results = record {
  written = λ i. ok tt;
  loaded = λ i. ok loaded;
  judged = λ i. judge_answer write (pos 1) i reply;
  succeeded = λ i. ok tt;
  failed = λ i. ok tt;
}

abbrev input : EvaluateAnswerInput
input = record { evaluation_id = "2"; checklist_id = "1"; model_answer = "a" }

abbrev gathered : List RunJudgment
gathered =
    record { run_index = pos 1; question_id = "q2"; evidence = "e"; answer = "no" }
    ∷ record { run_index = pos 1; question_id = "q1"; evidence = "e"; answer = "yes" }
    ∷ record { run_index = pos 2; question_id = "q2"; evidence = "e"; answer = "no" }
    ∷ record { run_index = pos 2; question_id = "q1"; evidence = "e"; answer = "yes" }
    ∷ record { run_index = pos 3; question_id = "q2"; evidence = "e"; answer = "no" }
    ∷ record { run_index = pos 3; question_id = "q1"; evidence = "e"; answer = "yes" }
    ∷ []

gathers : gather_judgments results input (judge_inputs results input loaded 1 3) ≡ ok gathered
unfolding gather_judgments judge_inputs judge_answer run_evaluation_llm run_llm validate_judgments
    validate_judgment_shape check_judgment_shape check_judged_questions check_known_judgments
    check_all_judged contains is_blank String-discrete
gathers = refl

succeeds : (evaluate_answer_workflow results input "wf").1 ≡ ok tt
unfolding evaluate_answer_workflow evaluate_body judge gather_judgments judge_inputs judge_answer
    run_evaluation_llm run_llm validate_evaluation_runs aggregate_judgments group_runs index_runs
    collect_votes aggregate_question score_checklist validate_judgments validate_judgment_shape
    check_judgment_shape check_judged_questions check_known_judgments check_all_judged
    tally_questions contains get_or index_onto find is_blank String-discrete
succeeds = refl

evaluate_answer_workflow-EndsEvaluation_example :
    EndsEvaluation results input "wf" (evaluate_answer_workflow results input "wf")
evaluate_answer_workflow-EndsEvaluation_example =
    evaluate_answer_workflow-EndsEvaluation results input "wf"

aggregate_judgments-gather_judgments_example :
    aggregate_judgments questions gathered (pos 3) ≡ ok (aggregation_of gathered 3 questions)
aggregate_judgments-gather_judgments_example =
    aggregate_judgments-gather_judgments results input loaded 1 gathered
      (λ i js e. (write, pos 1, reply, e)) gathers
