-- ===== src/Workflows/Evaluate.antt =====
-- internal/workflows/evaluate_answer.go: EvaluateAnswerWorkflow over the results of its activities.
pub mod Ends
pub mod Judged
use self_imp_bin_eval.Base.{ℕ, zero, suc, String, Bool, not, ◌==◌, List, [], ◌∷◌, ◌++◌, map}
use self_imp_bin_eval.Base.Int.{ℤ, pos, pos_part}
use self_imp_bin_eval.Errors
use self_imp_bin_eval.Errors.{GoError, Result, ok, err, fail_if, opaque, lit, str}
use self_imp_bin_eval.Evalcore.Types.{Judgment, RunJudgment, ScoreResult, validate_evaluation_runs}
use self_imp_bin_eval.Evalcore.Aggregate.{aggregate_judgments}
use self_imp_bin_eval.Store.{Checklist, status_succeeded}
use self_imp_bin_eval.Activities.{workflow_failure_details}
use self_imp_bin_eval.Activities.Inputs.{
  WriteEvaluationInputInput, JudgeAnswerInput, LoadChecklistInput, LoadChecklistResult,
  SucceedEvaluationInput, FailEvaluationInput,
}
use self_imp_bin_eval.Workflows.{Outcome, done, failed, Flow, ◌>>=◌, ◌>>◌, check, execute, start}

pub record EvaluateAnswerInput : Type 0 where
  pub evaluation_id : String
  pub checklist_id : String
  pub model_answer : String

-- `workflow.ExecuteActivity` with its name and input.
pub data EvaluationCall : Type 0 where
  write_evaluation_input : WriteEvaluationInputInput → EvaluationCall
  load_checklist : LoadChecklistInput → EvaluationCall
  judge_answer : JudgeAnswerInput → EvaluationCall
  succeed_evaluation : SucceedEvaluationInput → EvaluationCall
  fail_evaluation : FailEvaluationInput → EvaluationCall

-- What Temporal reports of each activity when all its attempts are over.
pub record EvaluationResults : Type 0 where
  pub written : WriteEvaluationInputInput → Result (Unit {0})
  pub loaded : LoadChecklistInput → Result LoadChecklistResult
  pub judged : JudgeAnswerInput → Result (List Judgment)
  pub succeeded : SucceedEvaluationInput → Result (Unit {0})
  pub failed : FailEvaluationInput → Result (Unit {0})

abbrev pub in_run : ℤ → Judgment → RunJudgment
in_run run_index j = record {
  run_index = run_index;
  question_id = j.question_id;
  evidence = j.evidence;
  answer = j.answer;
}

module _ (results : EvaluationResults) (input : EvaluateAnswerInput) where
  abbrev pub answer_input : WriteEvaluationInputInput
  answer_input = record { evaluation_id = input.evaluation_id; model_answer = input.model_answer }

  abbrev pub load_input : LoadChecklistInput
  load_input = record { checklist_id = input.checklist_id }

  abbrev pub judge_input : LoadChecklistResult → ℕ → JudgeAnswerInput
  judge_input loaded run_index = record {
    evaluation_id = input.evaluation_id;
    run_index = pos run_index;
    task = loaded.task;
    context = loaded.context;
    model_answer = input.model_answer;
    questions = loaded.checklist.questions;
  }

  -- The loop that starts the runs, from one on, for as many as remain.
  unfoldable pub judge_inputs :
      LoadChecklistResult → (run_index remaining : ℕ) → List JudgeAnswerInput
  judge_inputs loaded run_index zero = []
  judge_inputs loaded run_index (suc remaining) =
      judge_input loaded run_index ∷ judge_inputs loaded (suc run_index) remaining

  -- The loop that waits for them.
  unfoldable pub gather_judgments : List JudgeAnswerInput → Result (List RunJudgment)
  gather_judgments [] = ok []
  gather_judgments (pending ∷ rest) = Errors.◌>>=◌ (results.judged pending) (λ judgments.
      Errors.◌>>=◌ (gather_judgments rest)
        (λ later. ok (map (in_run pending.run_index) judgments ++ later)))

  abbrev pub score_input : List RunJudgment → ScoreResult → SucceedEvaluationInput
  score_input run_judgments score = record {
    evaluation_id = input.evaluation_id;
    checklist_id = input.checklist_id;
    run_judgments = run_judgments;
    score = score;
  }

  abbrev pub not_succeeded : GoError
  not_succeeded = opaque (lit "checklist " ∷ str input.checklist_id ∷ lit " is not succeeded" ∷ [])

  -- The body of the workflow in two parts, the first of which goes on with the second.
  -- `return failEvaluation(ctx, id, checklist, stage, err)` is the outcome `failed stage err`.
  unfoldable pub judge : LoadChecklistResult → Flow EvaluationCall (Unit {0})
  judge loaded = do
    let runs = loaded.checklist.evaluation_runs
    let pending = judge_inputs loaded 1 (pos_part runs)
    start (map judge_answer pending)
    run_judgments ← check "binary_judging" (gather_judgments pending)
    aggregated ←
        check "score_checklist" (aggregate_judgments loaded.checklist.questions run_judgments runs)
    let outcome = score_input run_judgments aggregated.score
    execute "succeed_evaluation" (succeed_evaluation outcome) (results.succeeded outcome)

  unfoldable pub evaluate_body : Flow EvaluationCall (Unit {0})
  evaluate_body = do
    execute "write_evaluation_input" (write_evaluation_input answer_input)
        (results.written answer_input)
    loaded ← execute "load_checklist" (load_checklist load_input) (results.loaded load_input)
    check "load_checklist"
        (fail_if (not (loaded.checklist.status == status_succeeded)) not_succeeded)
    check "load_checklist"
        (validate_evaluation_runs loaded.checklist.evaluation_runs loaded.checklist.evaluation_runs)
    judge loaded

  abbrev pub evaluation_failure : (workflow_id stage : String) → GoError → FailEvaluationInput
  evaluation_failure workflow_id stage cause = record {
    evaluation_id = input.evaluation_id;
    checklist_id = input.checklist_id;
    failure = workflow_failure_details workflow_id stage cause;
  }

  -- `failEvaluation`: what the workflow returns once the failure is stored, or cannot be.
  abbrev pub after_evaluation_failure : Result (Unit {0}) → GoError → Result (Unit {0})
  after_evaluation_failure (ok stored) cause = err cause
  after_evaluation_failure (err e) cause = err e

  abbrev pub finish_evaluation :
      String → Flow EvaluationCall (Unit {0}) → List EvaluationCall × Result (Unit {0})
  finish_evaluation workflow_id (calls, done finished) = (calls, ok tt)
  finish_evaluation workflow_id (calls, failed stage cause) =
      let failure = evaluation_failure workflow_id stage cause in
      (
        calls ++ fail_evaluation failure ∷ [],
        after_evaluation_failure (results.failed failure) cause,
      )

  -- The activities that the workflow starts, in order, and what it returns.
  unfoldable pub evaluate_answer_workflow : String → List EvaluationCall × Result (Unit {0})
  evaluate_answer_workflow workflow_id = finish_evaluation workflow_id evaluate_body
