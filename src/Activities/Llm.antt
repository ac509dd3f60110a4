-- ===== src/Activities/Llm.antt =====
-- internal/activities/llm.go: the activities that call the model.
pub mod Laws
use self_imp_bin_eval.Base.{
  String, Bool, true, false, not, ◌++◌, ◌==◌, List, [], ◌∷◌, Option, none, some, ltb, length,
}
use self_imp_bin_eval.Base.Int.{ℤ, pos, eq_ℤ, leb_ℤ}
use self_imp_bin_eval.Errors.{
  fail_if, semantic_error, invalid_judgments, lit, GoError, Result, ok, err, ◌>>=◌, ◌>>◌,
}
use self_imp_bin_eval.Evalcore.Types.{
  Judgment, ChecklistLimits, with_defaults, DraftDimension, Dimension, DraftQuestion,
  CandidateQuestion, Weight, SplitQuestions,
}
use self_imp_bin_eval.Evalcore.Dimensions.{validate_dimension_generation, validate_dimensions}
use self_imp_bin_eval.Evalcore.Questions.{validate_question_generation, validate_split_questions}
use self_imp_bin_eval.Evalcore.Weights.{validate_weights}
use self_imp_bin_eval.Evalcore.Ids.{assign_dimension_ids}
use self_imp_bin_eval.Evalcore.Judgments.{validate_judgments}
use self_imp_bin_eval.Artifacts.{
  prompt_binary_judging, prompt_for_run, evaluation_llm_request_key, evaluation_llm_response_key,
  prompt_dimension_analysis, prompt_question_generation, prompt_weight_assignment,
  prompt_question_splitting, prompt_for, checklist_llm_request_key, checklist_llm_response_key,
}
use self_imp_bin_eval.Llm.{Bytes, Trace}
use self_imp_bin_eval.Activities.{to_temporal_error, reported}
use self_imp_bin_eval.Activities.Inputs.{
  JudgeAnswerInput, AnalyzeDimensionsInput, GenerateQuestionsForDimensionInput, AssignWeightsInput,
  SplitQuestionInput,
}

-- What `GenerateJSON` returns for a request: its trace, and the decoded output or an error.
abbrev pub Reply : Type 0 → Type 0
Reply Output = Trace × Result Output

-- The artifacts that were written, and the first error of a write that failed.
pub record Written : Type 0 where
  pub references : List String
  pub artifact_error : Option GoError

abbrev first_error : Option GoError → GoError → Option GoError
first_error none e = some e
first_error (some earlier) e = some earlier

-- An activity runs in an attempt, over a writer of artifacts.
module _ (write : (key : String) (body : Bytes) → Result (Unit {0})) (attempt : ℤ) where
  -- One `if` of runLLM: the artifact is written if the test holds.
  abbrev pub write_if : Bool → (key : String) (body : Bytes) → Written → Written
  write_if false key body w = w
  write_if true key body w = elim (write key body) [
    | ok stored ↦ record {
      references = w.references ++ key ∷ [];
      artifact_error = w.artifact_error;
    }
    | err e ↦ record { references = w.references; artifact_error = first_error w.artifact_error e }
  ]

  abbrev pub nothing : Written
  nothing = record { references = []; artifact_error = none }

  abbrev pub written : Trace → (request_key response_key : String) → Written
  written trace request_key response_key =
      write_if (not (eq_ℤ trace.http_status (pos 0))) response_key trace.response_body
        (write_if (ltb 0 (length trace.request_body)) request_key trace.request_body nothing)

  module _ {Output : Type 0} where
    -- What runLLM returns once the artifacts are written.
    abbrev pub after_writes : Option GoError → List String → Result Output → Result Output
    after_writes (some e) references output = err (to_temporal_error attempt references e)
    after_writes none references (err e) = err (to_temporal_error attempt references e)
    after_writes none references (ok output) = ok output

    -- The references of the artifacts, and the output or the error to return.
    unfoldable pub run_llm :
        Reply Output → (request_key response_key : String) → List String × Result Output
    run_llm (trace, output) request_key response_key =
        let w = written trace request_key response_key in
        (w.references, after_writes w.artifact_error w.references output)

    unfoldable pub run_checklist_llm :
        (checklist_id prompt : String) → Reply Output → List String × Result Output
    run_checklist_llm checklist_id prompt reply =
        run_llm reply (checklist_llm_request_key checklist_id prompt attempt)
          (checklist_llm_response_key checklist_id prompt attempt)

  -- Each activity is given what the model replies to the request that it builds.
  unfoldable pub analyze_dimensions :
      AnalyzeDimensionsInput → Reply (List DraftDimension) → Result (List Dimension)
  analyze_dimensions input reply = do
    let limits = with_defaults input.limits
    let run = run_checklist_llm input.checklist_id prompt_dimension_analysis reply
    drafts ← run.1
    reported attempt run.0 (validate_dimension_generation drafts limits)
    let dimensions = assign_dimension_ids drafts
    reported attempt run.0 (validate_dimensions dimensions limits)
    ok dimensions

  unfoldable pub generate_questions_for_dimension :
      GenerateQuestionsForDimensionInput → Reply (List DraftQuestion) → Result (List DraftQuestion)
  generate_questions_for_dimension input reply = do
    let limits = with_defaults input.limits
    let prompt = prompt_for prompt_question_generation input.dimension.id
    let run = run_checklist_llm input.checklist_id prompt reply
    questions ← run.1
    reported attempt run.0 (validate_question_generation questions limits)
    ok questions

  unfoldable pub assign_weights : AssignWeightsInput → Reply (List Weight) → Result (List Weight)
  assign_weights input reply = do
    let limits = with_defaults input.limits
    let run = run_checklist_llm input.checklist_id prompt_weight_assignment reply
    weights ← run.1
    reported attempt run.0 (validate_weights input.candidate_questions weights limits)
    ok weights

  abbrev pub split_of : SplitQuestionInput → List DraftQuestion → SplitQuestions
  split_of input questions = record {
    candidate_question_id = input.candidate_question.id;
    questions = questions;
  }

  unfoldable pub split_question :
      SplitQuestionInput → Reply (List DraftQuestion) → Result SplitQuestions
  split_question input reply = do
    let prompt = prompt_for prompt_question_splitting input.candidate_question.id
    let run = run_checklist_llm input.checklist_id prompt reply
    questions ← run.1
    let split = split_of input questions
    reported attempt run.0 (validate_split_questions split input.weight.weight)
    ok split

  unfoldable pub run_evaluation_llm :
      {Output : Type 0}
      → (evaluation_id prompt : String) → Reply Output
      → List String × Result Output
  run_evaluation_llm evaluation_id prompt reply =
      run_llm reply (evaluation_llm_request_key evaluation_id prompt attempt)
        (evaluation_llm_response_key evaluation_id prompt attempt)

  abbrev pub check_run_index : ℤ → Result (Unit {0})
  check_run_index run_index =
      fail_if (leb_ℤ run_index (pos 0))
        (semantic_error invalid_judgments (lit "run_index must be positive" ∷ []))

  unfoldable pub judge_answer : JudgeAnswerInput → Reply (List Judgment) → Result (List Judgment)
  judge_answer input reply = do
    reported attempt [] (check_run_index input.run_index)
    let prompt = prompt_for_run prompt_binary_judging input.run_index
    let run = run_evaluation_llm input.evaluation_id prompt reply
    judgments ← run.1
    reported attempt run.0 (validate_judgments input.questions judgments)
    ok judgments
