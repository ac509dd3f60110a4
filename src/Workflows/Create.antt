-- ===== src/Workflows/Create.antt =====
-- internal/workflows/create_checklist.go: CreateChecklistWorkflow over the results of its activities.
pub mod Laws
pub mod Failures
pub mod Splits
use self_imp_bin_eval.Base.{
  ℕ, suc, ◌+◌, String, Bool, true, false, List, [], ◌∷◌, ◌++◌, map, length, Option, none, some,
  if◌then◌else◌,
}
use self_imp_bin_eval.Base.Int.{ℤ, pos, leb_ℤ}
use self_imp_bin_eval.Errors.{GoError, Result, ok, err, Details}
use self_imp_bin_eval.Errors
use self_imp_bin_eval.Evalcore.Types.{
  ChecklistLimits, with_defaults, validate_limits, Dimension, DraftQuestion, CandidateQuestion,
  Weight, SplitQuestions, FinalQuestion,
}
use self_imp_bin_eval.Evalcore.Dimensions.{validate_dimensions}
use self_imp_bin_eval.Evalcore.Questions.{validate_candidate_questions}
use self_imp_bin_eval.Evalcore.Weights.{validate_weights, validate_projected_final_question_count}
use self_imp_bin_eval.Evalcore.Ids.{assign_candidate_question_ids}
use self_imp_bin_eval.Evalcore.Active.{
  Weights, weight_by_candidate_id, weight_of, build_final_checklist,
}
use self_imp_bin_eval.Activities.{workflow_failure_details}
use self_imp_bin_eval.Activities.Inputs.{
  WriteChecklistInputsInput, AnalyzeDimensionsInput, GenerateQuestionsForDimensionInput,
  AssignWeightsInput, SplitQuestionInput, SucceedChecklistInput, FailChecklistInput,
}
use self_imp_bin_eval.Workflows.{Outcome, done, failed, Flow, ◌>>=◌, ◌>>◌, check, execute, start}

pub record CreateChecklistInput : Type 0 where
  pub checklist_id : String
  pub task : String
  pub context : String
  pub limits : ChecklistLimits

-- `workflow.ExecuteActivity` with its name and input.
pub data Call : Type 0 where
  write_checklist_inputs : WriteChecklistInputsInput → Call
  analyze_dimensions : AnalyzeDimensionsInput → Call
  generate_questions_for_dimension : GenerateQuestionsForDimensionInput → Call
  assign_weights : AssignWeightsInput → Call
  split_question : SplitQuestionInput → Call
  succeed_checklist : SucceedChecklistInput → Call
  fail_checklist : FailChecklistInput → Call

-- What Temporal reports of each activity when all its attempts are over.
pub record Results : Type 0 where
  pub written : WriteChecklistInputsInput → Result (Unit {0})
  pub analyzed : AnalyzeDimensionsInput → Result (List Dimension)
  pub generated : GenerateQuestionsForDimensionInput → Result (List DraftQuestion)
  pub weighted : AssignWeightsInput → Result (List Weight)
  pub split : SplitQuestionInput → Result SplitQuestions
  pub succeeded : SucceedChecklistInput → Result (Unit {0})
  pub failed : FailChecklistInput → Result (Unit {0})

module _ (results : Results) (input : CreateChecklistInput) where
  -- `limits := in.Limits.WithDefaults()`
  abbrev pub limits : ChecklistLimits
  limits = with_defaults input.limits

  abbrev pub write_input : WriteChecklistInputsInput
  write_input = record {
    checklist_id = input.checklist_id;
    task = input.task;
    context = input.context;
  }

  abbrev pub analyze_input : AnalyzeDimensionsInput
  analyze_input = record {
    checklist_id = input.checklist_id;
    task = input.task;
    context = input.context;
    limits = limits;
  }

  abbrev pub weigh_input : List CandidateQuestion → AssignWeightsInput
  weigh_input candidates = record {
    checklist_id = input.checklist_id;
    task = input.task;
    context = input.context;
    candidate_questions = candidates;
    limits = limits;
  }

  abbrev pub generate_input : Dimension → GenerateQuestionsForDimensionInput
  generate_input dimension = record {
    checklist_id = input.checklist_id;
    task = input.task;
    context = input.context;
    dimension = dimension;
    limits = limits;
  }

  -- The loop that waits for the questions of each dimension and assigns their identifiers.
  unfoldable pub gather_candidates :
      List CandidateQuestion → List Dimension → Result (List CandidateQuestion)
  gather_candidates candidates [] = ok candidates
  gather_candidates candidates (dimension ∷ dimensions) =
      Errors.◌>>=◌ (results.generated (generate_input dimension)) (λ questions.
        gather_candidates
          (candidates
            ++ assign_candidate_question_ids dimension.id (pos (length candidates + 1)) questions)
          dimensions)

  abbrev pub split_input : CandidateQuestion → Weight → SplitQuestionInput
  split_input candidate weight = record {
    checklist_id = input.checklist_id;
    task = input.task;
    context = input.context;
    candidate_question = candidate;
    weight = weight;
    limits = limits;
  }

  -- The loop that starts a split of each candidate of weight above one.
  unfoldable pub split_inputs : Weights → List CandidateQuestion → List SplitQuestionInput
  split_inputs weights [] = []
  split_inputs weights (candidate ∷ candidates) =
      let rest = split_inputs weights candidates in
      let weight = weight_of weights candidate.id in
      if leb_ℤ weight.weight (pos 1) then rest else split_input candidate weight ∷ rest

  -- The loop that waits for them.
  unfoldable pub gather_splits : List SplitQuestionInput → Result (List SplitQuestions)
  gather_splits [] = ok []
  gather_splits (pending ∷ rest) =
      Errors.◌>>=◌ (results.split pending)
        (λ split. Errors.◌>>=◌ (gather_splits rest) (λ splits. ok (split ∷ splits)))

  abbrev pub error_only : ℤ × Option GoError → Result (Unit {0})
  error_only (n, none) = ok tt
  error_only (n, some e) = err e

  abbrev pub succeed_input :
      List Dimension
      → List CandidateQuestion
      → List Weight
      → List FinalQuestion
      → SucceedChecklistInput
  succeed_input dimensions candidates weights questions = record {
    checklist_id = input.checklist_id;
    dimensions = dimensions;
    candidate_questions = candidates;
    weights = weights;
    questions = questions;
    limits = limits;
  }

  -- The body of the workflow in five parts, each of which goes on with the next one.
  -- `return failChecklist(ctx, id, stage, err)` is the outcome `failed stage err`.
  unfoldable pub submit :
      List Dimension
      → List CandidateQuestion
      → List Weight
      → List SplitQuestions
      → Flow Call (Unit {0})
  submit dimensions candidates weights splits = do
    questions ←
        check "build_final_checklist"
          (build_final_checklist dimensions candidates weights splits limits)
    let outcome = succeed_input dimensions candidates weights questions
    execute "succeed_checklist" (succeed_checklist outcome) (results.succeeded outcome)

  unfoldable pub split_questions :
      List Dimension → List CandidateQuestion → List Weight → Flow Call (Unit {0})
  split_questions dimensions candidates weights = do
    let pending = split_inputs (weight_by_candidate_id weights) candidates
    start (map split_question pending)
    splits ← check "question_splitting" (gather_splits pending)
    submit dimensions candidates weights splits

  unfoldable pub weigh : List Dimension → List CandidateQuestion → Flow Call (Unit {0})
  weigh dimensions candidates = do
    let weighing = weigh_input candidates
    weights ← execute "weight_assignment" (assign_weights weighing) (results.weighted weighing)
    check "weight_assignment" (validate_weights candidates weights limits)
    check "weight_assignment"
        (error_only (validate_projected_final_question_count input.checklist_id weights limits))
    split_questions dimensions candidates weights

  unfoldable pub generate : List Dimension → Flow Call (Unit {0})
  generate dimensions = do
    start (map (λ d. generate_questions_for_dimension (generate_input d)) dimensions)
    candidates ← check "question_generation" (gather_candidates [] dimensions)
    check "question_generation" (validate_candidate_questions dimensions candidates limits)
    weigh dimensions candidates

  unfoldable pub create_body : Flow Call (Unit {0})
  create_body = do
    check "validate_limits" (validate_limits limits)
    execute "write_checklist_inputs" (write_checklist_inputs write_input)
        (results.written write_input)
    dimensions ←
        execute "dimension_analysis" (analyze_dimensions analyze_input)
          (results.analyzed analyze_input)
    check "dimension_analysis" (validate_dimensions dimensions limits)
    generate dimensions

  abbrev pub failure_input : (workflow_id stage : String) → GoError → FailChecklistInput
  failure_input workflow_id stage cause = record {
    checklist_id = input.checklist_id;
    failure = workflow_failure_details workflow_id stage cause;
  }

  -- `failChecklist`: what the workflow returns once the failure is stored, or cannot be.
  abbrev pub after_failure : Result (Unit {0}) → GoError → Result (Unit {0})
  after_failure (ok stored) cause = err cause
  after_failure (err e) cause = err e

  abbrev pub finish : String → Flow Call (Unit {0}) → List Call × Result (Unit {0})
  finish workflow_id (calls, done finished) = (calls, ok tt)
  finish workflow_id (calls, failed stage cause) =
      let failure = failure_input workflow_id stage cause in
      (calls ++ fail_checklist failure ∷ [], after_failure (results.failed failure) cause)

  -- The activities that the workflow starts, in order, and what it returns.
  unfoldable pub create_checklist_workflow : String → List Call × Result (Unit {0})
  create_checklist_workflow workflow_id = finish workflow_id create_body
