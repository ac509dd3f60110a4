-- ===== src/Activities/Inputs.antt =====
-- internal/activities/llm.go: what the workflows pass to their activities.
use self_imp_bin_eval.Base.{String, List}
use self_imp_bin_eval.Base.Int.{ℤ}
use self_imp_bin_eval.Store.{Checklist}
use self_imp_bin_eval.Errors.{Details}
use self_imp_bin_eval.Evalcore.Types.{
  ChecklistLimits, Dimension, CandidateQuestion, Weight, FinalQuestion, RunJudgment, ScoreResult,
}

pub record WriteChecklistInputsInput : Type 0 where
  pub checklist_id : String
  pub task : String
  pub context : String

pub record AnalyzeDimensionsInput : Type 0 where
  pub checklist_id : String
  pub task : String
  pub context : String
  pub limits : ChecklistLimits

pub record GenerateQuestionsForDimensionInput : Type 0 where
  pub checklist_id : String
  pub task : String
  pub context : String
  pub dimension : Dimension
  pub limits : ChecklistLimits

pub record AssignWeightsInput : Type 0 where
  pub checklist_id : String
  pub task : String
  pub context : String
  pub candidate_questions : List CandidateQuestion
  pub limits : ChecklistLimits

pub record SplitQuestionInput : Type 0 where
  pub checklist_id : String
  pub task : String
  pub context : String
  pub candidate_question : CandidateQuestion
  pub weight : Weight
  pub limits : ChecklistLimits

pub record SucceedChecklistInput : Type 0 where
  pub checklist_id : String
  pub dimensions : List Dimension
  pub candidate_questions : List CandidateQuestion
  pub weights : List Weight
  pub questions : List FinalQuestion
  pub limits : ChecklistLimits

pub record FailChecklistInput : Type 0 where
  pub checklist_id : String
  pub failure : Details

pub record WriteEvaluationInputInput : Type 0 where
  pub evaluation_id : String
  pub model_answer : String

pub record JudgeAnswerInput : Type 0 where
  pub evaluation_id : String
  pub run_index : ℤ
  pub task : String
  pub context : String
  pub model_answer : String
  pub questions : List FinalQuestion

pub record LoadChecklistInput : Type 0 where
  pub checklist_id : String

pub record LoadChecklistResult : Type 0 where
  pub checklist : Checklist
  pub task : String
  pub context : String

pub record SucceedEvaluationInput : Type 0 where
  pub evaluation_id : String
  pub checklist_id : String
  pub run_judgments : List RunJudgment
  pub score : ScoreResult

pub record FailEvaluationInput : Type 0 where
  pub evaluation_id : String
  pub checklist_id : String
  pub failure : Details
