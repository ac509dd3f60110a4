-- ===== src/Activities/Asking.antt =====
-- internal/activities/llm.go: the requests that the activities send with the client of internal/llm.
pub mod Laws
use self_imp_bin_eval.Base.{String, List}
use self_imp_bin_eval.Evalcore.Types.{
  with_defaults, DraftDimension, DraftQuestion, Weight, Judgment,
}
use self_imp_bin_eval.Llm.Json.{Json}
use self_imp_bin_eval.Llm.Client.{HttpClient, GenerateRequest, Library, generate_json}
use self_imp_bin_eval.Llm.Schemas.{
  validate_dimension_analysis_output, validate_question_generation_output,
  validate_weight_assignment_output, validate_question_splitting_output,
  validate_binary_judging_output,
}
use self_imp_bin_eval.Llm.Prompts.{
  build_dimension_analysis_request, build_question_generation_request,
  build_weight_assignment_request, build_question_splitting_request, build_binary_judging_request,
}
use self_imp_bin_eval.Activities.Inputs.{
  JudgeAnswerInput, AnalyzeDimensionsInput, GenerateQuestionsForDimensionInput, AssignWeightsInput,
  SplitQuestionInput,
}
use self_imp_bin_eval.Activities.Llm.{Reply}

module _ (must_json : Json → String) (client : HttpClient) (model_profile : String) where
  unfoldable pub ask_dimensions :
      Library (List DraftDimension) → AnalyzeDimensionsInput → Reply (List DraftDimension)
  ask_dimensions library input = generate_json library validate_dimension_analysis_output client (
      build_dimension_analysis_request must_json input.task input.context model_profile
        (with_defaults input.limits))

  unfoldable pub ask_questions :
      Library (List DraftQuestion) → GenerateQuestionsForDimensionInput → Reply (List DraftQuestion)
  ask_questions library input = generate_json library validate_question_generation_output client (
      build_question_generation_request must_json input.task input.context model_profile
        input.dimension (with_defaults input.limits))

  unfoldable pub ask_weights : Library (List Weight) → AssignWeightsInput → Reply (List Weight)
  ask_weights library input = generate_json library validate_weight_assignment_output client (
      build_weight_assignment_request must_json input.task input.context model_profile
        input.candidate_questions (with_defaults input.limits))

  unfoldable pub ask_split :
      Library (List DraftQuestion) → SplitQuestionInput → Reply (List DraftQuestion)
  ask_split library input = generate_json library validate_question_splitting_output client (
      build_question_splitting_request must_json input.task input.context model_profile
        input.candidate_question input.weight (with_defaults input.limits))

  abbrev pub judging_request : JudgeAnswerInput → GenerateRequest
  judging_request input =
      build_binary_judging_request must_json input.task input.context input.model_answer
        model_profile input.questions

  unfoldable pub ask_judgments : Library (List Judgment) → JudgeAnswerInput → Reply (List Judgment)
  ask_judgments library input =
      generate_json library validate_binary_judging_output client (judging_request input)
