-- ===== src/Llm/Prompts.antt =====
-- internal/llm/prompts.go: the requests for the model.
use Prim.Native.String.{◌++◌}
use self_imp_bin_eval.Base.{String, List, [], ◌∷◌, map, length}
use self_imp_bin_eval.Base.Int.{pos}
use self_imp_bin_eval.Evalcore.Types.{
  ChecklistLimits, with_defaults, Dimension, CandidateQuestion, Weight, FinalQuestion,
}
use self_imp_bin_eval.Llm.Json.{Json, text, number, array_of, object_of}
use self_imp_bin_eval.Llm.Client.{ChatMessage, GenerateRequest}
use self_imp_bin_eval.Llm.Schemas.{
  dimension_analysis_schema, question_generation_schema, weight_assignment_schema,
  question_splitting_schema, binary_judging_schema,
}
use self_imp_bin_eval.Llm.Outputs.{encode_weight}

abbrev pub question_requirements_prompt : String
question_requirements_prompt =
    "Questions must be binary yes/no checks, atomic, answer-independent, tied to one concrete requirement, and answerable from a future model answer. A yes answer always means the evaluated answer satisfies the evaluation requirement. Phrase exclusions as positive checks such as whether the answer avoids a prohibited claim. Never ask whether the answer is wrong, omits required content, or includes prohibited content. Details such as the actor, action, object or metric, ordering, exact value, and time or duration are separate checks when one can be independently omitted."

-- The structs of the payloads, by the tags of their fields.
abbrev pub encode_dimension : Dimension → Json
encode_dimension d = object_of (
    ("id", text d.id)
    ∷ ("ordinal", number d.ordinal)
    ∷ ("name", text d.name)
    ∷ ("rubric", text d.rubric)
    ∷ ("rationale", text d.rationale)
    ∷ [])

abbrev pub encode_candidate : CandidateQuestion → Json
encode_candidate q = object_of (
    ("id", text q.id)
    ∷ ("dimension_id", text q.dimension_id)
    ∷ ("ordinal", number q.ordinal)
    ∷ ("rationale", text q.rationale)
    ∷ ("question", text q.question)
    ∷ [])

-- `questionPayload` of each of the two requests that list questions.
abbrev pub candidate_payload : CandidateQuestion → Json
candidate_payload q = object_of (
    ("id", text q.id)
    ∷ ("dimension_id", text q.dimension_id)
    ∷ ("rationale", text q.rationale)
    ∷ ("question", text q.question)
    ∷ [])

abbrev pub question_payload : FinalQuestion → Json
question_payload q = object_of (("id", text q.id) ∷ ("question", text q.question) ∷ [])

abbrev pub messages : (system user : String) → List ChatMessage
messages system user =
    record { role = "system"; content = system } ∷ record { role = "user"; content = user } ∷ []

-- `mustJSON` encodes a payload; the values that it is given can all be encoded.
module _ (must_json : Json → String) where
  unfoldable pub build_dimension_analysis_request :
      (task context_text model_profile : String) → ChecklistLimits → GenerateRequest
  build_dimension_analysis_request task context_text model_profile limits0 =
      let limits = with_defaults limits0 in
      let payload = object_of (("task", text task) ∷ ("context", text context_text) ∷ []) in
      record {
        prompt_name = "dimension_analysis";
        model_profile = model_profile;
        messages =
            messages
              ("Identify distinct rubric dimensions for evaluating answers to the supplied task and context. Give each dimension a concise rubric and rationale.")
              (must_json payload);
        schema_name = "dimension_analysis";
        schema = dimension_analysis_schema limits;
      }

  unfoldable pub build_question_generation_request :
      (task context_text model_profile : String) → Dimension → ChecklistLimits → GenerateRequest
  build_question_generation_request task context_text model_profile dimension limits0 =
      let limits = with_defaults limits0 in
      let payload = object_of (
        ("task", text task)
        ∷ ("context", text context_text)
        ∷ ("dimension", encode_dimension dimension)
        ∷ []) in
      record {
        prompt_name = "question_generation/" ++ dimension.id;
        model_profile = model_profile;
        messages =
            messages
              ("Generate candidate evaluation questions for the supplied dimension. "
                ++ question_requirements_prompt ++ " Give a rationale for each question.")
              (must_json payload);
        schema_name = "question_generation";
        schema = question_generation_schema limits;
      }

  unfoldable pub build_weight_assignment_request :
      (task context_text model_profile : String)
      → List CandidateQuestion
      → ChecklistLimits
      → GenerateRequest
  build_weight_assignment_request task context_text model_profile questions limits0 =
      let limits = with_defaults limits0 in
      let count = pos (length questions) in
      let payload = object_of (
        ("task", text task)
        ∷ ("context", text context_text)
        ∷ ("candidate_count", number count)
        ∷ ("questions", array_of (map candidate_payload questions))
        ∷ []) in
      record {
        prompt_name = "weight_assignment";
        model_profile = model_profile;
        messages =
            messages
              ("Assign one diagnostic split count to every supplied candidate question ID and explain each assignment. Use 0 to delete a question that is not useful, is semantically duplicate, or whose yes would indicate a defect rather than satisfaction. Use 1 when the question contains one atomic requirement that cannot be partially satisfied. Use 2, 3, or 4 only when the question combines exactly that many independently judgeable requirements and should be split into that many questions. Treat the actor, action, object or metric, ordering, exact value, and time or duration as separate obligations when they could be independently present or absent. Do not call multiple obligations atomic merely because they appear together in one instruction or rubric requirement.")
              (must_json payload);
        schema_name = "weight_assignment";
        schema = weight_assignment_schema limits count;
      }

  unfoldable pub build_question_splitting_request :
      (task context_text model_profile : String)
      → CandidateQuestion
      → Weight
      → ChecklistLimits
      → GenerateRequest
  build_question_splitting_request task context_text model_profile candidate weight limits0 =
      let limits = with_defaults limits0 in
      let payload = object_of (
        ("task", text task)
        ∷ ("context", text context_text)
        ∷ ("candidate_question", encode_candidate candidate)
        ∷ ("weight", encode_weight weight)
        ∷ []) in
      record {
        prompt_name = "question_splitting/" ++ candidate.id;
        model_profile = model_profile;
        messages =
            messages
              ("Split the supplied candidate question into exactly the requested number of specific questions. "
                ++ question_requirements_prompt ++ " Give a rationale for each question.")
              (must_json payload);
        schema_name = "question_splitting";
        schema = question_splitting_schema limits weight.weight;
      }

  unfoldable pub build_binary_judging_request :
      (task context_text model_answer model_profile : String) → List FinalQuestion → GenerateRequest
  build_binary_judging_request task context_text model_answer model_profile questions =
      let count = pos (length questions) in
      let payload = object_of (
        ("task", text task)
        ∷ ("context", text context_text)
        ∷ ("model_answer", text model_answer)
        ∷ ("question_count", number count)
        ∷ ("questions", array_of (map question_payload questions))
        ∷ []) in
      record {
        prompt_name = "binary_judging";
        model_profile = model_profile;
        messages =
            messages
              ("For each supplied final question ID and text, judge whether the model answer directly satisfies it. Because yes contributes one satisfied point, answer yes only when the model answer contains concrete evidence for the requirement; otherwise answer no. Explain the evidence for every judgment.")
              (must_json payload);
        schema_name = "binary_judging";
        schema = binary_judging_schema count;
      }
