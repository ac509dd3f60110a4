-- ===== src/Llm/Schemas.antt =====
-- internal/llm/schemas.go: the JSON schemas of the outputs, and the checks of the outputs by shape.
use self_imp_bin_eval.Base.{ℕ, zero, suc, String, false, List, [], ◌∷◌, length}
use self_imp_bin_eval.Base.Int.{ℤ, pos}
use self_imp_bin_eval.Errors.{Result}
use self_imp_bin_eval.Evalcore.Types.{
  ChecklistLimits, with_defaults, DraftDimension, DraftQuestion, Weight, Judgment, answer_yes,
  answer_no,
}
use self_imp_bin_eval.Evalcore.Dimensions.{validate_dimension_generation}
use self_imp_bin_eval.Evalcore.Questions.{validate_question_generation}
use self_imp_bin_eval.Evalcore.Weights.{validate_weight_shape}
use self_imp_bin_eval.Evalcore.Judgments.{validate_judgment_shape}
use self_imp_bin_eval.Llm.Json.{Json, text, number, boolean, array_of, object_of}

-- Limits with the one field set, and the others zero.
abbrev limit_dimensions : ℤ → ChecklistLimits
limit_dimensions n = record {
  max_dimensions = n;
  max_candidates_per_dimension = pos 0;
  max_split_count = pos 0;
  max_final_questions = pos 0;
}

abbrev limit_candidates : ℤ → ChecklistLimits
limit_candidates n = record {
  max_dimensions = pos 0;
  max_candidates_per_dimension = n;
  max_split_count = pos 0;
  max_final_questions = pos 0;
}

-- `Validate` of each output, which is the list that it holds.
unfoldable pub validate_dimension_analysis_output : List DraftDimension → Result (Unit {0})
validate_dimension_analysis_output dimensions =
    validate_dimension_generation dimensions (limit_dimensions (pos (length dimensions)))

unfoldable pub validate_question_generation_output : List DraftQuestion → Result (Unit {0})
validate_question_generation_output questions =
    validate_question_generation questions (limit_candidates (pos (length questions)))

unfoldable pub validate_weight_assignment_output : List Weight → Result (Unit {0})
validate_weight_assignment_output weights = validate_weight_shape weights

unfoldable pub validate_question_splitting_output : List DraftQuestion → Result (Unit {0})
validate_question_splitting_output questions =
    validate_question_generation questions (limit_candidates (pos (length questions)))

unfoldable pub validate_binary_judging_output : List Judgment → Result (Unit {0})
validate_binary_judging_output judgments = validate_judgment_shape judgments

abbrev pub string_type : Json
string_type = object_of (("type", text "string") ∷ [])

-- An object with exactly the given properties.
abbrev pub object_schema : (required : List Json) (properties : List (String × Json)) → Json
object_schema required properties = object_of (
    ("type", text "object")
    ∷ ("additionalProperties", boolean false)
    ∷ ("required", array_of required)
    ∷ ("properties", object_of properties)
    ∷ [])

abbrev pub list_schema : (least most : ℤ) → Json → Json
list_schema least most items = object_of (
    ("type", text "array")
    ∷ ("minItems", number least)
    ∷ ("maxItems", number most)
    ∷ ("items", items)
    ∷ [])

abbrev pub dimension_schema : Json
dimension_schema =
    object_schema (text "name" ∷ text "rubric" ∷ text "rationale" ∷ [])
      (("name", string_type) ∷ ("rubric", string_type) ∷ ("rationale", string_type) ∷ [])

unfoldable pub dimension_analysis_schema : ChecklistLimits → Json
dimension_analysis_schema limits0 =
    let limits = with_defaults limits0 in
    object_schema (text "dimensions" ∷ [])
      (("dimensions", list_schema (pos 1) limits.max_dimensions dimension_schema) ∷ [])

abbrev pub question_schema : Json
question_schema =
    object_schema (text "rationale" ∷ text "question" ∷ [])
      (("rationale", string_type) ∷ ("question", string_type) ∷ [])

unfoldable pub question_generation_schema : ChecklistLimits → Json
question_generation_schema limits0 =
    let limits = with_defaults limits0 in
    object_schema (text "questions" ∷ [])
      (("questions", list_schema (pos 1) limits.max_candidates_per_dimension question_schema) ∷ [])

-- The numbers from `i` on, `count` of them.
abbrev pub numbers_from : (i count : ℕ) → List Json
numbers_from i zero = []
numbers_from i (suc count) = number (pos i) ∷ numbers_from (suc i) count

-- `for i := 0; i <= most; i++`
abbrev pub weight_values : ℤ → List Json
weight_values (pos most) = numbers_from 0 (suc most)
weight_values _ = []

abbrev pub weight_schema : ℤ → Json
weight_schema most =
    object_schema (text "candidate_question_id" ∷ text "rationale" ∷ text "weight" ∷ []) (
      ("candidate_question_id", string_type)
      ∷ ("rationale", string_type)
      ∷ (
        "weight",
        object_of (("type", text "integer") ∷ ("enum", array_of (weight_values most)) ∷ []),
      )
      ∷ [])

unfoldable pub weight_assignment_schema : ChecklistLimits → (candidate_count : ℤ) → Json
weight_assignment_schema limits0 candidate_count =
    let limits = with_defaults limits0 in
    object_schema (text "weights" ∷ []) (
      (
        "weights",
        list_schema candidate_count candidate_count (weight_schema limits.max_split_count),
      )
      ∷ [])

-- The limits are read for their defaults only.
unfoldable pub question_splitting_schema : ChecklistLimits → (split_count : ℤ) → Json
question_splitting_schema limits split_count =
    object_schema (text "questions" ∷ [])
      (("questions", list_schema split_count split_count question_schema) ∷ [])

abbrev pub judgment_schema : Json
judgment_schema = object_schema (text "question_id" ∷ text "evidence" ∷ text "answer" ∷ []) (
    ("question_id", string_type)
    ∷ ("evidence", string_type)
    ∷ (
      "answer",
      object_of (
          ("type", text "string")
          ∷ ("enum", array_of (text answer_yes ∷ text answer_no ∷ []))
          ∷ []),
    )
    ∷ [])

unfoldable pub binary_judging_schema : (question_count : ℤ) → Json
binary_judging_schema question_count =
    object_schema (text "judgments" ∷ [])
      (("judgments", list_schema question_count question_count judgment_schema) ∷ [])
