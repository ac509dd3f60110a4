-- ===== src/Tests/Requested.antt =====
-- Outputs under the schemas of the requests for them.
use self_imp_bin_eval.Base.{◌≤◌, ◌≡◌, refl, ◌↔◌, String, true, length, String-discrete}
use self_imp_bin_eval.Base.Int.{pos, ◌≤ℤ◌}
use self_imp_bin_eval.Base.Keys.{contains}
use self_imp_bin_eval.Base.Text.{is_blank}
use self_imp_bin_eval.Errors.{ok}
use self_imp_bin_eval.Evalcore.Types.{with_defaults, default_checklist_limits}
use self_imp_bin_eval.Evalcore.Judgments.{
  validate_judgments, validate_judgment_shape, check_judgment_shape, check_judged_questions,
  check_known_judgments, check_all_judged,
}
use self_imp_bin_eval.Evalcore.Weights.{
  validate_weights, validate_weight_shape, check_weight_shape, check_weighed_candidates,
  check_known_weights, check_all_weighed,
}
use self_imp_bin_eval.Llm.Json.{Json}
use self_imp_bin_eval.Llm.Accepts.{accepts}
use self_imp_bin_eval.Llm.Schemas.{
  dimension_analysis_schema, question_generation_schema, question_splitting_schema,
}
use self_imp_bin_eval.Llm.Shapes.{encode_output}
use self_imp_bin_eval.Llm.Outputs.{
  encode_judgment, encode_weight, encode_dimension_draft, encode_question_draft,
  schemas-lengths_iff,
}
use self_imp_bin_eval.Llm.Prompts.{build_binary_judging_request, build_weight_assignment_request}
use self_imp_bin_eval.Llm.Fitting.{
  build_binary_judging_request-accepts, build_weight_assignment_request-accepts,
}
use self_imp_bin_eval.Tests.Data.{
  no_limits, draft_dimensions, draft_questions, candidates, weights, questions, judgments,
}

abbrev pub to_text : Json → String
to_text payload = "{}"

pub judged : validate_judgments questions judgments ≡ ok tt
unfolding validate_judgments validate_judgment_shape check_judgment_shape check_judged_questions
    check_known_judgments check_all_judged contains is_blank String-discrete
judged = refl

weighed : validate_weights candidates weights no_limits ≡ ok tt
unfolding validate_weights validate_weight_shape check_weight_shape check_weighed_candidates
    check_known_weights check_all_weighed with_defaults default_checklist_limits contains is_blank
    String-discrete
weighed = refl

build_binary_judging_request-accepts_example :
    let request = build_binary_judging_request to_text "t" "c" "a" "m" questions in
    accepts request.schema (encode_output "judgments" encode_judgment judgments) ≡ true
build_binary_judging_request-accepts_example =
    build_binary_judging_request-accepts to_text "t" "c" "a" "m" questions judgments judged

build_weight_assignment_request-accepts_example :
    let request = build_weight_assignment_request to_text "t" "c" "m" candidates no_limits in
    accepts request.schema (encode_output "weights" encode_weight weights) ≡ true
build_weight_assignment_request-accepts_example =
    build_weight_assignment_request-accepts to_text "t" "c" "m" candidates no_limits weights weighed

schemas-lengths_iff_example :
    ((accepts
          (dimension_analysis_schema no_limits)
          (encode_output "dimensions" encode_dimension_draft draft_dimensions)
        ≡ true)
      ↔ ((1 ≤ length draft_dimensions)
          × (pos (length draft_dimensions) ≤ℤ (with_defaults no_limits).max_dimensions)))
    × ((accepts
            (question_generation_schema no_limits)
            (encode_output "questions" encode_question_draft draft_questions)
          ≡ true)
        ↔ ((1 ≤ length draft_questions)
            × (pos (length draft_questions)
                ≤ℤ (with_defaults no_limits).max_candidates_per_dimension)))
    × ((accepts
            (question_splitting_schema no_limits (pos 1))
            (encode_output "questions" encode_question_draft draft_questions)
          ≡ true)
        ↔ (length draft_questions ≡ 1))
schemas-lengths_iff_example = schemas-lengths_iff no_limits 1 draft_dimensions draft_questions
