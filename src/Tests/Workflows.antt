-- ===== src/Tests/Workflows.antt =====
-- A run of the checklist workflow.
use self_imp_bin_eval.Base.{
  false, true, ltb, length, ◌≡◌, refl, none, String, List, [], ◌∷◌, arith, String-discrete,
}
use self_imp_bin_eval.Base.Int.{pos, eq_ℤ, wrap64, ◌+ℤ◌}
use self_imp_bin_eval.Base.Keys.{contains, get, get_or, index_onto, find}
use self_imp_bin_eval.Base.Ordinals.{contains_ordinal}
use self_imp_bin_eval.Base.Text.{is_blank}
use self_imp_bin_eval.Base.Decimal.{itoa}
use self_imp_bin_eval.Errors.{Result, ok}
use self_imp_bin_eval.Evalcore.Types.{DraftQuestion, DraftDimension, with_defaults, validate_limits}
use self_imp_bin_eval.Evalcore.Dimensions.{
  validate_dimensions, check_dimensions, validate_dimension_generation, check_dimension_drafts,
}
use self_imp_bin_eval.Evalcore.Questions.{
  validate_candidate_questions, check_candidates, validate_split_questions, check_parts,
}
use self_imp_bin_eval.Evalcore.Weights.{
  validate_weights, validate_weight_shape, check_weight_shape, check_weighed_candidates,
  check_known_weights, check_all_weighed, validate_projected_final_question_count, projected_from,
}
use self_imp_bin_eval.Evalcore.FinalQuestions.{
  validate_final_questions, check_final_questions, check_source,
}
use self_imp_bin_eval.Evalcore.Ids.{
  number_from, assign_candidate_question_ids, assign_dimension_ids,
}
use self_imp_bin_eval.Evalcore.Active.{
  build_final_checklist, collect_splits, expand, expand_split, expand_all, weight_by_candidate_id,
}
use self_imp_bin_eval.Evalcore.Active.Laws.{final_of}
use self_imp_bin_eval.Llm.{Bytes, ascii, Trace}
use self_imp_bin_eval.Activities.Inputs.{AnalyzeDimensionsInput}
use self_imp_bin_eval.Activities.Llm.{
  Reply, split_question, run_llm, run_checklist_llm, analyze_dimensions,
}
use self_imp_bin_eval.Activities.Llm.Laws.{IsKept, run_llm-ok}
use self_imp_bin_eval.Workflows.Create.{
  CreateChecklistInput, Results, limits, gather_candidates, split_inputs, gather_splits, submit,
  split_questions, weigh, generate, create_body, create_checklist_workflow,
}
use self_imp_bin_eval.Workflows.Create.Failures.{Ends, create_checklist_workflow-Ends}
use self_imp_bin_eval.Workflows.Create.Splits.{build_final_checklist-gather_splits}
use self_imp_bin_eval.Tests.Data.{
  no_limits, draft_dimensions, dimensions, candidates, weights, split,
}

abbrev write : (key : String) (body : Bytes) → Result (Unit {0})
write key body = ok tt

abbrev trace : Trace
trace = record {
  request_body = ascii "{}";
  response_body = ascii "{}";
  http_status = pos 200;
  response_bytes_read = pos 2;
  response_truncated = false;
}

abbrev parts : Reply (List DraftQuestion)
parts = (trace, ok split.questions)

abbrev drafts : List DraftQuestion
drafts =
    record { rationale = "w"; question = "Is it clear?" }
    ∷ record { rationale = "w"; question = "Is it short and on time?" }
    ∷ []

abbrev results : Results
results = record {
  written = λ i. ok tt;
  analyzed = λ i. ok dimensions;
  generated = λ i. ok drafts;
  weighted = λ i. ok weights;
  split = λ i. split_question write (pos 1) i parts;
  succeeded = λ i. ok tt;
  failed = λ i. ok tt;
}

abbrev input : CreateChecklistInput
input = record { checklist_id = "1"; task = "t"; context = ""; limits = no_limits }

succeeds : (create_checklist_workflow results input "wf").1 ≡ ok tt
unfolding create_checklist_workflow create_body generate weigh split_questions submit
    gather_candidates split_inputs gather_splits split_question run_checklist_llm run_llm
    build_final_checklist with_defaults validate_limits validate_dimensions check_dimensions
    validate_candidate_questions check_candidates validate_weights validate_weight_shape
    check_weight_shape check_weighed_candidates check_known_weights check_all_weighed collect_splits
    validate_split_questions check_parts expand_all expand expand_split number_from
    validate_final_questions check_final_questions check_source contains contains_ordinal get get_or
    index_onto find is_blank itoa validate_projected_final_question_count projected_from
    assign_candidate_question_ids wrap64 ◌+ℤ◌ String-discrete
succeeds = refl

create_checklist_workflow-Ends_example :
    Ends results input "wf" (create_checklist_workflow results input "wf")
create_checklist_workflow-Ends_example = create_checklist_workflow-Ends results input "wf"

gathered :
    gather_splits results input
      (split_inputs results input (weight_by_candidate_id weights) candidates)
    ≡ ok (split ∷ [])
unfolding split_inputs gather_splits split_question run_checklist_llm run_llm
    validate_split_questions check_parts get_or index_onto is_blank String-discrete
gathered = refl

valid_dimensions : validate_dimensions dimensions (limits results input) ≡ ok tt
unfolding with_defaults validate_dimensions check_dimensions contains is_blank String-discrete
valid_dimensions = refl

valid_candidates : validate_candidate_questions dimensions candidates (limits results input) ≡ ok tt
unfolding with_defaults validate_candidate_questions check_candidates contains get_or is_blank
    String-discrete
valid_candidates = refl

valid_weights : validate_weights candidates weights (limits results input) ≡ ok tt
unfolding with_defaults validate_weights validate_weight_shape check_weight_shape
    check_weighed_candidates check_known_weights check_all_weighed contains is_blank String-discrete
valid_weights = refl

within : (validate_projected_final_question_count "1" weights (limits results input)).1 ≡ none
unfolding validate_projected_final_question_count projected_from with_defaults wrap64 ◌+ℤ◌
within = refl

build_final_checklist-gather_splits_example :
    build_final_checklist dimensions candidates weights (split ∷ []) (limits results input)
    ≡ ok (final_of dimensions candidates weights (split ∷ []) (limits results input))
build_final_checklist-gather_splits_example =
    build_final_checklist-gather_splits results input dimensions candidates weights (split ∷ [])
      (λ i s e. (write, pos 1, parts, e)) valid_dimensions valid_candidates valid_weights
      (omega arith) within (omega arith) gathered

abbrev request_key : String
request_key = "request"

abbrev response_key : String
response_key = "response"

ran :
    run_llm write (pos 1) parts request_key response_key
    ≡ (request_key ∷ response_key ∷ [], ok split.questions)
unfolding run_llm String-discrete
ran = refl

run_llm-ok_example :
    let kept = IsKept write (pos 1) in
    let references = request_key ∷ response_key ∷ [] in
    (parts.1 ≡ ok split.questions)
    × (ltb 0 (length trace.request_body) ≡ true → kept request_key trace.request_body references)
    × (eq_ℤ trace.http_status (pos 0) ≡ false → kept response_key trace.response_body references)
run_llm-ok_example =
    run_llm-ok write (pos 1) trace parts.1 request_key response_key
      (request_key ∷ response_key ∷ []) split.questions ran

abbrev analysis : AnalyzeDimensionsInput
analysis = record { checklist_id = "1"; task = "t"; context = ""; limits = no_limits }

abbrev analysis_reply : Reply (List DraftDimension)
analysis_reply = (trace, ok draft_dimensions)

analyzed : analyze_dimensions write (pos 1) analysis analysis_reply ≡ ok dimensions
unfolding analyze_dimensions run_checklist_llm run_llm validate_dimension_generation
    check_dimension_drafts assign_dimension_ids validate_dimensions check_dimensions with_defaults
    contains is_blank itoa String-discrete
analyzed = refl
