-- ===== src/Evalcore/Weights.antt =====
-- internal/evalcore/validate.go: ValidateWeightShape, ValidateWeights and
-- ValidateProjectedFinalQuestionCount.
pub mod Laws
use self_imp_bin_eval.Base.{
  ℕ, String, Bool, true, false, not, ◌||◌, ◌==◌, List, [], ◌∷◌, map, length, Option, none, some,
  if◌then◌else◌, eq_ℕ,
}
use self_imp_bin_eval.Base.Int.{ℤ, pos, ltb_ℤ, ◌+ℤ◌, wrap64}
use self_imp_bin_eval.Base.Keys.{contains}
use self_imp_bin_eval.Base.Text.{is_blank}
use self_imp_bin_eval.Errors.{
  GoError, Result, ok, fail_if, ◌>>=◌, ◌>>◌, semantic_error, limit_error, invalid_weights,
  invalid_final_checklist, lit, quote, int,
}
use self_imp_bin_eval.Evalcore.Types.{
  ChecklistLimits, with_defaults, default_max_split_count, CandidateQuestion, Weight,
}
use self_imp_bin_eval.Evalcore.Questions.{candidate_ids}

abbrev pub weight_ids : List Weight → List String
weight_ids = map (λ w. w.candidate_question_id)

unfoldable pub check_weight_shape : List String → List Weight → Result (Unit {0})
check_weight_shape seen [] = ok tt
check_weight_shape seen (weight ∷ weights) = do
  fail_if (is_blank weight.candidate_question_id)
      (semantic_error invalid_weights (lit "weight has blank candidate_question_id" ∷ []))
  fail_if (contains seen weight.candidate_question_id) (
      semantic_error invalid_weights (
        lit "duplicate weight for candidate question id "
        ∷ quote weight.candidate_question_id
        ∷ []))
  fail_if (is_blank weight.rationale) (
      semantic_error invalid_weights (
        lit "weight for candidate question id "
        ∷ quote weight.candidate_question_id
        ∷ lit " has blank rationale"
        ∷ []))
  fail_if (ltb_ℤ weight.weight (pos 0) || ltb_ℤ default_max_split_count weight.weight) (
      semantic_error invalid_weights (
        lit "weight for candidate question id "
        ∷ quote weight.candidate_question_id
        ∷ lit " is outside 0.."
        ∷ int default_max_split_count
        ∷ []))
  check_weight_shape (weight.candidate_question_id ∷ seen) weights

unfoldable pub validate_weight_shape : List Weight → Result (Unit {0})
validate_weight_shape weights = do
  fail_if (eq_ℕ (length weights) 0)
      (semantic_error invalid_weights (lit "weight assignment returned no weights" ∷ []))
  check_weight_shape [] weights

-- The three loops of ValidateWeights.
unfoldable pub check_weighed_candidates : List String → List CandidateQuestion → Result (Unit {0})
check_weighed_candidates candidate_by_id [] = ok tt
check_weighed_candidates candidate_by_id (candidate ∷ candidates) = do
  fail_if (candidate.id == "")
      (semantic_error invalid_weights (lit "candidate question has blank id" ∷ []))
  fail_if (contains candidate_by_id candidate.id) (
      semantic_error invalid_weights
        (lit "duplicate candidate question id " ∷ quote candidate.id ∷ []))
  check_weighed_candidates (candidate.id ∷ candidate_by_id) candidates

unfoldable pub check_known_weights : List String → ℤ → List Weight → Result (Unit {0})
check_known_weights candidate_by_id most [] = ok tt
check_known_weights candidate_by_id most (weight ∷ weights) = do
  fail_if (not (contains candidate_by_id weight.candidate_question_id)) (
      semantic_error invalid_weights (
        lit "weight references unknown candidate question id "
        ∷ quote weight.candidate_question_id
        ∷ []))
  fail_if (ltb_ℤ most weight.weight) (
      semantic_error invalid_weights (
        lit "weight for candidate question id "
        ∷ quote weight.candidate_question_id
        ∷ lit " is outside 0.."
        ∷ int most
        ∷ []))
  check_known_weights candidate_by_id most weights

unfoldable pub check_all_weighed : List String → List CandidateQuestion → Result (Unit {0})
check_all_weighed weight_by_id [] = ok tt
check_all_weighed weight_by_id (candidate ∷ candidates) = do
  fail_if (not (contains weight_by_id candidate.id)) (
      semantic_error invalid_weights
        (lit "missing weight for candidate question id " ∷ quote candidate.id ∷ []))
  check_all_weighed weight_by_id candidates

unfoldable pub validate_weights :
    List CandidateQuestion → List Weight → ChecklistLimits → Result (Unit {0})
validate_weights candidates weights limits0 = do
  let limits = with_defaults limits0
  fail_if (ltb_ℤ default_max_split_count limits.max_split_count) (
      semantic_error invalid_weights
        (lit "max_split_count cannot exceed " ∷ int default_max_split_count ∷ []))
  validate_weight_shape weights
  check_weighed_candidates [] candidates
  check_known_weights (candidate_ids candidates) limits.max_split_count weights
  check_all_weighed (weight_ids weights) candidates

-- The sum of the positive weights, in 64-bit arithmetic.
unfoldable pub projected_from : ℤ → List Weight → ℤ
projected_from projected [] = projected
projected_from projected (weight ∷ weights) =
    projected_from
      (if ltb_ℤ (pos 0) weight.weight then wrap64 (projected +ℤ weight.weight) else projected)
      weights

-- The count comes back beside the error too.
unfoldable pub validate_projected_final_question_count :
    String → List Weight → ChecklistLimits → ℤ × Option GoError
validate_projected_final_question_count checklist_id weights limits0 =
    let limits = with_defaults limits0 in
    let projected = projected_from (pos 0) weights in
    if ltb_ℤ limits.max_final_questions projected
    then (
      projected,
      some (
          limit_error invalid_final_checklist (record {
            limit_name = "max_final_questions";
            configured_limit = limits.max_final_questions;
            observed_count = projected;
            checklist_id = checklist_id;
            stage = "weight_assignment";
          })),
    )
    else (projected, none)
