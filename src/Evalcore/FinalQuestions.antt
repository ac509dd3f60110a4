-- ===== src/Evalcore/FinalQuestions.antt =====
-- internal/evalcore/validate.go: ValidateFinalQuestions.
pub mod Laws
use self_imp_bin_eval.Base.{
  ℕ, String, Bool, true, false, not, ◌==◌, List, [], ◌∷◌, map, length, Option, none, some,
  if◌then◌else◌, eq_ℕ,
}
use self_imp_bin_eval.Base.Int.{ℤ, pos, ltb_ℤ, leb_ℤ}
use self_imp_bin_eval.Base.Keys.{contains, get, index_onto}
use self_imp_bin_eval.Base.Ordinals.{contains_ordinal}
use self_imp_bin_eval.Base.Text.{is_blank}
use self_imp_bin_eval.Errors.{
  Result, ok, err, fail_if, ◌>>=◌, ◌>>◌, semantic_error, limit_error, invalid_final_checklist, lit,
  quote, int,
}
use self_imp_bin_eval.Evalcore.Types.{
  ChecklistLimits, with_defaults, Dimension, CandidateQuestion, FinalQuestion,
}
use self_imp_bin_eval.Evalcore.Dimensions.{dimension_ids}

abbrev pub question_ids : List FinalQuestion → List String
question_ids = map (λ q. q.id)

-- `candidate, ok := candidateByID[question.SourceCandidateID]` with its two checks.
unfoldable pub check_source : FinalQuestion → Option CandidateQuestion → Result (Unit {0})
check_source question none = err (
    semantic_error invalid_final_checklist (
      lit "final question id "
      ∷ quote question.id
      ∷ lit " references unknown source candidate id "
      ∷ quote question.source_candidate_id
      ∷ []))
check_source question (some candidate) =
    fail_if (not (candidate.dimension_id == question.dimension_id)) (
      semantic_error invalid_final_checklist (
        lit "final question id "
        ∷ quote question.id
        ∷ lit " dimension "
        ∷ quote question.dimension_id
        ∷ lit " does not match source candidate dimension "
        ∷ quote candidate.dimension_id
        ∷ []))

unfoldable pub check_final_questions :
    List String
    → List (String × CandidateQuestion)
    → List String
    → List ℤ
    → List FinalQuestion
    → Result (Unit {0})
check_final_questions dimension_by_id candidate_by_id seen_id seen_ordinal [] = ok tt
check_final_questions dimension_by_id candidate_by_id seen_id seen_ordinal (question ∷ questions) =
    do
      fail_if (is_blank question.id)
          (semantic_error invalid_final_checklist (lit "final question has blank id" ∷ []))
      fail_if (contains seen_id question.id) (
          semantic_error invalid_final_checklist
            (lit "duplicate final question id " ∷ quote question.id ∷ []))
      fail_if (leb_ℤ question.ordinal (pos 0)) (
          semantic_error invalid_final_checklist (
            lit "final question id "
            ∷ quote question.id
            ∷ lit " has invalid ordinal "
            ∷ int question.ordinal
            ∷ []))
      fail_if (contains_ordinal seen_ordinal question.ordinal) (
          semantic_error invalid_final_checklist
            (lit "duplicate final question ordinal " ∷ int question.ordinal ∷ []))
      fail_if (not (contains dimension_by_id question.dimension_id)) (
          semantic_error invalid_final_checklist (
            lit "final question id "
            ∷ quote question.id
            ∷ lit " references unknown dimension id "
            ∷ quote question.dimension_id
            ∷ []))
      check_source question (get question.source_candidate_id candidate_by_id)
      fail_if (is_blank question.rationale) (
          semantic_error invalid_final_checklist
            (lit "final question id " ∷ quote question.id ∷ lit " has blank rationale" ∷ []))
      fail_if (is_blank question.question) (
          semantic_error invalid_final_checklist
            (lit "final question id " ∷ quote question.id ∷ lit " has blank question" ∷ []))
      check_final_questions dimension_by_id candidate_by_id (question.id ∷ seen_id)
          (question.ordinal ∷ seen_ordinal) questions

abbrev pub candidate_by_id : List CandidateQuestion → List (String × CandidateQuestion)
candidate_by_id = index_onto (λ c. c.id) []

unfoldable pub validate_final_questions :
    List Dimension
    → List CandidateQuestion
    → List FinalQuestion
    → ChecklistLimits
    → Result (Unit {0})
validate_final_questions dimensions candidates questions limits0 = do
  let limits = with_defaults limits0
  fail_if (eq_ℕ (length questions) 0)
      (semantic_error invalid_final_checklist (lit "at least one final question is required" ∷ []))
  fail_if (ltb_ℤ limits.max_final_questions (pos (length questions))) (
      limit_error invalid_final_checklist (record {
        limit_name = "max_final_questions";
        configured_limit = limits.max_final_questions;
        observed_count = pos (length questions);
        checklist_id = "";
        stage = "validate_final_questions";
      }))
  check_final_questions (dimension_ids dimensions) (candidate_by_id candidates) [] [] questions
