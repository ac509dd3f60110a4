-- ===== src/Evalcore/Judgments.antt =====
-- internal/evalcore/validate.go: ValidateJudgmentShape and ValidateJudgments.
pub mod Laws
use self_imp_bin_eval.Base.{
  ℕ, String, Bool, true, false, not, ◌==◌, ◌&&◌, List, [], ◌∷◌, map, length, if◌then◌else◌, eq_ℕ,
}
use self_imp_bin_eval.Base.Keys.{contains}
use self_imp_bin_eval.Base.Text.{is_blank}
use self_imp_bin_eval.Errors.{
  Result, ok, fail_if, ◌>>=◌, ◌>>◌, semantic_error, invalid_final_checklist, invalid_judgments, lit,
  quote,
}
use self_imp_bin_eval.Evalcore.Types.{FinalQuestion, Judgment, answer_yes, answer_no}
use self_imp_bin_eval.Evalcore.FinalQuestions.{question_ids}

abbrev pub judgment_ids : List Judgment → List String
judgment_ids = map (λ j. j.question_id)

unfoldable pub check_judgment_shape : List String → List Judgment → Result (Unit {0})
check_judgment_shape seen [] = ok tt
check_judgment_shape seen (judgment ∷ judgments) = do
  fail_if (is_blank judgment.question_id)
      (semantic_error invalid_judgments (lit "judgment has blank question_id" ∷ []))
  fail_if (contains seen judgment.question_id) (
      semantic_error invalid_judgments
        (lit "duplicate judgment for question id " ∷ quote judgment.question_id ∷ []))
  fail_if (is_blank judgment.evidence) (
      semantic_error invalid_judgments (
        lit "judgment for question id "
        ∷ quote judgment.question_id
        ∷ lit " has blank evidence"
        ∷ []))
  fail_if (not (judgment.answer == answer_yes) && not (judgment.answer == answer_no)) (
      semantic_error invalid_judgments (
        lit "judgment for question id "
        ∷ quote judgment.question_id
        ∷ lit " has invalid answer "
        ∷ quote judgment.answer
        ∷ []))
  check_judgment_shape (judgment.question_id ∷ seen) judgments

unfoldable pub validate_judgment_shape : List Judgment → Result (Unit {0})
validate_judgment_shape judgments = do
  fail_if (eq_ℕ (length judgments) 0)
      (semantic_error invalid_judgments (lit "binary judging returned no judgments" ∷ []))
  check_judgment_shape [] judgments

-- The three loops of ValidateJudgments.
unfoldable pub check_judged_questions : List String → List FinalQuestion → Result (Unit {0})
check_judged_questions question_by_id [] = ok tt
check_judged_questions question_by_id (question ∷ questions) = do
  fail_if (is_blank question.id)
      (semantic_error invalid_final_checklist (lit "final question has blank id" ∷ []))
  fail_if (contains question_by_id question.id) (
      semantic_error invalid_final_checklist
        (lit "duplicate final question id " ∷ quote question.id ∷ []))
  check_judged_questions (question.id ∷ question_by_id) questions

unfoldable pub check_known_judgments : List String → List Judgment → Result (Unit {0})
check_known_judgments question_by_id [] = ok tt
check_known_judgments question_by_id (judgment ∷ judgments) = do
  fail_if (not (contains question_by_id judgment.question_id)) (
      semantic_error invalid_judgments
        (lit "judgment references unknown final question id " ∷ quote judgment.question_id ∷ []))
  check_known_judgments question_by_id judgments

unfoldable pub check_all_judged : List String → List FinalQuestion → Result (Unit {0})
check_all_judged judgment_by_id [] = ok tt
check_all_judged judgment_by_id (question ∷ questions) = do
  fail_if (not (contains judgment_by_id question.id)) (
      semantic_error invalid_judgments
        (lit "missing judgment for final question id " ∷ quote question.id ∷ []))
  check_all_judged judgment_by_id questions

unfoldable pub validate_judgments : List FinalQuestion → List Judgment → Result (Unit {0})
validate_judgments questions judgments = do
  validate_judgment_shape judgments
  check_judged_questions [] questions
  fail_if (eq_ℕ (length (question_ids questions)) 0)
      (semantic_error invalid_final_checklist (lit "at least one final question is required" ∷ []))
  check_known_judgments (question_ids questions) judgments
  check_all_judged (judgment_ids judgments) questions
