-- ===== src/Evalcore/Questions.antt =====
-- internal/evalcore/validate.go: ValidateQuestionGeneration, ValidateCandidateQuestions and
-- ValidateSplitQuestions.
pub mod Laws
pub mod Splits
use self_imp_bin_eval.Base.{
  ℕ, suc, ◌+◌, String, Bool, true, false, not, List, [], ◌∷◌, map, length, if◌then◌else◌, eq_ℕ,
}
use self_imp_bin_eval.Base.Int.{ℤ, pos, ltb_ℤ, leb_ℤ, eq_ℤ}
use self_imp_bin_eval.Base.Keys.{contains, get_or}
use self_imp_bin_eval.Base.Text.{is_blank}
use self_imp_bin_eval.Errors.{
  Result, ok, fail_if, ◌>>=◌, ◌>>◌, semantic_error, limit_error, invalid_question_generation,
  invalid_splits, lit, quote, int,
}
use self_imp_bin_eval.Evalcore.Dimensions.{dimension_ids}
use self_imp_bin_eval.Evalcore.Types.{
  ChecklistLimits, with_defaults, Dimension, DraftQuestion, CandidateQuestion, SplitQuestions,
}

unfoldable pub check_question_drafts : ℕ → List DraftQuestion → Result (Unit {0})
check_question_drafts i [] = ok tt
check_question_drafts i (draft ∷ drafts) = do
  fail_if (is_blank draft.rationale) (
      semantic_error invalid_question_generation
        (lit "question " ∷ int (pos (i + 1)) ∷ lit " has blank rationale" ∷ []))
  fail_if (is_blank draft.question) (
      semantic_error invalid_question_generation
        (lit "question " ∷ int (pos (i + 1)) ∷ lit " has blank question" ∷ []))
  check_question_drafts (i + 1) drafts

unfoldable pub validate_question_generation :
    List DraftQuestion → ChecklistLimits → Result (Unit {0})
validate_question_generation drafts limits0 = do
  let limits = with_defaults limits0
  fail_if (eq_ℕ (length drafts) 0) (
      semantic_error invalid_question_generation
        (lit "question generation returned no questions" ∷ []))
  fail_if (ltb_ℤ limits.max_candidates_per_dimension (pos (length drafts))) (
      limit_error invalid_question_generation (record {
        limit_name = "max_candidates_per_dimension";
        configured_limit = limits.max_candidates_per_dimension;
        observed_count = pos (length drafts);
        checklist_id = "";
        stage = "question_generation";
      }))
  check_question_drafts 0 drafts

-- The loop over the candidates: the known dimensions, the limit for each, the count so far for
-- each dimension, and the identifiers seen.
unfoldable pub check_candidates :
    List String → ℤ → List (String × ℕ) → List String → List CandidateQuestion → Result (Unit {0})
check_candidates dimension_by_id most count seen [] = ok tt
check_candidates dimension_by_id most count seen (candidate ∷ candidates) = do
  fail_if (is_blank candidate.id)
      (semantic_error invalid_question_generation (lit "candidate question has blank id" ∷ []))
  fail_if (contains seen candidate.id) (
      semantic_error invalid_question_generation
        (lit "duplicate candidate question id " ∷ quote candidate.id ∷ []))
  fail_if (not (contains dimension_by_id candidate.dimension_id)) (
      semantic_error invalid_question_generation (
        lit "candidate question id "
        ∷ quote candidate.id
        ∷ lit " references unknown dimension id "
        ∷ quote candidate.dimension_id
        ∷ []))
  fail_if (leb_ℤ candidate.ordinal (pos 0)) (
      semantic_error invalid_question_generation (
        lit "candidate question id "
        ∷ quote candidate.id
        ∷ lit " has invalid ordinal "
        ∷ int candidate.ordinal
        ∷ []))
  fail_if (is_blank candidate.rationale) (
      semantic_error invalid_question_generation
        (lit "candidate question id " ∷ quote candidate.id ∷ lit " has blank rationale" ∷ []))
  fail_if (is_blank candidate.question) (
      semantic_error invalid_question_generation
        (lit "candidate question id " ∷ quote candidate.id ∷ lit " has blank question" ∷ []))
  let n = get_or 0 candidate.dimension_id count + 1
  fail_if (ltb_ℤ most (pos n)) (
      limit_error invalid_question_generation (record {
        limit_name = "max_candidates_per_dimension";
        configured_limit = most;
        observed_count = pos n;
        checklist_id = "";
        stage = "validate_candidate_questions";
      }))
  check_candidates dimension_by_id most ((candidate.dimension_id, n) ∷ count) (candidate.id ∷ seen)
      candidates

abbrev pub candidate_ids : List CandidateQuestion → List String
candidate_ids = map (λ c. c.id)

unfoldable pub validate_candidate_questions :
    List Dimension → List CandidateQuestion → ChecklistLimits → Result (Unit {0})
validate_candidate_questions dimensions candidates limits0 = do
  let limits = with_defaults limits0
  check_candidates (dimension_ids dimensions) limits.max_candidates_per_dimension [] [] candidates
  fail_if (eq_ℕ (length candidates) 0)
      (semantic_error invalid_question_generation (lit "no candidate questions" ∷ []))

unfoldable pub check_parts : String → ℕ → List DraftQuestion → Result (Unit {0})
check_parts id i [] = ok tt
check_parts id i (question ∷ questions) = do
  fail_if (is_blank question.rationale) (
      semantic_error invalid_splits (
        lit "split question "
        ∷ int (pos (i + 1))
        ∷ lit " for candidate id "
        ∷ quote id
        ∷ lit " has blank rationale"
        ∷ []))
  fail_if (is_blank question.question) (
      semantic_error invalid_splits (
        lit "split question "
        ∷ int (pos (i + 1))
        ∷ lit " for candidate id "
        ∷ quote id
        ∷ lit " has blank question"
        ∷ []))
  check_parts id (i + 1) questions

unfoldable pub validate_split_questions : SplitQuestions → ℤ → Result (Unit {0})
validate_split_questions split expected_count = do
  fail_if (is_blank split.candidate_question_id)
      (semantic_error invalid_splits (lit "split has blank candidate_question_id" ∷ []))
  fail_if (leb_ℤ expected_count (pos 1))
      (semantic_error invalid_splits (lit "split expected count must be greater than 1" ∷ []))
  fail_if (not (eq_ℤ (pos (length split.questions)) expected_count)) (
      semantic_error invalid_splits (
        lit "split for candidate question id "
        ∷ quote split.candidate_question_id
        ∷ lit " returned "
        ∷ int (pos (length split.questions))
        ∷ lit " questions, want "
        ∷ int expected_count
        ∷ []))
  check_parts split.candidate_question_id 0 split.questions
