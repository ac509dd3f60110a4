-- ===== src/Evalcore/Questions/Splits.antt =====
-- What ValidateSplitQuestions accepts, and the code of what it refuses.
use self_imp_bin_eval.Base.{
  ℕ, ◌+◌, ◌≡◌, refl, ◌↔◌, String, false, List, [], ◌∷◌, length, arith, All,
}
use self_imp_bin_eval.Base.Int.{ℤ, pos, ◌<ℤ◌}
use self_imp_bin_eval.Base.Text.{is_blank}
use self_imp_bin_eval.Errors.{GoError, ok, err, HasCode, semantic_error, invalid_splits}
use self_imp_bin_eval.Evalcore.Types.{DraftQuestion, SplitQuestions}
use self_imp_bin_eval.Evalcore.Questions.{check_parts, validate_split_questions}
use self_imp_bin_eval.Evalcore.Questions.Laws.{IsFilledQuestion}

pub record IsSplit (s : SplitQuestions) (expected_count : ℤ) : Type 0 where
  pub id : is_blank s.candidate_question_id ≡ false
  pub many : pos 1 <ℤ expected_count
  pub counted : pos (length s.questions) ≡ expected_count
  pub filled : All IsFilledQuestion s.questions

check_parts-ok :
    (id : String) (i : ℕ) (qs : List DraftQuestion)
    → check_parts id i qs ≡ ok tt
    → All IsFilledQuestion qs
unfolding check_parts
check_parts-ok id i [] h = tt
check_parts-ok id i (q ∷ qs) h = (ground arith, check_parts-ok id (i + 1) qs (ground arith))

ok-check_parts :
    (id : String) (i : ℕ) (qs : List DraftQuestion)
    → All IsFilledQuestion qs
    → check_parts id i qs ≡ ok tt
unfolding check_parts
ok-check_parts id i [] h = refl
ok-check_parts id i (q ∷ qs) h = ground (arith, ok-check_parts id (i + 1) qs h.1)

check_parts-err :
    (id : String) (i : ℕ) (qs : List DraftQuestion) (e : GoError)
    → check_parts id i qs ≡ err e
    → HasCode invalid_splits e
unfolding check_parts semantic_error
check_parts-err id i [] e h = cc
check_parts-err id i (q ∷ qs) e h = ground (arith, check_parts-err id (i + 1) qs e)

-- ValidateSplitQuestions accepts exactly a split with an identifier, an expected count above one,
-- that many questions, and no blank field.
pub validate_split_questions_iff :
    (s : SplitQuestions) (n : ℤ) → (validate_split_questions s n ≡ ok tt) ↔ IsSplit s n
unfolding validate_split_questions
validate_split_questions_iff s n = (
  λ h. record {
    id = ground arith;
    many = ground arith;
    counted = ground arith;
    filled = check_parts-ok s.candidate_question_id 0 s.questions (ground arith);
  },
  λ h. ground (arith, ok-check_parts s.candidate_question_id 0 s.questions h.filled),
)

pub validate_split_questions-err :
    (s : SplitQuestions) (n : ℤ) (e : GoError)
    → validate_split_questions s n ≡ err e
    → HasCode invalid_splits e
unfolding validate_split_questions semantic_error
validate_split_questions-err s n e h =
    ground (arith, check_parts-err s.candidate_question_id 0 s.questions e)
