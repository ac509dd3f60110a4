-- ===== src/Evalcore/Questions/Laws.antt =====
-- What the validators of generated and of candidate questions accept, and the code of what they
-- refuse.
use self_imp_bin_eval.Base.{
  ℕ, ◌+◌, ◌<◌, ◌≡◌, refl, ◌↔◌, String, true, false, List, [], ◌∷◌, length, arith, All,
  if◌then◌else◌, ◌==◌,
}
use self_imp_bin_eval.Base.Int.{ℤ, pos, ◌≤ℤ◌, ◌<ℤ◌}
use self_imp_bin_eval.Base.Keys.{
  contains, get_or, Distinct, AllNew, Distinct-of_AllNew, AllNew-of_Distinct,
}
use self_imp_bin_eval.Base.Text.{is_blank}
use self_imp_bin_eval.Errors.{
  GoError, ok, err, HasCode, semantic_error, limit_error, invalid_question_generation,
}
use self_imp_bin_eval.Evalcore.Types.{
  ChecklistLimits, with_defaults, Dimension, DraftQuestion, CandidateQuestion,
}
use self_imp_bin_eval.Evalcore.Types.Limits.{with_defaults-IsPositive}
use self_imp_bin_eval.Evalcore.Dimensions.{dimension_ids}
use self_imp_bin_eval.Evalcore.Questions.{
  check_question_drafts, validate_question_generation, check_candidates, candidate_ids,
  validate_candidate_questions,
}

pub record IsFilledQuestion (q : DraftQuestion) : Type 0 where
  pub rationale : is_blank q.rationale ≡ false
  pub question : is_blank q.question ≡ false

pub record AreDraftQuestions (qs : List DraftQuestion) (l : ChecklistLimits) : Type 0 where
  pub some_given : 0 < length qs
  pub within : pos (length qs) ≤ℤ (with_defaults l).max_candidates_per_dimension
  pub filled : All IsFilledQuestion qs

pub record IsCandidate (dimensions : List String) (c : CandidateQuestion) : Type 0 where
  pub id : is_blank c.id ≡ false
  pub known : contains dimensions c.dimension_id ≡ true
  pub ordinal : pos 0 <ℤ c.ordinal
  pub rationale : is_blank c.rationale ≡ false
  pub question : is_blank c.question ≡ false

-- How many candidates belong to a dimension.
abbrev pub count_in : String → List CandidateQuestion → ℕ
count_in d [] = 0
count_in d (c ∷ cs) = (if c.dimension_id == d then 1 else 0) + count_in d cs

pub record AreCandidates (ds : List Dimension) (cs : List CandidateQuestion) (l : ChecklistLimits)
    : Type 0 where
  pub some_given : 0 < length cs
  pub each : All (IsCandidate (dimension_ids ds)) cs
  pub distinct : Distinct (candidate_ids cs)
  pub within : (d : String) → pos (count_in d cs) ≤ℤ (with_defaults l).max_candidates_per_dimension

check_question_drafts-ok :
    (i : ℕ) (qs : List DraftQuestion) → check_question_drafts i qs ≡ ok tt → All IsFilledQuestion qs
unfolding check_question_drafts
check_question_drafts-ok i [] h = tt
check_question_drafts-ok i (q ∷ qs) h =
    (ground arith, check_question_drafts-ok (i + 1) qs (ground arith))

ok-check_question_drafts :
    (i : ℕ) (qs : List DraftQuestion) → All IsFilledQuestion qs → check_question_drafts i qs ≡ ok tt
unfolding check_question_drafts
ok-check_question_drafts i [] h = refl
ok-check_question_drafts i (q ∷ qs) h = ground (arith, ok-check_question_drafts (i + 1) qs h.1)

check_question_drafts-err :
    (i : ℕ) (qs : List DraftQuestion) (e : GoError)
    → check_question_drafts i qs ≡ err e
    → HasCode invalid_question_generation e
unfolding check_question_drafts semantic_error
check_question_drafts-err i [] e h = cc
check_question_drafts-err i (q ∷ qs) e h = ground (arith, check_question_drafts-err (i + 1) qs e)

-- ValidateQuestionGeneration accepts exactly the lists of drafts that are not empty, keep to the
-- limit for one dimension and have no blank field.
pub validate_question_generation_iff :
    (qs : List DraftQuestion) (l : ChecklistLimits)
    → (validate_question_generation qs l ≡ ok tt) ↔ AreDraftQuestions qs l
unfolding validate_question_generation
validate_question_generation_iff qs l = (
  λ h. record {
    some_given = ground arith;
    within = ground arith;
    filled = check_question_drafts-ok 0 qs (ground arith);
  },
  λ h. ground (arith, ok-check_question_drafts 0 qs h.filled),
)

module _ (known : List String) (most : ℤ) where
  -- The counts never pass the limit, the count so far included.
  abbrev WithinFrom : List (String × ℕ) → List CandidateQuestion → Type 0
  WithinFrom count cs = (d : String) → pos (get_or 0 d count + count_in d cs) ≤ℤ most

  check_candidates-each :
      (count : List (String × ℕ)) (seen : List String) (cs : List CandidateQuestion)
      → check_candidates known most count seen cs ≡ ok tt
      → All (IsCandidate known) cs × AllNew seen (candidate_ids cs)
  unfolding check_candidates
  check_candidates-each count seen [] h = (tt, tt)
  check_candidates-each count seen (c ∷ cs) h =
      let n = get_or 0 c.dimension_id count + 1 in
      let ih =
        check_candidates-each ((c.dimension_id, n) ∷ count) (c.id ∷ seen) cs (ground arith) in
      ((ground arith, ih.0), (ground arith, ih.1))

  check_candidates-within :
      (count : List (String × ℕ)) (seen : List String) (cs : List CandidateQuestion)
      → ((d : String) → pos (get_or 0 d count) ≤ℤ most)
      → check_candidates known most count seen cs ≡ ok tt
      → WithinFrom count cs
  unfolding check_candidates get_or
  check_candidates-within count seen [] start h d = ground (arith, start d)
  check_candidates-within count seen (c ∷ cs) start h d =
      let n = get_or 0 c.dimension_id count + 1 in
      ground (
        arith,
        check_candidates-within ((c.dimension_id, n) ∷ count) (c.id ∷ seen) cs
            (λ d'. ground (arith, start d')) (ground arith) d,
      )

  ok-check_candidates :
      (count : List (String × ℕ)) (seen : List String) (cs : List CandidateQuestion)
      → All (IsCandidate known) cs
      → AllNew seen (candidate_ids cs)
      → WithinFrom count cs
      → check_candidates known most count seen cs ≡ ok tt
  unfolding check_candidates get_or
  ok-check_candidates count seen [] h k w = refl
  ok-check_candidates count seen (c ∷ cs) h k w =
      let n = get_or 0 c.dimension_id count + 1 in
      ground (
        arith,
        w c.dimension_id,
        ok-check_candidates ((c.dimension_id, n) ∷ count) (c.id ∷ seen) cs h.1 k.1
            (λ d'. ground (arith, w d')),
      )

  check_candidates-err :
      (count : List (String × ℕ)) (seen : List String) (cs : List CandidateQuestion) (e : GoError)
      → check_candidates known most count seen cs ≡ err e
      → HasCode invalid_question_generation e
  unfolding check_candidates semantic_error limit_error
  check_candidates-err count seen [] e h = cc
  check_candidates-err count seen (c ∷ cs) e h =
      let n = get_or 0 c.dimension_id count + 1 in
      ground (arith, check_candidates-err ((c.dimension_id, n) ∷ count) (c.id ∷ seen) cs e)

-- ValidateCandidateQuestions accepts exactly the lists of candidates that are not empty, have
-- filled fields, positive ordinals, known dimensions and distinct identifiers, and give no
-- dimension more candidates than the limit.
pub validate_candidate_questions_iff :
    (ds : List Dimension) (cs : List CandidateQuestion) (l : ChecklistLimits)
    → (validate_candidate_questions ds cs l ≡ ok tt) ↔ AreCandidates ds cs l
unfolding validate_candidate_questions get_or
validate_candidate_questions_iff ds cs l = (
  λ h.
      let known = dimension_ids ds in
      let most = (with_defaults l).max_candidates_per_dimension in
      let positive = with_defaults-IsPositive l in
      let passed : check_candidates known most [] [] cs ≡ ok tt = ground arith in
      let (each, new) = check_candidates-each known most [] [] cs passed in
      record {
        some_given = ground arith;
        each = each;
        distinct = Distinct-of_AllNew [] (candidate_ids cs) new;
        within = λ d. ground (
          arith,
          check_candidates-within known most [] [] cs (λ _. omega (arith, positive.candidates))
              passed d,
        );
      },
  λ h.
      let known = dimension_ids ds in
      let most = (with_defaults l).max_candidates_per_dimension in
      let new = AllNew-of_Distinct (candidate_ids cs) h.distinct in
      let some_given = h.some_given in
      ground (
        arith,
        ok-check_candidates known most [] [] cs h.each new (λ d. ground (arith, h.within d)),
      ),
)

pub validate_candidate_questions-err :
    (ds : List Dimension) (cs : List CandidateQuestion) (l : ChecklistLimits) (e : GoError)
    → validate_candidate_questions ds cs l ≡ err e
    → HasCode invalid_question_generation e
unfolding validate_candidate_questions semantic_error
validate_candidate_questions-err ds cs l e h = ground (
  arith,
  check_candidates-err (dimension_ids ds) (with_defaults l).max_candidates_per_dimension [] [] cs e,
)

pub validate_question_generation-err :
    (qs : List DraftQuestion) (l : ChecklistLimits) (e : GoError)
    → validate_question_generation qs l ≡ err e
    → HasCode invalid_question_generation e
unfolding validate_question_generation semantic_error limit_error
validate_question_generation-err qs l e h = ground (arith, check_question_drafts-err 0 qs e)
