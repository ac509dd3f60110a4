-- ===== src/Evalcore/FinalQuestions/Laws.antt =====
-- What ValidateFinalQuestions accepts, and the code of what it refuses.
use self_imp_bin_eval.Base.{
  ◌<◌, ◌≡◌, refl, ◌↔◌, String, true, false, List, [], ◌∷◌, length, map, arith, All, Option, none,
  some, Option-cases, inl, inr,
}
use self_imp_bin_eval.Base.Int.{ℤ, pos, ◌≤ℤ◌, ◌<ℤ◌}
use self_imp_bin_eval.Base.Keys.{
  contains, get, Distinct, AllNew, Distinct-of_AllNew, AllNew-of_Distinct,
}
use self_imp_bin_eval.Base.Ordinals.{
  AllNewOrdinals, DistinctOrdinals, DistinctOrdinals-of_AllNewOrdinals,
  AllNewOrdinals-of_DistinctOrdinals,
}
use self_imp_bin_eval.Base.Text.{is_blank}
use self_imp_bin_eval.Errors.{
  GoError, ok, err, HasCode, semantic_error, limit_error, invalid_final_checklist,
}
use self_imp_bin_eval.Evalcore.Types.{
  ChecklistLimits, with_defaults, Dimension, CandidateQuestion, FinalQuestion,
}
use self_imp_bin_eval.Evalcore.Dimensions.{dimension_ids}
use self_imp_bin_eval.Evalcore.FinalQuestions.{
  question_ids, check_source, check_final_questions, candidate_by_id, validate_final_questions,
}

-- The source is a known candidate of the question's dimension.
abbrev pub HasSource : List (String × CandidateQuestion) → FinalQuestion → Type 0
HasSource by_id q =
    (c : CandidateQuestion) × (get q.source_candidate_id by_id ≡ some c)
    × (c.dimension_id ≡ q.dimension_id)

pub record IsFinal (known : List String) (by_id : List (String × CandidateQuestion))
    (q : FinalQuestion) : Type 0 where
  pub id : is_blank q.id ≡ false
  pub ordinal : pos 0 <ℤ q.ordinal
  pub dimension : contains known q.dimension_id ≡ true
  pub source : HasSource by_id q
  pub rationale : is_blank q.rationale ≡ false
  pub question : is_blank q.question ≡ false

abbrev pub ordinals : List FinalQuestion → List ℤ
ordinals = map (λ q. q.ordinal)

pub record AreFinal (ds : List Dimension) (cs : List CandidateQuestion) (qs : List FinalQuestion)
    (l : ChecklistLimits) : Type 0 where
  pub some_given : 0 < length qs
  pub within : pos (length qs) ≤ℤ (with_defaults l).max_final_questions
  pub each : All (IsFinal (dimension_ids ds) (candidate_by_id cs)) qs
  pub distinct : Distinct (question_ids qs)
  pub distinct_ordinals : DistinctOrdinals (ordinals qs)

module _ (known : List String) (by_id : List (String × CandidateQuestion)) where
  check_source-ok :
      (q : FinalQuestion)
      → check_source q (get q.source_candidate_id by_id) ≡ ok tt
      → HasSource by_id q
  unfolding check_source
  check_source-ok q h = elim (Option-cases (get q.source_candidate_id by_id)) [
    | inl missing ↦ absurd (ground arith)
    | inr (c, found) ↦ (c, found, ground arith)
  ]

  ok-check_source :
      (q : FinalQuestion)
      → HasSource by_id q
      → check_source q (get q.source_candidate_id by_id) ≡ ok tt
  unfolding check_source
  ok-check_source q (c, found, same) = rw found (ground arith)

  check_source-err :
      (q : FinalQuestion) (o : Option CandidateQuestion) (e : GoError)
      → check_source q o ≡ err e
      → HasCode invalid_final_checklist e
  unfolding check_source semantic_error
  check_source-err q none e h = ground arith
  check_source-err q (some c) e h = ground arith

  check_final_questions-ok :
      (seen : List String) (seen_ordinal : List ℤ) (qs : List FinalQuestion)
      → check_final_questions known by_id seen seen_ordinal qs ≡ ok tt
      → All (IsFinal known by_id) qs
        × AllNew seen (question_ids qs)
        × AllNewOrdinals seen_ordinal (ordinals qs)
  unfolding check_final_questions
  check_final_questions-ok seen so [] h = (tt, tt, tt)
  check_final_questions-ok seen so (q ∷ qs) h =
      let ih = check_final_questions-ok (q.id ∷ seen) (q.ordinal ∷ so) qs (ground arith) in
      (
        (
          record {
            id = ground arith;
            ordinal = ground arith;
            dimension = ground arith;
            source = check_source-ok q (ground arith);
            rationale = ground arith;
            question = ground arith;
          },
          ih.0,
        ),
        (ground arith, ih.1),
        (ground arith, ih.2),
      )

  ok-check_final_questions :
      (seen : List String) (seen_ordinal : List ℤ) (qs : List FinalQuestion)
      → All (IsFinal known by_id) qs
      → AllNew seen (question_ids qs)
      → AllNewOrdinals seen_ordinal (ordinals qs)
      → check_final_questions known by_id seen seen_ordinal qs ≡ ok tt
  unfolding check_final_questions
  ok-check_final_questions seen so [] h k o = refl
  ok-check_final_questions seen so (q ∷ qs) h k o = ground (
    arith,
    ok-check_source q h.0.source,
    ok-check_final_questions (q.id ∷ seen) (q.ordinal ∷ so) qs h.1 k.1 o.1,
  )

  check_final_questions-err :
      (seen : List String) (seen_ordinal : List ℤ) (qs : List FinalQuestion) (e : GoError)
      → check_final_questions known by_id seen seen_ordinal qs ≡ err e
      → HasCode invalid_final_checklist e
  unfolding check_final_questions semantic_error
  check_final_questions-err seen so [] e h = cc
  check_final_questions-err seen so (q ∷ qs) e h = ground (
    arith,
    check_source-err q (get q.source_candidate_id by_id) e,
    check_final_questions-err (q.id ∷ seen) (q.ordinal ∷ so) qs e,
  )

-- ValidateFinalQuestions accepts exactly the lists of questions that are not empty, keep to the
-- limit, have filled fields, known dimensions, and sources of their own dimension, and repeat
-- neither an identifier nor an ordinal.
pub validate_final_questions_iff :
    (ds : List Dimension) (cs : List CandidateQuestion) (qs : List FinalQuestion)
    (l : ChecklistLimits)
    → (validate_final_questions ds cs qs l ≡ ok tt) ↔ AreFinal ds cs qs l
unfolding validate_final_questions
validate_final_questions_iff ds cs qs l = (
  λ h.
      let (each, new, new_ordinals) =
        check_final_questions-ok (dimension_ids ds) (candidate_by_id cs) [] [] qs (ground arith) in
      record {
        some_given = ground arith;
        within = ground arith;
        each = each;
        distinct = Distinct-of_AllNew [] (question_ids qs) new;
        distinct_ordinals = DistinctOrdinals-of_AllNewOrdinals [] (ordinals qs) new_ordinals;
      },
  λ h.
      let new = AllNew-of_Distinct (question_ids qs) h.distinct in
      let passed =
        ok-check_final_questions (dimension_ids ds) (candidate_by_id cs) [] [] qs h.each new
          (AllNewOrdinals-of_DistinctOrdinals (ordinals qs) h.distinct_ordinals) in
      let some_given = h.some_given in let within = h.within in ground arith,
)

pub validate_final_questions-err :
    (ds : List Dimension) (cs : List CandidateQuestion) (qs : List FinalQuestion)
    (l : ChecklistLimits) (e : GoError)
    → validate_final_questions ds cs qs l ≡ err e
    → HasCode invalid_final_checklist e
unfolding validate_final_questions semantic_error limit_error
validate_final_questions-err ds cs qs l e h =
    ground (arith, check_final_questions-err (dimension_ids ds) (candidate_by_id cs) [] [] qs e)
