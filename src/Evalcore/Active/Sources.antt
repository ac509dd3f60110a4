-- ===== src/Evalcore/Active/Sources.antt =====
-- The final questions that BuildFinalChecklist makes pass its own last check.
use self_imp_bin_eval.Base.{
  ℕ, ◌+◌, ◌≡◌, refl, ◌∙◌, String, Bool, true, false, List, [], ◌∷◌, arith, All, All-append, All-imp,
  Option, none, some, if◌then◌else◌,
}
use self_imp_bin_eval.Base.Int.{pos, eq_ℤ}
use self_imp_bin_eval.Base.Keys.{contains, get, Distinct, get-index, find_self}
use self_imp_bin_eval.Base.Text.{is_blank}
use self_imp_bin_eval.Evalcore.Types.{
  CandidateQuestion, DraftQuestion, Weight, SplitQuestions, FinalQuestion,
}
use self_imp_bin_eval.Evalcore.Questions.{candidate_ids}
use self_imp_bin_eval.Evalcore.Questions.Laws.{IsFilledQuestion, IsCandidate}
use self_imp_bin_eval.Evalcore.FinalQuestions.{candidate_by_id}
use self_imp_bin_eval.Evalcore.FinalQuestions.Laws.{HasSource, IsFinal}
use self_imp_bin_eval.Evalcore.Ids.{number_from}
use self_imp_bin_eval.Evalcore.Ids.Laws.{numbered-filled}
use self_imp_bin_eval.Evalcore.Active.{draft_final, from_split}
use self_imp_bin_eval.Evalcore.Active.Expansion.{
  weight_in, parts, questions_of, all_questions, split_in, IsCounted, find-IsCounted,
}

module _ (known : List String) (by_id : List (String × CandidateQuestion)) where
  -- All that is asked of a final question but its number.
  record IsSourced (q : FinalQuestion) : Type 0 where
    dimension : contains known q.dimension_id ≡ true
    source : HasSource by_id q
    rationale : is_blank q.rationale ≡ false
    question : is_blank q.question ≡ false

  number_from-IsFinal :
      (i : ℕ) (qs : List FinalQuestion)
      → All IsSourced qs
      → All (IsFinal known by_id) (number_from i qs)
  unfolding number_from
  number_from-IsFinal i [] h = tt
  number_from-IsFinal i (q ∷ qs) h = (
    record {
      id = numbered-filled "q" (i + 1) (unfold is_blank in refl);
      ordinal = omega arith;
      dimension = h.0.dimension;
      source = h.0.source;
      rationale = h.0.rationale;
      question = h.0.question;
    },
    number_from-IsFinal (i + 1) qs h.1,
  )

  draft_final-IsSourced :
      (c : CandidateQuestion) (q : DraftQuestion)
      → contains known c.dimension_id ≡ true
      → get c.id by_id ≡ some c
      → IsFilledQuestion q
      → IsSourced (draft_final c q.rationale q.question)
  draft_final-IsSourced c q k g f = record {
    dimension = k;
    source = (c, g, refl);
    rationale = f.rationale;
    question = f.question;
  }

  from_split-IsSourced :
      (c : CandidateQuestion) (qs : List DraftQuestion)
      → contains known c.dimension_id ≡ true
      → get c.id by_id ≡ some c
      → All IsFilledQuestion qs
      → All IsSourced (from_split c qs)
  from_split-IsSourced c [] k g f = tt
  from_split-IsSourced c (q ∷ qs) k g f =
      (draft_final-IsSourced c q k g f.0, from_split-IsSourced c qs k g f.1)

  parts-IsSourced :
      (c : CandidateQuestion) (o : Option SplitQuestions)
      → contains known c.dimension_id ≡ true
      → get c.id by_id ≡ some c
      → ((s : SplitQuestions) → o ≡ some s → All IsFilledQuestion s.questions)
      → All IsSourced (parts c o)
  parts-IsSourced c none k g f = tt
  parts-IsSourced c (some s) k g f = from_split-IsSourced c s.questions k g (f s refl)

  module _ (ws : List Weight) (ss : List SplitQuestions) (counted : All (IsCounted ws) ss) where
    All-if :
        (b : Bool) (xs ys : List FinalQuestion)
        → All IsSourced xs
        → All IsSourced ys
        → All IsSourced (if b then xs else ys)
    All-if true xs ys h k = h
    All-if false xs ys h k = k

    questions_of-IsSourced :
        (c : CandidateQuestion)
        → IsCandidate known c
        → get c.id by_id ≡ some c
        → All IsSourced (questions_of ws ss c)
    questions_of-IsSourced c h g =
        let own : IsSourced (draft_final c c.rationale c.question) = record {
          dimension = h.known;
          source = (c, g, refl);
          rationale = h.rationale;
          question = h.question;
        } in
        let split =
          parts-IsSourced c (split_in ss c.id) h.known g
            (λ s e. (find-IsCounted ws ss c.id s counted e).filled) in
        let own_list = draft_final c c.rationale c.question ∷ [] in
        let split_list = parts c (split_in ss c.id) in
        let is_one = eq_ℤ (weight_in ws c.id) (pos 1) in
        All-if (eq_ℤ (weight_in ws c.id) (pos 0)) [] (if is_one then own_list else split_list) tt
          (All-if is_one own_list split_list (own, tt) split)

    all_questions-IsSourced :
        (cs : List CandidateQuestion)
        → All (IsCandidate known) cs
        → All (λ c. get c.id by_id ≡ some c) cs
        → All IsSourced (all_questions ws ss cs)
    all_questions-IsSourced [] h g = tt
    all_questions-IsSourced (c ∷ cs) h g =
        All-append IsSourced (questions_of ws ss c) (all_questions ws ss cs)
          (questions_of-IsSourced c h.0 g.0) (all_questions-IsSourced cs h.1 g.1)

-- Each candidate is found under its identifier.
get-candidate_by_id :
    (cs : List CandidateQuestion)
    → Distinct (candidate_ids cs)
    → All (λ c. get c.id (candidate_by_id cs) ≡ some c) cs
get-candidate_by_id cs d =
    All-imp (λ c e. get-index (λ x. x.id) c.id cs d ∙ e) cs (find_self (λ x. x.id) cs d)

-- So the numbered questions pass each check of ValidateFinalQuestions that looks at one question.
pub numbered-IsFinal :
    (known : List String) (ws : List Weight) (ss : List SplitQuestions)
    (cs : List CandidateQuestion)
    → All (IsCounted ws) ss
    → Distinct (candidate_ids cs)
    → All (IsCandidate known) cs
    → All (IsFinal known (candidate_by_id cs)) (number_from 0 (all_questions ws ss cs))
numbered-IsFinal known ws ss cs counted distinct each =
    number_from-IsFinal known (candidate_by_id cs) 0 (all_questions ws ss cs) (
      all_questions-IsSourced known (candidate_by_id cs) ws ss counted cs each
        (get-candidate_by_id cs distinct))
