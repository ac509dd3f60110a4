-- ===== src/Evalcore/Active/Expansion.antt =====
-- The loop of BuildFinalChecklist that turns candidates into final questions: what it makes, and
-- how many.
use self_imp_bin_eval.Base.{
  ℕ, ◌+◌, ◌≡◌, refl, ◌⊎◌, inl, inr, ap, subst₂, ◌∙◌, String, true, ◌==◌, eq_of_==, List, [], ◌∷◌,
  ◌++◌, length, length-append, length-map, arith, All, Option, none, some, Option-cases, Bool-cases,
  if◌then◌else◌,
}
use self_imp_bin_eval.Base.Int.{ℤ, pos, pos_part, eq_ℤ, ◌≤ℤ◌}
use self_imp_bin_eval.Base.Keys.{
  contains, find, index_onto, Distinct, get-index, get_or-index, found_or, is_some-find, IsFresh,
}
use self_imp_bin_eval.Errors.{ok, >>=-eq-ok}
use self_imp_bin_eval.Evalcore.Types.{
  CandidateQuestion, DraftQuestion, Weight, SplitQuestions, FinalQuestion,
}
use self_imp_bin_eval.Evalcore.Questions.{candidate_ids}
use self_imp_bin_eval.Evalcore.Questions.Splits.{IsSplit}
use self_imp_bin_eval.Evalcore.Weights.{weight_ids}
use self_imp_bin_eval.Evalcore.Weights.Laws.{IsShaped, total_weight}
use self_imp_bin_eval.Evalcore.Active.{
  Splits, weight_of, weight_by_candidate_id, draft_final, from_split, expand_split, expand,
  expand_all,
}
use self_imp_bin_eval.Evalcore.Active.Collect.{split_ids}

-- The weight that the list gives a candidate, 0 if it gives none.
abbrev pub weight_in : List Weight → String → ℤ
weight_in [] k = pos 0
weight_in (w ∷ ws) k = if w.candidate_question_id == k then w.weight else weight_in ws k

abbrev zero_weight : Weight
zero_weight = record { candidate_question_id = ""; rationale = ""; weight = pos 0 }

weight-found_or :
    (ws : List Weight) (k : String)
    → (found_or
        (λ w. w.candidate_question_id)
        zero_weight
        (find (λ w. w.candidate_question_id) k ws)).weight
      ≡ weight_in ws k
unfolding find
weight-found_or [] k = refl
weight-found_or (w ∷ ws) k = ground (arith, weight-found_or ws k)

pub weight_of-eq :
    (ws : List Weight) (k : String)
    → Distinct (weight_ids ws)
    → (weight_of (weight_by_candidate_id ws) k).weight ≡ weight_in ws k
weight_of-eq ws k d =
    ap (λ (w : Weight). w.weight) (get_or-index (λ w. w.candidate_question_id) zero_weight k ws d)
    ∙ weight-found_or ws k

pub weight_in_bounds :
    (ws : List Weight) (k : String)
    → All IsShaped ws
    → (pos 0 ≤ℤ weight_in ws k) × (weight_in ws k ≤ℤ pos 4)
weight_in_bounds [] k h = (omega arith, omega arith)
weight_in_bounds (w ∷ ws) k h = ground (arith, weight_in_bounds ws k h.1)

-- The split that the list gives a candidate.
abbrev pub split_in : List SplitQuestions → String → Option SplitQuestions
split_in ss k = find (λ s. s.candidate_question_id) k ss

abbrev pub parts : CandidateQuestion → Option SplitQuestions → List FinalQuestion
parts c none = []
parts c (some s) = from_split c s.questions

-- The questions that stand for a candidate: none at weight 0, its own text at weight 1, and those
-- of its split above.
abbrev pub questions_of : List Weight → List SplitQuestions → CandidateQuestion → List FinalQuestion
questions_of ws ss c =
    if eq_ℤ (weight_in ws c.id) (pos 0)
    then []
    else if eq_ℤ (weight_in ws c.id) (pos 1)
    then draft_final c c.rationale c.question ∷ []
    else parts c (split_in ss c.id)

abbrev pub all_questions :
    List Weight → List SplitQuestions → List CandidateQuestion → List FinalQuestion
all_questions ws ss [] = []
all_questions ws ss (c ∷ cs) = questions_of ws ss c ++ all_questions ws ss cs

-- A weight above one comes with a split.
abbrev pub IsCovered : List Weight → List SplitQuestions → CandidateQuestion → Type 0
IsCovered ws ss c = (weight_in ws c.id ≤ℤ pos 1) ⊎ (contains (split_ids ss) c.id ≡ true)

abbrev pub split_by_id : List SplitQuestions → Splits
split_by_id = index_onto (λ s. s.candidate_question_id) []

module _ (ws : List Weight) (ss : List SplitQuestions) (shaped : All IsShaped ws)
    (distinct : Distinct (weight_ids ws)) (distinct_splits : Distinct (split_ids ss)) where
  expand-eq :
      (c : CandidateQuestion)
      → expand (weight_by_candidate_id ws) (split_by_id ss) c ≡ (
          if eq_ℤ (weight_in ws c.id) (pos 0)
          then ok []
          else if eq_ℤ (weight_in ws c.id) (pos 1)
          then ok (draft_final c c.rationale c.question ∷ [])
          else expand_split c (split_in ss c.id))
  unfolding expand
  expand-eq c = rw (
    weight_of-eq ws c.id distinct,
    get-index (λ s. s.candidate_question_id) c.id ss distinct_splits,
  )

  expand-ok :
      (c : CandidateQuestion) (qs : List FinalQuestion)
      → expand (weight_by_candidate_id ws) (split_by_id ss) c ≡ ok qs
      → IsCovered ws ss c × (qs ≡ questions_of ws ss c)
  unfolding expand_split
  expand-ok c qs h = ground (
    arith,
    expand-eq c,
    weight_in_bounds ws c.id shaped,
    is_some-find (λ (s : SplitQuestions). s.candidate_question_id) c.id ss,
  )

  ok-expand :
      (c : CandidateQuestion)
      → IsCovered ws ss c
      → expand (weight_by_candidate_id ws) (split_by_id ss) c ≡ ok (questions_of ws ss c)
  unfolding expand_split
  ok-expand c h = ground (
    arith,
    expand-eq c,
    weight_in_bounds ws c.id shaped,
    is_some-find (λ (s : SplitQuestions). s.candidate_question_id) c.id ss,
  )

  pub expand_all-ok :
      (cs : List CandidateQuestion) (qs : List FinalQuestion)
      → expand_all (weight_by_candidate_id ws) (split_by_id ss) cs ≡ ok qs
      → All (IsCovered ws ss) cs × (qs ≡ all_questions ws ss cs)
  unfolding expand_all
  expand_all-ok [] qs h = (tt, ground arith)
  expand_all-ok (c ∷ cs) qs h =
      let (first, e, rest) = >>=-eq-ok _ _ h in
      let (more, e', same) = >>=-eq-ok _ _ rest in
      let here = expand-ok c first e in
      let later = expand_all-ok cs more e' in ((here.0, later.0), cc)

  pub ok-expand_all :
      (cs : List CandidateQuestion)
      → All (IsCovered ws ss) cs
      → expand_all (weight_by_candidate_id ws) (split_by_id ss) cs ≡ ok (all_questions ws ss cs)
  unfolding expand_all
  ok-expand_all [] h = refl
  ok-expand_all (c ∷ cs) h = rw (ok-expand c h.0) (rw (ok-expand_all cs h.1))

-- The weights that the candidates have.
abbrev pub total_in : List Weight → List CandidateQuestion → ℕ
total_in ws [] = 0
total_in ws (c ∷ cs) = pos_part (weight_in ws c.id) + total_in ws cs

-- A split has as many questions as the weight says.
abbrev pub IsCounted : List Weight → SplitQuestions → Type 0
IsCounted ws s = IsSplit s (weight_in ws s.candidate_question_id)

pub find-IsCounted :
    (ws : List Weight) (ss : List SplitQuestions) (k : String) (s : SplitQuestions)
    → All (IsCounted ws) ss
    → split_in ss k ≡ some s
    → IsSplit s (weight_in ws k)
unfolding find
find-IsCounted ws [] k s h e = absurd (ground arith)
find-IsCounted ws (x ∷ ss) k s h e = elim (Bool-cases (x.candidate_question_id == k)) [
  | inl same ↦
      let found : x ≡ s = cc (rw same at e) in
      subst₂ (λ t j. IsSplit t (weight_in ws j)) found (eq_of_== _ _ same) h.0
  | inr differ ↦ find-IsCounted ws ss k s h.1 (rw differ at e)
]

length-questions_of :
    (ws : List Weight) (ss : List SplitQuestions) (c : CandidateQuestion)
    → All IsShaped ws
    → All (IsCounted ws) ss
    → IsCovered ws ss c
    → length (questions_of ws ss c) ≡ pos_part (weight_in ws c.id)
length-questions_of ws ss c h k v =
    let covered = is_some-find (λ (s : SplitQuestions). s.candidate_question_id) c.id ss in
    let bounds = weight_in_bounds ws c.id h in
    elim (Option-cases (split_in ss c.id)) [
      | inl missing ↦ ground arith
      | inr (s, found) ↦
          let split = find-IsCounted ws ss c.id s k found in
          ground (
            arith,
            split.counted,
            length-map (λ (q : DraftQuestion). draft_final c q.rationale q.question) s.questions,
          )
    ]

pub length-all_questions :
    (ws : List Weight) (ss : List SplitQuestions) (cs : List CandidateQuestion)
    → All IsShaped ws
    → All (IsCounted ws) ss
    → All (IsCovered ws ss) cs
    → length (all_questions ws ss cs) ≡ total_in ws cs
length-all_questions ws ss [] h k v = refl
length-all_questions ws ss (c ∷ cs) h k v = omega (
  arith,
  length-append (questions_of ws ss c) (all_questions ws ss cs),
  length-questions_of ws ss c h k v.0,
  length-all_questions ws ss cs h k v.1,
)

total_in-nil : (cs : List CandidateQuestion) → total_in [] cs ≡ 0
total_in-nil [] = refl
total_in-nil (c ∷ cs) = omega (arith, total_in-nil cs)

total_in-fresh :
    (w : Weight) (ws : List Weight) (cs : List CandidateQuestion)
    → IsFresh (candidate_ids cs) w.candidate_question_id
    → total_in (w ∷ ws) cs ≡ total_in ws cs
unfolding contains
total_in-fresh w ws [] f = refl
total_in-fresh w ws (c ∷ cs) f = ground (arith, total_in-fresh w ws cs)

weight_in-fresh :
    (ws : List Weight) (k : String) → IsFresh (weight_ids ws) k → weight_in ws k ≡ pos 0
unfolding contains
weight_in-fresh [] k f = refl
weight_in-fresh (w ∷ ws) k f = ground (arith, weight_in-fresh ws k)

-- One more weight for a candidate that had none adds to the total.
total_in-cons :
    (w : Weight) (ws : List Weight) (cs : List CandidateQuestion)
    → weight_in ws w.candidate_question_id ≡ pos 0
    → Distinct (candidate_ids cs)
    → contains (candidate_ids cs) w.candidate_question_id ≡ true
    → total_in (w ∷ ws) cs ≡ pos_part w.weight + total_in ws cs
unfolding contains
total_in-cons w ws [] z d m = cc
total_in-cons w ws (c ∷ cs) z d m =
    ground (arith, total_in-fresh w ws cs, total_in-cons w ws cs z d.1)

-- Where each weight names one of the candidates, and no two the same one, the weights that the
-- candidates have add up to the weights in the list.
pub total_in-eq-total_weight :
    (ws : List Weight) (cs : List CandidateQuestion)
    → Distinct (candidate_ids cs)
    → Distinct (weight_ids ws)
    → All (λ w. contains (candidate_ids cs) w.candidate_question_id ≡ true) ws
    → total_in ws cs ≡ total_weight ws
total_in-eq-total_weight [] cs d e k = total_in-nil cs
total_in-eq-total_weight (w ∷ ws) cs d e k = omega (
  arith,
  total_in-cons w ws cs (weight_in-fresh ws w.candidate_question_id e.0) d k.0,
  total_in-eq-total_weight ws cs d e.1 k.1,
)
