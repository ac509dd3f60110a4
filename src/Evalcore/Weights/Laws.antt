-- ===== src/Evalcore/Weights/Laws.antt =====
-- What the validators of weights accept, the code of what they refuse, and the projected count.
use self_imp_bin_eval.Base.{
  ℕ, ◌+◌, ◌*◌, ◌^◌, ◌≤◌, ◌<◌, ◌≡◌, refl, ◌≢◌, ◌↔◌, String, true, false, List, [], ◌∷◌, length,
  arith, All, none, ap, ◌∙◌, Bool-cases, inl, inr,
}
use self_imp_bin_eval.Base.Int.{
  ℤ, pos, negsuc, pos_part, ◌≤ℤ◌, ◌<ℤ◌, ltb_ℤ, ◌+ℤ◌, wrap64, wrap64-add,
}
use self_imp_bin_eval.Base.Keys.{contains, Distinct, AllNew, Distinct-of_AllNew, AllNew-of_Distinct}
use self_imp_bin_eval.Base.Text.{is_blank}
use self_imp_bin_eval.Errors.{GoError, ok, err, HasCode, semantic_error, invalid_weights}
use self_imp_bin_eval.Evalcore.Types.{ChecklistLimits, with_defaults, CandidateQuestion, Weight}
use self_imp_bin_eval.Evalcore.Questions.{candidate_ids}
use self_imp_bin_eval.Evalcore.Weights.{
  weight_ids, check_weight_shape, validate_weight_shape, check_weighed_candidates,
  check_known_weights, check_all_weighed, validate_weights, projected_from,
  validate_projected_final_question_count,
}

pub record IsShaped (w : Weight) : Type 0 where
  pub id : is_blank w.candidate_question_id ≡ false
  pub rationale : is_blank w.rationale ≡ false
  pub not_negative : pos 0 ≤ℤ w.weight
  pub at_most_four : w.weight ≤ℤ pos 4

pub record AreShaped (ws : List Weight) : Type 0 where
  pub some_given : 0 < length ws
  pub each : All IsShaped ws
  pub distinct : Distinct (weight_ids ws)

abbrev pub IsKnown : List String → ℤ → Weight → Type 0
IsKnown known most w = (contains known w.candidate_question_id ≡ true) × (w.weight ≤ℤ most)

pub record AreWeights (cs : List CandidateQuestion) (ws : List Weight) (l : ChecklistLimits)
    : Type 0 where
  pub limit : (with_defaults l).max_split_count ≤ℤ pos 4
  pub shaped : AreShaped ws
  pub named : All (λ c. c.id ≢ "") cs
  pub distinct : Distinct (candidate_ids cs)
  pub known : All (IsKnown (candidate_ids cs) (with_defaults l).max_split_count) ws
  pub covered : All (λ c. contains (weight_ids ws) c.id ≡ true) cs

check_weight_shape-ok :
    (seen : List String) (ws : List Weight)
    → check_weight_shape seen ws ≡ ok tt
    → All IsShaped ws × AllNew seen (weight_ids ws)
unfolding check_weight_shape
check_weight_shape-ok seen [] h = (tt, tt)
check_weight_shape-ok seen (w ∷ ws) h =
    let ih = check_weight_shape-ok (w.candidate_question_id ∷ seen) ws (ground arith) in
    ((ground arith, ih.0), (ground arith, ih.1))

ok-check_weight_shape :
    (seen : List String) (ws : List Weight)
    → All IsShaped ws
    → AllNew seen (weight_ids ws)
    → check_weight_shape seen ws ≡ ok tt
unfolding check_weight_shape
ok-check_weight_shape seen [] h k = refl
ok-check_weight_shape seen (w ∷ ws) h k =
    ground (arith, ok-check_weight_shape (w.candidate_question_id ∷ seen) ws h.1 k.1)

check_weight_shape-err :
    (seen : List String) (ws : List Weight) (e : GoError)
    → check_weight_shape seen ws ≡ err e
    → HasCode invalid_weights e
unfolding check_weight_shape semantic_error
check_weight_shape-err seen [] e h = cc
check_weight_shape-err seen (w ∷ ws) e h =
    ground (arith, check_weight_shape-err (w.candidate_question_id ∷ seen) ws e)

-- ValidateWeightShape accepts exactly the lists of weights that are not empty, have filled fields
-- and values from 0 to 4, and name each candidate once.
pub validate_weight_shape_iff :
    (ws : List Weight) → (validate_weight_shape ws ≡ ok tt) ↔ AreShaped ws
unfolding validate_weight_shape
validate_weight_shape_iff ws = (
  λ h.
      let (each, new) = check_weight_shape-ok [] ws (ground arith) in
      record {
        some_given = ground arith;
        each = each;
        distinct = Distinct-of_AllNew [] (weight_ids ws) new;
      },
  λ h.
      let new = AllNew-of_Distinct (weight_ids ws) h.distinct in
      let some_given = h.some_given in ground (arith, ok-check_weight_shape [] ws h.each new),
)

check_weighed_candidates-ok :
    (seen : List String) (cs : List CandidateQuestion)
    → check_weighed_candidates seen cs ≡ ok tt
    → All (λ c. c.id ≢ "") cs × AllNew seen (candidate_ids cs)
unfolding check_weighed_candidates
check_weighed_candidates-ok seen [] h = (tt, tt)
check_weighed_candidates-ok seen (c ∷ cs) h =
    let ih = check_weighed_candidates-ok (c.id ∷ seen) cs (ground arith) in
    ((ground arith, ih.0), (ground arith, ih.1))

ok-check_weighed_candidates :
    (seen : List String) (cs : List CandidateQuestion)
    → All (λ c. c.id ≢ "") cs
    → AllNew seen (candidate_ids cs)
    → check_weighed_candidates seen cs ≡ ok tt
unfolding check_weighed_candidates
ok-check_weighed_candidates seen [] h k = refl
ok-check_weighed_candidates seen (c ∷ cs) h k =
    ground (arith, ok-check_weighed_candidates (c.id ∷ seen) cs h.1 k.1)

check_known_weights-ok :
    (known : List String) (most : ℤ) (ws : List Weight)
    → check_known_weights known most ws ≡ ok tt
    → All (IsKnown known most) ws
unfolding check_known_weights
check_known_weights-ok known most [] h = tt
check_known_weights-ok known most (w ∷ ws) h =
    (ground arith, check_known_weights-ok known most ws (ground arith))

ok-check_known_weights :
    (known : List String) (most : ℤ) (ws : List Weight)
    → All (IsKnown known most) ws
    → check_known_weights known most ws ≡ ok tt
unfolding check_known_weights
ok-check_known_weights known most [] h = refl
ok-check_known_weights known most (w ∷ ws) h =
    ground (arith, ok-check_known_weights known most ws h.1)

check_all_weighed-ok :
    (weighed : List String) (cs : List CandidateQuestion)
    → check_all_weighed weighed cs ≡ ok tt
    → All (λ c. contains weighed c.id ≡ true) cs
unfolding check_all_weighed
check_all_weighed-ok weighed [] h = tt
check_all_weighed-ok weighed (c ∷ cs) h =
    (ground arith, check_all_weighed-ok weighed cs (ground arith))

ok-check_all_weighed :
    (weighed : List String) (cs : List CandidateQuestion)
    → All (λ c. contains weighed c.id ≡ true) cs
    → check_all_weighed weighed cs ≡ ok tt
unfolding check_all_weighed
ok-check_all_weighed weighed [] h = refl
ok-check_all_weighed weighed (c ∷ cs) h = ground (arith, ok-check_all_weighed weighed cs h.1)

-- ValidateWeights accepts exactly the well-formed weights that give each of the candidates, which
-- have distinct identifiers, one weight within the split limit, which is at most 4.
pub validate_weights_iff :
    (cs : List CandidateQuestion) (ws : List Weight) (l : ChecklistLimits)
    → (validate_weights cs ws l ≡ ok tt) ↔ AreWeights cs ws l
unfolding validate_weights
validate_weights_iff cs ws l = (
  λ h.
      let most = (with_defaults l).max_split_count in
      let (named, new) = check_weighed_candidates-ok [] cs (ground arith) in
      record {
        limit = ground arith;
        shaped = (validate_weight_shape_iff ws).0 (ground arith);
        named = named;
        distinct = Distinct-of_AllNew [] (candidate_ids cs) new;
        known = check_known_weights-ok (candidate_ids cs) most ws (ground arith);
        covered = check_all_weighed-ok (weight_ids ws) cs (ground arith);
      },
  λ h.
      let most = (with_defaults l).max_split_count in
      let new = AllNew-of_Distinct (candidate_ids cs) h.distinct in
      ground (
        arith,
        h.limit,
        (validate_weight_shape_iff ws).1 h.shaped,
        ok-check_weighed_candidates [] cs h.named new,
        ok-check_known_weights (candidate_ids cs) most ws h.known,
        ok-check_all_weighed (weight_ids ws) cs h.covered,
      ),
)

-- The sum of the weights, as numbers without a bound.
abbrev pub total_weight : List Weight → ℕ
total_weight [] = 0
total_weight (w ∷ ws) = pos_part w.weight + total_weight ws

wrap64-add_positive :
    (n : ℕ) (z : ℤ)
    → pos 0 <ℤ z
    → n + pos_part z < 2 ^ 63
    → wrap64 (pos n +ℤ z) ≡ pos (n + pos_part z)
wrap64-add_positive n (pos m) p h = wrap64-add n m h
wrap64-add_positive n (negsuc m) p h = absurd (omega arith)

projected_from-eq :
    (n : ℕ) (ws : List Weight)
    → n + total_weight ws < 2 ^ 63
    → projected_from (pos n) ws ≡ pos (n + total_weight ws)
unfolding projected_from
projected_from-eq n [] h = ap pos (omega arith)
projected_from-eq n (w ∷ ws) h = elim (Bool-cases (ltb_ℤ (pos 0) w.weight)) [
  | inl e ↦
      rw (e, wrap64-add_positive n w.weight (ground arith) (omega arith))
        (projected_from-eq (n + pos_part w.weight) ws (omega arith) ∙ ap pos (omega arith))
  | inr e ↦ rw e (projected_from-eq n ws (omega arith) ∙ ap pos (ground arith))
]

total_weight-le : (ws : List Weight) → All IsShaped ws → total_weight ws ≤ 4 * length ws
total_weight-le [] h = omega arith
total_weight-le (w ∷ ws) h = ground (arith, total_weight-le ws h.1)

-- Of fewer than 2^60 shaped weights the projected count is the exact sum, for no step of it wraps
-- around, and the call fails exactly if the sum passes the limit.
pub validate_projected_final_question_count_lem :
    (id : String) (ws : List Weight) (l : ChecklistLimits)
    → AreShaped ws
    → length ws < 2 ^ 60
    → let r = validate_projected_final_question_count id ws l in
      (r.0 ≡ pos (total_weight ws))
      × ((r.1 ≡ none) ↔ (pos (total_weight ws) ≤ℤ (with_defaults l).max_final_questions))
unfolding validate_projected_final_question_count
validate_projected_final_question_count_lem id ws l h small =
    let exact : projected_from (pos 0) ws ≡ pos (total_weight ws) =
      projected_from-eq 0 ws (omega (arith, total_weight-le ws h.each)) ∙ ap pos (omega arith) in
    rw exact (ground arith, (λ e. ground arith, λ e. ground arith))

pub validate_weight_shape-err :
    (ws : List Weight) (e : GoError) → validate_weight_shape ws ≡ err e → HasCode invalid_weights e
unfolding validate_weight_shape semantic_error
validate_weight_shape-err ws e h = ground (arith, check_weight_shape-err [] ws e)
