-- ===== src/Evalcore/Active/Laws.antt =====
-- BuildFinalChecklist against a description of what it accepts and what it makes.
use self_imp_bin_eval.Base.{
  ◌<◌, ◌≡◌, ◌↔◌, ◌∙◌, true, List, [], ◌∷◌, length, arith, All, All-imp, ap, sym, subst,
}
use self_imp_bin_eval.Base.Int.{pos, ◌≤ℤ◌}
use self_imp_bin_eval.Base.Keys.{
  contains, get, Distinct, get-index, is_some, is_some-find, AllNew-of_Distinct, Distinct-of_AllNew,
}
use self_imp_bin_eval.Errors.{ok, >>=-eq-ok}
use self_imp_bin_eval.Evalcore.Types.{
  ChecklistLimits, with_defaults, Dimension, CandidateQuestion, Weight, SplitQuestions,
  FinalQuestion,
}
use self_imp_bin_eval.Evalcore.Types.Limits.{with_defaults_idem}
use self_imp_bin_eval.Evalcore.Dimensions.{dimension_ids, validate_dimensions}
use self_imp_bin_eval.Evalcore.Questions.{candidate_ids, validate_candidate_questions}
use self_imp_bin_eval.Evalcore.Questions.Laws.{AreCandidates, validate_candidate_questions_iff}
use self_imp_bin_eval.Evalcore.Weights.{weight_ids, validate_weights}
use self_imp_bin_eval.Evalcore.Weights.Laws.{AreWeights, validate_weights_iff, total_weight}
use self_imp_bin_eval.Evalcore.FinalQuestions.{candidate_by_id, validate_final_questions}
use self_imp_bin_eval.Evalcore.FinalQuestions.Laws.{AreFinal, validate_final_questions_iff}
use self_imp_bin_eval.Evalcore.Ids.{number_from}
use self_imp_bin_eval.Evalcore.Ids.Laws.{number_from-Distinct, length-number_from}
use self_imp_bin_eval.Evalcore.Active.{
  weight_by_candidate_id, collect_splits, expand_all, build_final_checklist,
}
use self_imp_bin_eval.Evalcore.Active.Collect.{
  split_ids, IsSplitOf, collect_splits-ok, ok-collect_splits,
}
use self_imp_bin_eval.Evalcore.Active.Expansion.{
  weight_of-eq, all_questions, IsCovered, IsCounted, expand_all-ok, ok-expand_all,
  length-all_questions, total_in-eq-total_weight,
}
use self_imp_bin_eval.Evalcore.Active.Sources.{numbered-IsFinal}

-- The splits belong to different candidates of weight above one, each has as many filled questions
-- as the weight says, and each candidate of such a weight has one.
pub record AreSplits (cs : List CandidateQuestion) (ws : List Weight) (ss : List SplitQuestions)
    : Type 0 where
  pub known : All (λ s. contains (candidate_ids cs) s.candidate_question_id ≡ true) ss
  pub counted : All (IsCounted ws) ss
  pub distinct : Distinct (split_ids ss)
  pub covering : All (IsCovered ws ss) cs

-- All that BuildFinalChecklist asks of its input.
pub record IsBuildable (ds : List Dimension) (cs : List CandidateQuestion) (ws : List Weight)
    (ss : List SplitQuestions) (l : ChecklistLimits) : Type 0 where
  pub dimensions : validate_dimensions ds l ≡ ok tt
  pub candidates : AreCandidates ds cs l
  pub weights : AreWeights cs ws l
  pub splits : AreSplits cs ws ss
  pub some_weight : 0 < total_weight ws
  pub within : pos (total_weight ws) ≤ℤ (with_defaults l).max_final_questions

IsSplitOf-iff :
    (cs : List CandidateQuestion) (ws : List Weight) (s : SplitQuestions)
    → Distinct (candidate_ids cs)
    → Distinct (weight_ids ws)
    → IsSplitOf (candidate_by_id cs) (weight_by_candidate_id ws) s
      ↔ ((contains (candidate_ids cs) s.candidate_question_id ≡ true) × IsCounted ws s)
IsSplitOf-iff cs ws s d e =
    let id = s.candidate_question_id in
    let known : is_some (get id (candidate_by_id cs)) ≡ contains (candidate_ids cs) id =
      ap is_some (get-index (λ c. c.id) id cs d) ∙ is_some-find (λ c. c.id) id cs in
    let weight = weight_of-eq ws id e in
    (λ h. (sym known ∙ h.0, rw weight at h.1), λ h. (known ∙ h.0, rw weight h.1))

All-IsSplitOf :
    (cs : List CandidateQuestion) (ws : List Weight) (ss : List SplitQuestions)
    → Distinct (candidate_ids cs)
    → Distinct (weight_ids ws)
    → All (IsSplitOf (candidate_by_id cs) (weight_by_candidate_id ws)) ss ↔ (
        All (λ s. contains (candidate_ids cs) s.candidate_question_id ≡ true) ss
        × All (IsCounted ws) ss)
All-IsSplitOf cs ws [] d e = (λ h. (tt, tt), λ h. tt)
All-IsSplitOf cs ws (s ∷ ss) d e =
    let here = IsSplitOf-iff cs ws s d e in
    let later = All-IsSplitOf cs ws ss d e in
    (
      λ h. let k = here.0 h.0 in let m = later.0 h.1 in ((k.0, m.0), (k.1, m.1)),
      λ h. (here.1 (h.0.0, h.1.0), later.1 (h.0.1, h.1.1)),
    )

module _ (l : ChecklistLimits) where
  -- The limits are filled in once more by each validator, to no effect.
  validate_dimensions-with_defaults :
      (ds : List Dimension) → validate_dimensions ds (with_defaults l) ≡ validate_dimensions ds l
  unfolding validate_dimensions
  validate_dimensions-with_defaults ds = rw (with_defaults_idem l).1

  validate_candidate_questions-with_defaults :
      (ds : List Dimension) (cs : List CandidateQuestion)
      → validate_candidate_questions ds cs (with_defaults l) ≡ validate_candidate_questions ds cs l
  unfolding validate_candidate_questions
  validate_candidate_questions-with_defaults ds cs = rw (with_defaults_idem l).1

  validate_weights-with_defaults :
      (cs : List CandidateQuestion) (ws : List Weight)
      → validate_weights cs ws (with_defaults l) ≡ validate_weights cs ws l
  unfolding validate_weights
  validate_weights-with_defaults cs ws = rw (with_defaults_idem l).1

  validate_final_questions-with_defaults :
      (ds : List Dimension) (cs : List CandidateQuestion) (qs : List FinalQuestion)
      → validate_final_questions ds cs qs (with_defaults l) ≡ validate_final_questions ds cs qs l
  unfolding validate_final_questions
  validate_final_questions-with_defaults ds cs qs = rw (with_defaults_idem l).1

module _ (ds : List Dimension) (cs : List CandidateQuestion) (ws : List Weight)
    (ss : List SplitQuestions) (l : ChecklistLimits) where
  -- The questions that stand for the candidates, numbered from 1.
  abbrev pub final_of : List FinalQuestion
  final_of = number_from 0 (all_questions ws ss cs)

  length-final : IsBuildable ds cs ws ss l → length (all_questions ws ss cs) ≡ total_weight ws
  length-final h =
      length-all_questions ws ss cs h.weights.shaped.each h.splits.counted h.splits.covering
      ∙ total_in-eq-total_weight ws cs h.candidates.distinct h.weights.shaped.distinct
          (All-imp (λ w k. k.0) ws h.weights.known)

  final_of-AreFinal : IsBuildable ds cs ws ss l → AreFinal ds cs final_of l
  final_of-AreFinal h =
      let n = length-final h in
      let m = length-number_from 0 (all_questions ws ss cs) in
      record {
        some_given = omega (arith, h.some_weight);
        within = omega (arith, h.within);
        each =
            numbered-IsFinal (dimension_ids ds) ws ss cs h.splits.counted h.candidates.distinct
              h.candidates.each;
        distinct = (number_from-Distinct 0 (all_questions ws ss cs)).0;
        distinct_ordinals = (number_from-Distinct 0 (all_questions ws ss cs)).1;
      }

  ok-build_final_checklist :
      IsBuildable ds cs ws ss l → build_final_checklist ds cs ws ss l ≡ ok final_of
  unfolding build_final_checklist
  ok-build_final_checklist h =
      let splits =
        (All-IsSplitOf cs ws ss h.candidates.distinct h.weights.shaped.distinct).1
          (h.splits.known, h.splits.counted) in
      let n = length-final h in
      ground (
        arith,
        n,
        h.within,
        h.some_weight,
        validate_dimensions-with_defaults l ds ∙ h.dimensions,
        validate_candidate_questions-with_defaults l ds cs
            ∙ (validate_candidate_questions_iff ds cs l).1 h.candidates,
        validate_weights-with_defaults l cs ws ∙ (validate_weights_iff cs ws l).1 h.weights,
        ok-collect_splits (candidate_by_id cs) (weight_by_candidate_id ws) [] ss splits
            (AllNew-of_Distinct (split_ids ss) h.splits.distinct),
        ok-expand_all ws ss h.weights.shaped.each h.weights.shaped.distinct h.splits.distinct cs
            h.splits.covering,
        validate_final_questions-with_defaults l ds cs final_of
            ∙ (validate_final_questions_iff ds cs final_of l).1 (final_of-AreFinal h),
      )

  build_final_checklist-ok :
      (qs : List FinalQuestion)
      → build_final_checklist ds cs ws ss l ≡ ok qs
      → IsBuildable ds cs ws ss l × (qs ≡ final_of)
  unfolding build_final_checklist
  build_final_checklist-ok qs h =
      let (_, e1, h1) = >>=-eq-ok (validate_dimensions ds (with_defaults l)) _ h in
      let (_, e2, h2) = >>=-eq-ok (validate_candidate_questions ds cs (with_defaults l)) _ h1 in
      let (_, e3, h3) = >>=-eq-ok (validate_weights cs ws (with_defaults l)) _ h2 in
      let (by_id, e4, h4) =
        >>=-eq-ok (collect_splits (candidate_by_id cs) (weight_by_candidate_id ws) [] ss) _ h3 in
      let (final, e5, h5) = >>=-eq-ok (expand_all (weight_by_candidate_id ws) by_id cs) _ h4 in
      let candidates =
        (validate_candidate_questions_iff ds cs l).0
          (sym (validate_candidate_questions-with_defaults l ds cs) ∙ e2) in
      let weights =
        (validate_weights_iff cs ws l).0 (sym (validate_weights-with_defaults l cs ws) ∙ e3) in
      let collected =
        collect_splits-ok (candidate_by_id cs) (weight_by_candidate_id ws) [] by_id ss e4 in
      let splits =
        (All-IsSplitOf cs ws ss candidates.distinct weights.shaped.distinct).0 collected.0 in
      let distinct = Distinct-of_AllNew [] (split_ids ss) collected.1 in
      let expanded =
        expand_all-ok ws ss weights.shaped.each weights.shaped.distinct distinct cs final
          (subst (λ m. expand_all (weight_by_candidate_id ws) m cs ≡ ok final) collected.2 e5) in
      let count =
        ap length expanded.1
        ∙ length-all_questions ws ss cs weights.shaped.each splits.1 expanded.0
        ∙ total_in-eq-total_weight ws cs candidates.distinct weights.shaped.distinct
            (All-imp (λ w k. k.0) ws weights.known) in
      (
        record {
          dimensions = sym (validate_dimensions-with_defaults l ds) ∙ e1;
          candidates = candidates;
          weights = weights;
          splits = record {
            known = splits.0;
            counted = splits.1;
            distinct = distinct;
            covering = expanded.0;
          };
          some_weight = ground (arith, count);
          within = ground (arith, count);
        },
        ground (arith, expanded.1),
      )

  -- BuildFinalChecklist succeeds exactly on input that is buildable: valid dimensions, candidates
  -- and weights, one filled split of the right size for each candidate of weight above one and no
  -- other split, and a total weight that is positive and within the limit. What it returns then is
  -- the questions that stand for the candidates, in their order, numbered from 1.
  pub build_final_checklist_iff :
      (qs : List FinalQuestion)
      → (build_final_checklist ds cs ws ss l ≡ ok qs)
        ↔ (IsBuildable ds cs ws ss l × (qs ≡ final_of))
  build_final_checklist_iff qs =
      (build_final_checklist-ok qs, λ h. ok-build_final_checklist h.0 ∙ ap ok (sym h.1))

  pub build_final_checklist-IsValid :
      (qs : List FinalQuestion)
      → build_final_checklist ds cs ws ss l ≡ ok qs
      → (length qs ≡ total_weight ws) × (validate_final_questions ds cs qs l ≡ ok tt)
  build_final_checklist-IsValid qs h =
      let (b, same) = build_final_checklist-ok qs h in
      (
        ap length same ∙ length-number_from 0 (all_questions ws ss cs) ∙ length-final b,
        (validate_final_questions_iff ds cs qs l).1
            (subst (λ q. AreFinal ds cs q l) (sym same) (final_of-AreFinal b)),
      )
