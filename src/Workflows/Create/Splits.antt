-- ===== src/Workflows/Create/Splits.antt =====
-- That the splits which the workflow asks for are the ones that BuildFinalChecklist wants.
use self_imp_bin_eval.Base.{
  ◌<◌, ◌^◌, ◌≡◌, inl, inr, refl, sym, subst, String, Bool, true, false, not, ◌&&◌, eq_of_==, List,
  [], ◌∷◌, All, All-imp, arith, Bool-cases, length, none,
}
use self_imp_bin_eval.Base.Int.{ℤ, pos, leb_ℤ}
use self_imp_bin_eval.Base.Keys.{contains, Distinct, IsFresh, contains_self}
use self_imp_bin_eval.Errors.{Result, ok, >>=-eq-ok, ok_injective}
use self_imp_bin_eval.Evalcore.Types.{
  Dimension, DraftQuestion, CandidateQuestion, Weight, SplitQuestions,
}
use self_imp_bin_eval.Evalcore.Dimensions.{validate_dimensions}
use self_imp_bin_eval.Evalcore.Questions.{
  candidate_ids, validate_candidate_questions, validate_split_questions,
}
use self_imp_bin_eval.Evalcore.Questions.Laws.{validate_candidate_questions_iff}
use self_imp_bin_eval.Evalcore.Questions.Splits.{validate_split_questions_iff}
use self_imp_bin_eval.Evalcore.Weights.{
  weight_ids, validate_weights, validate_projected_final_question_count,
}
use self_imp_bin_eval.Evalcore.Weights.Laws.{
  validate_weights_iff, total_weight, validate_projected_final_question_count_lem,
}
use self_imp_bin_eval.Evalcore.Active.{weight_by_candidate_id, weight_of, build_final_checklist}
use self_imp_bin_eval.Evalcore.Active.Collect.{split_ids}
use self_imp_bin_eval.Evalcore.Active.Expansion.{weight_in, weight_of-eq, IsCounted, IsCovered}
use self_imp_bin_eval.Evalcore.Active.Laws.{AreSplits, final_of, build_final_checklist_iff}
use self_imp_bin_eval.Llm.{Bytes}
use self_imp_bin_eval.Activities.Inputs.{SplitQuestionInput}
use self_imp_bin_eval.Activities.Llm.{Reply, split_question}
use self_imp_bin_eval.Activities.Llm.Laws.{split_question-ok}
use self_imp_bin_eval.Workflows.Create.{
  CreateChecklistInput, Results, limits, split_input, split_inputs, gather_splits,
}

-- Temporal reports a split as the result of the activity only if some attempt of it returned it.
abbrev pub SplitsAreAttempted : Results → Type 0
SplitsAreAttempted results =
    (i : SplitQuestionInput) (s : SplitQuestions)
    → results.split i ≡ ok s
    → (write : (key : String) (body : Bytes) → Result (Unit {0})) × (attempt : ℤ) × (reply : Reply
        (List DraftQuestion))
      × (split_question write attempt i reply ≡ ok s)

module _ (results : Results) (input : CreateChecklistInput) (attempted : SplitsAreAttempted results)
    (ws : List Weight) (distinct : Distinct (weight_ids ws)) where
  abbrev gathered : List CandidateQuestion → Result (List SplitQuestions)
  gathered cs =
      gather_splits results input (split_inputs results input (weight_by_candidate_id ws) cs)

  abbrev is_heavy : String → Bool
  is_heavy k = not (leb_ℤ (weight_in ws k) (pos 1))

  -- The splits are those of the candidates of weight above one, each counted.
  abbrev IsGathered : List CandidateQuestion → List SplitQuestions → Type 0
  IsGathered cs ss =
      All (IsCounted ws) ss
      × Distinct (split_ids ss)
      × ((k : String) → contains (split_ids ss) k ≡ (contains (candidate_ids cs) k && is_heavy k))

  IsGathered-skip :
      (c : CandidateQuestion) (cs : List CandidateQuestion) (ss : List SplitQuestions)
      → leb_ℤ (weight_in ws c.id) (pos 1) ≡ true
      → IsGathered cs ss
      → IsGathered (c ∷ cs) ss
  unfolding contains
  IsGathered-skip c cs ss light h = (h.0, h.1, λ k. ground (arith, h.2 k, eq_of_== c.id k))

  IsGathered-cons :
      (c : CandidateQuestion) (cs : List CandidateQuestion) (s : SplitQuestions)
      (ss : List SplitQuestions)
      → leb_ℤ (weight_in ws c.id) (pos 1) ≡ false
      → s.candidate_question_id ≡ c.id
      → validate_split_questions s (weight_in ws c.id) ≡ ok tt
      → IsFresh (candidate_ids cs) c.id
      → IsGathered cs ss
      → IsGathered (c ∷ cs) (s ∷ ss)
  unfolding contains
  IsGathered-cons c cs s ss heavy e v f h = (
    (
      (validate_split_questions_iff s (weight_in ws s.candidate_question_id)).0
          (subst (λ k. validate_split_questions s (weight_in ws k) ≡ ok tt) (sym e) v),
      h.0,
    ),
    (ground (arith, h.2 s.candidate_question_id, e), h.1),
    λ k. ground (arith, h.2 k, e, eq_of_== c.id k),
  )

  gathered-ok :
      (cs : List CandidateQuestion) (ss : List SplitQuestions)
      → Distinct (candidate_ids cs)
      → gathered cs ≡ ok ss
      → IsGathered cs ss
  unfolding gather_splits split_inputs contains
  gathered-ok [] ss d h = subst (IsGathered []) (ok_injective [] ss h) (tt, tt, λ k. refl)
  gathered-ok (c ∷ cs) ss d h =
      let weight = (weight_of (weight_by_candidate_id ws) c.id).weight in
      let known = weight_of-eq ws c.id distinct in
      elim (Bool-cases (leb_ℤ weight (pos 1))) [
        | inl light ↦
            IsGathered-skip c cs ss (rw known at light) (gathered-ok cs ss d.1 (rw light at h))
        | inr heavy ↦
            let i = split_input results input c (weight_of (weight_by_candidate_id ws) c.id) in
            let (s, e, h1) = >>=-eq-ok (results.split i) _ (rw heavy at h) in
            let (rest, e2, same) = >>=-eq-ok (gathered cs) _ h1 in
            let (write, attempt, reply, run) = attempted i s e in
            let f = split_question-ok write attempt i reply s run in
            subst (IsGathered (c ∷ cs)) (ok_injective (s ∷ rest) ss same) (
              IsGathered-cons c cs s rest (rw known at heavy) f.0 (rw known at f.1) d.0
                (gathered-ok cs rest d.1 e2))
      ]

  covered :
      (cs : List CandidateQuestion) (ss : List SplitQuestions) (all : List CandidateQuestion)
      → All (λ (c : CandidateQuestion). contains (candidate_ids all) c.id ≡ true) cs
      → IsGathered all ss
      → All (IsCovered ws ss) cs
  covered [] ss all h g = tt
  covered (c ∷ cs) ss all h g = (ground (arith, g.2 c.id, h.0), covered cs ss all h.1 g)

  gathered-AreSplits :
      (cs : List CandidateQuestion) (ss : List SplitQuestions)
      → Distinct (candidate_ids cs)
      → gathered cs ≡ ok ss
      → AreSplits cs ws ss
  gathered-AreSplits cs ss d h =
      let g = gathered-ok cs ss d h in
      record {
        known =
            All-imp (λ s e. ground (arith, g.2 s.candidate_question_id, e)) ss
              (contains_self (λ (s : SplitQuestions). s.candidate_question_id) ss g.1);
        counted = g.0;
        distinct = g.1;
        covering = covered cs ss cs (contains_self (λ (c : CandidateQuestion). c.id) cs d) g;
      }

-- Once the workflow has checked the candidates, the weights and the projected count, and the splits
-- it asked for have come back, each returned by some attempt of SplitQuestion, BuildFinalChecklist
-- cannot fail unless all weights are 0: it returns the numbered questions. There are fewer than 2^60
-- weights.
pub build_final_checklist-gather_splits :
    (results : Results) (input : CreateChecklistInput) (ds : List Dimension)
    (cs : List CandidateQuestion) (ws : List Weight) (ss : List SplitQuestions)
    → SplitsAreAttempted results
    → validate_dimensions ds (limits results input) ≡ ok tt
    → validate_candidate_questions ds cs (limits results input) ≡ ok tt
    → validate_weights cs ws (limits results input) ≡ ok tt
    → length ws < 2 ^ 60
    → (validate_projected_final_question_count input.checklist_id ws (limits results input)).1
      ≡ none
    → 0 < total_weight ws
    → gather_splits results input (split_inputs results input (weight_by_candidate_id ws) cs)
      ≡ ok ss
    → build_final_checklist ds cs ws ss (limits results input)
      ≡ ok (final_of ds cs ws ss (limits results input))
build_final_checklist-gather_splits results input ds cs ws ss attempted hd hc hw few projected
      some_weight h =
    let l = limits results input in
    let candidates = (validate_candidate_questions_iff ds cs l).0 hc in
    let weights = (validate_weights_iff cs ws l).0 hw in
    let count =
      validate_projected_final_question_count_lem input.checklist_id ws l weights.shaped few in
    (build_final_checklist_iff ds cs ws ss l (final_of ds cs ws ss l)).1 (
      record {
        dimensions = hd;
        candidates = candidates;
        weights = weights;
        splits =
            gathered-AreSplits results input attempted ws weights.shaped.distinct cs ss
              candidates.distinct h;
        some_weight = some_weight;
        within = count.1.0 projected;
      },
      refl,
    )
