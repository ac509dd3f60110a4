-- ===== src/Evalcore/Aggregate/Derived.antt =====
-- The judgments that AggregateJudgments derives, and their score.
use self_imp_bin_eval.Base.{
  ℕ, ◌+◌, ◌*◌, ◌/◌, ◌<◌, ◌≤◌, ◌≡◌, ◌⊎◌, refl, sym, ap, subst, String, true, false, List, [], ◌∷◌,
  if◌then◌else◌, ltb, All, All-imp, map, length, map-eq_All, All-family, arith, inl, inr,
  length-map,
}
use self_imp_bin_eval.Base.Int.{ℤ, pos, negsuc}
use self_imp_bin_eval.Base.Keys.{contains, Distinct, contains_self}
use self_imp_bin_eval.Base.Text.{is_blank}
use self_imp_bin_eval.Errors.{ok}
use self_imp_bin_eval.Evalcore.Types.{
  FinalQuestion, RunJudgment, answer_yes, answer_no, validate_evaluation_runs,
}
use self_imp_bin_eval.Evalcore.FinalQuestions.{question_ids}
use self_imp_bin_eval.Evalcore.Judgments.{judgment_ids}
use self_imp_bin_eval.Evalcore.Judgments.Laws.{AreJudgments, IsShaped}
use self_imp_bin_eval.Evalcore.Score.{score_checklist, judgment_by_id}
use self_imp_bin_eval.Evalcore.Score.Laws.{score_of, score_checklist_iff}
use self_imp_bin_eval.Evalcore.Aggregate.{ByRunAndQuestion, aggregate_question, derived_judgment}
use self_imp_bin_eval.Evalcore.Aggregate.Runs.{run_of}
use self_imp_bin_eval.Evalcore.Aggregate.Counting.{
  yes_votes, no_votes, majority, aggregated_of, derived_of, AreRunJudgments, aggregate_question-eq,
}

pub validate_own_runs :
    (runs : ℤ) → validate_evaluation_runs runs runs ≡ ok tt → (k : ℕ) × (runs ≡ pos (2 * k + 1))
unfolding validate_evaluation_runs
validate_own_runs (pos n) h = (n / 2, ground arith)
validate_own_runs (negsuc n) h = absurd (ground arith)

pub ok-validate_own_runs :
    (k : ℕ) → validate_evaluation_runs (pos (2 * k + 1)) (pos (2 * k + 1)) ≡ ok tt
unfolding validate_evaluation_runs
ok-validate_own_runs k = ground arith

pub judgment_ids-derived_of :
    (js : List RunJudgment) (n : ℕ) (qs : List FinalQuestion)
    → judgment_ids (derived_of js n qs) ≡ question_ids qs
judgment_ids-derived_of js n [] = refl
judgment_ids-derived_of js n (q ∷ qs) = ap (λ ids. q.id ∷ ids) (judgment_ids-derived_of js n qs)

evidence_given : is_blank "derived from repeated judgments" ≡ false
unfolding is_blank
evidence_given = refl

majority-answer : (y n : ℕ) → (majority y n ≡ answer_yes) ⊎ (majority y n ≡ answer_no)
majority-answer y n =
    elim (ltb n y)
      as (λ b.
        ((if b then answer_yes else answer_no) ≡ answer_yes)
        ⊎ ((if b then answer_yes else answer_no) ≡ answer_no)) [
          | true ↦ inl refl
          | false ↦ inr refl
        ]

derived_of-IsShaped :
    (js : List RunJudgment) (n : ℕ) (qs : List FinalQuestion)
    → All (λ q. is_blank q.id ≡ false) qs
    → All IsShaped (derived_of js n qs)
derived_of-IsShaped js n [] h = tt
derived_of-IsShaped js n (q ∷ qs) h = (
  record {
    id = h.0;
    evidence = evidence_given;
    answer = majority-answer (yes_votes js q.id 1 n) (no_votes js q.id 1 n);
  },
  derived_of-IsShaped js n qs h.1,
)

derived_of-known :
    (ids : List String) (js : List RunJudgment) (n : ℕ) (qs : List FinalQuestion)
    → All (λ q. contains ids q.id ≡ true) qs
    → All (λ j. contains ids j.question_id ≡ true) (derived_of js n qs)
derived_of-known ids js n [] h = tt
derived_of-known ids js n (q ∷ qs) h = (h.0, derived_of-known ids js n qs h.1)

-- The judgments that AggregateJudgments derives are valid themselves.
derived_of-AreJudgments :
    (qs : List FinalQuestion) (js : List RunJudgment) (n : ℕ)
    → 0 < length qs
    → All (λ q. is_blank q.id ≡ false) qs
    → Distinct (question_ids qs)
    → AreJudgments qs (derived_of js n qs)
derived_of-AreJudgments qs js n some_asked named distinct =
    let ids = judgment_ids-derived_of js n qs in
    let own = contains_self (λ (q : FinalQuestion). q.id) qs distinct in
    record {
      shaped = record {
        some_given = omega (
          arith,
          some_asked,
          length-map (aggregated_of js n) qs,
          length-map derived_judgment (map (aggregated_of js n) qs),
        );
        each = derived_of-IsShaped js n qs named;
        distinct = subst Distinct (sym ids) distinct;
      };
      named = named;
      some_asked = some_asked;
      distinct = distinct;
      known = derived_of-known (question_ids qs) js n qs own;
      covered = subst (λ is. All (λ q. contains is q.id ≡ true) qs) (sym ids) own;
    }

module _ (qs : List FinalQuestion) (js : List RunJudgment) (k : ℕ)
    (h : AreRunJudgments qs js (2 * k + 1)) where
  pub derived-score :
      score_checklist qs (derived_of js (2 * k + 1) qs)
      ≡ ok (score_of qs (derived_of js (2 * k + 1) qs))
  derived-score =
      let first = h.each 1 (omega arith) (omega arith) in
      (score_checklist_iff qs (derived_of js (2 * k + 1) qs) _).1 (
        derived_of-AreJudgments qs js (2 * k + 1) first.some_asked first.named first.distinct,
        refl,
      )

  pub aggregate_questions-eq :
      (m : ByRunAndQuestion)
      → ((i : ℕ) → 1 ≤ i → i < 1 + (2 * k + 1) → m i ≡ judgment_by_id (run_of (pos i) js))
      → map (aggregate_question m (2 * k + 1)) qs ≡ map (aggregated_of js (2 * k + 1)) qs
  aggregate_questions-eq m e =
      let covered =
        All-family {I = (i : ℕ) × (1 ≤ i) × (i < 1 + (2 * k + 1))}
          (λ i (q : FinalQuestion). contains (judgment_ids (run_of (pos i.0) js)) q.id ≡ true) qs
          (λ i. (h.each i.0 i.1 i.2).covered) in
      map-eq_All _ _ qs
        (All-imp (λ q c. aggregate_question-eq qs js k h m q e (λ i a b. c (i, a, b))) qs covered)
