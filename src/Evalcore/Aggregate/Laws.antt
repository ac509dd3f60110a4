-- ===== src/Evalcore/Aggregate/Laws.antt =====
-- What AggregateJudgments accepts and returns.
use self_imp_bin_eval.Base.{
  ℕ, ◌+◌, ◌*◌, ◌≡◌, ◌↔◌, refl, sym, ap, subst, ◌∙◌, String, true, false, List, [], ◌∷◌,
  if◌then◌else◌, ◌==◌, ltb, All, All-imp, map, length, All-map, ==_refl, arith,
}
use self_imp_bin_eval.Base.Int.{ℤ, pos}
use self_imp_bin_eval.Errors.{ok, >>=-eq-ok, ok_injective}
use self_imp_bin_eval.Evalcore.Types.{
  FinalQuestion, Judgment, RunJudgment, AggregationResult, answer_yes, answer_no,
  validate_evaluation_runs,
}
use self_imp_bin_eval.Evalcore.Judgments.Laws.{AreJudgments}
use self_imp_bin_eval.Base.Keys.{Distinct, find_self}
use self_imp_bin_eval.Evalcore.FinalQuestions.{question_ids}
use self_imp_bin_eval.Evalcore.Score.Laws.{is_satisfied, satisfied, failed}
use self_imp_bin_eval.Evalcore.Score.{judgment_by_id}
use self_imp_bin_eval.Evalcore.Aggregate.{
  group_runs, index_runs, derived_judgment, aggregate_judgments,
}
use self_imp_bin_eval.Evalcore.Aggregate.Runs.{
  group_runs-ok, ok-group_runs, index_runs-ok, ok-index_runs,
}
use self_imp_bin_eval.Evalcore.Aggregate.Counting.{
  yes_votes, no_votes, majority, no_is_not_yes, aggregated_of, derived_of, aggregation_of,
  AreRunJudgments,
}
use self_imp_bin_eval.Evalcore.Aggregate.Derived.{
  judgment_ids-derived_of, validate_own_runs, ok-validate_own_runs, derived-score,
  aggregate_questions-eq,
}

ok-aggregate_judgments :
    (qs : List FinalQuestion) (js : List RunJudgment) (k : ℕ)
    → AreRunJudgments qs js (2 * k + 1)
    → aggregate_judgments qs js (pos (2 * k + 1)) ≡ ok (aggregation_of js (2 * k + 1) qs)
unfolding aggregate_judgments
ok-aggregate_judgments qs js k h =
    let n = 2 * k + 1 in
    let (by_run, grouped, same) = ok-group_runs (pos n) (λ i. []) js h.in_range in
    let (indexed, e, are_indexed, _) =
      ok-index_runs qs by_run (λ i. []) 1 n
        (λ i a b. subst (AreJudgments qs) (sym (same (pos i))) (h.each i a b)) in
    let questions =
      aggregate_questions-eq qs js k h indexed
        (λ i a b. are_indexed i a b ∙ ap judgment_by_id (same (pos i))) in
    rw (ok-validate_own_runs k, grouped, e, questions, derived-score qs js k h) refl

runs-odd :
    (qs : List FinalQuestion) (js : List RunJudgment) (runs : ℤ) (r : AggregationResult)
    → aggregate_judgments qs js runs ≡ ok r
    → (k : ℕ) × (runs ≡ pos (2 * k + 1))
unfolding aggregate_judgments
runs-odd qs js runs r h =
    validate_own_runs runs (>>=-eq-ok (validate_evaluation_runs runs runs) _ h).1

aggregate_judgments-ok :
    (qs : List FinalQuestion) (js : List RunJudgment) (k : ℕ) (r : AggregationResult)
    → aggregate_judgments qs js (pos (2 * k + 1)) ≡ ok r
    → AreRunJudgments qs js (2 * k + 1)
unfolding aggregate_judgments
aggregate_judgments-ok qs js k r h =
    let n = 2 * k + 1 in
    let (_, _, h1) = >>=-eq-ok (validate_evaluation_runs (pos n) (pos n)) _ h in
    let (by_run, e2, h2) = >>=-eq-ok (group_runs (pos n) (λ i. []) js) _ h1 in
    let (indexed, e3, _) = >>=-eq-ok (index_runs qs by_run (λ i. []) 1 n) _ h2 in
    let (in_range, same) = group_runs-ok (pos n) (λ i. []) by_run js e2 in
    let (valid, _, _) = index_runs-ok qs by_run (λ i. []) indexed 1 n e3 in
    record {
      in_range = in_range;
      each = λ i a b. subst (AreJudgments qs) (same (pos i)) (valid i a b);
    }

-- AggregateJudgments succeeds exactly where the number of runs is odd and positive, each judgment
-- belongs to one of the runs, and the judgments of each run are valid for the questions: its last
-- step, the score of what it derived, never fails then. It returns for each question, in order,
-- what the runs say in their order and the answer that more of them give, yes or no, and the score
-- of those answers.
pub aggregate_judgments_iff :
    (qs : List FinalQuestion) (js : List RunJudgment) (runs : ℤ) (r : AggregationResult)
    → (aggregate_judgments qs js runs ≡ ok r) ↔ (
        (k : ℕ) × (runs ≡ pos (2 * k + 1))
        × AreRunJudgments qs js (2 * k + 1)
        × (r ≡ aggregation_of js (2 * k + 1) qs))
aggregate_judgments_iff qs js runs r = (
  λ h.
      let (k, odd) = runs-odd qs js runs r h in
      let made = rw odd at h in
      let valid = aggregate_judgments-ok qs js k r made in
      (k, odd, valid, ok_injective _ _ (sym made ∙ ok-aggregate_judgments qs js k valid)),
  λ (k, odd, valid, same). rw (odd, same) (ok-aggregate_judgments qs js k valid),
)

-- The number of questions that more runs answer with yes than with no, and the identifiers of the
-- others in order.
abbrev pub majority_points : List RunJudgment → ℕ → List FinalQuestion → ℕ
majority_points js n [] = 0
majority_points js n (q ∷ qs) =
    (if ltb (no_votes js q.id 1 n) (yes_votes js q.id 1 n) then 1 else 0) + majority_points js n qs

abbrev pub minority_ids : List RunJudgment → ℕ → List FinalQuestion → List String
minority_ids js n [] = []
minority_ids js n (q ∷ qs) =
    if ltb (no_votes js q.id 1 n) (yes_votes js q.id 1 n)
    then minority_ids js n qs
    else q.id ∷ minority_ids js n qs

abbrev IsDecided : List RunJudgment → ℕ → List Judgment → FinalQuestion → Type 0
IsDecided js n derived q =
    is_satisfied derived q.id ≡ ltb (no_votes js q.id 1 n) (yes_votes js q.id 1 n)

majority-is_yes : (y n : ℕ) → (majority y n == answer_yes) ≡ ltb n y
majority-is_yes y n =
    elim (ltb n y) as (λ b. ((if b then answer_yes else answer_no) == answer_yes) ≡ b) [
      | true ↦ ==_refl answer_yes
      | false ↦ no_is_not_yes
    ]

derived-IsDecided :
    (js : List RunJudgment) (n : ℕ) (qs : List FinalQuestion)
    → Distinct (question_ids qs)
    → All (IsDecided js n (derived_of js n qs)) qs
derived-IsDecided js n qs d =
    let key = λ (j : Judgment). j.question_id in
    let found =
      find_self key (derived_of js n qs)
        (subst Distinct (sym (judgment_ids-derived_of js n qs)) d) in
    let each =
      All-map _ (aggregated_of js n) qs
        (All-map _ derived_judgment (map (aggregated_of js n) qs) found) in
    All-imp (λ q e. rw e (majority-is_yes (yes_votes js q.id 1 n) (no_votes js q.id 1 n))) qs each

score-IsDecided :
    (js : List RunJudgment) (n : ℕ) (derived : List Judgment) (qs : List FinalQuestion)
    → All (IsDecided js n derived) qs
    → (satisfied derived qs ≡ majority_points js n qs) × (failed derived qs ≡ minority_ids js n qs)
score-IsDecided js n derived [] h = (refl, refl)
score-IsDecided js n derived (q ∷ qs) h =
    let ih = score-IsDecided js n derived qs h.1 in (rw (h.0, ih.0) refl, rw (h.0, ih.1) refl)

-- The score of an aggregation counts the questions that more runs answer with yes than with no, out
-- of all of them, and lists the identifiers of the others.
pub aggregate_judgments-score :
    (qs : List FinalQuestion) (js : List RunJudgment) (n : ℕ) (r : AggregationResult)
    → aggregate_judgments qs js (pos n) ≡ ok r
    → (r.score.satisfied_points ≡ majority_points js n qs)
      × (r.score.failed_question_ids ≡ minority_ids js n qs)
      × (r.score.total_possible_points ≡ length qs)
aggregate_judgments-score qs js n r h =
    let (k, odd, valid, same) = (aggregate_judgments_iff qs js (pos n) r).0 h in
    let count : n ≡ 2 * k + 1 = cc in
    let first = valid.each 1 (omega arith) (omega arith) in
    let (points, ids) =
      score-IsDecided js n (derived_of js n qs) qs (derived-IsDecided js n qs first.distinct) in
    let result : r ≡ aggregation_of js n qs = rw count same in
    (
      ap (λ (s : AggregationResult). s.score.satisfied_points) result ∙ points,
      ap (λ (s : AggregationResult). s.score.failed_question_ids) result ∙ ids,
      ap (λ (s : AggregationResult). s.score.total_possible_points) result,
    )
