-- ===== src/Evalcore/Aggregate/Order.antt =====
-- AggregateJudgments does not see the order in which the judgments come.
use self_imp_bin_eval.Base.{
  ℕ, zero, suc, ◌+◌, ◌*◌, ◌<◌, ◌≤◌, ◌≡◌, refl, sym, ap, subst, ◌∙◌, String, List, ◌∷◌, map, All-imp,
  arith, inl, inr, Bool-cases,
}
use mathlib.Core.Path.{fun_ext}
use mathlib.Core.List.{Permᴰ}
use mathlib.Core.List.Permᴰ
use self_imp_bin_eval.Base.Int.{ℤ, pos, eq_ℤ}
use self_imp_bin_eval.Base.Keys.{Distinct}
use self_imp_bin_eval.Base.Orders.{
  perm-All, perm-length, perm-map, perm-contains, perm-Distinct, perm-find,
}
use self_imp_bin_eval.Errors.{ok}
use self_imp_bin_eval.Evalcore.Types.{FinalQuestion, Judgment, RunJudgment, AggregationResult}
use self_imp_bin_eval.Evalcore.Judgments.{judgment_ids}
use self_imp_bin_eval.Evalcore.Judgments.Laws.{AreJudgments, IsShaped}
use self_imp_bin_eval.Evalcore.Aggregate.{aggregate_judgments}
use self_imp_bin_eval.Evalcore.Aggregate.Runs.{run_of, IsInRange}
use self_imp_bin_eval.Evalcore.Aggregate.Counting.{
  vote_in, yes_votes, no_votes, votes_of, aggregated_of, aggregation_of, AreRunJudgments,
}
use self_imp_bin_eval.Evalcore.Aggregate.Laws.{aggregate_judgments_iff}

run_of-cons :
    (i : ℤ) (j : RunJudgment) (xs ys : List RunJudgment)
    → Permᴰ (run_of i xs) (run_of i ys)
    → Permᴰ (run_of i (j ∷ xs)) (run_of i (j ∷ ys))
run_of-cons i j xs ys p = elim (Bool-cases (eq_ℤ j.run_index i)) [
  | inl e ↦ rw e (Permᴰ.cons refl p)
  | inr e ↦ rw e p
]

run_of-swap :
    (i : ℤ) (a b : RunJudgment) (l : List RunJudgment)
    → Permᴰ (run_of i (a ∷ b ∷ l)) (run_of i (b ∷ a ∷ l))
run_of-swap i a b l = elim (Bool-cases (eq_ℤ a.run_index i)) [
  | inl e ↦ elim (Bool-cases (eq_ℤ b.run_index i)) [
    | inl f ↦ rw (e, f) (Permᴰ.swap refl refl)
    | inr f ↦ rw (e, f) (Permᴰ.refl _)
  ]
  | inr e ↦ rw e (Permᴰ.refl _)
]

-- The judgments of a run are put in another order.
perm-run_of : (i : ℤ) {xs ys : List RunJudgment} → Permᴰ xs ys → Permᴰ (run_of i xs) (run_of i ys)
perm-run_of i Permᴰ.nil = Permᴰ.nil
perm-run_of i (Permᴰ.cons {a} {l₁} {l₂} e p) =
    subst (λ x. Permᴰ (run_of i (a ∷ l₁)) (run_of i (x ∷ l₂))) e
      (run_of-cons i a l₁ l₂ (perm-run_of i p))
perm-run_of i (Permᴰ.swap {a} {b} {l = l} e f) = rw (← e, ← f) (run_of-swap i a b l)
perm-run_of i (Permᴰ.trans p q) = Permᴰ.trans (perm-run_of i p) (perm-run_of i q)

perm-AreJudgments :
    (qs : List FinalQuestion) {js ks : List Judgment}
    → Permᴰ js ks
    → AreJudgments qs js
    → AreJudgments qs ks
perm-AreJudgments qs p h =
    let ids = perm-map (λ (j : Judgment). j.question_id) p in
    record {
      shaped = record {
        some_given = subst (λ n. 0 < n) (perm-length p) h.shaped.some_given;
        each = perm-All IsShaped p h.shaped.each;
        distinct = perm-Distinct ids h.shaped.distinct;
      };
      named = h.named;
      some_asked = h.some_asked;
      distinct = h.distinct;
      known = perm-All _ p h.known;
      covered = All-imp (λ q c. sym (perm-contains q.id ids) ∙ c) qs h.covered;
    }

module _ {js ks : List RunJudgment} (p : Permᴰ js ks) where
  pub perm-AreRunJudgments :
      (qs : List FinalQuestion) (n : ℕ) → AreRunJudgments qs js n → AreRunJudgments qs ks n
  perm-AreRunJudgments qs n h = record {
    in_range = perm-All (IsInRange (pos n)) p h.in_range;
    each = λ i a b. perm-AreJudgments qs (perm-run_of (pos i) p) (h.each i a b);
  }

  vote_in-eq :
      (id : String) (i : ℕ)
      → Distinct (judgment_ids (run_of (pos i) js))
      → vote_in js id i ≡ vote_in ks id i
  vote_in-eq id i d =
      rw (perm-find (λ (j : Judgment). j.question_id) id (perm-run_of (pos i) p) d) refl

  abbrev AreDistinctRuns : (run_index remaining : ℕ) → Type 0
  AreDistinctRuns r n = (i : ℕ) → r ≤ i → i < r + n → Distinct (judgment_ids (run_of (pos i) js))

  yes_votes-eq :
      (id : String) (r n : ℕ) → AreDistinctRuns r n → yes_votes js id r n ≡ yes_votes ks id r n
  yes_votes-eq id r zero d = refl
  yes_votes-eq id r (suc n) d =
      rw
        (
          vote_in-eq id r (d r (omega arith) (omega arith)),
          yes_votes-eq id (suc r) n (λ i a b. d i (omega arith) (omega arith)),
        )
        refl

  no_votes-eq :
      (id : String) (r n : ℕ) → AreDistinctRuns r n → no_votes js id r n ≡ no_votes ks id r n
  no_votes-eq id r zero d = refl
  no_votes-eq id r (suc n) d =
      rw
        (
          vote_in-eq id r (d r (omega arith) (omega arith)),
          no_votes-eq id (suc r) n (λ i a b. d i (omega arith) (omega arith)),
        )
        refl

  votes_of-eq :
      (id : String) (r n : ℕ) → AreDistinctRuns r n → votes_of js id r n ≡ votes_of ks id r n
  votes_of-eq id r zero d = refl
  votes_of-eq id r (suc n) d =
      rw
        (
          vote_in-eq id r (d r (omega arith) (omega arith)),
          votes_of-eq id (suc r) n (λ i a b. d i (omega arith) (omega arith)),
        )
        refl

  aggregated_of-eq :
      (n : ℕ) (q : FinalQuestion)
      → AreDistinctRuns 1 n
      → aggregated_of js n q ≡ aggregated_of ks n q
  aggregated_of-eq n q d =
      rw (votes_of-eq q.id 1 n d, yes_votes-eq q.id 1 n d, no_votes-eq q.id 1 n d) refl

  aggregation_of-eq :
      (n : ℕ) (qs : List FinalQuestion)
      → AreDistinctRuns 1 n
      → aggregation_of js n qs ≡ aggregation_of ks n qs
  aggregation_of-eq n qs d =
      let same : map (aggregated_of js n) qs ≡ map (aggregated_of ks n) qs =
        ap (λ f. map f qs) (fun_ext (λ q. aggregated_of-eq n q d)) in
      rw same refl

-- AggregateJudgments does not depend on the order of the judgments: what it returns for some, it
-- returns for the same judgments in any order.
pub aggregate_judgments-perm :
    (qs : List FinalQuestion) (runs : ℤ) (r : AggregationResult) (js ks : List RunJudgment)
    → Permᴰ js ks
    → aggregate_judgments qs js runs ≡ ok r
    → aggregate_judgments qs ks runs ≡ ok r
aggregate_judgments-perm qs runs r js ks p h =
    let (k, odd, valid, made) = (aggregate_judgments_iff qs js runs r).0 h in
    let same = aggregation_of-eq p (2 * k + 1) qs (λ i a b. (valid.each i a b).shaped.distinct) in
    (aggregate_judgments_iff qs ks runs r).1
      (k, odd, perm-AreRunJudgments p qs (2 * k + 1) valid, made ∙ same)
