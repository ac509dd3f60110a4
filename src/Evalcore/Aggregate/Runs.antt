-- ===== src/Evalcore/Aggregate/Runs.antt =====
-- The loops of AggregateJudgments over the runs: which judgments each run holds.
use self_imp_bin_eval.Base.{
  ℕ, zero, suc, ◌+◌, ◌<◌, ◌≤◌, ◌≡◌, ◌⊎◌, refl, sym, ap, subst, ◌∙◌, List, [], ◌∷◌, ◌++◌,
  append_assoc, append-nil, if◌then◌else◌, eq_ℕ, All, arith, inl, inr, Bool-cases,
}
use self_imp_bin_eval.Base.Int.{ℤ, pos, eq_ℤ, ◌≤ℤ◌}
use self_imp_bin_eval.Errors.{ok, wrap_error, >>=-eq-ok, wrap_error-eq-ok, ok_injective}
use self_imp_bin_eval.Evalcore.Types.{FinalQuestion, Judgment, RunJudgment}
use self_imp_bin_eval.Evalcore.Judgments.{validate_judgments}
use self_imp_bin_eval.Evalcore.Judgments.Laws.{AreJudgments, validate_judgments_iff}
use self_imp_bin_eval.Evalcore.Score.{judgment_by_id}
use self_imp_bin_eval.Evalcore.Aggregate.{
  ByRun, judgment_in, add_to_run, group_runs, ByRunAndQuestion, index_runs,
}

-- The judgments of a run, in their order.
abbrev pub run_of : ℤ → List RunJudgment → List Judgment
run_of i [] = []
run_of i (j ∷ js) = if eq_ℤ j.run_index i then judgment_in j ∷ run_of i js else run_of i js

abbrev pub IsInRange : ℤ → RunJudgment → Type 0
IsInRange runs j = (pos 1 ≤ℤ j.run_index) × (j.run_index ≤ℤ runs)

append_run :
    (i : ℤ) (by_run : ByRun) (j : RunJudgment) (js : List RunJudgment)
    → add_to_run by_run j i ++ run_of i js ≡ by_run i ++ run_of i (j ∷ js)
append_run i by_run j js = elim (Bool-cases (eq_ℤ j.run_index i)) [
  | inl e ↦ rw e (append_assoc (by_run i) (judgment_in j ∷ []) (run_of i js))
  | inr e ↦ rw e refl
]

pub group_runs-ok :
    (runs : ℤ) (by_run out : ByRun) (js : List RunJudgment)
    → group_runs runs by_run js ≡ ok out
    → All (IsInRange runs) js × ((i : ℤ) → out i ≡ by_run i ++ run_of i js)
unfolding group_runs
group_runs-ok runs by_run out [] h =
    (tt, λ i. ap (λ f. f i) (sym (ok_injective by_run out h)) ∙ sym (append-nil (by_run i)))
group_runs-ok runs by_run out (j ∷ js) h =
    let ih = group_runs-ok runs (add_to_run by_run j) out js (ground arith) in
    ((ground arith, ih.0), λ i. ih.1 i ∙ append_run i by_run j js)

pub ok-group_runs :
    (runs : ℤ) (by_run : ByRun) (js : List RunJudgment)
    → All (IsInRange runs) js
    → (out : ByRun) × (group_runs runs by_run js ≡ ok out)
      × ((i : ℤ) → out i ≡ by_run i ++ run_of i js)
unfolding group_runs
ok-group_runs runs by_run [] h = (by_run, refl, λ i. sym (append-nil (by_run i)))
ok-group_runs runs by_run (j ∷ js) h =
    let (out, e, same) = ok-group_runs runs (add_to_run by_run j) js h.1 in
    (out, ground (arith, e), λ i. same i ∙ append_run i by_run j js)

pub first_or_later : (r i : ℕ) → r ≤ i → (r ≡ i) ⊎ (suc r ≤ i)
first_or_later r i h = ground arith

module _ (qs : List FinalQuestion) (by_run : ByRun) where
  -- The runs from one on, for as many as given, have valid judgments.
  abbrev pub AreValidRuns : (run_index remaining : ℕ) → Type 0
  AreValidRuns r n = (i : ℕ) → r ≤ i → i < r + n → AreJudgments qs (by_run (pos i))

  -- Each of these runs is indexed.
  abbrev pub AreIndexed : ByRunAndQuestion → (run_index remaining : ℕ) → Type 0
  AreIndexed m r n = (i : ℕ) → r ≤ i → i < r + n → m i ≡ judgment_by_id (by_run (pos i))

  abbrev pub IsKept : ByRunAndQuestion → ByRunAndQuestion → ℕ → Type 0
  IsKept m out r = (i : ℕ) → i < r → out i ≡ m i

  pub index_runs-ok :
      (m out : ByRunAndQuestion) (r n : ℕ)
      → index_runs qs by_run m r n ≡ ok out
      → AreValidRuns r n × AreIndexed out r n × IsKept m out r
  unfolding index_runs
  index_runs-ok m out r zero h = (
    λ i a b. absurd (omega arith),
    λ i a b. absurd (omega arith),
    λ i a. ap (λ f. f i) (sym (ok_injective m out h)),
  )
  index_runs-ok m out r (suc n) h =
      let judgments = by_run (pos r) in
      let (_, e, rest) = >>=-eq-ok (wrap_error _ (validate_judgments qs judgments)) _ h in
      let here = (validate_judgments_iff qs judgments).0 (wrap_error-eq-ok _ _ e) in
      let (valid, indexed, kept) =
        index_runs-ok (λ i. if eq_ℕ r i then judgment_by_id judgments else m i) out (suc r) n
          rest in
      let at_r = kept r (omega arith) in
      (
        λ i a b. elim (first_or_later r i a) [
          | inl same ↦ subst (λ k. AreJudgments qs (by_run (pos k))) same here
          | inr later ↦ valid i later (omega arith)
        ],
        λ i a b. elim (first_or_later r i a) [
          | inl same ↦
              subst (λ k. out k ≡ judgment_by_id (by_run (pos k))) same (ground (arith, at_r))
          | inr later ↦ indexed i later (omega arith)
        ],
        λ i a. ground (arith, kept i (omega arith)),
      )

  pub ok-index_runs :
      (m : ByRunAndQuestion) (r n : ℕ)
      → AreValidRuns r n
      → (out : ByRunAndQuestion) × (index_runs qs by_run m r n ≡ ok out)
        × AreIndexed out r n
        × IsKept m out r
  unfolding index_runs
  ok-index_runs m r zero h = (m, refl, λ i a b. absurd (omega arith), λ i a. refl)
  ok-index_runs m r (suc n) h =
      let judgments = by_run (pos r) in
      let valid = (validate_judgments_iff qs judgments).1 (h r (omega arith) (omega arith)) in
      let (out, e, indexed, kept) =
        ok-index_runs (λ i. if eq_ℕ r i then judgment_by_id judgments else m i) (suc r) n
          (λ i a b. h i (omega arith) (omega arith)) in
      let at_r = kept r (omega arith) in
      (
        out,
        rw valid e,
        λ i a b. elim (first_or_later r i a) [
          | inl same ↦
              subst (λ k. out k ≡ judgment_by_id (by_run (pos k))) same (ground (arith, at_r))
          | inr later ↦ indexed i later (omega arith)
        ],
        λ i a. ground (arith, kept i (omega arith)),
      )
