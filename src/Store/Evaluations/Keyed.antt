-- ===== src/Store/Evaluations/Keyed.antt =====
-- The judgments of an evaluation as they are read: in another order, and compared by their keys.
use self_imp_bin_eval.Base.{
  ℕ, ◌+◌, ◌<◌, ◌≤◌, ◌≡◌, refl, sym, subst, ◌∙◌, String, Bool, true, false, ◌||◌, List, [], ◌∷◌, All,
  arith, inl, inr, Bool-cases,
}
use mathlib.Core.List.{Permᴰ}
use mathlib.Core.List.Permᴰ
use self_imp_bin_eval.Base.Int.{ℤ, pos, pos_part, eq_ℤ, eq_of_parts}
use self_imp_bin_eval.Base.Keys.{contains, Distinct}
use self_imp_bin_eval.Base.Orders.{perm-All, perm-length}
use self_imp_bin_eval.Evalcore.Types.{FinalQuestion, RunJudgment}
use self_imp_bin_eval.Evalcore.Judgments.{judgment_ids}
use self_imp_bin_eval.Evalcore.Aggregate.Runs.{run_of, IsInRange}
use self_imp_bin_eval.Evalcore.Aggregate.Counting.{AreRunJudgments}
use self_imp_bin_eval.Store.Evaluations.Reading.{
  JudgmentIndex, no_run_judgment, has_key, index_judgment, index_judgments, same_run_judgment,
  all_indexed, run_judgments_equal, stands_before, insert_judgment, order_judgments,
}

module _ (before : String → String → Bool) where
  insert_judgment-perm :
      (x : RunJudgment) (ys : List RunJudgment) → Permᴰ (x ∷ ys) (insert_judgment before x ys)
  unfolding insert_judgment
  insert_judgment-perm x [] = Permᴰ.refl _
  insert_judgment-perm x (y ∷ ys) = elim (Bool-cases (stands_before before y x)) [
    | inl e ↦
        rw e (Permᴰ.trans (Permᴰ.swap refl refl) (Permᴰ.cons refl (insert_judgment-perm x ys)))
    | inr e ↦ rw e (Permᴰ.refl _)
  ]

  -- The rows are read in another order.
  pub order_judgments-perm : (js : List RunJudgment) → Permᴰ js (order_judgments before js)
  unfolding order_judgments
  order_judgments-perm [] = Permᴰ.nil
  order_judgments-perm (j ∷ js) =
      Permᴰ.trans (Permᴰ.cons refl (order_judgments-perm js))
        (insert_judgment-perm j (order_judgments before js))

-- Whether some judgment has the key.
abbrev pub any_key : ℤ → String → List RunJudgment → Bool
any_key run id [] = false
any_key run id (j ∷ js) = has_key run id j || any_key run id js

-- The keys differ.
abbrev pub DistinctKeys : List RunJudgment → Type 0
DistinctKeys [] = Unit
DistinctKeys (j ∷ js) = (any_key j.run_index j.question_id js ≡ false) × DistinctKeys js

abbrev KeysKept : JudgmentIndex → List RunJudgment → RunJudgment → Type 0
KeysKept m js j = index_judgments m js j.run_index j.question_id ≡ j

index_judgments-fresh :
    (m : JudgmentIndex) (run : ℤ) (id : String) (js : List RunJudgment)
    → any_key run id js ≡ false
    → index_judgments m js run id ≡ m run id
unfolding index_judgments
index_judgments-fresh m run id [] h = refl
index_judgments-fresh m run id (j ∷ js) h =
    ground (arith, index_judgments-fresh (index_judgment m j) run id js)

has_key_self : (j : RunJudgment) → has_key j.run_index j.question_id j ≡ true
has_key_self j = ground arith

-- With distinct keys each judgment is found under its own.
index_judgments_self :
    (m : JudgmentIndex) (js : List RunJudgment) → DistinctKeys js → All (KeysKept m js) js
unfolding index_judgments
index_judgments_self m [] d = tt
index_judgments_self m (j ∷ js) d = (
  index_judgments-fresh (index_judgment m j) j.run_index j.question_id js d.0
      ∙ rw (has_key_self j) refl,
  index_judgments_self (index_judgment m j) js d.1,
)

same_run_judgment_refl : (j : RunJudgment) → same_run_judgment j j ≡ true
same_run_judgment_refl j = ground arith

all_indexed-of_kept :
    (m : JudgmentIndex) (js : List RunJudgment)
    → All (λ j. m j.run_index j.question_id ≡ j) js
    → all_indexed m js ≡ true
unfolding all_indexed
all_indexed-of_kept m [] h = refl
all_indexed-of_kept m (j ∷ js) h =
    rw h.0 (rw (same_run_judgment_refl j) (all_indexed-of_kept m js h.1))

-- Judgments with distinct keys equal the same judgments in another order.
pub perm-run_judgments_equal :
    {js ks : List RunJudgment} → Permᴰ ks js → DistinctKeys js → run_judgments_equal js ks ≡ true
unfolding run_judgments_equal
perm-run_judgments_equal {js} {ks} p d =
    let m = index_judgments (λ run id. no_run_judgment) js in
    let kept = perm-All _ (Permᴰ.symm p) (index_judgments_self (λ run id. no_run_judgment) js d) in
    let same = perm-length p in let all = all_indexed-of_kept m ks kept in ground arith

-- In a run the keys are the questions' identifiers.
any_key-run_of :
    (i : ℤ) (id : String) (js : List RunJudgment)
    → any_key i id js ≡ contains (judgment_ids (run_of i js)) id
unfolding contains
any_key-run_of i id [] = refl
any_key-run_of i id (j ∷ js) = ground (arith, any_key-run_of i id js)

abbrev AreDistinctEach : ℕ → List RunJudgment → Type 0
AreDistinctEach n js = (i : ℕ) → 1 ≤ i → i < 1 + n → Distinct (judgment_ids (run_of (pos i) js))

Distinct-run_of-tail :
    (i : ℤ) (j : RunJudgment) (js : List RunJudgment)
    → Distinct (judgment_ids (run_of i (j ∷ js)))
    → Distinct (judgment_ids (run_of i js))
Distinct-run_of-tail i j js d = elim (Bool-cases (eq_ℤ j.run_index i)) [
  | inl e ↦ (rw e at d).1
  | inr e ↦ rw e at d
]

DistinctKeys-of_runs :
    (n : ℕ) (js : List RunJudgment)
    → All (IsInRange (pos n)) js
    → AreDistinctEach n js
    → DistinctKeys js
DistinctKeys-of_runs n [] r d = tt
DistinctKeys-of_runs n (j ∷ js) r d =
    let i : ℕ = pos_part j.run_index in
    let same : j.run_index ≡ pos i = eq_of_parts _ _ (ground arith) in
    let test : eq_ℤ j.run_index (pos i) ≡ true = ground arith in
    let here = rw test at (d i (ground arith) (ground arith)) in
    let fresh = any_key-run_of (pos i) j.question_id js ∙ here.0 in
    (
      subst (λ run. any_key run j.question_id js ≡ false) (sym same) fresh,
      DistinctKeys-of_runs n js r.1 (λ k a b. Distinct-run_of-tail (pos k) j js (d k a b)),
    )

pub AreRunJudgments-DistinctKeys :
    (qs : List FinalQuestion) (js : List RunJudgment) (n : ℕ)
    → AreRunJudgments qs js n
    → DistinctKeys js
AreRunJudgments-DistinctKeys qs js n h =
    DistinctKeys-of_runs n js h.in_range (λ i a b. (h.each i a b).shaped.distinct)
