-- ===== src/Base/Pigeons.antt =====
-- Lists of distinct keys of which each contains the other have one length.
use self_imp_bin_eval.Base.Tests.{◌==◌, eq_of_==, if◌then◌else◌, Bool-cases}
use self_imp_bin_eval.Base.Lists.{All, length}
use self_imp_bin_eval.Base.Keys.{contains, Distinct, IsFresh}
use Prim.Native.String.{String}
use Prim.Native.Nat.{suc, ◌≤◌}
use mathlib.Core.Path.{◌≡◌, refl, sym, ap, subst}
use mathlib.Core.Logic.{inl, inr}
use mathlib.Core.Bool.{true, false}
use mathlib.Core.List.{List, [], ◌∷◌}
use native.Mathlib.Omega.{arith}

-- Without the first of the keys that is the given one.
abbrev remove : String → List String → List String
remove k [] = []
remove k (x ∷ xs) = let rest = x ∷ remove k xs in if x == k then xs else rest

length-remove :
    (k : String) (xs : List String) → contains xs k ≡ true → length xs ≡ suc (length (remove k xs))
unfolding contains
length-remove k [] h = absurd cc
length-remove k (x ∷ xs) h = elim (Bool-cases (x == k)) [
  | inl e ↦ rw e refl
  | inr e ↦ rw e (ap suc (length-remove k xs (ground arith)))
]

contains-remove :
    (k j : String) (xs : List String)
    → contains xs j ≡ true
    → (k == j) ≡ false
    → contains (remove k xs) j ≡ true
unfolding contains
contains-remove k j [] h differ = absurd cc
contains-remove k j (x ∷ xs) h differ = elim (Bool-cases (x == k)) [
  | inl e ↦
      let same = eq_of_== x k e in
      let differs : (x == j) ≡ false = subst (λ y. (y == j) ≡ false) (sym same) differ in
      rw e (ground (arith, h, differs))
  | inr e ↦ elim (Bool-cases (x == j)) [
    | inl f ↦ rw e (rw f refl)
    | inr f ↦ rw e (rw f (contains-remove k j xs (ground arith) differ))
  ]
]

All-remove :
    (k : String) (ks xs : List String)
    → IsFresh ks k
    → All (λ j. contains xs j ≡ true) ks
    → All (λ j. contains (remove k xs) j ≡ true) ks
unfolding contains
All-remove k [] xs fresh h = tt
All-remove k (j ∷ ks) xs fresh h =
    let apart : (j == k) ≡ false = ground arith in
    let differ : (k == j) ≡ false = ground arith in
    (contains-remove k j xs h.0 differ, All-remove k ks xs (ground arith) h.1)

pub length-le_of_contains :
    (ks xs : List String) → Distinct ks → All (λ k. contains xs k ≡ true) ks → length ks ≤ length xs
length-le_of_contains [] xs d h = omega arith
length-le_of_contains (k ∷ ks) xs d h =
    let l = length-remove k xs h.0 in
    let ih = length-le_of_contains ks (remove k xs) d.1 (All-remove k ks xs d.0 h.1) in
    omega (arith, l, ih)
