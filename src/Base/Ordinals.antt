-- ===== src/Base/Ordinals.antt =====
-- Sets of integers, as Go's `map[int]struct{}`.
use mathlib.Core.Path.{◌≡◌, refl}
use mathlib.Core.Bool.{Bool, true, false, ◌||◌}
use mathlib.Core.List.{List, [], ◌∷◌}
use native.Mathlib.Omega.{arith}
use self_imp_bin_eval.Base.Lists.{All}
use self_imp_bin_eval.Base.Int.{ℤ, eq_ℤ, eq_of_parts}

unfoldable pub contains_ordinal : List ℤ → ℤ → Bool
contains_ordinal [] k = false
contains_ordinal (x ∷ xs) k = eq_ℤ x k || contains_ordinal xs k

abbrev pub IsFreshOrdinal : List ℤ → ℤ → Type 0
IsFreshOrdinal seen k = contains_ordinal seen k ≡ false

abbrev pub DistinctOrdinals : List ℤ → Type 0
DistinctOrdinals [] = Unit
DistinctOrdinals (k ∷ ks) = IsFreshOrdinal ks k × DistinctOrdinals ks

abbrev pub AllNewOrdinals : List ℤ → List ℤ → Type 0
AllNewOrdinals seen [] = Unit
AllNewOrdinals seen (k ∷ ks) = IsFreshOrdinal seen k × AllNewOrdinals (k ∷ seen) ks

IsFreshOrdinal-of_AllNewOrdinals :
    (seen ks : List ℤ) (k : ℤ)
    → AllNewOrdinals seen ks
    → contains_ordinal seen k ≡ true
    → IsFreshOrdinal ks k
unfolding contains_ordinal
IsFreshOrdinal-of_AllNewOrdinals seen [] k h m = refl
IsFreshOrdinal-of_AllNewOrdinals seen (j ∷ ks) k h m =
    ground (arith, IsFreshOrdinal-of_AllNewOrdinals (j ∷ seen) ks k h.1, eq_of_parts j k)

pub DistinctOrdinals-of_AllNewOrdinals :
    (seen ks : List ℤ) → AllNewOrdinals seen ks → DistinctOrdinals ks
unfolding contains_ordinal
DistinctOrdinals-of_AllNewOrdinals seen [] h = tt
DistinctOrdinals-of_AllNewOrdinals seen (k ∷ ks) h = (
  IsFreshOrdinal-of_AllNewOrdinals (k ∷ seen) ks k h.1 (ground arith),
  DistinctOrdinals-of_AllNewOrdinals (k ∷ seen) ks h.1,
)

All-IsFreshOrdinal-cons :
    (seen ks : List ℤ) (k : ℤ)
    → IsFreshOrdinal ks k
    → All (λ j. IsFreshOrdinal seen j) ks
    → All (λ j. IsFreshOrdinal (k ∷ seen) j) ks
unfolding contains_ordinal
All-IsFreshOrdinal-cons seen [] k f h = tt
All-IsFreshOrdinal-cons seen (j ∷ ks) k f h =
    (ground arith, All-IsFreshOrdinal-cons seen ks k (ground arith) h.1)

AllNewOrdinals-of_All :
    (seen ks : List ℤ)
    → DistinctOrdinals ks
    → All (λ k. IsFreshOrdinal seen k) ks
    → AllNewOrdinals seen ks
AllNewOrdinals-of_All seen [] d h = tt
AllNewOrdinals-of_All seen (k ∷ ks) d h =
    (h.0, AllNewOrdinals-of_All (k ∷ seen) ks d.1 (All-IsFreshOrdinal-cons seen ks k d.0 h.1))

All-IsFreshOrdinal-nil : (ks : List ℤ) → All (λ k. IsFreshOrdinal [] k) ks
unfolding contains_ordinal
All-IsFreshOrdinal-nil [] = tt
All-IsFreshOrdinal-nil (k ∷ ks) = (refl, All-IsFreshOrdinal-nil ks)

pub AllNewOrdinals-of_DistinctOrdinals : (ks : List ℤ) → DistinctOrdinals ks → AllNewOrdinals [] ks
AllNewOrdinals-of_DistinctOrdinals ks d = AllNewOrdinals-of_All [] ks d (All-IsFreshOrdinal-nil ks)
