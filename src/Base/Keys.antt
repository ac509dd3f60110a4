-- ===== src/Base/Keys.antt =====
-- Go maps with string keys. A set is the list of its keys. A map is the list of its writes, the
-- last one first, so that a later write hides an earlier one.
use Prim.Native.String.{String}
use mathlib.Core.Path.{◌≡◌, refl, sym, ap, subst, ◌∙◌}
use mathlib.Core.Logic.{inl, inr}
use mathlib.Core.Bool.{Bool, true, false, ◌||◌}
use mathlib.Core.Option.{Option, none, some}
use mathlib.Core.List.{List, [], ◌∷◌, ◌++◌, map}
use native.Mathlib.Omega.{arith}
use self_imp_bin_eval.Base.Tests.{◌==◌, eq_of_==, ==_refl, if◌then◌else◌, Bool-cases}
use self_imp_bin_eval.Base.Lists.{All, All-imp}

-- `_, ok := set[k]`
unfoldable pub contains : List String → String → Bool
contains [] k = false
contains (x ∷ xs) k = x == k || contains xs k

-- Not among the keys.
abbrev pub IsFresh : List String → String → Type 0
IsFresh seen k = contains seen k ≡ false

-- The keys differ from one another.
abbrev pub Distinct : List String → Type 0
Distinct [] = Unit
Distinct (k ∷ ks) = IsFresh ks k × Distinct ks

-- What a loop that tests and fills `seen` has found when it ends: each key was new.
abbrev pub AllNew : List String → List String → Type 0
AllNew seen [] = Unit
AllNew seen (k ∷ ks) = IsFresh seen k × AllNew (k ∷ seen) ks

module _ {ℓ} {V : Type ℓ} where
  -- `v, ok := m[k]`
  unfoldable pub get : String → List (String × V) → Option V
  get k [] = none
  get k ((j, v) ∷ m) = if j == k then some v else get k m

  -- `v := m[k]`, the zero value if the key is missing
  unfoldable pub get_or : V → String → List (String × V) → V
  get_or zero_value k [] = zero_value
  get_or zero_value k ((j, v) ∷ m) = if j == k then v else get_or zero_value k m

  module _ (key : V → String) where
    -- `for _, x := range xs { m[x.ID] = x }`
    unfoldable pub index_onto : List (String × V) → List V → List (String × V)
    index_onto m [] = m
    index_onto m (x ∷ xs) = index_onto ((key x, x) ∷ m) xs

    -- The member that has the key.
    unfoldable pub find : String → List V → Option V
    find k [] = none
    find k (x ∷ xs) = if key x == k then some x else find k xs

pub contains-append :
    (xs ys : List String) (k : String) → contains (xs ++ ys) k ≡ (contains xs k || contains ys k)
unfolding contains
contains-append [] ys k = refl
contains-append (x ∷ xs) ys k = ground (arith, contains-append xs ys k)

IsFresh-of_AllNew :
    (seen ks : List String) (k : String) → AllNew seen ks → contains seen k ≡ true → IsFresh ks k
unfolding contains
IsFresh-of_AllNew seen [] k h m = refl
IsFresh-of_AllNew seen (j ∷ ks) k h m = ground (arith, IsFresh-of_AllNew (j ∷ seen) ks k h.1)

-- A loop over new keys sees each of them once.
pub Distinct-of_AllNew : (seen ks : List String) → AllNew seen ks → Distinct ks
unfolding contains
Distinct-of_AllNew seen [] h = tt
Distinct-of_AllNew seen (k ∷ ks) h =
    (IsFresh-of_AllNew (k ∷ seen) ks k h.1 (ground arith), Distinct-of_AllNew (k ∷ seen) ks h.1)

All-IsFresh-cons :
    (seen ks : List String) (k : String)
    → IsFresh ks k
    → All (λ j. IsFresh seen j) ks
    → All (λ j. IsFresh (k ∷ seen) j) ks
unfolding contains
All-IsFresh-cons seen [] k f h = tt
All-IsFresh-cons seen (j ∷ ks) k f h = (ground arith, All-IsFresh-cons seen ks k (ground arith) h.1)

AllNew-of_All-IsFresh :
    (seen ks : List String) → Distinct ks → All (λ k. IsFresh seen k) ks → AllNew seen ks
AllNew-of_All-IsFresh seen [] d h = tt
AllNew-of_All-IsFresh seen (k ∷ ks) d h =
    (h.0, AllNew-of_All-IsFresh (k ∷ seen) ks d.1 (All-IsFresh-cons seen ks k d.0 h.1))

pub All-IsFresh-nil : (ks : List String) → All (λ k. IsFresh [] k) ks
unfolding contains
All-IsFresh-nil [] = tt
All-IsFresh-nil (k ∷ ks) = (refl, All-IsFresh-nil ks)

-- Different keys pass such a loop.
pub AllNew-of_Distinct : (ks : List String) → Distinct ks → AllNew [] ks
AllNew-of_Distinct ks d = AllNew-of_All-IsFresh [] ks d (All-IsFresh-nil ks)

module _ {ℓ} {V : Type ℓ} (key : V → String) where
  find-of_IsFresh : (k : String) (xs : List V) → IsFresh (map key xs) k → find key k xs ≡ none
  unfolding find contains
  find-of_IsFresh k [] h = refl
  find-of_IsFresh k (x ∷ xs) h = ground (arith, find-of_IsFresh k xs)

  abbrev or_get : Option V → Option V → Option V
  or_get none o = o
  or_get (some v) o = some v

  get-index_onto :
      (k : String) (m : List (String × V)) (xs : List V)
      → Distinct (map key xs)
      → get k (index_onto key m xs) ≡ or_get (find key k xs) (get k m)
  unfolding get find index_onto
  get-index_onto k m [] d = refl
  get-index_onto k m (x ∷ xs) d =
      ground (arith, get-index_onto k ((key x, x) ∷ m) xs d.1, find-of_IsFresh k xs)

  -- With distinct keys the map of a list holds for each key the member that has it.
  pub get-index :
      (k : String) (xs : List V)
      → Distinct (map key xs)
      → get k (index_onto key [] xs) ≡ find key k xs
  unfolding get
  get-index k xs d = ground (arith, get-index_onto k [] xs d)

  pub find_is_some :
      (k : String) (xs : List V)
      → contains (map key xs) k ≡ true
      → (v : V) × (find key k xs ≡ some v) × (key v ≡ k)
  unfolding find contains
  find_is_some k [] h = cc
  find_is_some k (x ∷ xs) h = elim (Bool-cases (key x == k)) [
    | inl e ↦ (x, rw e, eq_of_== _ _ e)
    | inr e ↦ let (v, f, g) = find_is_some k xs (rw e at h) in (v, rw e f, g)
  ]

  -- The entry of `k`, with a value for a key that is missing.
  abbrev pub found_or : V → Option V → V
  found_or v none = v
  found_or v (some w) = w

  get_or-index_onto :
      (v : V) (k : String) (m : List (String × V)) (xs : List V)
      → Distinct (map key xs)
      → get_or v k (index_onto key m xs) ≡ found_or (get_or v k m) (find key k xs)
  unfolding get_or find index_onto
  get_or-index_onto v k m [] d = refl
  get_or-index_onto v k m (x ∷ xs) d =
      ground (arith, get_or-index_onto v k ((key x, x) ∷ m) xs d.1, find-of_IsFresh k xs)

  pub get_or-index :
      (v : V) (k : String) (xs : List V)
      → Distinct (map key xs)
      → get_or v k (index_onto key [] xs) ≡ found_or v (find key k xs)
  unfolding get_or
  get_or-index v k xs d = get_or-index_onto v k [] xs d

  find-cons_All :
      (x : V) (ys zs : List V)
      → IsFresh (map key zs) (key x)
      → All (λ y. find key (key y) ys ≡ some y) zs
      → All (λ y. find key (key y) (x ∷ ys) ≡ some y) zs
  unfolding find contains
  find-cons_All x ys [] f h = tt
  find-cons_All x ys (z ∷ zs) f h = (ground arith, find-cons_All x ys zs (ground arith) h.1)

  -- With distinct keys each member is found under its own key.
  pub find_self : (xs : List V) → Distinct (map key xs) → All (λ x. find key (key x) xs ≡ some x) xs
  unfolding find
  find_self [] d = tt
  find_self (x ∷ xs) d =
      (ground (arith, ==_refl (key x)), unfold find in find-cons_All x xs xs d.0 (find_self xs d.1))

  pub find-All {κ} :
      (P : V → Type κ) (k : String) (xs : List V) (v : V) → All P xs → find key k xs ≡ some v → P v
  unfolding find
  find-All P k [] v h e = absurd (ground arith)
  find-All P k (x ∷ xs) v h e = elim (Bool-cases (key x == k)) [
    | inl same ↦ let found : x ≡ v = cc (rw same at e) in subst P found h.0
    | inr differ ↦ find-All P k xs v h.1 (rw differ at e)
  ]

-- Whether a key has an entry is whether it is among the keys.
abbrev pub keys {ℓ} : {V : Type ℓ} → List (String × V) → List String
keys = map (λ e. e.0)

abbrev pub is_some {ℓ} : {A : Type ℓ} → Option A → Bool
is_some none = false
is_some (some a) = true

pub is_some-get {ℓ} :
    {V : Type ℓ} (k : String) (m : List (String × V)) → is_some (get k m) ≡ contains (keys m) k
unfolding get contains
is_some-get k [] = refl
is_some-get k ((j, v) ∷ m) = ground (arith, is_some-get k m)

pub is_some-find {ℓ} :
    {V : Type ℓ} (key : V → String) (k : String) (xs : List V)
    → is_some (find key k xs) ≡ contains (map key xs) k
unfolding find contains
is_some-find key k [] = refl
is_some-find key k (x ∷ xs) = ground (arith, is_some-find key k xs)

-- With distinct keys each member's key is among the keys.
pub contains_self {ℓ} :
    {V : Type ℓ} (key : V → String) (xs : List V)
    → Distinct (map key xs)
    → All (λ x. contains (map key xs) (key x) ≡ true) xs
contains_self key xs d =
    All-imp (λ x h. sym (is_some-find key (key x) xs) ∙ ap is_some h) xs (find_self key xs d)
