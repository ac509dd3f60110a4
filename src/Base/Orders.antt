-- ===== src/Base/Orders.antt =====
-- What a list keeps when it is put in another order.
use Prim.Native.String.{String}
use mathlib.Core.Path.{◌≡◌, refl, ◌∙◌, ap, subst}
use mathlib.Core.List.{List, ◌∷◌, map, Permᴰ}
use native.Mathlib.Omega.{arith}
use self_imp_bin_eval.Base.Tests.{eq_of_==}
use self_imp_bin_eval.Base.Lists.{All, length}
use self_imp_bin_eval.Base.Keys.{contains, Distinct, find}

pub perm-All {ℓ κ} :
    {A : Type ℓ} (P : A → Type κ) {xs ys : List A} → Permᴰ xs ys → All P xs → All P ys
perm-All P Permᴰ.nil h = h
perm-All P (Permᴰ.cons e p) h = (subst P e h.0, perm-All P p h.1)
perm-All P (Permᴰ.swap e f) h = (subst P f h.1.0, (subst P e h.0, h.1.1))
perm-All P (Permᴰ.trans p q) h = perm-All P q (perm-All P p h)

pub perm-length {ℓ} : {A : Type ℓ} {xs ys : List A} → Permᴰ xs ys → length xs ≡ length ys
perm-length Permᴰ.nil = refl
perm-length (Permᴰ.cons e p) = omega (arith, perm-length p)
perm-length (Permᴰ.swap e f) = refl
perm-length (Permᴰ.trans p q) = perm-length p ∙ perm-length q

pub perm-map {ℓ κ} :
    {A : Type ℓ} {B : Type κ} (f : A → B) {xs ys : List A}
    → Permᴰ xs ys
    → Permᴰ (map f xs) (map f ys)
perm-map f Permᴰ.nil = Permᴰ.nil
perm-map f (Permᴰ.cons e p) = Permᴰ.cons (ap f e) (perm-map f p)
perm-map f (Permᴰ.swap d e) = Permᴰ.swap (ap f d) (ap f e)
perm-map f (Permᴰ.trans p q) = Permᴰ.trans (perm-map f p) (perm-map f q)

pub perm-contains : {xs ys : List String} (k : String) → Permᴰ xs ys → contains xs k ≡ contains ys k
unfolding contains
perm-contains k Permᴰ.nil = refl
perm-contains k (Permᴰ.cons e p) = rw (e, perm-contains k p) refl
perm-contains k (Permᴰ.swap {a} {b} {l = l} e f) = rw (e, f) (ground arith)
perm-contains k (Permᴰ.trans p q) = perm-contains k p ∙ perm-contains k q

pub perm-Distinct : {xs ys : List String} → Permᴰ xs ys → Distinct xs → Distinct ys
unfolding contains
perm-Distinct Permᴰ.nil d = d
perm-Distinct (Permᴰ.cons {b} e p) d = (ground (arith, perm-contains b p), perm-Distinct p d.1)
perm-Distinct (Permᴰ.swap e f) d = (ground arith, (ground arith, d.1.1))
perm-Distinct (Permᴰ.trans p q) d = perm-Distinct q (perm-Distinct p d)

module _ {ℓ} {V : Type ℓ} (key : V → String) (k : String) where
  swap_found :
      (a b : V) (l : List V)
      → Distinct (map key (a ∷ b ∷ l))
      → find key k (a ∷ b ∷ l) ≡ find key k (b ∷ a ∷ l)
  unfolding find contains
  swap_found a b l d = ground (arith, eq_of_== (key a) k, eq_of_== (key b) k)

  pub perm-find :
      {xs ys : List V} → Permᴰ xs ys → Distinct (map key xs) → find key k xs ≡ find key k ys
  unfolding find contains
  perm-find Permᴰ.nil d = refl
  perm-find (Permᴰ.cons e p) d = rw (e, perm-find p d.1) refl
  perm-find (Permᴰ.swap {a} {b} {l = l} e f) d = rw (← e, ← f) (swap_found a b l d)
  perm-find (Permᴰ.trans p q) d = perm-find p d ∙ perm-find q (perm-Distinct (perm-map key p) d)
