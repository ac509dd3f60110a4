-- ===== src/Base/Int.antt =====
-- Go's `int`: a signed integer. Sums that the source does not bound wrap around at 64 bits.
use self_imp_bin_eval.Base.Tests.{ltb, leb, eq_ℕ, if◌then◌else◌}
use Prim.Native.Nat.{ℕ, suc, ◌+◌, ◌-◌, ◌%◌, ◌^◌, ◌≤◌, ◌<◌}
use mathlib.Core.Path.{◌≡◌}
use mathlib.Core.Bool.{Bool}
use native.Mathlib.Omega.{arith}

-- `negsuc n` is -(n + 1).
pub data ℤ : Type 0 where
  pos : ℕ → ℤ
  negsuc : ℕ → ℤ

abbrev pub pos_part : ℤ → ℕ
pos_part (pos n) = n
pos_part (negsuc n) = 0

abbrev pub neg_part : ℤ → ℕ
neg_part (pos n) = 0
neg_part (negsuc n) = suc n

-- a - b, as an integer.
abbrev pub sub_ℕ : ℕ → ℕ → ℤ
sub_ℕ a b = if leb b a then pos (a - b) else negsuc (b - a - 1)

infixl 65 ◌+ℤ◌
unfoldable pub ◌+ℤ◌ : ℤ → ℤ → ℤ
a +ℤ b = sub_ℕ (pos_part a + pos_part b) (neg_part a + neg_part b)

infix 50 ◌≤ℤ◌ ◌<ℤ◌
abbrev pub ◌≤ℤ◌ : ℤ → ℤ → Type 0
a ≤ℤ b = pos_part a + neg_part b ≤ pos_part b + neg_part a

abbrev pub ◌<ℤ◌ : ℤ → ℤ → Type 0
a <ℤ b = suc (pos_part a + neg_part b) ≤ pos_part b + neg_part a

abbrev pub ltb_ℤ : ℤ → ℤ → Bool
ltb_ℤ a b = ltb (pos_part a + neg_part b) (pos_part b + neg_part a)

abbrev pub leb_ℤ : ℤ → ℤ → Bool
leb_ℤ a b = leb (pos_part a + neg_part b) (pos_part b + neg_part a)

abbrev pub eq_ℤ : ℤ → ℤ → Bool
eq_ℤ a b = eq_ℕ (pos_part a + neg_part b) (pos_part b + neg_part a)

pub eq_of_parts : (a b : ℤ) → pos_part a + neg_part b ≡ pos_part b + neg_part a → a ≡ b
eq_of_parts a b h = ground arith

-- `a % 2 == 0`: the remainder has the sign of `a`, so only its being 0 is read.
abbrev pub is_even : ℤ → Bool
is_even (pos n) = eq_ℕ (n % 2) 0
is_even (negsuc n) = eq_ℕ (suc n % 2) 0

-- The value that an `int` holds after an arithmetic result: two's complement at 64 bits.
unfoldable pub wrap64 : ℤ → ℤ
wrap64 a =
    let m = (pos_part a % 2 ^ 64 + (2 ^ 64 - neg_part a % 2 ^ 64)) % 2 ^ 64 in
    if ltb m (2 ^ 63) then pos m else sub_ℕ m (2 ^ 64)

-- A result in range is kept.
pub wrap64_of_in_range : (a : ℤ) → pos_part a + 1 ≤ 2 ^ 63 → neg_part a ≤ 2 ^ 63 → wrap64 a ≡ a
unfolding wrap64
wrap64_of_in_range a h k = ground arith

-- A sum of two numbers in range is exact.
pub wrap64-add : (m n : ℕ) → m + n < 2 ^ 63 → wrap64 (pos m +ℤ pos n) ≡ pos (m + n)
unfolding ◌+ℤ◌
wrap64-add m n h =
    let sum : pos m +ℤ pos n ≡ pos (m + n) = ground arith in
    rw sum (wrap64_of_in_range (pos (m + n)) (omega arith) (omega arith))
