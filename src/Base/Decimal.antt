-- ===== src/Base/Decimal.antt =====
-- `strconv.Itoa`, which is also `%d`: the digits are written from the last one to the first.
use Prim.Native.Char.{Char, code}
use Prim.Native.String.{String, ◌++◌}
use Prim.Native.Nat.{ℕ, zero, suc, ◌+◌, ◌-◌, ◌*◌, ◌/◌, ◌%◌, ◌<◌}
use mathlib.Core.Path.{◌≡◌, refl, ap, sym, ◌∙◌}
use mathlib.Core.Logic.{inl, inr}
use native.Mathlib.Omega.{arith}
use text.Mathlib.TextLemmas.{append_cancel_left}
use self_imp_bin_eval.Base.Tests.{ltb, if◌then◌else◌, Bool-cases}
use self_imp_bin_eval.Base.Int.{ℤ, pos, negsuc}

unfoldable pub digit : ℕ → Char
digit zero = "0"
digit (suc zero) = "1"
digit (suc (suc zero)) = "2"
digit (suc (suc (suc zero))) = "3"
digit (suc (suc (suc (suc zero)))) = "4"
digit (suc (suc (suc (suc (suc zero))))) = "5"
digit (suc (suc (suc (suc (suc (suc zero)))))) = "6"
digit (suc (suc (suc (suc (suc (suc (suc zero))))))) = "7"
digit (suc (suc (suc (suc (suc (suc (suc (suc zero)))))))) = "8"
digit n = "9"

-- The loop over the digits. Each round divides by ten, so `n + 1` rounds are enough.
emit : ℕ → ℕ → String → String
emit zero n out = out
emit (suc fuel) n out =
    let rest = emit fuel (n / 10) (String.◌∷◌ (digit (n % 10)) out) in
    if ltb n 10 then String.◌∷◌ (digit n) out else rest

unfoldable pub format : ℕ → String
unfolding emit digit
format n = emit (suc n) n ""

unfoldable pub itoa : ℤ → String
unfolding format
itoa (pos n) = format n
itoa (negsuc n) = "-" ++ format (suc n)

-- The number that a text of digits writes, with `n` for the digits before it.
abbrev read : String → ℕ → ℕ
read String.[] n = n
read (String.◌∷◌ c s) n = read s (n * 10 + (code c - b'0'))

code-digit : (n : ℕ) → n < 10 → code (digit n) - b'0' ≡ n
unfolding digit
code-digit zero h = refl
code-digit (suc zero) h = refl
code-digit (suc (suc zero)) h = refl
code-digit (suc (suc (suc zero))) h = refl
code-digit (suc (suc (suc (suc zero)))) h = refl
code-digit (suc (suc (suc (suc (suc zero))))) h = refl
code-digit (suc (suc (suc (suc (suc (suc zero)))))) h = refl
code-digit (suc (suc (suc (suc (suc (suc (suc zero))))))) h = refl
code-digit (suc (suc (suc (suc (suc (suc (suc (suc zero)))))))) h = refl
code-digit (suc (suc (suc (suc (suc (suc (suc (suc (suc zero))))))))) h = refl
code-digit (suc (suc (suc (suc (suc (suc (suc (suc (suc (suc n)))))))))) h = absurd (omega arith)

read-emit : (fuel n : ℕ) (out : String) → n < fuel → read (emit fuel n out) 0 ≡ read out n
unfolding emit
read-emit zero n out h = elim h [ ]
read-emit (suc fuel) n out h = elim (Bool-cases (ltb n 10)) [
  | inl e ↦ rw e (ap (read out) (omega (arith, code-digit n (ground arith))))
  | inr e ↦ rw e (
      read-emit fuel (n / 10) (String.◌∷◌ (digit (n % 10)) out) (ground arith)
      ∙ ap (read out) (omega (arith, code-digit (n % 10) (omega arith))))
]

read-format : (n : ℕ) → read (format n) 0 ≡ n
unfolding format
read-format n = read-emit (suc n) n "" (omega arith)

-- Different numbers are written differently.
pub format-injective : (m n : ℕ) → format m ≡ format n → m ≡ n
format-injective m n e = sym (read-format m) ∙ ap (λ s. read s 0) e ∙ read-format n

-- So are the identifiers that one prefix makes of them.
pub append-itoa-injective :
    (prefix : String) (m n : ℕ) → prefix ++ itoa (pos m) ≡ prefix ++ itoa (pos n) → m ≡ n
unfolding itoa
append-itoa-injective prefix m n e = format-injective m n (append_cancel_left prefix _ _ e)

tests : (itoa (pos 1203) ≡ "1203") × (itoa (negsuc 41) ≡ "-42")
unfolding itoa
tests = (refl, refl)
