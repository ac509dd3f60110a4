-- ===== src/Base/Text.antt =====
-- `strings.TrimSpace`. A text is walked by code points.
use Prim.Native.Char.{Char, code}
use Prim.Native.String.{String, ◌++◌}
use Prim.Native.Nat.{ℕ}
use mathlib.Core.Path.{◌≡◌, refl, ◌∙◌}
use mathlib.Core.Logic.{inl, inr}
use mathlib.Core.Bool.{Bool, true, false, ◌&&◌, ◌||◌}
use native.Mathlib.Omega.{arith}
use text.Mathlib.TextLemmas.{nil-append, cons-append}
use self_imp_bin_eval.Base.Tests.{
  leb, eq_ℕ, if◌then◌else◌, ◌==◌, String-discrete, ==_refl, ==_of_ne, Bool-cases,
}

-- `unicode.IsSpace`: the code points with the White_Space property.
unfoldable pub is_space : ℕ → Bool
is_space c =
    (leb 0x09 c && leb c 0x0d)
    || eq_ℕ c 0x20
    || eq_ℕ c 0x85
    || eq_ℕ c 0xa0
    || eq_ℕ c 0x1680
    || (leb 0x2000 c && leb c 0x200a)
    || eq_ℕ c 0x2028
    || eq_ℕ c 0x2029
    || eq_ℕ c 0x202f
    || eq_ℕ c 0x205f
    || eq_ℕ c 0x3000

unfoldable pub trim_left : String → String
trim_left String.[] = ""
trim_left (String.◌∷◌ c s) =
    let rest = trim_left s in if is_space (code c) then rest else String.◌∷◌ c s

abbrev is_empty : String → Bool
is_empty String.[] = true
is_empty (String.◌∷◌ c s) = false

unfoldable pub trim_right : String → String
trim_right String.[] = ""
trim_right (String.◌∷◌ c s) =
    let rest = trim_right s in if is_empty rest && is_space (code c) then "" else String.◌∷◌ c rest

unfoldable pub trim_space : String → String
unfolding trim_left trim_right is_space
trim_space s = trim_right (trim_left s)

-- `strings.TrimSpace(s) == ""`
unfoldable pub is_blank : String → Bool
unfolding trim_space String-discrete
is_blank s = trim_space s == ""

-- Every code point is a space.
abbrev pub all_space : String → Bool
all_space String.[] = true
all_space (String.◌∷◌ c s) = is_space (code c) && all_space s

if-is_empty : (b : Bool) (c : Char) (t : String) → is_empty (if b then "" else String.◌∷◌ c t) ≡ b
if-is_empty true c t = refl
if-is_empty false c t = refl

trim_right-is_empty : (s : String) → is_empty (trim_right s) ≡ all_space s
unfolding trim_right
trim_right-is_empty String.[] = refl
trim_right-is_empty (String.◌∷◌ c s) =
    let b = is_empty (trim_right s) && is_space (code c) in
    if-is_empty b c (trim_right s) ∙ ground (arith, trim_right-is_empty s)

trim_left-all_space : (s : String) → all_space (trim_left s) ≡ all_space s
unfolding trim_left
trim_left-all_space String.[] = refl
trim_left-all_space (String.◌∷◌ c s) = elim (Bool-cases (is_space (code c))) [
  | inl e ↦ rw e (trim_left-all_space s)
  | inr e ↦ rw e (rw e refl)
]

==-empty : (s : String) → (s == "") ≡ is_empty s
==-empty String.[] = ==_refl ""
==-empty (String.◌∷◌ c s) = ==_of_ne _ _ (λ e. cc)

-- A text is blank exactly when all of its code points are spaces.
pub is_blank-eq-all_space : (s : String) → is_blank s ≡ all_space s
unfolding is_blank
is_blank-eq-all_space s =
    ==-empty (trim_space s) ∙ trim_right-is_empty (trim_left s) ∙ trim_left-all_space s

all_space-append : (s t : String) → all_space (s ++ t) ≡ (all_space s && all_space t)
all_space-append String.[] t = rw nil-append
all_space-append (String.◌∷◌ c s) t = rw cons-append (ground (arith, all_space-append s t))

-- A text that begins with a text that is not blank is not blank.
pub is_blank-append : (s t : String) → is_blank s ≡ false → is_blank (s ++ t) ≡ false
is_blank-append s t h =
    ground (arith, is_blank-eq-all_space s, is_blank-eq-all_space (s ++ t), all_space-append s t)

-- `for _, r := range s`, whether some code point passes the test.
unfoldable pub any_code : (ℕ → Bool) → String → Bool
any_code test String.[] = false
any_code test (String.◌∷◌ c s) = test (code c) || any_code test s
