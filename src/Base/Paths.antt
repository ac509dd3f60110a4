-- ===== src/Base/Paths.antt =====
-- Go's `path` package: slash-separated paths.
use Prim.Native.Char.{Char, code}
use Prim.Native.String.{String, ◌++◌}
use mathlib.Core.Bool.{Bool, true, false, ◌&&◌, ◌||◌}
use mathlib.Core.Path.{◌≡◌, refl}
use mathlib.Core.List.{List, [], ◌∷◌}
use self_imp_bin_eval.Base.Tests.{eq_ℕ, if◌then◌else◌, ◌==◌, String-discrete}

abbrev pub add_to_first : Char → List String → List String
add_to_first c [] = String.◌∷◌ c "" ∷ []
add_to_first c (s ∷ rest) = String.◌∷◌ c s ∷ rest

-- The parts between the slashes.
unfoldable pub segments : String → List String
segments String.[] = "" ∷ []
segments (String.◌∷◌ c s) =
    let rest = segments s in if eq_ℕ (code c) b'/' then "" ∷ rest else add_to_first c rest

-- `path.IsAbs`
abbrev pub is_abs : String → Bool
is_abs String.[] = false
is_abs (String.◌∷◌ c s) = eq_ℕ (code c) b'/'

-- Up one directory: the last part is dropped, unless there is none or it is itself a step up.
unfoldable pub up : List String → List String
unfolding String-discrete
up [] = ".." ∷ []
up (part ∷ kept) = if part == ".." then ".." ∷ part ∷ kept else kept

-- The parts that `path.Clean` keeps of a path that is not absolute, the last one first.
unfoldable pub clean_parts : List String → List String → List String
unfolding up
clean_parts kept [] = kept
clean_parts kept (part ∷ rest) =
    clean_parts
      (if part == "" || part == "." then kept else if part == ".." then up kept else part ∷ kept)
      rest

unfoldable pub join_onto : String → List String → String
join_onto out [] = out
join_onto out (part ∷ kept) = join_onto (part ++ "/" ++ out) kept

abbrev join : List String → String
join [] = "."
join (last ∷ kept) = join_onto last kept

-- `path.Clean` of a path that is not absolute.
unfoldable pub clean : String → String
unfolding clean_parts segments join_onto
clean s = join (clean_parts [] (segments s))

-- `strings.HasPrefix(s, "../")`
abbrev pub begins_with_up : String → Bool
begins_with_up (String.◌∷◌ a (String.◌∷◌ b (String.◌∷◌ c s))) =
    eq_ℕ (code a) b'.' && eq_ℕ (code b) b'.' && eq_ℕ (code c) b'/'
begins_with_up s = false

clean_example : (clean "a//b/../c/./d" == "a/c/d") ≡ true
unfolding clean up String-discrete
clean_example = refl

clean_example_up : (clean "a/../../b" == "../b") ≡ true
unfolding clean up String-discrete
clean_example_up = refl
