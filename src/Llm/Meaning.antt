-- ===== src/Llm/Meaning.antt =====
-- What a stream means: the first line that decides, or the texts that its lines add.
use Prim.Native.String
use text.Mathlib.TextLemmas
use self_imp_bin_eval.Base.{◌≡◌, List, [], ◌∷◌, ◌++◌, ◌⊎◌, String}
use self_imp_bin_eval.Errors.{Message, Result, ok}
use self_imp_bin_eval.Llm.{Bytes}
use self_imp_bin_eval.Llm.Stream.{Event, more, ended, stop, on_line}

module _ (decode_event : Bytes → Message ⊎ Event) (tool : String) where
  -- No line decides, and together they add the text.
  abbrev pub Adds : List Bytes → String → Type 0
  Adds [] t = t ≡ ""
  Adds (line ∷ lines) t =
      (delta : String) × (rest : String) × (on_line decode_event tool line ≡ more delta)
      × Adds lines rest
      × (t ≡ String.◌++◌ delta rest)

  -- The line decides the result, after the lines that add the text.
  abbrev pub Decides : Bytes → String → Result String → Type 0
  Decides line t r =
      ((on_line decode_event tool line ≡ ended) × (r ≡ ok t))
      ⊎ (on_line decode_event tool line ≡ stop r)

  abbrev pub Means : List Bytes → Result String → Type 0
  Means lines r =
      ((t : String) × Adds lines t × (r ≡ ok t))
      ⊎ ((before : List Bytes) × (line : Bytes) × (after : List Bytes) × (t : String) × (lines
            ≡ before ++ line ∷ after)
          × Adds before t
          × Decides line t r)

  -- The result of a list of lines, with a content that stands before what they add.
  abbrev IsAfter : String → List Bytes → Result String → Type 0
  IsAfter content lines r =
      ((t : String) × Adds lines t × (r ≡ ok (String.◌++◌ content t)))
      ⊎ ((before : List Bytes) × (line : Bytes) × (after : List Bytes) × (t : String) × (lines
            ≡ before ++ line ∷ after)
          × Adds before t
          × Decides line (String.◌++◌ content t) r)
