-- ===== src/Evalcore/Ids/Laws.antt =====
-- Assigned identifiers are filled and differ.
use Prim.Native.String.{◌++◌ as ◌<>◌}
use self_imp_bin_eval.Base.{
  ℕ, suc, ◌+◌, ◌≤◌, ◌<◌, ◌^◌, ◌≡◌, refl, ◌≢◌, String, false, List, [], ◌∷◌, length, arith, All, ap,
  ==_of_ne,
}
use self_imp_bin_eval.Base.Int.{pos, ◌+ℤ◌, wrap64, wrap64-add}
use self_imp_bin_eval.Base.Keys.{contains, IsFresh, Distinct}
use self_imp_bin_eval.Base.Ordinals.{contains_ordinal, DistinctOrdinals}
use self_imp_bin_eval.Base.Text.{is_blank, is_blank-append}
use self_imp_bin_eval.Base.Decimal.{itoa, append-itoa-injective}
use self_imp_bin_eval.Errors.{ok}
use self_imp_bin_eval.Evalcore.Types.{ChecklistLimits, DraftDimension, DraftQuestion, FinalQuestion}
use self_imp_bin_eval.Evalcore.Dimensions.{
  dimension_ids, validate_dimension_generation, validate_dimensions,
}
use self_imp_bin_eval.Evalcore.Dimensions.Laws.{
  IsFilledDraft, IsFilled, validate_dimension_generation_iff, validate_dimensions_iff,
}
use self_imp_bin_eval.Evalcore.Questions.{candidate_ids}
use self_imp_bin_eval.Evalcore.FinalQuestions.{question_ids}
use self_imp_bin_eval.Evalcore.FinalQuestions.Laws.{ordinals}
use self_imp_bin_eval.Evalcore.Ids.{
  assign_dimension_ids_from, assign_dimension_ids, assign_candidate_ids_from, number_from,
}

-- The number `n` written behind a prefix.
abbrev pub numbered : String → ℕ → String
numbered prefix n = prefix <> itoa (pos n)

-- A list of identifiers that are numbered in a row.
abbrev pub IsRow : String → ℕ → List String → Type 0
IsRow prefix n [] = Unit
IsRow prefix n (k ∷ ks) = (k ≡ numbered prefix n) × IsRow prefix (n + 1) ks

IsRow-IsFresh :
    (prefix : String) (m n : ℕ) (ks : List String)
    → m < n
    → IsRow prefix n ks
    → IsFresh ks (numbered prefix m)
unfolding contains
IsRow-IsFresh prefix m n [] h r = refl
IsRow-IsFresh prefix m n (k ∷ ks) h r =
    let differ : numbered prefix n ≢ numbered prefix m =
      λ e. absurd (omega (arith, append-itoa-injective prefix n m e)) in
    rw (r.0, ==_of_ne _ _ differ) (IsRow-IsFresh prefix m (n + 1) ks (omega arith) r.1)

pub IsRow-Distinct : (prefix : String) (n : ℕ) (ks : List String) → IsRow prefix n ks → Distinct ks
IsRow-Distinct prefix n [] r = tt
IsRow-Distinct prefix n (k ∷ ks) r = (
  rw r.0 (IsRow-IsFresh prefix n (n + 1) ks (omega arith) r.1),
  IsRow-Distinct prefix (n + 1) ks r.1,
)

pub numbered-filled :
    (prefix : String) (n : ℕ) → is_blank prefix ≡ false → is_blank (numbered prefix n) ≡ false
numbered-filled prefix n h = is_blank-append prefix (itoa (pos n)) h

assign_dimension_ids_from-IsRow :
    (i : ℕ) (ds : List DraftDimension)
    → IsRow "d" (i + 1) (dimension_ids (assign_dimension_ids_from i ds))
unfolding assign_dimension_ids_from
assign_dimension_ids_from-IsRow i [] = tt
assign_dimension_ids_from-IsRow i (d ∷ ds) = (refl, assign_dimension_ids_from-IsRow (i + 1) ds)

d-filled : is_blank "d" ≡ false
unfolding is_blank
d-filled = refl

assign_dimension_ids_from-IsFilled :
    (i : ℕ) (ds : List DraftDimension)
    → All IsFilledDraft ds
    → All IsFilled (assign_dimension_ids_from i ds)
unfolding assign_dimension_ids_from
assign_dimension_ids_from-IsFilled i [] h = tt
assign_dimension_ids_from-IsFilled i (d ∷ ds) h = (
  record {
    id = numbered-filled "d" (i + 1) d-filled;
    ordinal = omega arith;
    name = h.0.name;
    rubric = h.0.rubric;
    rationale = h.0.rationale;
  },
  assign_dimension_ids_from-IsFilled (i + 1) ds h.1,
)

length-assign_dimension_ids_from :
    (i : ℕ) (ds : List DraftDimension) → length (assign_dimension_ids_from i ds) ≡ length ds
unfolding assign_dimension_ids_from
length-assign_dimension_ids_from i [] = refl
length-assign_dimension_ids_from i (d ∷ ds) = ap suc (length-assign_dimension_ids_from (i + 1) ds)

-- Drafts that pass ValidateDimensionGeneration become, with assigned identifiers, dimensions that
-- pass ValidateDimensions: the second check of the analysis never fails.
pub validate_dimensions-assign_dimension_ids :
    (ds : List DraftDimension) (l : ChecklistLimits)
    → validate_dimension_generation ds l ≡ ok tt
    → validate_dimensions (assign_dimension_ids ds) l ≡ ok tt
unfolding assign_dimension_ids
validate_dimensions-assign_dimension_ids ds l h =
    let drafts = (validate_dimension_generation_iff ds l).0 h in
    (validate_dimensions_iff (assign_dimension_ids_from 0 ds) l).1 (record {
      some_given = omega (arith, drafts.some_given, length-assign_dimension_ids_from 0 ds);
      within = omega (arith, drafts.within, length-assign_dimension_ids_from 0 ds);
      filled = assign_dimension_ids_from-IsFilled 0 ds drafts.filled;
      distinct =
          IsRow-Distinct "d" (0 + 1) (dimension_ids (assign_dimension_ids_from 0 ds))
            (assign_dimension_ids_from-IsRow 0 ds);
    })

number_from-IsRow :
    (i : ℕ) (qs : List FinalQuestion) → IsRow "q" (i + 1) (question_ids (number_from i qs))
unfolding number_from
number_from-IsRow i [] = tt
number_from-IsRow i (q ∷ qs) = (refl, number_from-IsRow (i + 1) qs)

pub length-number_from : (i : ℕ) (qs : List FinalQuestion) → length (number_from i qs) ≡ length qs
unfolding number_from
length-number_from i [] = refl
length-number_from i (q ∷ qs) = ap suc (length-number_from (i + 1) qs)

number_from-IsFreshOrdinal :
    (m i : ℕ) (qs : List FinalQuestion)
    → m ≤ i
    → contains_ordinal (ordinals (number_from i qs)) (pos m) ≡ false
unfolding number_from contains_ordinal
number_from-IsFreshOrdinal m i [] h = refl
number_from-IsFreshOrdinal m i (q ∷ qs) h =
    ground (arith, number_from-IsFreshOrdinal m (i + 1) qs (omega arith))

number_from-DistinctOrdinals :
    (i : ℕ) (qs : List FinalQuestion) → DistinctOrdinals (ordinals (number_from i qs))
unfolding number_from
number_from-DistinctOrdinals i [] = tt
number_from-DistinctOrdinals i (q ∷ qs) = (
  number_from-IsFreshOrdinal (i + 1) (i + 1) qs (omega arith),
  number_from-DistinctOrdinals (i + 1) qs,
)

-- Numbered questions have different identifiers and different ordinals.
pub number_from-Distinct :
    (i : ℕ) (qs : List FinalQuestion)
    → Distinct (question_ids (number_from i qs)) × DistinctOrdinals (ordinals (number_from i qs))
number_from-Distinct i qs = (
  IsRow-Distinct "q" (i + 1) (question_ids (number_from i qs)) (number_from-IsRow i qs),
  number_from-DistinctOrdinals i qs,
)

module _ (dimension_id : String) (n : ℕ) where
  -- Candidates numbered from `n + 1` on, as the ordinals stay in range.
  pub assign_candidate_ids_from-IsRow :
      (i : ℕ) (qs : List DraftQuestion)
      → n + i + length qs < 2 ^ 62
      → IsRow "c"
          (n + 1 + i)
          (candidate_ids (assign_candidate_ids_from dimension_id (pos (n + 1)) i qs))
  unfolding assign_candidate_ids_from
  assign_candidate_ids_from-IsRow i [] h = tt
  assign_candidate_ids_from-IsRow i (q ∷ qs) h =
      let ordinal : wrap64 (pos (n + 1) +ℤ pos i) ≡ pos (n + 1 + i) =
        wrap64-add (n + 1) i (omega arith) in
      let next : n + 1 + (i + 1) ≡ n + 1 + i + 1 = omega arith in
      (rw ordinal, rw next at (assign_candidate_ids_from-IsRow (i + 1) qs (omega arith)))
