-- ===== src/Evalcore/Dimensions/Laws.antt =====
-- What the two validators of dimensions accept, and the code of what they refuse.
use self_imp_bin_eval.Base.{
  ℕ, ◌+◌, ◌<◌, ◌≡◌, refl, ◌↔◌, String, false, List, [], ◌∷◌, length, arith, All,
}
use self_imp_bin_eval.Base.Int.{pos, ◌≤ℤ◌, ◌<ℤ◌}
use self_imp_bin_eval.Base.Keys.{Distinct, AllNew, Distinct-of_AllNew, AllNew-of_Distinct}
use self_imp_bin_eval.Base.Text.{is_blank}
use self_imp_bin_eval.Errors.{
  GoError, ok, err, HasCode, semantic_error, limit_error, invalid_dimension_analysis,
}
use self_imp_bin_eval.Evalcore.Types.{ChecklistLimits, with_defaults, DraftDimension, Dimension}
use self_imp_bin_eval.Evalcore.Dimensions.{
  check_dimension_drafts, validate_dimension_generation, check_dimensions, validate_dimensions,
  dimension_ids,
}

-- No text field is blank.
pub record IsFilledDraft (d : DraftDimension) : Type 0 where
  pub name : is_blank d.name ≡ false
  pub rubric : is_blank d.rubric ≡ false
  pub rationale : is_blank d.rationale ≡ false

pub record IsFilled (d : Dimension) : Type 0 where
  pub id : is_blank d.id ≡ false
  pub ordinal : pos 0 <ℤ d.ordinal
  pub name : is_blank d.name ≡ false
  pub rubric : is_blank d.rubric ≡ false
  pub rationale : is_blank d.rationale ≡ false

pub record AreDimensions (ds : List Dimension) (l : ChecklistLimits) : Type 0 where
  pub some_given : 0 < length ds
  pub within : pos (length ds) ≤ℤ (with_defaults l).max_dimensions
  pub filled : All IsFilled ds
  pub distinct : Distinct (dimension_ids ds)

check_dimension_drafts-ok :
    (i : ℕ) (ds : List DraftDimension) → check_dimension_drafts i ds ≡ ok tt → All IsFilledDraft ds
unfolding check_dimension_drafts
check_dimension_drafts-ok i [] h = tt
check_dimension_drafts-ok i (d ∷ ds) h =
    (ground arith, check_dimension_drafts-ok (i + 1) ds (ground arith))

check_dimensions-ok :
    (seen : List String) (ds : List Dimension)
    → check_dimensions seen ds ≡ ok tt
    → All IsFilled ds × AllNew seen (dimension_ids ds)
unfolding check_dimensions
check_dimensions-ok seen [] h = (tt, tt)
check_dimensions-ok seen (d ∷ ds) h =
    let ih = check_dimensions-ok (d.id ∷ seen) ds (ground arith) in
    ((ground arith, ih.0), (ground arith, ih.1))

ok-check_dimensions :
    (seen : List String) (ds : List Dimension)
    → All IsFilled ds
    → AllNew seen (dimension_ids ds)
    → check_dimensions seen ds ≡ ok tt
unfolding check_dimensions
ok-check_dimensions seen [] h k = refl
ok-check_dimensions seen (d ∷ ds) h k = ground (arith, ok-check_dimensions (d.id ∷ seen) ds h.1 k.1)

check_dimensions-err :
    (seen : List String) (ds : List Dimension) (e : GoError)
    → check_dimensions seen ds ≡ err e
    → HasCode invalid_dimension_analysis e
unfolding check_dimensions semantic_error
check_dimensions-err seen [] e h = cc
check_dimensions-err seen (d ∷ ds) e h = ground (arith, check_dimensions-err (d.id ∷ seen) ds e)

check_dimension_drafts-err :
    (i : ℕ) (ds : List DraftDimension) (e : GoError)
    → check_dimension_drafts i ds ≡ err e
    → HasCode invalid_dimension_analysis e
unfolding check_dimension_drafts semantic_error
check_dimension_drafts-err i [] e h = cc
check_dimension_drafts-err i (d ∷ ds) e h = ground (arith, check_dimension_drafts-err (i + 1) ds e)

ok-check_dimension_drafts :
    (i : ℕ) (ds : List DraftDimension) → All IsFilledDraft ds → check_dimension_drafts i ds ≡ ok tt
unfolding check_dimension_drafts
ok-check_dimension_drafts i [] h = refl
ok-check_dimension_drafts i (d ∷ ds) h = ground (arith, ok-check_dimension_drafts (i + 1) ds h.1)

pub record AreDrafts (ds : List DraftDimension) (l : ChecklistLimits) : Type 0 where
  pub some_given : 0 < length ds
  pub within : pos (length ds) ≤ℤ (with_defaults l).max_dimensions
  pub filled : All IsFilledDraft ds

-- ValidateDimensionGeneration accepts exactly the lists of drafts that are not empty, keep to the
-- limit and have no blank field.
pub validate_dimension_generation_iff :
    (ds : List DraftDimension) (l : ChecklistLimits)
    → (validate_dimension_generation ds l ≡ ok tt) ↔ AreDrafts ds l
unfolding validate_dimension_generation
validate_dimension_generation_iff ds l = (
  λ h. record {
    some_given = ground arith;
    within = ground arith;
    filled = check_dimension_drafts-ok 0 ds (ground arith);
  },
  λ h. ground (arith, ok-check_dimension_drafts 0 ds h.filled),
)

-- ValidateDimensions accepts exactly the lists of dimensions that are not empty, keep to the limit,
-- have filled fields and positive ordinals, and have identifiers that differ.
pub validate_dimensions_iff :
    (ds : List Dimension) (l : ChecklistLimits)
    → (validate_dimensions ds l ≡ ok tt) ↔ AreDimensions ds l
unfolding validate_dimensions
validate_dimensions_iff ds l = (
  λ h.
      let (filled, new) = check_dimensions-ok [] ds (ground arith) in
      record {
        some_given = ground arith;
        within = ground arith;
        filled = filled;
        distinct = Distinct-of_AllNew [] (dimension_ids ds) new;
      },
  λ h.
      let new = AllNew-of_Distinct (dimension_ids ds) h.distinct in
      ground (arith, ok-check_dimensions [] ds h.filled new),
)

-- What either refuses is reported under the code of the dimension analysis.
pub validate_dimensions-err :
    (ds : List Dimension) (l : ChecklistLimits) (e : GoError)
    → validate_dimensions ds l ≡ err e
    → HasCode invalid_dimension_analysis e
unfolding validate_dimensions semantic_error limit_error
validate_dimensions-err ds l e h = ground (arith, check_dimensions-err [] ds e)

pub validate_dimension_generation-err :
    (ds : List DraftDimension) (l : ChecklistLimits) (e : GoError)
    → validate_dimension_generation ds l ≡ err e
    → HasCode invalid_dimension_analysis e
unfolding validate_dimension_generation semantic_error limit_error
validate_dimension_generation-err ds l e h = ground (arith, check_dimension_drafts-err 0 ds e)
