-- ===== src/Evalcore/Dimensions.antt =====
-- internal/evalcore/validate.go: ValidateDimensionGeneration and ValidateDimensions.
pub mod Laws
use self_imp_bin_eval.Base.{
  ℕ, suc, ◌+◌, String, Bool, true, false, List, [], ◌∷◌, map, length, if◌then◌else◌, eq_ℕ,
}
use self_imp_bin_eval.Base.Int.{ℤ, pos, ltb_ℤ, leb_ℤ}
use self_imp_bin_eval.Base.Keys.{contains}
use self_imp_bin_eval.Base.Text.{is_blank}
use self_imp_bin_eval.Errors.{
  Result, ok, fail_if, ◌>>=◌, ◌>>◌, semantic_error, limit_error, invalid_dimension_analysis, lit,
  quote, int,
}
use self_imp_bin_eval.Evalcore.Types.{ChecklistLimits, with_defaults, DraftDimension, Dimension}

-- The loop over the drafts, `i` the index of the first one.
unfoldable pub check_dimension_drafts : ℕ → List DraftDimension → Result (Unit {0})
check_dimension_drafts i [] = ok tt
check_dimension_drafts i (draft ∷ drafts) = do
  fail_if (is_blank draft.name) (
      semantic_error invalid_dimension_analysis
        (lit "dimension " ∷ int (pos (i + 1)) ∷ lit " has blank name" ∷ []))
  fail_if (is_blank draft.rubric) (
      semantic_error invalid_dimension_analysis
        (lit "dimension " ∷ int (pos (i + 1)) ∷ lit " has blank rubric" ∷ []))
  fail_if (is_blank draft.rationale) (
      semantic_error invalid_dimension_analysis
        (lit "dimension " ∷ int (pos (i + 1)) ∷ lit " has blank rationale" ∷ []))
  check_dimension_drafts (i + 1) drafts

unfoldable pub validate_dimension_generation :
    List DraftDimension → ChecklistLimits → Result (Unit {0})
validate_dimension_generation drafts limits0 = do
  let limits = with_defaults limits0
  fail_if (eq_ℕ (length drafts) 0) (
      semantic_error invalid_dimension_analysis
        (lit "dimension analysis returned no dimensions" ∷ []))
  fail_if (ltb_ℤ limits.max_dimensions (pos (length drafts))) (
      limit_error invalid_dimension_analysis (record {
        limit_name = "max_dimensions";
        configured_limit = limits.max_dimensions;
        observed_count = pos (length drafts);
        checklist_id = "";
        stage = "dimension_analysis";
      }))
  check_dimension_drafts 0 drafts

-- The loop over the dimensions.
unfoldable pub check_dimensions : List String → List Dimension → Result (Unit {0})
check_dimensions seen [] = ok tt
check_dimensions seen (dimension ∷ dimensions) = do
  fail_if (is_blank dimension.id)
      (semantic_error invalid_dimension_analysis (lit "dimension has blank id" ∷ []))
  fail_if (contains seen dimension.id) (
      semantic_error invalid_dimension_analysis
        (lit "duplicate dimension id " ∷ quote dimension.id ∷ []))
  fail_if (leb_ℤ dimension.ordinal (pos 0)) (
      semantic_error invalid_dimension_analysis (
        lit "dimension id "
        ∷ quote dimension.id
        ∷ lit " has invalid ordinal "
        ∷ int dimension.ordinal
        ∷ []))
  fail_if (is_blank dimension.name) (
      semantic_error invalid_dimension_analysis
        (lit "dimension id " ∷ quote dimension.id ∷ lit " has blank name" ∷ []))
  fail_if (is_blank dimension.rubric) (
      semantic_error invalid_dimension_analysis
        (lit "dimension id " ∷ quote dimension.id ∷ lit " has blank rubric" ∷ []))
  fail_if (is_blank dimension.rationale) (
      semantic_error invalid_dimension_analysis
        (lit "dimension id " ∷ quote dimension.id ∷ lit " has blank rationale" ∷ []))
  check_dimensions (dimension.id ∷ seen) dimensions

unfoldable pub validate_dimensions : List Dimension → ChecklistLimits → Result (Unit {0})
validate_dimensions dimensions limits0 = do
  let limits = with_defaults limits0
  fail_if (eq_ℕ (length dimensions) 0)
      (semantic_error invalid_dimension_analysis (lit "no dimensions" ∷ []))
  fail_if (ltb_ℤ limits.max_dimensions (pos (length dimensions))) (
      limit_error invalid_dimension_analysis (record {
        limit_name = "max_dimensions";
        configured_limit = limits.max_dimensions;
        observed_count = pos (length dimensions);
        checklist_id = "";
        stage = "validate_dimensions";
      }))
  check_dimensions [] dimensions

abbrev pub dimension_ids : List Dimension → List String
dimension_ids = map (λ d. d.id)
