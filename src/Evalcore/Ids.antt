-- ===== src/Evalcore/Ids.antt =====
-- internal/evalcore/ids.go, and the numbering of the final questions in active.go.
pub mod Laws
use Prim.Native.String.{◌++◌ as ◌<>◌}
use self_imp_bin_eval.Base.{ℕ, suc, ◌+◌, String, List, [], ◌∷◌}
use self_imp_bin_eval.Base.Int.{ℤ, pos, ◌+ℤ◌, wrap64}
use self_imp_bin_eval.Base.Decimal.{itoa}
use self_imp_bin_eval.Evalcore.Types.{
  DraftDimension, Dimension, DraftQuestion, CandidateQuestion, FinalQuestion,
}

-- The loop from index `i` on.
unfoldable pub assign_dimension_ids_from : ℕ → List DraftDimension → List Dimension
assign_dimension_ids_from i [] = []
assign_dimension_ids_from i (draft ∷ drafts) =
    record {
      id = "d" <> itoa (pos (i + 1));
      ordinal = pos (i + 1);
      name = draft.name;
      rubric = draft.rubric;
      rationale = draft.rationale;
    }
    ∷ assign_dimension_ids_from (i + 1) drafts

unfoldable pub assign_dimension_ids : List DraftDimension → List Dimension
unfolding assign_dimension_ids_from
assign_dimension_ids drafts = assign_dimension_ids_from 0 drafts

abbrev candidate_at : String → ℤ → DraftQuestion → CandidateQuestion
candidate_at dimension_id ordinal draft = record {
  id = "c" <> itoa ordinal;
  dimension_id = dimension_id;
  ordinal = ordinal;
  rationale = draft.rationale;
  question = draft.question;
}

unfoldable pub assign_candidate_ids_from :
    String → ℤ → ℕ → List DraftQuestion → List CandidateQuestion
assign_candidate_ids_from dimension_id start_ordinal i [] = []
assign_candidate_ids_from dimension_id start_ordinal i (draft ∷ drafts) =
    candidate_at dimension_id (wrap64 (start_ordinal +ℤ pos i)) draft
    ∷ assign_candidate_ids_from dimension_id start_ordinal (i + 1) drafts

unfoldable pub assign_candidate_question_ids :
    String → ℤ → List DraftQuestion → List CandidateQuestion
unfolding assign_candidate_ids_from
assign_candidate_question_ids dimension_id start_ordinal drafts =
    assign_candidate_ids_from dimension_id start_ordinal 0 drafts

-- `final[i].ID = …; final[i].Ordinal = i + 1`
unfoldable pub number_from : ℕ → List FinalQuestion → List FinalQuestion
number_from i [] = []
number_from i (question ∷ final) =
    record question { id = "q" <> itoa (pos (i + 1)); ordinal = pos (i + 1) }
    ∷ number_from (i + 1) final
