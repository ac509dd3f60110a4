-- ===== src/Tests/Checklists.antt =====
-- Runs of BuildFinalChecklist and of the assignment of identifiers.
use self_imp_bin_eval.Base.{◌≡◌, ◌↔◌, List, [], ◌∷◌}
use self_imp_bin_eval.Errors.{ok}
use self_imp_bin_eval.Evalcore.Types.{FinalQuestion}
use self_imp_bin_eval.Evalcore.Active.{build_final_checklist}
use self_imp_bin_eval.Evalcore.Active.Laws.{IsBuildable, final_of, build_final_checklist_iff}
use self_imp_bin_eval.Tests.Data.{no_limits, dimensions, candidates, weights, split}

abbrev final : List FinalQuestion
final = final_of dimensions candidates weights (split ∷ []) no_limits

abbrev Builds : Type 0
Builds = build_final_checklist dimensions candidates weights (split ∷ []) no_limits ≡ ok final

build_final_checklist_iff_example :
    Builds ↔ (IsBuildable dimensions candidates weights (split ∷ []) no_limits × (final ≡ final))
build_final_checklist_iff_example =
    build_final_checklist_iff dimensions candidates weights (split ∷ []) no_limits final
