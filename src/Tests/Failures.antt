-- ===== src/Tests/Failures.antt =====
-- Errors on their way into a stored failure.
use self_imp_bin_eval.Base.{◌≡◌, refl, String, true, not, [], ◌∷◌, String-discrete}
use self_imp_bin_eval.Base.Int.{pos}
use self_imp_bin_eval.Base.Text.{is_blank, any_code}
use self_imp_bin_eval.Base.Paths.{clean, up}
use self_imp_bin_eval.Errors.{GoError, Details, wrapped, application, lit, infra, no_cause}
use self_imp_bin_eval.Failure.{validate_artifact_reference}
use self_imp_bin_eval.Failure.Laws.{IsReference}
use self_imp_bin_eval.Activities.{failure_details, to_temporal_error, workflow_failure_details}
use self_imp_bin_eval.Activities.Reports.{IsReport, failure_details-IsReport}

abbrev invalid : GoError
invalid = wrapped (lit "check: " ∷ []) (infra (lit "no answer" ∷ []) true no_cause)

abbrev reference : String
reference = "checklists/1/llm/weight_assignment/attempt-2/request.json"

abbrev details : Details
details =
    workflow_failure_details "wf" "weight_assignment"
      (to_temporal_error (pos 2) (reference ∷ []) invalid)

reference-IsReference : IsReference reference
unfolding validate_artifact_reference is_blank any_code clean up String-discrete
reference-IsReference = refl

failure_details-IsReport_example :
    IsReport (failure_details invalid (pos 2))
    × ((d : Details) × IsReport d
        × (to_temporal_error (pos 2) (reference ∷ []) invalid
            ≡ application d.message d.error_class (not d.retryable) d))
failure_details-IsReport_example = failure_details-IsReport invalid (pos 2) (reference ∷ [])
