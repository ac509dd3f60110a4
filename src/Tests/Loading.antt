-- ===== src/Tests/Loading.antt =====
-- Inputs that are written for a checklist and loaded with it.
use self_imp_bin_eval.Base.{◌≡◌, refl, String, [], none, some, String-discrete}
use self_imp_bin_eval.Base.Int.{pos}
use self_imp_bin_eval.Errors.{GoError, Message, Details, application, Result, ok, opaque}
use self_imp_bin_eval.Workflows.Options.{is_listed, to_temporal_error-is_listed}
use self_imp_bin_eval.Activities.{to_temporal_error}
use self_imp_bin_eval.Artifacts.{checklist_task_key, checklist_context_key}
use self_imp_bin_eval.Store.{Checklist, status_succeeded}
use self_imp_bin_eval.Store.Checklists.{Checklists, get_checklist, order_by}
use self_imp_bin_eval.Activities.Inputs.{WriteChecklistInputsInput}
use self_imp_bin_eval.Activities.Storing.{Artifacts, put, write_checklist_inputs, load_checklist}
use self_imp_bin_eval.Activities.Storing.Laws.{load_checklist-write_checklist_inputs}

abbrev fine : String → Result (Unit {0})
fine key = ok tt

abbrev not_there : GoError
not_there = opaque []

abbrev inputs : WriteChecklistInputsInput
inputs = record { checklist_id = "a"; task = "Write a poem."; context = "none" }

abbrev empty : Artifacts
empty key = none

abbrev filled : Artifacts
filled = put (put empty (checklist_task_key "a") "Write a poem.") (checklist_context_key "a") "none"

abbrev row : Checklist
row = record {
  id = "a";
  status = status_succeeded;
  evaluation_runs = pos 3;
  task_artifact_key = checklist_task_key "a";
  context_artifact_key = checklist_context_key "a";
  failure = none;
  dimensions = [];
  candidate_questions = [];
  weights = [];
  questions = [];
}

abbrev one_row : Checklists
one_row id = some row

wrote : write_checklist_inputs fine (pos 1) empty inputs ≡ (filled, ok tt)
unfolding write_checklist_inputs
wrote = refl

found : get_checklist one_row "a" ≡ ok row
unfolding get_checklist String-discrete order_by
found = refl

load_checklist-write_checklist_inputs_example :
    load_checklist fine not_there (pos 1) filled one_row (record { checklist_id = "a" })
    ≡ ok (record { checklist = row; task = "Write a poem."; context = "none" })
load_checklist-write_checklist_inputs_example =
    load_checklist-write_checklist_inputs fine fine not_there (pos 1) (pos 1) empty filled inputs
      one_row row wrote found refl refl refl refl refl

to_temporal_error-is_listed_example :
    (message : Message) × (type : String) × (d : Details) × (to_temporal_error (pos 1) [] not_there
      ≡ application message type (is_listed type) d)
to_temporal_error-is_listed_example = to_temporal_error-is_listed (pos 1) [] not_there
