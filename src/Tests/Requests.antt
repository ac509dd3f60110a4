-- ===== src/Tests/Requests.antt =====
-- Requests to the API: one whose workflow starts, and one whose does not.
use self_imp_bin_eval.Base.{◌≡◌, refl, ◌↔◌, String, Bool, true, [], none, some, String-discrete}
use self_imp_bin_eval.Base.Int.{pos}
use self_imp_bin_eval.Base.Text.{is_blank}
use self_imp_bin_eval.Errors.{
  GoError, Result, ok, err, opaque, execution_not_found, workflow_start, error_chain,
}
use self_imp_bin_eval.Evalcore.Types.{validate_evaluation_runs}
use self_imp_bin_eval.Store.{status_running}
use self_imp_bin_eval.Store.Checklists.{get_checklist, read_checklist}
use self_imp_bin_eval.Api.{
  CreateChecklistRequest, CreateEvaluationRequest, Answers, create_checklist, runs_or_default,
  start_failure,
}
use self_imp_bin_eval.Api.Starting.{
  Client, start_workflow, start_create_checklist, is_definitive_start_error, is_already_started,
  is_execution_not_found,
}
use self_imp_bin_eval.Api.Responses.{respond, write_error, accepted_checklist}
use self_imp_bin_eval.Api.Creates.{IsValidRequest, created_database, create_checklist_iff}
use self_imp_bin_eval.Api.Unstarted.{
  IsAbsent, start_workflow-definitive_iff, unstarted_checklist, create_checklist-unstarted,
}
use self_imp_bin_eval.Tests.Data.{no_limits}
use self_imp_bin_eval.Tests.Stores.{piece_text}
use self_imp_bin_eval.Tests.Lifecycle.{in_order, judged}

abbrev no_answer : GoError
no_answer = opaque []

-- Temporal starts nothing, and knows of no workflow.
abbrev absent : Client
absent = record {
  execute_checklist = λ id input. err no_answer;
  execute_evaluation = λ id input. err no_answer;
  describe = λ id. err execution_not_found;
}

abbrev answers : Answers
answers = record {
  inserted = ok "b";
  commit_checklist = λ row. ok tt;
  commit_evaluation = λ row. ok tt;
  client = absent;
}

abbrev body : CreateChecklistRequest
body = record { task = "Write a poem."; context = "none"; evaluation_runs = none }

abbrev evaluation_body : CreateEvaluationRequest
evaluation_body = record { checklist_id = "a"; model_answer = "A poem." }

valid : IsValidRequest in_order piece_text no_limits (pos 0) answers (ok body) body
unfolding is_blank validate_evaluation_runs String-discrete
valid = record { read = refl; task = refl; context = refl; runs = refl }

unstarted :
    start_create_checklist absent no_limits "b" "Write a poem." "none"
    ≡ err (workflow_start true no_answer)
unfolding start_create_checklist start_workflow is_already_started is_execution_not_found
    error_chain
unstarted = refl

definitive : is_definitive_start_error (workflow_start true no_answer) ≡ true
unfolding is_definitive_start_error
definitive = refl

create_checklist-unstarted_example :
    let (left, response) =
      create_checklist in_order piece_text no_limits (pos 0) answers judged (ok body) in
    (response ≡ write_error 500 "start_workflow_failed")
    × (get_checklist left.checklists "b"
        ≡ ok
            (read_checklist (some (start_failure "checklist-b")) (unstarted_checklist "b" (pos 3))))
create_checklist-unstarted_example =
    create_checklist-unstarted in_order piece_text no_limits (pos 0) answers judged (ok body) body
      "b" (workflow_start true no_answer) valid refl unstarted definitive refl

abbrev failed_start : Result (Unit {0})
failed_start = err no_answer

abbrev no_workflow : Result Bool
no_workflow = err execution_not_found

start_workflow-definitive_iff_example :
    ((e : GoError) × (start_workflow failed_start no_workflow ≡ err e)
      × (is_definitive_start_error e ≡ true))
    ↔ IsAbsent failed_start no_workflow
start_workflow-definitive_iff_example = start_workflow-definitive_iff failed_start no_workflow

create_checklist_iff_example :
    let request : Result CreateChecklistRequest = ok body in
    ((create_checklist in_order piece_text no_limits (pos 0) answers judged request).1.status ≡ 202)
    ↔ ((b : CreateChecklistRequest) × (id : String) × IsValidRequest in_order piece_text no_limits
          (pos 0)
          answers
          request
          b
        × (answers.inserted ≡ ok id)
        × (start_create_checklist absent no_limits id b.task b.context ≡ ok tt)
        × (create_checklist in_order piece_text no_limits (pos 0) answers judged request ≡ (
          created_database in_order piece_text no_limits (pos 0) answers judged b id,
          respond 202 (accepted_checklist id status_running (runs_or_default b.evaluation_runs)),
        )))
create_checklist_iff_example =
    create_checklist_iff in_order piece_text no_limits (pos 0) answers judged (ok body)
