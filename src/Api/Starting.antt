-- ===== src/Api/Starting.antt =====
-- internal/api/router.go: TemporalStarter and the error of a workflow that did not start.
use self_imp_bin_eval.Base.{String, Bool, true, false, List, [], ◌∷◌, if◌then◌else◌}
use Prim.Native.String.{◌++◌}
use self_imp_bin_eval.Errors.{
  GoError, Result, ok, err, error_chain, workflow_start, wrapped, already_started,
  execution_not_found, lit,
}
use self_imp_bin_eval.Evalcore.Types.{ChecklistLimits, with_defaults}
use self_imp_bin_eval.Workflows.Create.{CreateChecklistInput}
use self_imp_bin_eval.Workflows.Evaluate.{EvaluateAnswerInput}

-- What Temporal's client answers. `describe` tells whether the description is not nil.
pub record Client : Type 0 where
  pub execute_checklist : (workflow_id : String) → CreateChecklistInput → Result (Unit {0})
  pub execute_evaluation : (workflow_id : String) → EvaluateAnswerInput → Result (Unit {0})
  pub describe : (workflow_id : String) → Result Bool

-- `errors.As` for the two errors of Temporal that the code asks for.
unfoldable pub is_already_started : List GoError → Bool
is_already_started [] = false
is_already_started (already_started ∷ es) = true
is_already_started (_ ∷ es) = is_already_started es

unfoldable pub is_execution_not_found : List GoError → Bool
is_execution_not_found [] = false
is_execution_not_found (execution_not_found ∷ es) = true
is_execution_not_found (_ ∷ es) = is_execution_not_found es

-- `errors.As` finds the first error of the type, whose field is then read.
unfoldable pub definitive_in : List GoError → Bool
definitive_in [] = false
definitive_in (workflow_start definitive e ∷ es) = definitive
definitive_in (_ ∷ es) = definitive_in es

unfoldable pub is_definitive_start_error : GoError → Bool
unfolding definitive_in error_chain
is_definitive_start_error e = definitive_in (error_chain e)

-- The error where the description does not tell either. The text of its error is left out.
abbrev pub ambiguous : GoError → GoError
ambiguous start_error =
    workflow_start false (wrapped (lit "start error: " ∷ lit "; describe error: " ∷ []) start_error)

abbrev pub after_describe : GoError → Result Bool → Result (Unit {0})
after_describe start_error (ok true) = ok tt
after_describe start_error (ok false) = err (ambiguous start_error)
after_describe start_error (err e) =
    if is_execution_not_found (error_chain e)
    then err (workflow_start true start_error)
    else err (ambiguous start_error)

-- `described` is asked for only where the start failed for another reason.
unfoldable pub start_workflow : Result (Unit {0}) → Result Bool → Result (Unit {0})
start_workflow (ok started) described = ok tt
start_workflow (err e) described =
    if is_already_started (error_chain e) then ok tt else after_describe e described

unfoldable pub start_create_checklist :
    Client → ChecklistLimits → (id task context : String) → Result (Unit {0})
start_create_checklist client limits id task context =
    let workflow_id = "checklist-" ++ id in
    start_workflow
      (client.execute_checklist workflow_id (record {
        checklist_id = id;
        task = task;
        context = context;
        limits = with_defaults limits;
      }))
      (client.describe workflow_id)

unfoldable pub start_evaluate_answer :
    Client → (id checklist_id model_answer : String) → Result (Unit {0})
start_evaluate_answer client id checklist_id model_answer =
    let workflow_id = "evaluation-" ++ id in
    start_workflow
      (client.execute_evaluation workflow_id
        (record { evaluation_id = id; checklist_id = checklist_id; model_answer = model_answer }))
      (client.describe workflow_id)
