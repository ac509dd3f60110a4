-- ===== src/Api.antt =====
-- internal/api/router.go: the handlers on the store's tables, and how they start workflows.
pub mod Starting
pub mod Responses
pub mod Laws
pub mod Creates
pub mod Unstarted
pub mod Reads
use self_imp_bin_eval.Base.{
  ℕ, String, Bool, true, false, not, ◌||◌, ◌==◌, List, [], ◌∷◌, Option, none, some, if◌then◌else◌,
}
use Prim.Native.String.{◌++◌}
use self_imp_bin_eval.Base.Int.{ℤ, pos, leb_ℤ}
use self_imp_bin_eval.Base.Text.{is_blank}
use self_imp_bin_eval.Errors.{GoError, Message, Details, Result, ok, err, lit}
use self_imp_bin_eval.Evalcore.Types.{
  ChecklistLimits, default_evaluation_runs, default_max_evaluation_runs, validate_evaluation_runs,
}
use self_imp_bin_eval.Failure.{class_infra_non_retryable}
use self_imp_bin_eval.Store.{Checklist, status_running}
use self_imp_bin_eval.Store.Checklists.{get_checklist}
use self_imp_bin_eval.Store.Creation.{create_checklist_for_workflow}
use self_imp_bin_eval.Store.Failing.{fail_checklist}
use self_imp_bin_eval.Store.Evaluations.{Evaluation, create_evaluation_for_workflow}
use self_imp_bin_eval.Store.Evaluations.Reading.{get_evaluation}
use self_imp_bin_eval.Store.Evaluations.Ending.{fail_evaluation}
use self_imp_bin_eval.Store.Lifecycle.Steps.{Database}
use self_imp_bin_eval.Api.Starting.{
  Client, is_definitive_start_error, start_create_checklist, start_evaluate_answer,
}
use self_imp_bin_eval.Api.Responses.{
  Response, Body, respond, write_error, status_from_error, checklist_response, evaluation_response,
  accepted_checklist, accepted_evaluation, checklist_found, evaluation_found,
}

pub record CreateChecklistRequest : Type 0 where
  pub task : String
  pub context : String
  pub evaluation_runs : Option ℤ

pub record CreateEvaluationRequest : Type 0 where
  pub checklist_id : String
  pub model_answer : String

-- What the database and Temporal answer while a request is handled.
pub record Answers : Type 0 where
  pub inserted : Result String
  pub commit_checklist : Checklist → Result (Unit {0})
  pub commit_evaluation : Evaluation → Result (Unit {0})
  pub client : Client

-- `NewRouter`
abbrev pub max_evaluation_runs : ℤ → ℤ
max_evaluation_runs given = if leb_ℤ given (pos 0) then default_max_evaluation_runs else given

abbrev pub runs_or_default : Option ℤ → ℤ
runs_or_default none = default_evaluation_runs
runs_or_default (some runs) = runs

abbrev pub start_failure : String → Details
start_failure workflow_id = record {
  workflow_id = workflow_id;
  stage = "start_workflow";
  error_class = class_infra_non_retryable;
  error_code = "workflow_start_failed";
  message = lit "workflow did not start" ∷ [];
  retryable = false;
  attempt_count = pos 1;
  diagnostics = [];
  artifact_references = [];
}

-- `before` is the order of the database on texts, and `text` the text of a message.
module _ (before : String → String → Bool) (text : Message → String) (limits : ChecklistLimits)
    (max_runs : ℤ) (answers : Answers) where
  -- What a handler answers after it tried to persist the failure to start.
  abbrev pub after_start_failure : Result (Unit {0}) → Response
  after_start_failure (ok persisted) = write_error 500 "start_workflow_failed"
  after_start_failure (err e) = write_error 500 "persist_workflow_failure_failed"

  abbrev pub persisted : {S : Type 0} → S × Result (Unit {0}) → (S → Database) → Database × Response
  persisted (s, result) database = (database s, after_start_failure result)

  abbrev pub after_start_checklist : Database → String → ℤ → Result (Unit {0}) → Database × Response
  after_start_checklist d id runs (ok started) =
      (d, respond 202 (accepted_checklist id status_running runs))
  after_start_checklist d id runs (err e) =
      if is_definitive_start_error e
      then persisted
          (fail_checklist text answers.commit_checklist d.checklists id
            (start_failure ("checklist-" ++ id)))
          (λ s. record d { checklists = s })
      else (d, after_start_failure (ok tt))

  abbrev pub after_create_checklist :
      Database → CreateChecklistRequest → ℤ → Result String → Database × Response
  after_create_checklist d body runs (err e) =
      (d, write_error (status_from_error e) "create_checklist_failed")
  after_create_checklist d body runs (ok id) =
      after_start_checklist d id runs
        (start_create_checklist answers.client limits id body.task body.context)

  abbrev pub with_valid_runs :
      Database → CreateChecklistRequest → ℤ → Result (Unit {0}) → Database × Response
  with_valid_runs d body runs (err e) = (d, write_error 400 "invalid_evaluation_runs")
  with_valid_runs d body runs (ok valid) =
      let (s, created) = create_checklist_for_workflow answers.inserted d.checklists runs in
      after_create_checklist (record d { checklists = s }) body runs created

  unfoldable pub create_checklist : Database → Result CreateChecklistRequest → Database × Response
  create_checklist d (err e) = (d, write_error 400 "invalid_request")
  create_checklist d (ok body) =
      let runs = runs_or_default body.evaluation_runs in
      if is_blank body.task || is_blank body.context
      then (d, write_error 400 "invalid_request")
      else with_valid_runs d body runs
          (validate_evaluation_runs runs (max_evaluation_runs max_runs))

  abbrev pub read_checklist_response : Result Checklist → Response
  read_checklist_response (err e) = write_error (status_from_error e) "get_checklist_failed"
  read_checklist_response (ok checklist) =
      respond 200 (checklist_found (checklist_response checklist))

  unfoldable pub get_checklist_handler : Database → String → Response
  get_checklist_handler d id = read_checklist_response (get_checklist d.checklists id)

  abbrev pub after_start_evaluation :
      Database → (id checklist_id : String) → Result (Unit {0}) → Database × Response
  after_start_evaluation d id checklist_id (ok started) =
      (d, respond 202 (accepted_evaluation id status_running))
  after_start_evaluation d id checklist_id (err e) =
      if is_definitive_start_error e
      then persisted
          (fail_evaluation before text answers.commit_evaluation d.checklists d.evaluations id
            checklist_id (start_failure ("evaluation-" ++ id)))
          (λ s. record d { evaluations = s })
      else (d, after_start_failure (ok tt))

  abbrev pub after_create_evaluation :
      Database → CreateEvaluationRequest → Result String → Database × Response
  after_create_evaluation d body (err e) =
      (d, write_error (status_from_error e) "create_evaluation_failed")
  after_create_evaluation d body (ok id) =
      after_start_evaluation d id body.checklist_id
        (start_evaluate_answer answers.client id body.checklist_id body.model_answer)

  unfoldable pub create_evaluation : Database → Result CreateEvaluationRequest → Database × Response
  create_evaluation d (err e) = (d, write_error 400 "invalid_request")
  create_evaluation d (ok body) =
      let (s, created) =
        create_evaluation_for_workflow answers.inserted d.checklists d.evaluations
          body.checklist_id in
      if is_blank body.checklist_id || is_blank body.model_answer
      then (d, write_error 400 "invalid_request")
      else after_create_evaluation (record d { evaluations = s }) body created

  abbrev pub read_evaluation_response : Result Evaluation → Response
  read_evaluation_response (err e) = write_error (status_from_error e) "get_evaluation_failed"
  read_evaluation_response (ok evaluation) =
      respond 200 (evaluation_found (evaluation_response evaluation))

  unfoldable pub get_evaluation_handler : Database → String → Response
  get_evaluation_handler d id =
      read_evaluation_response (get_evaluation before d.checklists d.evaluations id)
