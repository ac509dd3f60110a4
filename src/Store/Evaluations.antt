-- ===== src/Store/Evaluations.antt =====
-- internal/db/store.go: CreateEvaluation and CreateEvaluationForWorkflow. Times are left out.
pub mod Reading
pub mod Ending
pub mod Keyed
pub mod Laws
use self_imp_bin_eval.Base.{
  ℕ, ◌≡◌, refl, ◌↔◌, String, true, false, ◌==◌, ==_refl, eq_of_==, List, [], Option, none, some,
  if◌then◌else◌, arith,
}
use self_imp_bin_eval.Errors.{Details, Result, ok, err, not_found, conflict}
use self_imp_bin_eval.Evalcore.Types.{Rate, RunJudgment, AggregatedJudgment}
use self_imp_bin_eval.Store.{Checklist, status_running, status_succeeded}
use self_imp_bin_eval.Store.Checklists.{Checklists}
use self_imp_bin_eval.Artifacts.{evaluation_answer_key}
use Prim.Native.String.{◌++◌}

pub record Evaluation : Type 0 where
  pub id : String
  pub checklist_id : String
  pub status : String
  pub answer_artifact_key : String
  pub satisfied_points : Option ℕ
  pub total_possible_points : Option ℕ
  pub checklist_pass_rate : Option Rate
  pub failed_question_ids : List String
  pub failure : Option Details
  pub run_judgments : List RunJudgment
  pub judgments : List AggregatedJudgment

abbrev pub Evaluations : Type 0
Evaluations = String → Option Evaluation

abbrev pub created_evaluation : (id checklist_id answer_key : String) → Evaluation
created_evaluation id checklist_id answer_key = record {
  id = id;
  checklist_id = checklist_id;
  status = status_running;
  answer_artifact_key = answer_key;
  satisfied_points = none;
  total_possible_points = none;
  checklist_pass_rate = none;
  failed_question_ids = [];
  failure = none;
  run_judgments = [];
  judgments = [];
}

abbrev pub put_evaluation : Evaluations → String → Evaluation → Evaluations
put_evaluation s id row j = if j == id then some row else s j

-- `inserted` is what the database answers to the insert: the identifier that it generates.
module _ (inserted : Result String) where
  abbrev after_insert_evaluation :
      Evaluations → (String → Evaluation) → Result String → Evaluations × Result String
  after_insert_evaluation s row (ok id) = (put_evaluation s id (row id), ok id)
  after_insert_evaluation s row (err e) = (s, err e)

  abbrev pub insert_for_checklist :
      Evaluations → (String → Evaluation) → Option Checklist → Evaluations × Result String
  insert_for_checklist s row none = (s, err not_found)
  insert_for_checklist s row (some checklist) =
      if checklist.status == status_succeeded
      then after_insert_evaluation s row inserted
      else (s, err conflict)

  unfoldable pub create_evaluation :
      Checklists → Evaluations → (checklist_id answer_key : String) → Evaluations × Result String
  create_evaluation checklists s checklist_id answer_key =
      insert_for_checklist s (λ id. created_evaluation id checklist_id answer_key)
        (checklists checklist_id)

  unfoldable pub create_evaluation_for_workflow :
      Checklists → Evaluations → (checklist_id : String) → Evaluations × Result String
  create_evaluation_for_workflow checklists s checklist_id =
      insert_for_checklist s
        (λ id.
          created_evaluation id checklist_id ("evaluations/" ++ id ++ "/inputs/model_answer.txt"))
        (checklists checklist_id)

-- The checklist is there and has succeeded.
abbrev pub HasSucceeded : Option Checklist → Type 0
HasSucceeded none = ⊥
HasSucceeded (some row) = row.status ≡ status_succeeded

-- The new row is there, and the others are as they were.
abbrev pub IsInserted : Evaluations → Evaluations → String → Evaluation → Type 0
IsInserted s1 s id row = (s1 id ≡ some row) × ((j : String) → (j == id) ≡ false → s1 j ≡ s j)

insert_for_checklist_iff :
    (inserted : Result String) (s : Evaluations) (row : String → Evaluation)
    (found : Option Checklist) (id : String)
    → ((insert_for_checklist inserted s row found).1 ≡ ok id)
      ↔ ((inserted ≡ ok id) × HasSucceeded found)
insert_for_checklist_iff inserted s row none id = (λ h. ground arith, λ h. ground arith)
insert_for_checklist_iff (ok i) s row (some c) id = (
  λ h. (ground arith, ground (arith, eq_of_== c.status status_succeeded)),
  λ h.
      let test : (c.status == status_succeeded) ≡ true = rw h.1 (==_refl status_succeeded) in
      rw test h.0,
)
insert_for_checklist_iff (err e) s row (some c) id = (λ h. ground arith, λ h. ground arith)

insert_for_checklist-IsInserted :
    (inserted : Result String) (s : Evaluations) (row : String → Evaluation)
    (found : Option Checklist) (id : String)
    → (insert_for_checklist inserted s row found).1 ≡ ok id
    → IsInserted (insert_for_checklist inserted s row found).0 s id (row id)
insert_for_checklist-IsInserted inserted s row none id h = ground arith
insert_for_checklist-IsInserted (ok i) s row (some c) id h =
    let same : i ≡ id = ground arith in
    let test : (c.status == status_succeeded) ≡ true = ground arith in
    rw same (rw test (rw (==_refl id) refl, λ j ne. rw ne refl))
insert_for_checklist-IsInserted (err e) s row (some c) id h = ground arith

-- An evaluation is created exactly if the checklist is there and has succeeded, and the insert
-- succeeds. It is then stored, running, with the key under which the activity writes the answer.
pub create_evaluation_for_workflow_iff :
    (inserted : Result String) (checklists : Checklists) (s : Evaluations)
    (checklist_id id : String)
    → ((create_evaluation_for_workflow inserted checklists s checklist_id).1 ≡ ok id) ↔ (
        (inserted ≡ ok id)
        × HasSucceeded (checklists checklist_id)
        × IsInserted
            (create_evaluation_for_workflow inserted checklists s checklist_id).0
            s
            id
            (created_evaluation id checklist_id (evaluation_answer_key id)))
unfolding create_evaluation_for_workflow evaluation_answer_key
create_evaluation_for_workflow_iff inserted checklists s checklist_id id =
    let iff = insert_for_checklist_iff inserted s _ (checklists checklist_id) id in
    let stored = insert_for_checklist-IsInserted inserted s _ (checklists checklist_id) id in
    (λ h. ((iff.0 h).0, (iff.0 h).1, stored h), λ h. iff.1 (h.0, h.1))
