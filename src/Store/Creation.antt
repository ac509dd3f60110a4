-- ===== src/Store/Creation.antt =====
-- internal/db/store.go: CreateChecklist and CreateChecklistForWorkflow.
use self_imp_bin_eval.Base.{
  ◌≡◌, refl, String, false, ◌==◌, ==_refl, [], none, String-discrete, arith,
}
use self_imp_bin_eval.Base.Int.{ℤ}
use self_imp_bin_eval.Errors.{Result, ok, err}
use self_imp_bin_eval.Evalcore.Types.{validate_evaluation_runs}
use self_imp_bin_eval.Store.{Checklist, status_running}
use self_imp_bin_eval.Store.Checklists.{Checklists, put, order_by, get_checklist}
use self_imp_bin_eval.Artifacts.{checklist_task_key, checklist_context_key}
use Prim.Native.String.{◌++◌}

abbrev pub created_row : (id task_key context_key : String) → ℤ → Checklist
created_row id task_key context_key runs = record {
  id = id;
  status = status_running;
  evaluation_runs = runs;
  task_artifact_key = task_key;
  context_artifact_key = context_key;
  failure = none;
  dimensions = [];
  candidate_questions = [];
  weights = [];
  questions = [];
}

-- `inserted` is what the database answers to the insert: the identifier that it generates.
module _ (inserted : Result String) where
  abbrev pub after_insert :
      Checklists → (String → Checklist) → Result String → Checklists × Result String
  after_insert s row (ok id) = (put s id (row id), ok id)
  after_insert s row (err e) = (s, err e)

  abbrev pub insert_if_valid :
      Result (Unit {0}) → Checklists → (String → Checklist) → Checklists × Result String
  insert_if_valid (ok valid) s row = after_insert s row inserted
  insert_if_valid (err e) s row = (s, err e)

  unfoldable pub create_checklist :
      Checklists → (task_key context_key : String) → ℤ → Checklists × Result String
  create_checklist s task_key context_key runs =
      insert_if_valid (validate_evaluation_runs runs runs) s
        (λ id. created_row id task_key context_key runs)

  unfoldable pub create_checklist_for_workflow : Checklists → ℤ → Checklists × Result String
  create_checklist_for_workflow s runs =
      insert_if_valid (validate_evaluation_runs runs runs) s (λ id.
        created_row id ("checklists/" ++ id ++ "/inputs/task.txt")
          ("checklists/" ++ id ++ "/inputs/context.txt") runs)

insert_if_valid-ok :
    (inserted : Result String) (valid : Result (Unit {0})) (s : Checklists)
    (row : String → Checklist) (id : String)
    → (insert_if_valid inserted valid s row).1 ≡ ok id
    → ((insert_if_valid inserted valid s row).0 ≡ put s id (row id)) × (valid ≡ ok tt)
insert_if_valid-ok (ok i) (ok v) s row id h =
    let same : i ≡ id = ground arith in (rw same refl, refl)
insert_if_valid-ok (err e) (ok v) s row id h = ground arith
insert_if_valid-ok inserted (err e) s row id h = ground arith

-- The rest of the store as it was.
abbrev pub IsElsewhere : Checklists → Checklists → String → Type 0
IsElsewhere s1 s id = (j : String) → (j == id) ≡ false → get_checklist s1 j ≡ get_checklist s j

get_checklist-put :
    (s : Checklists) (id task_key context_key : String) (runs : ℤ)
    → let s1 = put s id (created_row id task_key context_key runs) in
      (get_checklist s1 id ≡ ok (created_row id task_key context_key runs)) × IsElsewhere s1 s id
unfolding get_checklist order_by String-discrete
get_checklist-put s id task_key context_key runs =
    let same = ==_refl id in (rw same refl, λ j ne. rw ne refl)

-- A checklist that was created has a valid number of runs and is read back as it was given, running
-- and empty. Every other checklist is read as before.
pub create_checklist-get_checklist :
    (inserted : Result String) (s : Checklists) (task_key context_key : String) (runs : ℤ)
    (id : String)
    → (create_checklist inserted s task_key context_key runs).1 ≡ ok id
    → let s1 = (create_checklist inserted s task_key context_key runs).0 in
      (get_checklist s1 id ≡ ok (created_row id task_key context_key runs))
      × IsElsewhere s1 s id
      × (validate_evaluation_runs runs runs ≡ ok tt)
unfolding create_checklist
create_checklist-get_checklist inserted s task_key context_key runs id h =
    let made = insert_if_valid-ok inserted _ s _ id h in
    let read = get_checklist-put s id task_key context_key runs in
    rw made.0 (read.0, read.1, made.1)

-- A checklist that a workflow created is read back with the keys under which the activities write
-- its inputs. Every other checklist is read as before.
pub create_checklist_for_workflow-get_checklist :
    (inserted : Result String) (s : Checklists) (runs : ℤ) (id : String)
    → (create_checklist_for_workflow inserted s runs).1 ≡ ok id
    → let s1 = (create_checklist_for_workflow inserted s runs).0 in
      (get_checklist s1 id
        ≡ ok (created_row id (checklist_task_key id) (checklist_context_key id) runs))
      × IsElsewhere s1 s id
      × (validate_evaluation_runs runs runs ≡ ok tt)
unfolding create_checklist_for_workflow checklist_task_key checklist_context_key
create_checklist_for_workflow-get_checklist inserted s runs id h =
    let made = insert_if_valid-ok inserted _ s _ id h in
    let read = get_checklist-put s id (checklist_task_key id) (checklist_context_key id) runs in
    rw made.0 (read.0, read.1, made.1)
