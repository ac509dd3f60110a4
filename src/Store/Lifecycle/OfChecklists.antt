-- ===== src/Store/Lifecycle/OfChecklists.antt =====
-- The operations on checklists change them as specified.
use self_imp_bin_eval.Base.{
  ◌≡◌, refl, String, ◌==◌, eq_of_==, List, Option, none, some, if◌then◌else◌, Bool-cases, inl, inr,
}
use self_imp_bin_eval.Base.Int.{ℤ}
use self_imp_bin_eval.Errors.{Message, Details, Result, ok, err}
use self_imp_bin_eval.Evalcore.Types.{
  ChecklistLimits, Dimension, CandidateQuestion, Weight, FinalQuestion, validate_evaluation_runs,
}
use self_imp_bin_eval.Failure.{validate_details}
use self_imp_bin_eval.Store.{Checklist, status_running}
use self_imp_bin_eval.Store.Checklists.{
  Checklists, check_submission, succeeded_row, after_commit, in_transaction, if_valid,
  succeed_checklist, compare_succeeded_checklist,
}
use self_imp_bin_eval.Store.Creation.{
  insert_if_valid, create_checklist, create_checklist_for_workflow,
}
use self_imp_bin_eval.Store.Failing.{failed_row, failing, fail_checklist, compare_failed_checklist}
use self_imp_bin_eval.Store.Lifecycle.{IsSoundChecklist, ChangesChecklists, completed, given_up}

-- The database inserts no identifier that is taken.
abbrev pub IsNew : {A : Type 0} → (String → Option A) → Result String → Type 0
IsNew s inserted = (id : String) → inserted ≡ ok id → s id ≡ none

insert_if_valid-Changes :
    (inserted : Result String) (valid : Result (Unit {0})) (s : Checklists)
    (row : String → Checklist)
    → IsNew s inserted
    → ((id : String) → (row id).status ≡ status_running)
    → ChangesChecklists s (insert_if_valid inserted valid s row).0
insert_if_valid-Changes (ok id) (ok v) s row new running =
    ChangesChecklists.started id (row id) (new id refl) (running id) refl
insert_if_valid-Changes (err e) (ok v) s row new running = ChangesChecklists.kept refl
insert_if_valid-Changes inserted (err e) s row new running = ChangesChecklists.kept refl

pub create_checklist-Changes :
    (inserted : Result String) (s : Checklists) (task_key context_key : String) (runs : ℤ)
    → IsNew s inserted
    → ChangesChecklists s (create_checklist inserted s task_key context_key runs).0
unfolding create_checklist
create_checklist-Changes inserted s task_key context_key runs new =
    insert_if_valid-Changes inserted (validate_evaluation_runs runs runs) s _ new (λ id. refl)

pub create_checklist_for_workflow-Changes :
    (inserted : Result String) (s : Checklists) (runs : ℤ)
    → IsNew s inserted
    → ChangesChecklists s (create_checklist_for_workflow inserted s runs).0
unfolding create_checklist_for_workflow
create_checklist_for_workflow-Changes inserted s runs new =
    insert_if_valid-Changes inserted (validate_evaluation_runs runs runs) s _ new (λ id. refl)

after_commit-Changes :
    (commit : Checklist → Result (Unit {0})) (s : Checklists) (id : String) (old new : Checklist)
    (answer : Result (Unit {0}))
    → s id ≡ some old
    → old.status ≡ status_running
    → IsSoundChecklist new
    → ChangesChecklists s (after_commit commit s id new answer).0
after_commit-Changes commit s id old new (ok v) here running sound =
    ChangesChecklists.ended id old new here running sound refl
after_commit-Changes commit s id old new (err e) here running sound = ChangesChecklists.kept refl

-- Both ends of a checklist, on the row that was found.
end_found :
    (commit : Checklist → Result (Unit {0})) (s : Checklists) (id : String) (old new : Checklist)
    (compared : Result (Unit {0}))
    → s id ≡ some old
    → IsSoundChecklist new
    → ChangesChecklists s
        (if old.status == status_running
          then after_commit commit s id new (commit new)
          else (s, compared)).0
end_found commit s id old new compared here sound =
    elim (Bool-cases (old.status == status_running)) [
      | inl e ↦
          rw e (after_commit-Changes commit s id old new (commit new) here (eq_of_== _ _ e) sound)
      | inr e ↦ rw e (ChangesChecklists.kept refl)
    ]

in_transaction-Changes :
    (commit : Checklist → Result (Unit {0})) (s : Checklists) (id : String) (ds : List Dimension)
    (cs : List CandidateQuestion) (ws : List Weight) (qs : List FinalQuestion)
    (limits : ChecklistLimits) (found : Option Checklist)
    → s id ≡ found
    → check_submission ds cs ws qs limits ≡ ok tt
    → ChangesChecklists s (in_transaction commit s id ds cs ws qs found).0
in_transaction-Changes commit s id ds cs ws qs limits none here valid = ChangesChecklists.kept refl
in_transaction-Changes commit s id ds cs ws qs limits (some row) here valid =
    end_found commit s id row (succeeded_row row ds cs ws qs)
      (compare_succeeded_checklist s id ds cs ws qs) here (completed refl limits valid)

pub succeed_checklist-Changes :
    (commit : Checklist → Result (Unit {0})) (s : Checklists) (id : String) (ds : List Dimension)
    (cs : List CandidateQuestion) (ws : List Weight) (qs : List FinalQuestion)
    (limits : ChecklistLimits)
    → ChangesChecklists s (succeed_checklist commit s id ds cs ws qs limits).0
unfolding succeed_checklist
succeed_checklist-Changes commit s id ds cs ws qs limits =
    checked (check_submission ds cs ws qs limits) refl
  where
    checked :
        (r : Result (Unit {0}))
        → check_submission ds cs ws qs limits ≡ r
        → ChangesChecklists s
            (if_valid commit r s (in_transaction commit s id ds cs ws qs (s id))).0
    checked (ok v) e = in_transaction-Changes commit s id ds cs ws qs limits (s id) refl e
    checked (err x) e = ChangesChecklists.kept refl

failing-Changes :
    (text : Message → String) (commit : Checklist → Result (Unit {0})) (s : Checklists)
    (id : String) (details : Details) (found : Option Checklist)
    → s id ≡ found
    → validate_details details ≡ ok tt
    → ChangesChecklists s (failing text commit s id details found).0
failing-Changes text commit s id details none here valid = ChangesChecklists.kept refl
failing-Changes text commit s id details (some row) here valid =
    end_found commit s id row (failed_row row details) (compare_failed_checklist text s id details)
      here (given_up refl details refl valid)

pub fail_checklist-Changes :
    (text : Message → String) (commit : Checklist → Result (Unit {0})) (s : Checklists)
    (id : String) (details : Details)
    → ChangesChecklists s (fail_checklist text commit s id details).0
unfolding fail_checklist
fail_checklist-Changes text commit s id details = checked (validate_details details) refl
  where
    checked :
        (r : Result (Unit {0}))
        → validate_details details ≡ r
        → ChangesChecklists s (if_valid commit r s (failing text commit s id details (s id))).0
    checked (ok v) e = failing-Changes text commit s id details (s id) refl e
    checked (err x) e = ChangesChecklists.kept refl
