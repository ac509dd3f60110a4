-- ===== src/Store/Lifecycle/OfEvaluations.antt =====
-- The operations on evaluations change them as specified.
use self_imp_bin_eval.Base.{
  ◌≡◌, refl, sym, ◌∙◌, ap, subst, String, Bool, ◌==◌, eq_of_==, List, Option, none, some,
  Bool-cases, inl, inr,
}
use self_imp_bin_eval.Errors.{Message, Details, Result, ok, err}
use self_imp_bin_eval.Evalcore.Types.{RunJudgment, ScoreResult}
use self_imp_bin_eval.Failure.{validate_details}
use self_imp_bin_eval.Store.{Checklist, status_running, status_succeeded}
use self_imp_bin_eval.Store.Checklists.{Checklists, get_checklist}
use self_imp_bin_eval.Store.Evaluations.{
  Evaluation, Evaluations, insert_for_checklist, create_evaluation, create_evaluation_for_workflow,
}
use self_imp_bin_eval.Store.Evaluations.Ending.{
  succeeded_evaluation, failed_evaluation, of_checklist, after_evaluation_commit, end_evaluation,
  check_score, if_checked, succeed_evaluation, fail_evaluation, compare_succeeded_evaluation,
  compare_failed_evaluation,
}
use self_imp_bin_eval.Store.Evaluations.Laws.{check_score-ok}
use self_imp_bin_eval.Store.Lifecycle.{IsSoundEvaluation, ChangesEvaluations, HasSucceededChecklist}
use self_imp_bin_eval.Store.Lifecycle.OfChecklists.{IsNew}

insert_for_checklist-Changes :
    (inserted : Result String) (checklists : Checklists) (s : Evaluations)
    (row : String → Evaluation) (checklist_id : String) (found : Option Checklist)
    → checklists checklist_id ≡ found
    → IsNew s inserted
    → ((id : String) → (row id).status ≡ status_running)
    → ((id : String) → (row id).checklist_id ≡ checklist_id)
    → ChangesEvaluations checklists s (insert_for_checklist inserted s row found).0
insert_for_checklist-Changes inserted checklists s row cid none here new running belongs =
    ChangesEvaluations.kept refl
insert_for_checklist-Changes (err e) checklists s row cid (some c) here new running belongs =
    elim (Bool-cases (c.status == status_succeeded)) [
      | inl t ↦ rw t (ChangesEvaluations.kept refl)
      | inr t ↦ rw t (ChangesEvaluations.kept refl)
    ]
insert_for_checklist-Changes (ok id) checklists s row cid (some c) here new running belongs =
    let mine = sym (belongs id) in
    elim (Bool-cases (c.status == status_succeeded)) [
      | inl t ↦
          let has : HasSucceededChecklist checklists cid = (c, here, eq_of_== _ _ t) in
          rw t (
            ChangesEvaluations.started id (row id) (new id refl) (running id)
              (subst (HasSucceededChecklist checklists) mine has) refl)
      | inr t ↦ rw t (ChangesEvaluations.kept refl)
    ]

pub create_evaluation-Changes :
    (inserted : Result String) (checklists : Checklists) (s : Evaluations)
    (checklist_id answer_key : String)
    → IsNew s inserted
    → ChangesEvaluations checklists s
        (create_evaluation inserted checklists s checklist_id answer_key).0
unfolding create_evaluation
create_evaluation-Changes inserted checklists s cid answer_key new =
    insert_for_checklist-Changes inserted checklists s _ cid (checklists cid) refl new (λ id. refl)
      (λ id. refl)

pub create_evaluation_for_workflow-Changes :
    (inserted : Result String) (checklists : Checklists) (s : Evaluations) (checklist_id : String)
    → IsNew s inserted
    → ChangesEvaluations checklists s
        (create_evaluation_for_workflow inserted checklists s checklist_id).0
unfolding create_evaluation_for_workflow
create_evaluation_for_workflow-Changes inserted checklists s cid new =
    insert_for_checklist-Changes inserted checklists s _ cid (checklists cid) refl new (λ id. refl)
      (λ id. refl)

module _ (before : String → String → Bool) (text : Message → String)
    (commit : Evaluation → Result (Unit {0})) (checklists : Checklists) where
  after_evaluation_commit-Changes :
      (s : Evaluations) (id : String) (old new : Evaluation) (answer : Result (Unit {0}))
      → s id ≡ some old
      → old.status ≡ status_running
      → new.checklist_id ≡ old.checklist_id
      → IsSoundEvaluation checklists new
      → ChangesEvaluations checklists s
          (after_evaluation_commit before text commit s id new answer).0
  after_evaluation_commit-Changes s id old new (ok v) here running belongs sound =
      ChangesEvaluations.ended id old new here running belongs sound refl
  after_evaluation_commit-Changes s id old new (err e) here running belongs sound =
      ChangesEvaluations.kept refl

  end_evaluation-Changes :
      (s : Evaluations) (id checklist_id : String) (new : Evaluation → Evaluation)
      (compared : Result (Unit {0})) (found : Option Evaluation)
      → s id ≡ found
      → ((row : Evaluation) → (new row).checklist_id ≡ row.checklist_id)
      → ((row : Evaluation)
          → row.checklist_id ≡ checklist_id
          → IsSoundEvaluation checklists (new row))
      → ChangesEvaluations checklists s
          (end_evaluation before text commit s id new compared (of_checklist checklist_id found)).0
  end_evaluation-Changes s id cid new compared none here belongs sound =
      ChangesEvaluations.kept refl
  end_evaluation-Changes s id cid new compared (some row) here belongs sound =
      elim (Bool-cases (row.checklist_id == cid)) [
        | inl mine ↦ rw mine (elim (Bool-cases (row.status == status_running)) [
          | inl e ↦ rw e (
              after_evaluation_commit-Changes s id row (new row) (commit (new row)) here
                (eq_of_== _ _ e) (belongs row) (sound row (eq_of_== _ _ mine)))
          | inr e ↦ rw e (ChangesEvaluations.kept refl)
        ])
        | inr other ↦ rw other (ChangesEvaluations.kept refl)
      ]

  pub succeed_evaluation-Changes :
      (s : Evaluations) (id checklist_id : String) (js : List RunJudgment) (score : ScoreResult)
      → ChangesEvaluations checklists s
          (succeed_evaluation before text commit checklists s id checklist_id js score).0
  unfolding succeed_evaluation
  succeed_evaluation-Changes s id cid js score =
      checked (check_score before text commit checklists id cid js score) refl
    where
      checked :
          (r : Result (Unit {0}))
          → check_score before text commit checklists id cid js score ≡ r
          → ChangesEvaluations checklists s
              (if_checked before text commit r s (
                end_evaluation before text commit s id
                  (λ row. succeeded_evaluation row js score)
                  (compare_succeeded_evaluation before text commit checklists s id cid js score)
                  (of_checklist cid (s id)))).0
      checked (ok v) e =
          let (checklist, aggregated, scoring) =
            check_score-ok before text commit checklists id cid js score e in
          end_evaluation-Changes s id cid (λ row. succeeded_evaluation row js score) _ (s id) refl
            (λ row. refl)
            (λ row mine.
              IsSoundEvaluation.completed refl checklist aggregated
                (ap (λ i. get_checklist checklists i) mine ∙ scoring.0) scoring.1
                (ap some scoring.3) (ap some scoring.4))
      checked (err x) e = ChangesEvaluations.kept refl

  pub fail_evaluation-Changes :
      (s : Evaluations) (id checklist_id : String) (details : Details)
      → ChangesEvaluations checklists s
          (fail_evaluation before text commit checklists s id checklist_id details).0
  unfolding fail_evaluation
  fail_evaluation-Changes s id cid details = checked (validate_details details) refl
    where
      checked :
          (r : Result (Unit {0}))
          → validate_details details ≡ r
          → ChangesEvaluations checklists s
              (if_checked before text commit r s (
                end_evaluation before text commit s id
                  (λ row. failed_evaluation row details)
                  (compare_failed_evaluation before text commit checklists s id cid details)
                  (of_checklist cid (s id)))).0
      checked (ok v) e =
          end_evaluation-Changes s id cid (λ row. failed_evaluation row details) _ (s id) refl
            (λ row. refl) (λ row mine. IsSoundEvaluation.given_up refl details refl e)
      checked (err x) e = ChangesEvaluations.kept refl
