-- ===== src/Store/Lifecycle/Reach.antt =====
-- What holds of the tables after any calls.
use self_imp_bin_eval.Base.{◌≡◌, refl, ◌∙◌, String, false, ◌==◌, some, String-discrete}
use self_imp_bin_eval.Store.{Checklist, status_running, status_succeeded}
use self_imp_bin_eval.Store.Checklists.{Checklists, get_checklist}
use self_imp_bin_eval.Store.Evaluations.{Evaluation, Evaluations}
use self_imp_bin_eval.Store.Lifecycle.{
  IsSoundChecklist, ChangesChecklists, IsSoundEvaluation, ChangesEvaluations, HasSucceededChecklist,
}
use self_imp_bin_eval.Store.Lifecycle.Rows.{
  Extends, put_row-cases, put_new-Extends, put_running-Extends,
}
use self_imp_bin_eval.Store.Lifecycle.Steps.{Database, no_rows, Changes}

abbrev pub checklist_status : Checklist → String
checklist_status row = row.status

abbrev pub evaluation_status : Evaluation → String
evaluation_status row = row.status

pub ChangesChecklists-Extends :
    (s t : Checklists) → ChangesChecklists s t → Extends checklist_status s t
ChangesChecklists-Extends s t (ChangesChecklists.kept same) = rw same (λ id row e h. e)
ChangesChecklists-Extends s t (ChangesChecklists.started i new free running same) =
    rw same (put_new-Extends checklist_status s i new free)
ChangesChecklists-Extends s t (ChangesChecklists.ended i old new was running sound same) =
    rw same (put_running-Extends checklist_status s i old new was running)

pub ChangesEvaluations-Extends :
    (checklists : Checklists) (s t : Evaluations)
    → ChangesEvaluations checklists s t
    → Extends evaluation_status s t
ChangesEvaluations-Extends c s t (ChangesEvaluations.kept same) = rw same (λ id row e h. e)
ChangesEvaluations-Extends c s t (ChangesEvaluations.started i new free running has same) =
    rw same (put_new-Extends evaluation_status s i new free)
ChangesEvaluations-Extends c s t
      (ChangesEvaluations.ended i old new was running belongs sound same) =
    rw same (put_running-Extends evaluation_status s i old new was running)

-- Each row is sound, and each evaluation is of a checklist that has succeeded.
pub record IsSound (d : Database) : Type 0 where
  pub checklists :
      (id : String) (row : Checklist) → d.checklists id ≡ some row → IsSoundChecklist row
  pub evaluations :
      (id : String) (row : Evaluation)
      → d.evaluations id ≡ some row
      → IsSoundEvaluation d.checklists row
  pub belong :
      (id : String) (row : Evaluation)
      → d.evaluations id ≡ some row
      → HasSucceededChecklist d.checklists row.checklist_id

pub no_rows-IsSound : IsSound no_rows
no_rows-IsSound = record {
  checklists = λ id row e. absurd (cc e);
  evaluations = λ id row e. absurd (cc e);
  belong = λ id row e. absurd (cc e);
}

succeeded-ended : (s : String) → s ≡ status_succeeded → (s == status_running) ≡ false
unfolding String-discrete
succeeded-ended s e = rw e refl

-- A checklist that has succeeded is there, and read, as before.
module _ (s t : Checklists) (keeps : Extends checklist_status s t) where
  HasSucceededChecklist-kept :
      (id : String) → HasSucceededChecklist s id → HasSucceededChecklist t id
  HasSucceededChecklist-kept id (row, e, h) =
      (row, keeps id row e (succeeded-ended row.status h), h)

  get_checklist-kept :
      (id : String) → HasSucceededChecklist s id → get_checklist t id ≡ get_checklist s id
  unfolding get_checklist
  get_checklist-kept id (row, e, h) = rw (e, keeps id row e (succeeded-ended row.status h)) refl

  IsSoundEvaluation-kept :
      (row : Evaluation)
      → HasSucceededChecklist s row.checklist_id
      → IsSoundEvaluation s row
      → IsSoundEvaluation t row
  IsSoundEvaluation-kept row has (IsSoundEvaluation.running r) = IsSoundEvaluation.running r
  IsSoundEvaluation-kept row has (IsSoundEvaluation.completed r c a e f p q) =
      IsSoundEvaluation.completed r c a (get_checklist-kept row.checklist_id has ∙ e) f p q
  IsSoundEvaluation-kept row has (IsSoundEvaluation.given_up r x e v) =
      IsSoundEvaluation.given_up r x e v

ChangesChecklists-Sound :
    (s t : Checklists)
    → ChangesChecklists s t
    → ((id : String) (row : Checklist) → s id ≡ some row → IsSoundChecklist row)
    → (id : String) (row : Checklist) → t id ≡ some row
    → IsSoundChecklist row
ChangesChecklists-Sound s t (ChangesChecklists.kept same) all = rw same all
ChangesChecklists-Sound s t (ChangesChecklists.started i new free running same) all =
    rw same (λ id row e.
      put_row-cases IsSoundChecklist s i id new row e (IsSoundChecklist.running running)
        (all id row))
ChangesChecklists-Sound s t (ChangesChecklists.ended i old new was running sound same) all =
    rw same (λ id row e. put_row-cases IsSoundChecklist s i id new row e sound (all id row))

-- Whatever holds of the new row of each change, and of the rows before, holds of the rows after.
ChangesEvaluations-All :
    (P : Evaluation → Type 0) (c : Checklists) (s t : Evaluations)
    → ChangesEvaluations c s t
    → ((row : Evaluation)
        → row.status ≡ status_running
        → HasSucceededChecklist c row.checklist_id
        → P row)
    → ((old new : Evaluation)
        → P old
        → new.checklist_id ≡ old.checklist_id
        → IsSoundEvaluation c new
        → P new)
    → ((id : String) (row : Evaluation) → s id ≡ some row → P row)
    → (id : String) (row : Evaluation) → t id ≡ some row
    → P row
ChangesEvaluations-All P c s t (ChangesEvaluations.kept same) starts ends all = rw same all
ChangesEvaluations-All P c s t (ChangesEvaluations.started i new free running has same) starts ends
      all =
    rw same (λ id row e. put_row-cases P s i id new row e (starts new running has) (all id row))
ChangesEvaluations-All P c s t (ChangesEvaluations.ended i old new was running belongs sound same)
      starts ends all =
    rw same (λ id row e.
      put_row-cases P s i id new row e (ends old new (all i old was) belongs sound) (all id row))

pub Changes-IsSound : (d e : Database) → Changes d e → IsSound d → IsSound e
Changes-IsSound d e (Changes.in_checklists c same) sound =
    let keeps = ChangesChecklists-Extends d.checklists e.checklists c in
    record {
      checklists = ChangesChecklists-Sound d.checklists e.checklists c sound.checklists;
      evaluations = rw same (λ id row h.
          IsSoundEvaluation-kept d.checklists e.checklists keeps row (sound.belong id row h)
            (sound.evaluations id row h));
      belong = rw same (λ id row h.
          HasSucceededChecklist-kept d.checklists e.checklists keeps row.checklist_id
            (sound.belong id row h));
    }
Changes-IsSound d e (Changes.in_evaluations c same) sound = record {
  checklists = rw same sound.checklists;
  evaluations = rw same (
      ChangesEvaluations-All (IsSoundEvaluation d.checklists) d.checklists d.evaluations
        e.evaluations c (λ row r has. IsSoundEvaluation.running r) (λ old new o b k. k)
        sound.evaluations);
  belong = rw same (
      ChangesEvaluations-All (λ row. HasSucceededChecklist d.checklists row.checklist_id)
        d.checklists d.evaluations e.evaluations c (λ row r has. has) (λ old new o b k. rw b o)
        sound.belong);
}
