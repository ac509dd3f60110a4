-- ===== src/Store/Lifecycle/Steps.antt =====
-- The calls on the store as steps of its tables, one after the other: each is a transaction.
use self_imp_bin_eval.Base.{◌≡◌, refl, String, Bool, none, List}
use self_imp_bin_eval.Base.Int.{ℤ}
use self_imp_bin_eval.Errors.{Message, Details, Result}
use self_imp_bin_eval.Evalcore.Types.{
  ChecklistLimits, Dimension, CandidateQuestion, Weight, FinalQuestion, RunJudgment, ScoreResult,
}
use self_imp_bin_eval.Store.{Checklist}
use self_imp_bin_eval.Store.Checklists.{Checklists, succeed_checklist}
use self_imp_bin_eval.Store.Creation.{create_checklist, create_checklist_for_workflow}
use self_imp_bin_eval.Store.Failing.{fail_checklist}
use self_imp_bin_eval.Store.Evaluations.{
  Evaluation, Evaluations, create_evaluation, create_evaluation_for_workflow,
}
use self_imp_bin_eval.Store.Evaluations.Ending.{succeed_evaluation, fail_evaluation}
use self_imp_bin_eval.Store.Lifecycle.{ChangesChecklists, ChangesEvaluations}
use self_imp_bin_eval.Store.Lifecycle.OfChecklists.{
  IsNew, create_checklist-Changes, create_checklist_for_workflow-Changes, succeed_checklist-Changes,
  fail_checklist-Changes,
}
use self_imp_bin_eval.Store.Lifecycle.OfEvaluations.{
  create_evaluation-Changes, create_evaluation_for_workflow-Changes, succeed_evaluation-Changes,
  fail_evaluation-Changes,
}

pub record Database : Type 0 where
  pub checklists : Checklists
  pub evaluations : Evaluations

abbrev pub no_rows : Database
no_rows = record { checklists = λ id. none; evaluations = λ id. none }

-- What a call may do to the tables: change one of them as specified.
pub data Changes (d e : Database) : Type 0 where
  in_checklists :
      ChangesChecklists d.checklists e.checklists → e.evaluations ≡ d.evaluations → Changes d e
  in_evaluations :
      ChangesEvaluations d.checklists d.evaluations e.evaluations
      → e.checklists ≡ d.checklists
      → Changes d e

-- `before` is the order of the database on texts, and `text` the text of a message.
module _ (before : String → String → Bool) (text : Message → String) where
  -- One call, with what the database answers to its insert or to its commit.
  pub data Step (d e : Database) : Type 0 where
    creates_checklist :
        (inserted : Result String) (task_key context_key : String) (runs : ℤ)
        → IsNew d.checklists inserted
        → e ≡ record d {
          checklists = (create_checklist inserted d.checklists task_key context_key runs).0;
        }
        → Step d e
    creates_checklist_for_workflow :
        (inserted : Result String) (runs : ℤ)
        → IsNew d.checklists inserted
        → e ≡ record d { checklists = (create_checklist_for_workflow inserted d.checklists runs).0 }
        → Step d e
    succeeds_checklist :
        (commit : Checklist → Result (Unit {0})) (id : String) (ds : List Dimension)
        (cs : List CandidateQuestion) (ws : List Weight) (qs : List FinalQuestion)
        (limits : ChecklistLimits)
        → e ≡ record d {
          checklists = (succeed_checklist commit d.checklists id ds cs ws qs limits).0;
        }
        → Step d e
    fails_checklist :
        (commit : Checklist → Result (Unit {0})) (id : String) (details : Details)
        → e ≡ record d { checklists = (fail_checklist text commit d.checklists id details).0 }
        → Step d e
    creates_evaluation :
        (inserted : Result String) (checklist_id answer_key : String)
        → IsNew d.evaluations inserted
        → e ≡ record d {
          evaluations =
              (create_evaluation inserted d.checklists d.evaluations checklist_id answer_key).0;
        }
        → Step d e
    creates_evaluation_for_workflow :
        (inserted : Result String) (checklist_id : String)
        → IsNew d.evaluations inserted
        → e ≡ record d {
          evaluations =
              (create_evaluation_for_workflow inserted d.checklists d.evaluations checklist_id).0;
        }
        → Step d e
    succeeds_evaluation :
        (commit : Evaluation → Result (Unit {0})) (id checklist_id : String) (js : List RunJudgment)
        (score : ScoreResult)
        → e ≡ record d {
          evaluations =
              (succeed_evaluation before text commit d.checklists d.evaluations id checklist_id js
                score).0;
        }
        → Step d e
    fails_evaluation :
        (commit : Evaluation → Result (Unit {0})) (id checklist_id : String) (details : Details)
        → e ≡ record d {
          evaluations =
              (fail_evaluation before text commit d.checklists d.evaluations id checklist_id
                details).0;
        }
        → Step d e

  -- Any number of calls.
  pub data Reach (d : Database) : Database → Type 0 where
    here : Reach d d
    next : {e f : Database} → Reach d e → Step e f → Reach d f

changes_checklists :
    (d e : Database) (t : Checklists)
    → e ≡ record d { checklists = t }
    → ChangesChecklists d.checklists t
    → Changes d e
changes_checklists d e t same c = rw same (Changes.in_checklists c refl)

changes_evaluations :
    (d e : Database) (t : Evaluations)
    → e ≡ record d { evaluations = t }
    → ChangesEvaluations d.checklists d.evaluations t
    → Changes d e
changes_evaluations d e t same c = rw same (Changes.in_evaluations c refl)

pub Step-Changes :
    (before : String → String → Bool) (text : Message → String) (d e : Database)
    → Step before text d e
    → Changes d e
Step-Changes before text d e (creates_checklist inserted task ctx runs new same) =
    changes_checklists d e _ same (create_checklist-Changes inserted d.checklists task ctx runs new)
Step-Changes before text d e (creates_checklist_for_workflow inserted runs new same) =
    changes_checklists d e _ same
      (create_checklist_for_workflow-Changes inserted d.checklists runs new)
Step-Changes before text d e (succeeds_checklist commit id ds cs ws qs limits same) =
    changes_checklists d e _ same
      (succeed_checklist-Changes commit d.checklists id ds cs ws qs limits)
Step-Changes before text d e (fails_checklist commit id details same) =
    changes_checklists d e _ same (fail_checklist-Changes text commit d.checklists id details)
Step-Changes before text d e (creates_evaluation inserted cid key new same) =
    changes_evaluations d e _ same
      (create_evaluation-Changes inserted d.checklists d.evaluations cid key new)
Step-Changes before text d e (creates_evaluation_for_workflow inserted cid new same) =
    changes_evaluations d e _ same
      (create_evaluation_for_workflow-Changes inserted d.checklists d.evaluations cid new)
Step-Changes before text d e (succeeds_evaluation commit id cid js score same) =
    changes_evaluations d e _ same
      (succeed_evaluation-Changes before text commit d.checklists d.evaluations id cid js score)
Step-Changes before text d e (fails_evaluation commit id cid details same) =
    changes_evaluations d e _ same
      (fail_evaluation-Changes before text commit d.checklists d.evaluations id cid details)
