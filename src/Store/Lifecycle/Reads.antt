-- ===== src/Store/Lifecycle/Reads.antt =====
-- After any calls: the rows are sound, what has ended stays, and reads succeed.
use self_imp_bin_eval.Base.{
  ◌≡◌, refl, String, Bool, true, false, ◌==◌, ==_refl, none, some, [], String-discrete,
}
use self_imp_bin_eval.Errors.{Message, ok}
use self_imp_bin_eval.Evalcore.Aggregate.Order.{aggregate_judgments-perm}
use self_imp_bin_eval.Store.{Checklist, status_running, status_succeeded, status_failed}
use self_imp_bin_eval.Store.Checklists.{Checklists, get_checklist, read_checklist}
use self_imp_bin_eval.Store.Evaluations.{Evaluation, Evaluations}
use self_imp_bin_eval.Store.Evaluations.Reading.{get_evaluation, order_judgments, read_evaluation}
use self_imp_bin_eval.Store.Evaluations.Keyed.{order_judgments-perm}
use self_imp_bin_eval.Store.Lifecycle.{IsSoundChecklist, IsSoundEvaluation}
use self_imp_bin_eval.Store.Lifecycle.Rows.{Extends}
use self_imp_bin_eval.Store.Lifecycle.Steps.{
  Database, no_rows, Changes, Reach, here, next, Step-Changes,
}
use self_imp_bin_eval.Store.Lifecycle.Reach.{
  checklist_status, evaluation_status, ChangesChecklists-Extends, ChangesEvaluations-Extends,
  IsSound, no_rows-IsSound, Changes-IsSound,
}

-- Rows that have ended, of either table, are kept.
abbrev pub KeepsEnded : Database → Database → Type 0
KeepsEnded d e =
    Extends checklist_status d.checklists e.checklists
    × Extends evaluation_status d.evaluations e.evaluations

Changes-KeepsEnded : (d e : Database) → Changes d e → KeepsEnded d e
Changes-KeepsEnded d e (Changes.in_checklists c same) =
    (ChangesChecklists-Extends d.checklists e.checklists c, rw same (λ id row r h. r))
Changes-KeepsEnded d e (Changes.in_evaluations c same) = (
  rw same (λ id row r h. r),
  ChangesEvaluations-Extends d.checklists d.evaluations e.evaluations c,
)

running-not_failed : (s : String) → s ≡ status_running → (s == status_failed) ≡ false
unfolding String-discrete
running-not_failed s e = rw e refl

running-not_succeeded : (s : String) → s ≡ status_running → (s == status_succeeded) ≡ false
unfolding String-discrete
running-not_succeeded s e = rw e refl

succeeded-not_failed : (s : String) → s ≡ status_succeeded → (s == status_failed) ≡ false
unfolding String-discrete
succeeded-not_failed s e = rw e refl

get_checklist-total :
    (s : Checklists) (id : String) (row : Checklist)
    → s id ≡ some row
    → IsSoundChecklist row
    → (read : Checklist) × (get_checklist s id ≡ ok read) × (read.status ≡ row.status)
unfolding get_checklist
get_checklist-total s id row e (IsSoundChecklist.running r) =
    (read_checklist none row, rw (e, running-not_failed row.status r) refl, refl)
get_checklist-total s id row e (IsSoundChecklist.completed r limits v) =
    (read_checklist none row, rw (e, succeeded-not_failed row.status r) refl, refl)
get_checklist-total s id row e (IsSoundChecklist.given_up r details f v) =
    let test : (row.status == status_failed) ≡ true = rw r (==_refl status_failed) in
    (read_checklist (some details) row, rw (e, test) (rw f refl), refl)

get_evaluation-total :
    (before : String → String → Bool) (c : Checklists) (s : Evaluations) (id : String)
    (row : Evaluation)
    → s id ≡ some row
    → IsSoundEvaluation c row
    → (read : Evaluation) × (get_evaluation before c s id ≡ ok read) × (read.status ≡ row.status)
unfolding get_evaluation
get_evaluation-total before c s id row e (IsSoundEvaluation.running r) = (
  read_evaluation before none [] [] row,
  rw (e, running-not_failed row.status r, running-not_succeeded row.status r) refl,
  refl,
)
get_evaluation-total before c s id row e (IsSoundEvaluation.completed r k a f g p q) =
    let test : (row.status == status_succeeded) ≡ true = rw r (==_refl status_succeeded) in
    let read =
      aggregate_judgments-perm k.questions k.evaluation_runs a row.run_judgments
        (order_judgments before row.run_judgments) (order_judgments-perm before row.run_judgments)
        g in
    (
      read_evaluation before none a.judgments a.score.failed_question_ids row,
      rw (e, succeeded-not_failed row.status r, test, f, read) refl,
      refl,
    )
get_evaluation-total before c s id row e (IsSoundEvaluation.given_up r details f v) =
    let test : (row.status == status_failed) ≡ true = rw r (==_refl status_failed) in
    (read_evaluation before (some details) [] [] row, rw (e, test) (rw f refl), refl)

module _ (before : String → String → Bool) (text : Message → String) where
  -- After any calls on an empty store, each checklist runs, or was completed with rows that pass the
  -- checks under some limits, or was failed with details that pass theirs. Each evaluation is of a
  -- checklist that has succeeded, and runs, or was completed with the points that
  -- AggregateJudgments makes of its judgments, or was failed with details that pass their check.
  pub Reach-IsSound : {d : Database} → Reach before text no_rows d → IsSound d
  Reach-IsSound here = no_rows-IsSound
  Reach-IsSound (next {e} {f} r step) =
      Changes-IsSound e f (Step-Changes before text e f step) (Reach-IsSound r)

  -- A checklist or an evaluation that has ended is the same after any further calls.
  pub Reach-KeepsEnded : (d : Database) {e : Database} → Reach before text d e → KeepsEnded d e
  Reach-KeepsEnded d here = (λ id row r h. r, λ id row r h. r)
  Reach-KeepsEnded d (next {e} {f} r step) =
      let ih = Reach-KeepsEnded d r in
      let last = Changes-KeepsEnded e f (Step-Changes before text e f step) in
      (
        λ id row k h. last.0 id row (ih.0 id row k h) h,
        λ id row k h. last.1 id row (ih.1 id row k h) h,
      )

  -- After any calls on an empty store, a checklist that is there can be read, and is read with its
  -- status: if it has failed, the record of its failure is there.
  pub Reach-get_checklist_total :
      {d : Database} (id : String) (row : Checklist)
      → Reach before text no_rows d
      → d.checklists id ≡ some row
      → (read : Checklist) × (get_checklist d.checklists id ≡ ok read) × (read.status ≡ row.status)
  Reach-get_checklist_total {d} id row r e =
      get_checklist-total d.checklists id row e ((Reach-IsSound r).checklists id row e)

  -- After any calls on an empty store, an evaluation that is there can be read, and is read with its
  -- status: if it has failed, the record of its failure is there, and if it was completed, its
  -- judgments still aggregate under its checklist, in the order in which the database returns them.
  pub Reach-get_evaluation_total :
      {d : Database} (id : String) (row : Evaluation)
      → Reach before text no_rows d
      → d.evaluations id ≡ some row
      → (read : Evaluation) × (get_evaluation before d.checklists d.evaluations id ≡ ok read)
        × (read.status ≡ row.status)
  Reach-get_evaluation_total {d} id row r e =
      get_evaluation-total before d.checklists d.evaluations id row e
        ((Reach-IsSound r).evaluations id row e)
