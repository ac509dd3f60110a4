-- ===== src/Activities/Storing.antt =====
-- internal/activities/llm.go: the activities that write inputs, and internal/activities/postgres.go:
-- the activities of the store.
pub mod Laws
use self_imp_bin_eval.Base.{[], String, Bool, true, false, ◌==◌, Option, none, some, if◌then◌else◌}
use self_imp_bin_eval.Base.Int.{ℤ}
use self_imp_bin_eval.Errors.{GoError, Message, Result, ok, err, ◌>>=◌, ◌>>◌}
use self_imp_bin_eval.Artifacts.{checklist_task_key, checklist_context_key, evaluation_answer_key}
use self_imp_bin_eval.Store.{Checklist, status_succeeded}
use self_imp_bin_eval.Store.Checklists.{Checklists, get_checklist, succeed_checklist}
use self_imp_bin_eval.Store.Failing.{fail_checklist}
use self_imp_bin_eval.Store.Evaluations.{Evaluation, Evaluations}
use self_imp_bin_eval.Store.Evaluations.Ending.{succeed_evaluation, fail_evaluation}
use self_imp_bin_eval.Activities.{reported}
use self_imp_bin_eval.Activities.Inputs.{
  WriteChecklistInputsInput, WriteEvaluationInputInput, LoadChecklistInput, LoadChecklistResult,
  SucceedChecklistInput, FailChecklistInput, SucceedEvaluationInput, FailEvaluationInput,
}

-- The artifacts by their keys. An artifact is kept as the text that it holds: `[]byte` and `string`
-- change nothing.
abbrev pub Artifacts : Type 0
Artifacts = String → Option String

abbrev pub put : Artifacts → (key body : String) → Artifacts
put a key body = λ k. if k == key then some body else a k

abbrev pub after_write :
    Artifacts → (key body : String) → Result (Unit {0}) → Artifacts × Result (Unit {0})
after_write a key body (ok done) = (put a key body, ok done)
after_write a key body (err e) = (a, err e)

abbrev pub after_read : GoError → Option String → Result (Unit {0}) → Result String
after_read missing body (err e) = err e
after_read missing none (ok done) = err missing
after_read missing (some body) (ok done) = ok body

-- What the object store answers to a write of a key. An activity runs in an attempt.
module _ (written : String → Result (Unit {0})) (attempt : ℤ) where
  abbrev pub write : Artifacts → (key body : String) → Artifacts × Result (Unit {0})
  write a key body = after_write a key body (written key)

  -- The second write is made only after the first.
  abbrev pub write_context :
      WriteChecklistInputsInput → Artifacts × Result (Unit {0}) → Artifacts × Result (Unit {0})
  write_context input (a, err e) = (a, err e)
  write_context input (a, ok done) =
      write a (checklist_context_key input.checklist_id) input.context

  unfoldable pub write_checklist_inputs :
      Artifacts → WriteChecklistInputsInput → Artifacts × Result (Unit {0})
  write_checklist_inputs a input =
      let w = write_context input (write a (checklist_task_key input.checklist_id) input.task) in
      (w.0, reported attempt [] w.1)

  unfoldable pub write_evaluation_input :
      Artifacts → WriteEvaluationInputInput → Artifacts × Result (Unit {0})
  write_evaluation_input a input =
      let w = write a (evaluation_answer_key input.evaluation_id) input.model_answer in
      (w.0, reported attempt [] w.1)

-- What it answers to a read of a key, and its error for a key that it does not have.
module _ (readable : String → Result (Unit {0})) (missing : GoError) (attempt : ℤ) where
  abbrev pub read : Artifacts → (key : String) → Result String
  read a key = after_read missing (a key) (readable key)

  abbrev pub with_texts : Artifacts → Checklist → Result LoadChecklistResult
  with_texts a checklist =
      if checklist.status == status_succeeded
      then (do
        task ← reported attempt [] (read a checklist.task_artifact_key)
        context ← reported attempt [] (read a checklist.context_artifact_key)
        ok (record { checklist = checklist; task = task; context = context }))
      else ok (record { checklist = checklist; task = ""; context = "" })

  unfoldable pub load_checklist :
      Artifacts → Checklists → LoadChecklistInput → Result LoadChecklistResult
  load_checklist a s input = do
    checklist ← reported attempt [] (get_checklist s input.checklist_id)
    with_texts a checklist

-- The activities that end a row pass their input on, and report the error. `before` and `text` are
-- the order of the database on texts and the text of a message.
module _ (before : String → String → Bool) (text : Message → String) (attempt : ℤ) where
  unfoldable pub succeed_checklist_activity :
      (commit : Checklist → Result (Unit {0}))
      → Checklists
      → SucceedChecklistInput
      → Checklists × Result (Unit {0})
  succeed_checklist_activity commit s input =
      let r =
        succeed_checklist commit s input.checklist_id input.dimensions input.candidate_questions
          input.weights input.questions input.limits in
      (r.0, reported attempt [] r.1)

  unfoldable pub fail_checklist_activity :
      (commit : Checklist → Result (Unit {0}))
      → Checklists
      → FailChecklistInput
      → Checklists × Result (Unit {0})
  fail_checklist_activity commit s input =
      let r = fail_checklist text commit s input.checklist_id input.failure in
      (r.0, reported attempt [] r.1)

  unfoldable pub succeed_evaluation_activity :
      (commit : Evaluation → Result (Unit {0}))
      → Checklists
      → Evaluations
      → SucceedEvaluationInput
      → Evaluations × Result (Unit {0})
  succeed_evaluation_activity commit s t input =
      let r =
        succeed_evaluation before text commit s t input.evaluation_id input.checklist_id
          input.run_judgments input.score in
      (r.0, reported attempt [] r.1)

  unfoldable pub fail_evaluation_activity :
      (commit : Evaluation → Result (Unit {0}))
      → Checklists
      → Evaluations
      → FailEvaluationInput
      → Evaluations × Result (Unit {0})
  fail_evaluation_activity commit s t input =
      let r =
        fail_evaluation before text commit s t input.evaluation_id input.checklist_id
          input.failure in
      (r.0, reported attempt [] r.1)
