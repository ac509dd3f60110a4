-- ===== src/Activities/Storing/Laws.antt =====
-- What is written for a checklist is what is loaded with it.

use text.Mathlib.TextLemmas.{append_cancel_left}
use self_imp_bin_eval.Base.{◌≡◌, refl, ◌∙◌, ap, String, false, ◌==◌, ==_refl, ==_of_ne, some, arith}
use self_imp_bin_eval.Base.Int.{ℤ}
use self_imp_bin_eval.Errors.{GoError, Result, ok}
use self_imp_bin_eval.Artifacts.{checklist_task_key, checklist_context_key}
use self_imp_bin_eval.Store.{Checklist, status_succeeded}
use self_imp_bin_eval.Store.Checklists.{Checklists, get_checklist}
use self_imp_bin_eval.Activities.Inputs.{WriteChecklistInputsInput, LoadChecklistInput}
use self_imp_bin_eval.Activities.Storing.{Artifacts, put, write_checklist_inputs, load_checklist}

keys_differ : (id : String) → (checklist_task_key id == checklist_context_key id) ≡ false
unfolding checklist_task_key checklist_context_key
keys_differ id =
    ==_of_ne _ _ (λ e. cc (append_cancel_left id _ _ (append_cancel_left "checklists/" _ _ e)))

module _ (written : String → Result (Unit {0})) (attempt : ℤ) where
  -- Both inputs are there after they were written.
  pub write_checklist_inputs-ok :
      (a b : Artifacts) (input : WriteChecklistInputsInput)
      → write_checklist_inputs written attempt a input ≡ (b, ok tt)
      → (b (checklist_task_key input.checklist_id) ≡ some input.task)
        × (b (checklist_context_key input.checklist_id) ≡ some input.context)
  unfolding write_checklist_inputs
  write_checklist_inputs-ok a b input h =
      let result = ap (λ p. p.1) h in
      let left = ap (λ p. p.0) h in
      let differ = keys_differ input.checklist_id in
      let same = ==_refl (checklist_task_key input.checklist_id) in
      let same' = ==_refl (checklist_context_key input.checklist_id) in
      let both : b
          ≡ put (put a (checklist_task_key input.checklist_id) input.task)
              (checklist_context_key input.checklist_id) input.context =
        ground (arith, left, result) in
      (
        ap (λ f. f (checklist_task_key input.checklist_id)) both ∙ rw differ (rw same refl),
        ap (λ f. f (checklist_context_key input.checklist_id)) both ∙ rw same' refl,
      )

module _ (readable : String → Result (Unit {0})) (missing : GoError) (attempt : ℤ) where
  -- A checklist that was completed is loaded with the texts of its two artifacts.
  load_checklist_of_texts :
      (b : Artifacts) (s : Checklists) (input : LoadChecklistInput) (checklist : Checklist)
      (task context : String)
      → get_checklist s input.checklist_id ≡ ok checklist
      → checklist.status ≡ status_succeeded
      → b checklist.task_artifact_key ≡ some task
      → b checklist.context_artifact_key ≡ some context
      → readable checklist.task_artifact_key ≡ ok tt
      → readable checklist.context_artifact_key ≡ ok tt
      → load_checklist readable missing attempt b s input
        ≡ ok (record { checklist = checklist; task = task; context = context })
  unfolding load_checklist
  load_checklist_of_texts b s input checklist task context found status t c rt rc =
      rw found (rw status (rw (==_refl status_succeeded) (rw t (rw rt (rw c (rw rc refl))))))

-- What WriteChecklistInputs wrote for a checklist is what LoadChecklist gives with it: once the
-- checklist is stored as succeeded under the keys of its inputs, and its two artifacts can be read, it
-- is loaded with the task and the context that were written.
pub load_checklist-write_checklist_inputs :
    (written readable : String → Result (Unit {0})) (missing : GoError) (attempt later : ℤ)
    (a b : Artifacts) (input : WriteChecklistInputsInput) (s : Checklists) (checklist : Checklist)
    → write_checklist_inputs written attempt a input ≡ (b, ok tt)
    → get_checklist s input.checklist_id ≡ ok checklist
    → checklist.status ≡ status_succeeded
    → checklist.task_artifact_key ≡ checklist_task_key input.checklist_id
    → checklist.context_artifact_key ≡ checklist_context_key input.checklist_id
    → readable checklist.task_artifact_key ≡ ok tt
    → readable checklist.context_artifact_key ≡ ok tt
    → load_checklist readable missing later b s (record { checklist_id = input.checklist_id })
      ≡ ok (record { checklist = checklist; task = input.task; context = input.context })
load_checklist-write_checklist_inputs written readable missing attempt later a b input s checklist
      wrote found status task_key context_key rt rc =
    let texts = write_checklist_inputs-ok written attempt a b input wrote in
    load_checklist_of_texts readable missing later b s
      (record { checklist_id = input.checklist_id }) checklist input.task input.context found status
      (ap b task_key ∙ texts.0) (ap b context_key ∙ texts.1) rt rc
