-- ===== src/Api/Unstarted.antt =====
-- A checklist whose workflow does not start.
use self_imp_bin_eval.Base.{
  ◌≡◌, refl, ap, ◌∙◌, ◌↔◌, inl, inr, String, Bool, true, false, ==_refl, some, Bool-cases,
  String-discrete,
}
use Prim.Native.String.{◌++◌}
use self_imp_bin_eval.Base.Int.{ℤ}
use self_imp_bin_eval.Base.Text.{is_blank, is_blank-append}
use self_imp_bin_eval.Errors.{GoError, Message, Result, ok, err, error_chain, workflow_start}
use self_imp_bin_eval.Evalcore.Types.{ChecklistLimits}
use self_imp_bin_eval.Store.{Checklist, status_running, status_failed}
use self_imp_bin_eval.Store.Checklists.{Checklists, put, get_checklist, read_checklist}
use self_imp_bin_eval.Store.Failing.{failed_row, fail_checklist}
use self_imp_bin_eval.Store.Lifecycle.Steps.{Database}
use self_imp_bin_eval.Api.{
  CreateChecklistRequest, Answers, runs_or_default, start_failure, create_checklist,
}
use self_imp_bin_eval.Api.Responses.{write_error}
use self_imp_bin_eval.Api.Starting.{
  is_already_started, is_execution_not_found, is_definitive_start_error, ambiguous, after_describe,
  start_workflow, start_create_checklist,
}
use self_imp_bin_eval.Api.Creates.{
  start_failure-valid, new_checklist, IsValidRequest, create_checklist-created,
}

is_definitive-workflow_start :
    (definitive : Bool) (e : GoError)
    → is_definitive_start_error (workflow_start definitive e) ≡ definitive
unfolding is_definitive_start_error
is_definitive-workflow_start definitive e = refl

-- The start failed, and the workflow is known not to be there.
abbrev pub IsAbsent : Result (Unit {0}) → Result Bool → Type 0
IsAbsent started described =
    (e : GoError) × (x : GoError) × (started ≡ err e)
    × (is_already_started (error_chain e) ≡ false)
    × (described ≡ err x)
    × (is_execution_not_found (error_chain x) ≡ true)

ambiguous-not_definitive :
    (e x : GoError) → after_describe e (ok false) ≡ err x → is_definitive_start_error x ≡ true → ⊥
unfolding is_definitive_start_error
ambiguous-not_definitive e x p q =
    let same : ambiguous e ≡ x = cc in
    let wrong : false ≡ true = ap is_definitive_start_error same ∙ q in cc wrong

after_describe-definitive :
    (e : GoError) (described : Result Bool)
    → is_already_started (error_chain e) ≡ false
    → ((x : GoError) × (after_describe e described ≡ err x) × (is_definitive_start_error x ≡ true))
      ↔ IsAbsent (err e) described
after_describe-definitive e (ok true) t = (λ h. absurd (cc h.1), λ h. absurd (cc h.4))
after_describe-definitive e (ok false) t =
    (λ h. absurd (ambiguous-not_definitive e h.0 h.1 h.2), λ h. absurd (cc h.4))
after_describe-definitive e (err x) t = elim (Bool-cases (is_execution_not_found (error_chain x))) [
  | inl u ↦ rw u (
    λ h. (e, x, refl, t, refl, u),
    λ h. (workflow_start true e, refl, is_definitive-workflow_start true e),
  )
  | inr u ↦ rw u (
    λ h. absurd (ambiguous-not_definitive e h.0 h.1 h.2),
    λ h. absurd (let (e1, x1, p, q, r, v) = h in cc),
  )
]

-- A start of a workflow fails for certain exactly if Temporal answers it with another error than
-- that the workflow has started, and answers the question for the workflow with the error that
-- there is none.
pub start_workflow-definitive_iff :
    (started : Result (Unit {0})) (described : Result Bool)
    → ((e : GoError) × (start_workflow started described ≡ err e)
        × (is_definitive_start_error e ≡ true))
      ↔ IsAbsent started described
unfolding start_workflow
start_workflow-definitive_iff (ok v) described = (λ h. absurd (cc h.1), λ h. absurd (cc h.2))
start_workflow-definitive_iff (err e) described =
    elim (Bool-cases (is_already_started (error_chain e))) [
      | inl t ↦ rw t (λ h. absurd (cc h.1), λ h. absurd (let (e1, x, p, q, r, u) = h in cc))
      | inr t ↦ rw t (after_describe-definitive e described t)
    ]

-- The checklist as it is stored if its workflow did not start.
abbrev pub unstarted_checklist : String → ℤ → Checklist
unstarted_checklist id runs =
    failed_row (new_checklist id runs) (start_failure ("checklist-" ++ id))

named : is_blank "checklist-" ≡ false
unfolding is_blank String-discrete
named = refl

fail_checklist-new :
    (text : Message → String) (commit : Checklist → Result (Unit {0})) (s : Checklists)
    (id : String) (runs : ℤ)
    → s id ≡ some (new_checklist id runs)
    → commit (unstarted_checklist id runs) ≡ ok tt
    → fail_checklist text commit s id (start_failure ("checklist-" ++ id))
      ≡ (put s id (unstarted_checklist id runs), ok tt)
unfolding fail_checklist
fail_checklist-new text commit s id runs here commits =
    let valid = start_failure-valid ("checklist-" ++ id) (is_blank-append "checklist-" id named) in
    rw (valid, here, ==_refl status_running, commits) refl

get_checklist-put :
    (s : Checklists) (id : String) (runs : ℤ)
    → get_checklist (put s id (unstarted_checklist id runs)) id
      ≡ ok
          (read_checklist (some (start_failure ("checklist-" ++ id))) (unstarted_checklist id runs))
unfolding get_checklist
get_checklist-put s id runs = rw (==_refl id, ==_refl status_failed) refl

module _ (before : String → String → Bool) (text : Message → String) (limits : ChecklistLimits)
    (max_runs : ℤ) (answers : Answers) where
  -- POST /checklists does not leave a checklist running whose workflow did not start for certain:
  -- where the database commits it, the checklist is stored as failed, with the details of the
  -- failure to start, and the answer is 500 with the code start_workflow_failed.
  pub create_checklist-unstarted :
      (d : Database) (request : Result CreateChecklistRequest) (body : CreateChecklistRequest)
      (id : String) (e : GoError)
      → IsValidRequest before text limits max_runs answers request body
      → answers.inserted ≡ ok id
      → start_create_checklist answers.client limits id body.task body.context ≡ err e
      → is_definitive_start_error e ≡ true
      → answers.commit_checklist (unstarted_checklist id (runs_or_default body.evaluation_runs))
        ≡ ok tt
      → let (left, response) = create_checklist before text limits max_runs answers d request in
        (response ≡ write_error 500 "start_workflow_failed")
        × (get_checklist left.checklists id
            ≡ ok (
                read_checklist
                  (some (start_failure ("checklist-" ++ id)))
                  (unstarted_checklist id (runs_or_default body.evaluation_runs))))
  create_checklist-unstarted d request body id e v made unstarted definitive commits =
      let runs = runs_or_default body.evaluation_runs in
      let s = put d.checklists id (new_checklist id runs) in
      let here : s id ≡ some (new_checklist id runs) = rw (==_refl id) refl in
      let given_up = fail_checklist-new text answers.commit_checklist s id runs here commits in
      rw
        (
          create_checklist-created before text limits max_runs answers d request body id v made,
          unstarted,
          definitive,
          given_up,
        )
        (refl, get_checklist-put s id runs)
