-- ===== src/Api/Creates.antt =====
-- What POST /checklists answers and leaves in the store.
use self_imp_bin_eval.Base.{
  ◌≡◌, refl, ◌∙◌, ◌↔◌, String, Bool, false, ◌||◌, Bool-cases, inl, inr, arith, String-discrete,
}
use Prim.Native.String.{◌++◌}
use self_imp_bin_eval.Base.Int.{ℤ, pos, negsuc}
use self_imp_bin_eval.Base.Text.{is_blank}
use self_imp_bin_eval.Errors.{GoError, Message, Result, ok, err}
use self_imp_bin_eval.Failure.{validate_details, check_references}
use self_imp_bin_eval.Evalcore.Types.{ChecklistLimits, validate_evaluation_runs}
use self_imp_bin_eval.Store.{Checklist, status_running}
use self_imp_bin_eval.Store.Checklists.{Checklists, put}
use self_imp_bin_eval.Store.Creation.{created_row, insert_if_valid, create_checklist_for_workflow}
use self_imp_bin_eval.Store.Failing.{fail_checklist}
use self_imp_bin_eval.Store.Lifecycle.Steps.{Database}
use self_imp_bin_eval.Artifacts.{checklist_task_key, checklist_context_key}
use self_imp_bin_eval.Api.{
  CreateChecklistRequest, Answers, runs_or_default, max_evaluation_runs, start_failure,
  after_start_failure, after_start_checklist, after_create_checklist, with_valid_runs,
  create_checklist,
}
use self_imp_bin_eval.Api.Responses.{respond, status_from_error, accepted_checklist}
use self_imp_bin_eval.Api.Starting.{is_definitive_start_error, start_create_checklist}

own_runs-valid :
    (runs most : ℤ)
    → validate_evaluation_runs runs most ≡ ok tt
    → validate_evaluation_runs runs runs ≡ ok tt
unfolding validate_evaluation_runs
own_runs-valid (pos n) most h = ground arith
own_runs-valid (negsuc n) most h = ground arith

pub start_failure-valid :
    (workflow_id : String)
    → is_blank workflow_id ≡ false
    → validate_details (start_failure workflow_id) ≡ ok tt
unfolding validate_details check_references is_blank String-discrete
start_failure-valid workflow_id h = rw h refl

error_status : (e : GoError) → status_from_error e ≡ 202 → ⊥
unfolding status_from_error
error_status e h = ground arith

insert_if_valid-inserted :
    (inserted : Result String) (valid : Result (Unit {0})) (s : Checklists)
    (row : String → Checklist) (id : String)
    → (insert_if_valid inserted valid s row).1 ≡ ok id
    → inserted ≡ ok id
insert_if_valid-inserted (ok i) (ok v) s row id h = h
insert_if_valid-inserted (err e) (ok v) s row id h = h
insert_if_valid-inserted inserted (err e) s row id h = absurd (cc h)

created-inserted :
    (inserted : Result String) (s : Checklists) (runs : ℤ) (id : String)
    → (create_checklist_for_workflow inserted s runs).1 ≡ ok id
    → inserted ≡ ok id
unfolding create_checklist_for_workflow
created-inserted inserted s runs id h =
    insert_if_valid-inserted inserted (validate_evaluation_runs runs runs) s _ id h

-- The checklist as it is created for a request.
abbrev pub new_checklist : String → ℤ → Checklist
new_checklist id runs = created_row id (checklist_task_key id) (checklist_context_key id) runs

module _ (before : String → String → Bool) (text : Message → String) (limits : ChecklistLimits)
    (max_runs : ℤ) (answers : Answers) where
  -- The request can be read and is not blank, and its number of runs is valid.
  pub record IsValidRequest (request : Result CreateChecklistRequest)
      (body : CreateChecklistRequest) : Type 0 where
    pub read : request ≡ ok body
    pub task : is_blank body.task ≡ false
    pub context : is_blank body.context ≡ false
    pub runs :
        validate_evaluation_runs
          (runs_or_default body.evaluation_runs)
          (max_evaluation_runs max_runs)
        ≡ ok tt

  abbrev pub created_database : Database → CreateChecklistRequest → String → Database
  created_database d body id = record d {
    checklists = put d.checklists id (new_checklist id (runs_or_default body.evaluation_runs));
  }

  pub create_checklist-created :
      (d : Database) (request : Result CreateChecklistRequest) (body : CreateChecklistRequest)
      (id : String)
      → IsValidRequest request body
      → answers.inserted ≡ ok id
      → create_checklist before text limits max_runs answers d request
        ≡ after_start_checklist before text limits max_runs answers
            (created_database d body id)
            id
            (runs_or_default body.evaluation_runs)
            (start_create_checklist answers.client limits id body.task body.context)
  unfolding create_checklist create_checklist_for_workflow checklist_task_key checklist_context_key
  create_checklist-created d request body id v made =
      let runs = runs_or_default body.evaluation_runs in
      let own = own_runs-valid runs (max_evaluation_runs max_runs) v.runs in
      rw v.read (rw (v.task, v.context) (rw v.runs (rw own (rw made refl))))

  start_failure-500 :
      (r : Result (Unit {0}))
      → (after_start_failure before text limits max_runs answers r).status ≡ 500
  start_failure-500 (ok v) = refl
  start_failure-500 (err e) = refl

  after_start_checklist-202 :
      (d : Database) (id : String) (runs : ℤ) (started : Result (Unit {0}))
      → (after_start_checklist before text limits max_runs answers d id runs started).1.status ≡ 202
      → started ≡ ok tt
  after_start_checklist-202 d id runs (ok v) h = refl
  after_start_checklist-202 d id runs (err e) h =
      let workflow_id = "checklist-" ++ id in
      let gave_up =
        fail_checklist text answers.commit_checklist d.checklists id (start_failure workflow_id) in
      elim (Bool-cases (is_definitive_start_error e)) [
        | inl t ↦ absurd (omega (arith, start_failure-500 gave_up.1, rw t at h))
        | inr t ↦ absurd (omega (arith, rw t at h))
      ]

  after_create_checklist-202 :
      (d : Database) (body : CreateChecklistRequest) (runs : ℤ) (created : Result String)
      → (after_create_checklist before text limits max_runs answers d body runs created).1.status
        ≡ 202
      → (id : String) × (created ≡ ok id)
        × (start_create_checklist answers.client limits id body.task body.context ≡ ok tt)
  after_create_checklist-202 d body runs (err e) h = absurd (error_status e h)
  after_create_checklist-202 d body runs (ok id) h =
      (id, refl, after_start_checklist-202 d id runs _ h)

  with_valid_runs-202 :
      (d : Database) (body : CreateChecklistRequest) (runs : ℤ) (valid : Result (Unit {0}))
      → (with_valid_runs before text limits max_runs answers d body runs valid).1.status ≡ 202
      → (id : String) × (valid ≡ ok tt)
        × (answers.inserted ≡ ok id)
        × (start_create_checklist answers.client limits id body.task body.context ≡ ok tt)
  with_valid_runs-202 d body runs (err e) h = absurd (omega (arith, h))
  with_valid_runs-202 d body runs (ok v) h =
      let made = create_checklist_for_workflow answers.inserted d.checklists runs in
      let (id, e, started) =
        after_create_checklist-202 (record d { checklists = made.0 }) body runs made.1 h in
      (id, refl, created-inserted answers.inserted d.checklists runs id e, started)

  create_checklist-202 :
      (d : Database) (request : Result CreateChecklistRequest)
      → (create_checklist before text limits max_runs answers d request).1.status ≡ 202
      → (body : CreateChecklistRequest) × (id : String) × IsValidRequest request body
        × (answers.inserted ≡ ok id)
        × (start_create_checklist answers.client limits id body.task body.context ≡ ok tt)
  unfolding create_checklist
  create_checklist-202 d (err e) h = absurd (omega (arith, h))
  create_checklist-202 d (ok body) h =
      let runs = runs_or_default body.evaluation_runs in
      elim (Bool-cases (is_blank body.task || is_blank body.context)) [
        | inl t ↦ absurd (omega (arith, rw t at h))
        | inr t ↦
            let (id, valid, made, started) =
              with_valid_runs-202 d body runs
                (validate_evaluation_runs runs (max_evaluation_runs max_runs)) (rw t at h) in
            (
              body,
              id,
              record { read = refl; task = ground arith; context = ground arith; runs = valid },
              made,
              started,
            )
      ]

  -- POST /checklists answers 202 exactly if the request can be read, its task and context are not
  -- blank, its number of runs is valid, the database inserts the checklist, and the workflow starts
  -- or has started. The store then has the new checklist, running, under the keys of its inputs,
  -- and the answer names it.
  pub create_checklist_iff :
      (d : Database) (request : Result CreateChecklistRequest)
      → ((create_checklist before text limits max_runs answers d request).1.status ≡ 202) ↔ (
          (body : CreateChecklistRequest) × (id : String) × IsValidRequest request body
          × (answers.inserted ≡ ok id)
          × (start_create_checklist answers.client limits id body.task body.context ≡ ok tt)
          × (create_checklist before text limits max_runs answers d request ≡ (
            created_database d body id,
            respond 202
                (accepted_checklist id status_running (runs_or_default body.evaluation_runs)),
          )))
  create_checklist_iff d request = (
    λ h.
        let (body, id, v, made, started) = create_checklist-202 d request h in
        (
          body,
          id,
          v,
          made,
          started,
          create_checklist-created d request body id v made ∙ rw started refl,
        ),
    λ (body, id, v, made, started, e). rw e refl,
  )
