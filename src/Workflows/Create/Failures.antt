-- ===== src/Workflows/Create/Failures.antt =====
-- How a checklist workflow ends: it submits, or stores one failure.
use self_imp_bin_eval.Base.{◌≡◌, ◌⊎◌, inl, inr, refl, String, false, List, [], ◌∷◌, ◌++◌, All}
use self_imp_bin_eval.Base.Text.{is_blank}
use self_imp_bin_eval.Errors.{GoError, Result, ok, err}
use self_imp_bin_eval.Evalcore.Types.{
  ChecklistLimits, validate_limits, Dimension, CandidateQuestion, Weight, SplitQuestions,
}
use self_imp_bin_eval.Evalcore.Dimensions.{validate_dimensions}
use self_imp_bin_eval.Evalcore.Questions.{validate_candidate_questions}
use self_imp_bin_eval.Evalcore.Weights.{validate_weights, validate_projected_final_question_count}
use self_imp_bin_eval.Evalcore.Active.{weight_by_candidate_id, build_final_checklist}
use self_imp_bin_eval.Workflows.{
  done, failed, Flow, Has, check-Has, execute-Has, execute_last-Has, start-Has,
}
use self_imp_bin_eval.Workflows.Create.{
  finish, limits, gather_candidates, gather_splits, succeed_input, weigh_input, write_input,
  analyze_input, succeed_checklist, assign_weights, write_checklist_inputs, analyze_dimensions,
  error_only, split_question, generate_questions_for_dimension, split_inputs, generate_input,
  CreateChecklistInput, Call, fail_checklist, Results, submit, split_questions, weigh, generate,
  create_body, failure_input, after_failure, create_checklist_workflow,
}
use self_imp_bin_eval.Workflows.Create.Laws.{Submits, create_body-done}

-- Not the activity that stores a failure.
abbrev pub IsNoFailure : Call → Type 0
IsNoFailure (fail_checklist f) = ⊥
IsNoFailure _ = Unit

abbrev IsNamed : String → Type 0
IsNamed stage = is_blank stage ≡ false

module _ (results : Results) (input : CreateChecklistInput) where
  abbrev limits0 : ChecklistLimits
  limits0 = limits results input

  submit-Has :
      (ds : List Dimension) (cs : List CandidateQuestion) (ws : List Weight)
      (ss : List SplitQuestions)
      → Has IsNoFailure IsNamed (submit results input ds cs ws ss)
  unfolding submit is_blank
  submit-Has ds cs ws ss =
      check-Has IsNoFailure IsNamed "build_final_checklist"
        (build_final_checklist ds cs ws ss limits0) _ refl
        (λ qs.
          let s = succeed_input results input ds cs ws qs in
          execute_last-Has IsNoFailure IsNamed "succeed_checklist" (succeed_checklist s)
            (results.succeeded s) tt refl)

  split_questions-Has :
      (ds : List Dimension) (cs : List CandidateQuestion) (ws : List Weight)
      → Has IsNoFailure IsNamed (split_questions results input ds cs ws)
  unfolding split_questions is_blank
  split_questions-Has ds cs ws =
      let pending = split_inputs results input (weight_by_candidate_id ws) cs in
      start-Has IsNoFailure IsNamed split_question pending _ (λ i. tt)
        (check-Has IsNoFailure IsNamed "question_splitting" (gather_splits results input pending) _
          refl (λ ss. submit-Has ds cs ws ss))

  weigh-Has :
      (ds : List Dimension) (cs : List CandidateQuestion)
      → Has IsNoFailure IsNamed (weigh results input ds cs)
  unfolding weigh is_blank
  weigh-Has ds cs =
      let weighing = weigh_input results input cs in
      execute-Has IsNoFailure IsNamed "weight_assignment" (assign_weights weighing)
        (results.weighted weighing) _ tt refl
        (λ ws.
          check-Has IsNoFailure IsNamed "weight_assignment" (validate_weights cs ws limits0) _ refl
            (λ a.
              check-Has IsNoFailure IsNamed "weight_assignment"
                (error_only results input
                  (validate_projected_final_question_count input.checklist_id ws limits0))
                _ refl (λ b. split_questions-Has ds cs ws)))

  generate-Has : (ds : List Dimension) → Has IsNoFailure IsNamed (generate results input ds)
  unfolding generate is_blank
  generate-Has ds =
      start-Has IsNoFailure IsNamed
        (λ d. generate_questions_for_dimension (generate_input results input d)) ds _ (λ d. tt)
        (check-Has IsNoFailure IsNamed "question_generation" (gather_candidates results input [] ds)
          _ refl
          (λ cs.
            check-Has IsNoFailure IsNamed "question_generation"
              (validate_candidate_questions ds cs limits0) _ refl (λ a. weigh-Has ds cs)))

  create_body-Has : Has IsNoFailure IsNamed (create_body results input)
  unfolding create_body is_blank
  create_body-Has =
      let writing = write_input results input in
      let analysis = analyze_input results input in
      check-Has IsNoFailure IsNamed "validate_limits" (validate_limits limits0) _ refl (λ a.
        execute-Has IsNoFailure IsNamed "write_checklist_inputs" (write_checklist_inputs writing)
          (results.written writing) _ tt refl
          (λ b.
            execute-Has IsNoFailure IsNamed "dimension_analysis" (analyze_dimensions analysis)
              (results.analyzed analysis) _ tt refl
              (λ ds.
                check-Has IsNoFailure IsNamed "dimension_analysis" (validate_dimensions ds limits0)
                  _ refl (λ c. generate-Has ds))))

  -- A workflow that returns an error has started the activity that stores its failure, as its last
  -- call and no sooner. The error is that activity's own, or the failure is stored and it is the
  -- cause.
  abbrev pub Reports : String → List Call → GoError → Type 0
  Reports workflow_id calls e =
      (stage : String) × (cause : GoError) × (before : List Call) × IsNamed stage
      × All IsNoFailure before
      × (calls
          ≡ before ++ fail_checklist (failure_input results input workflow_id stage cause) ∷ [])
      × ((results.failed (failure_input results input workflow_id stage cause) ≡ err e)
          ⊎ ((e ≡ cause)
              × (results.failed (failure_input results input workflow_id stage cause) ≡ ok tt)))

  abbrev pub Ends : String → List Call × Result (Unit {0}) → Type 0
  Ends workflow_id (calls, ok a) = Submits results input calls × All IsNoFailure calls
  Ends workflow_id (calls, err e) = Reports workflow_id calls e

  -- The failure function, whatever the activity that stores the failure reports.
  after_failure-Ends :
      (workflow_id stage : String) (cause : GoError) (before : List Call)
      (stored : Result (Unit {0}))
      → IsNamed stage
      → All IsNoFailure before
      → results.failed (failure_input results input workflow_id stage cause) ≡ stored
      → Ends workflow_id (
        before ++ fail_checklist (failure_input results input workflow_id stage cause) ∷ [],
        after_failure results input stored cause,
      )
  after_failure-Ends workflow_id stage cause before (ok a) n h e =
      (stage, cause, before, n, h, refl, inr (refl, e))
  after_failure-Ends workflow_id stage cause before (err b) n h e =
      (stage, cause, before, n, h, refl, inl e)

  finish-Ends :
      (workflow_id : String) (flow : Flow Call (Unit {0}))
      → Has IsNoFailure IsNamed flow
      → (flow.1 ≡ done tt → Submits results input flow.0)
      → Ends workflow_id (finish results input workflow_id flow)
  finish-Ends workflow_id (calls, done a) h k = (k refl, h.calls)
  finish-Ends workflow_id (calls, failed stage cause) h k =
      after_failure-Ends workflow_id stage cause calls _ h.stages h.calls refl

-- A checklist workflow ends in one of two ways, whatever its activities report. It returns no error:
-- then its last call submitted a checklist that passes every check of the store, which reported it
-- stored, and it reported no failure. Or it returns an error: then it reported one failure, with a
-- stage, as its last call, and the error is the failure's cause once that is stored.
pub create_checklist_workflow-Ends :
    (results : Results) (input : CreateChecklistInput) (workflow_id : String)
    → Ends results input workflow_id (create_checklist_workflow results input workflow_id)
unfolding create_checklist_workflow
create_checklist_workflow-Ends results input workflow_id =
    finish-Ends results input workflow_id (create_body results input)
      (create_body-Has results input) (create_body-done results input)
