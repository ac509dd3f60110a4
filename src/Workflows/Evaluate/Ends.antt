-- ===== src/Workflows/Evaluate/Ends.antt =====
-- How an evaluation workflow ends: it submits a score, or stores one failure.
use self_imp_bin_eval.Base.{
  ◌≡◌, ◌⊎◌, inl, inr, refl, ap, ◌∙◌, String, false, not, ◌==◌, eq_of_==, arith, List, [], ◌∷◌, ◌++◌,
  map, All,
}
use self_imp_bin_eval.Base.Int.{pos_part}
use self_imp_bin_eval.Base.Text.{is_blank}
use self_imp_bin_eval.Errors.{GoError, Result, ok, err, fail_if}
use self_imp_bin_eval.Evalcore.Types.{AggregationResult, validate_evaluation_runs}
use self_imp_bin_eval.Evalcore.Aggregate.{aggregate_judgments}
use self_imp_bin_eval.Store.{status_succeeded}
use self_imp_bin_eval.Activities.Inputs.{LoadChecklistResult, SucceedEvaluationInput}
use self_imp_bin_eval.Workflows.{
  done, failed, Flow, check-eq-done, execute-eq-done, EndsIn, EndsIn-append, EndsIn-execute,
  execute-ok, Has, check-Has, execute-Has, execute_last-Has, start-Has,
}
use self_imp_bin_eval.Workflows.Evaluate.{
  EvaluateAnswerInput, EvaluationCall, write_evaluation_input, load_checklist, judge_answer,
  succeed_evaluation, fail_evaluation, EvaluationResults, answer_input, load_input, judge_inputs,
  gather_judgments, score_input, not_succeeded, judge, evaluate_body, evaluation_failure,
  after_evaluation_failure, finish_evaluation, evaluate_answer_workflow,
}

abbrev pub IsNoFailure : EvaluationCall → Type 0
IsNoFailure (fail_evaluation f) = ⊥
IsNoFailure _ = Unit

abbrev IsNamed : String → Type 0
IsNamed stage = is_blank stage ≡ false

module _ (results : EvaluationResults) (input : EvaluateAnswerInput) where
  -- The calls end in the submission of the judgments and of the score that they have for the
  -- checklist which was loaded, and Temporal reports it as stored.
  abbrev pub Scores : List EvaluationCall → Type 0
  Scores calls =
      (loaded : LoadChecklistResult) × (s : SucceedEvaluationInput)
      × (aggregated : AggregationResult) × (results.loaded (load_input results input) ≡ ok loaded)
      × (loaded.checklist.status ≡ status_succeeded)
      × (aggregate_judgments loaded.checklist.questions s.run_judgments
            loaded.checklist.evaluation_runs
          ≡ ok aggregated)
      × (s.score ≡ aggregated.score)
      × (results.succeeded s ≡ ok tt)
      × EndsIn (succeed_evaluation s) calls

  module _ (loaded : LoadChecklistResult)
      (found : results.loaded (load_input results input) ≡ ok loaded)
      (status : loaded.checklist.status ≡ status_succeeded) where
    judge-done : (judge results input loaded).1 ≡ done tt → Scores (judge results input loaded).0
    unfolding judge
    judge-done h =
        let runs = loaded.checklist.evaluation_runs in
        let qs = loaded.checklist.questions in
        let pending = judge_inputs results input loaded 1 (pos_part runs) in
        let (js, _, h1, c1) =
          check-eq-done "binary_judging" (gather_judgments results input pending) _ h in
        let (aggregated, e, h2, c2) =
          check-eq-done "score_checklist" (aggregate_judgments qs js runs) _ h1 in
        let s = score_input results input js aggregated.score in
        (
          loaded,
          s,
          aggregated,
          found,
          status,
          e,
          refl,
          execute-ok "succeed_evaluation" (succeed_evaluation s) (results.succeeded s) h2,
          EndsIn-append (succeed_evaluation s) (map judge_answer pending) _ _
              (ap (λ cs. map judge_answer pending ++ cs) (c1 ∙ c2))
              (EndsIn-execute "succeed_evaluation" (succeed_evaluation s) (results.succeeded s)),
        )

  Scores-append :
      (first second calls : List EvaluationCall)
      → calls ≡ first ++ second
      → Scores second
      → Scores calls
  Scores-append first second calls e (loaded, s, a, f, st, g, sc, r, ends) = (
    loaded,
    s,
    a,
    f,
    st,
    g,
    sc,
    r,
    EndsIn-append (succeed_evaluation s) first second calls e ends,
  )

  status_of :
      (status : String) (e : GoError)
      → fail_if (not (status == status_succeeded)) e ≡ ok tt
      → status ≡ status_succeeded
  status_of status e h = ground (arith, eq_of_== status status_succeeded)

  evaluate_body-done :
      (evaluate_body results input).1 ≡ done tt → Scores (evaluate_body results input).0
  unfolding evaluate_body
  evaluate_body-done h =
      let answer = answer_input results input in
      let load = load_input results input in
      let (_, _, h1, c1) =
        execute-eq-done "write_evaluation_input" (write_evaluation_input answer)
          (results.written answer) _ h in
      let (loaded, found, h2, c2) =
        execute-eq-done "load_checklist" (load_checklist load) (results.loaded load) _ h1 in
      let runs = loaded.checklist.evaluation_runs in
      let (_, succeeded, h3, c3) =
        check-eq-done "load_checklist"
          (fail_if (not (loaded.checklist.status == status_succeeded))
            (not_succeeded results input))
          _ h2 in
      let (_, _, h4, c4) =
        check-eq-done "load_checklist" (validate_evaluation_runs runs runs) _ h3 in
      Scores-append (write_evaluation_input answer ∷ load_checklist load ∷ []) _ _
        (c1
          ∙ ap (λ cs. write_evaluation_input answer ∷ cs)
              (c2 ∙ ap (λ cs. load_checklist load ∷ cs) (c3 ∙ c4)))
        (judge-done loaded found
          (status_of loaded.checklist.status (not_succeeded results input) succeeded) h4)

  judge-Has : (loaded : LoadChecklistResult) → Has IsNoFailure IsNamed (judge results input loaded)
  unfolding judge is_blank
  judge-Has loaded =
      let runs = loaded.checklist.evaluation_runs in
      let qs = loaded.checklist.questions in
      let pending = judge_inputs results input loaded 1 (pos_part runs) in
      start-Has IsNoFailure IsNamed judge_answer pending _ (λ i. tt)
        (check-Has IsNoFailure IsNamed "binary_judging" (gather_judgments results input pending) _
          refl
          (λ js.
            check-Has IsNoFailure IsNamed "score_checklist" (aggregate_judgments qs js runs) _ refl
              (λ a.
                let s = score_input results input js a.score in
                execute_last-Has IsNoFailure IsNamed "succeed_evaluation" (succeed_evaluation s)
                  (results.succeeded s) tt refl)))

  evaluate_body-Has : Has IsNoFailure IsNamed (evaluate_body results input)
  unfolding evaluate_body is_blank
  evaluate_body-Has =
      let answer = answer_input results input in
      let load = load_input results input in
      execute-Has IsNoFailure IsNamed "write_evaluation_input" (write_evaluation_input answer)
        (results.written answer) _ tt refl
        (λ a.
          execute-Has IsNoFailure IsNamed "load_checklist" (load_checklist load)
            (results.loaded load) _ tt refl
            (λ loaded.
              let runs = loaded.checklist.evaluation_runs in
              check-Has IsNoFailure IsNamed "load_checklist"
                (fail_if (not (loaded.checklist.status == status_succeeded))
                  (not_succeeded results input))
                _ refl
                (λ b.
                  check-Has IsNoFailure IsNamed "load_checklist"
                    (validate_evaluation_runs runs runs) _ refl (λ c. judge-Has loaded))))

  -- A workflow that returns an error has started the activity that stores its failure, as its last
  -- call and no sooner. The error is that activity's own, or the failure is stored and it is the
  -- cause.
  abbrev pub ReportsFailure : String → List EvaluationCall → GoError → Type 0
  ReportsFailure workflow_id calls e =
      (stage : String) × (cause : GoError) × (before : List EvaluationCall) × IsNamed stage
      × All IsNoFailure before
      × (calls
          ≡ before
            ++ fail_evaluation (evaluation_failure results input workflow_id stage cause) ∷ [])
      × ((results.failed (evaluation_failure results input workflow_id stage cause) ≡ err e)
          ⊎ ((e ≡ cause)
              × (results.failed (evaluation_failure results input workflow_id stage cause)
                  ≡ ok tt)))

  abbrev pub EndsEvaluation : String → List EvaluationCall × Result (Unit {0}) → Type 0
  EndsEvaluation workflow_id (calls, ok a) = Scores calls × All IsNoFailure calls
  EndsEvaluation workflow_id (calls, err e) = ReportsFailure workflow_id calls e

  after_evaluation_failure-EndsEvaluation :
      (workflow_id stage : String) (cause : GoError) (before : List EvaluationCall)
      (stored : Result (Unit {0}))
      → IsNamed stage
      → All IsNoFailure before
      → results.failed (evaluation_failure results input workflow_id stage cause) ≡ stored
      → EndsEvaluation workflow_id (
        before ++ fail_evaluation (evaluation_failure results input workflow_id stage cause) ∷ [],
        after_evaluation_failure results input stored cause,
      )
  after_evaluation_failure-EndsEvaluation workflow_id stage cause before (ok a) n h e =
      (stage, cause, before, n, h, refl, inr (refl, e))
  after_evaluation_failure-EndsEvaluation workflow_id stage cause before (err b) n h e =
      (stage, cause, before, n, h, refl, inl e)

  finish_evaluation-EndsEvaluation :
      (workflow_id : String) (flow : Flow EvaluationCall (Unit {0}))
      → Has IsNoFailure IsNamed flow
      → (flow.1 ≡ done tt → Scores flow.0)
      → EndsEvaluation workflow_id (finish_evaluation results input workflow_id flow)
  finish_evaluation-EndsEvaluation workflow_id (calls, done a) h k = (k refl, h.calls)
  finish_evaluation-EndsEvaluation workflow_id (calls, failed stage cause) h k =
      after_evaluation_failure-EndsEvaluation workflow_id stage cause calls _ h.stages h.calls refl

-- An evaluation workflow ends in one of two ways, whatever its activities report. It returns no
-- error: then its last call submitted the judgments of a checklist that was loaded as succeeded, with
-- the very score that the store computes from them to compare, the store reported it stored, and no
-- failure was reported. Or it returns an error: then it reported one failure, with a stage, as its
-- last call, and the error is the failure's cause once that is stored.
pub evaluate_answer_workflow-EndsEvaluation :
    (results : EvaluationResults) (input : EvaluateAnswerInput) (workflow_id : String)
    → EndsEvaluation results input workflow_id (evaluate_answer_workflow results input workflow_id)
unfolding evaluate_answer_workflow
evaluate_answer_workflow-EndsEvaluation results input workflow_id =
    finish_evaluation-EndsEvaluation results input workflow_id (evaluate_body results input)
      (evaluate_body-Has results input) (evaluate_body-done results input)
