-- ===== src/Workflows/Create/Laws.antt =====
-- What a checklist workflow submits, and how it fails.
use self_imp_bin_eval.Base.{◌≡◌, refl, ap, ◌∙◌, List, [], ◌∷◌, ◌++◌, map}
use self_imp_bin_eval.Errors.{ok}
use self_imp_bin_eval.Evalcore.Types.{
  ChecklistLimits, Dimension, CandidateQuestion, Weight, SplitQuestions, validate_limits,
}
use self_imp_bin_eval.Evalcore.Dimensions.{validate_dimensions}
use self_imp_bin_eval.Evalcore.Questions.{validate_candidate_questions}
use self_imp_bin_eval.Evalcore.Weights.{validate_weights, validate_projected_final_question_count}
use self_imp_bin_eval.Evalcore.FinalQuestions.{validate_final_questions}
use self_imp_bin_eval.Evalcore.Active.{build_final_checklist, weight_by_candidate_id}
use self_imp_bin_eval.Evalcore.Active.Laws.{build_final_checklist-IsValid}
use self_imp_bin_eval.Activities.Inputs.{SucceedChecklistInput}
use self_imp_bin_eval.Workflows.{
  EndsIn, EndsIn-append, EndsIn-execute, execute-ok, done, check-eq-done, execute-eq-done,
}
use self_imp_bin_eval.Workflows.Create.{
  submit, split_questions, weigh, generate, succeed_input, weigh_input, write_input, analyze_input,
  generate_input, assign_weights, split_question, generate_questions_for_dimension,
  write_checklist_inputs, analyze_dimensions, CreateChecklistInput, Call, succeed_checklist,
  Results, limits, gather_candidates, gather_splits, split_inputs, error_only, create_body,
}

-- What SucceedChecklist of the store checks before it writes.
pub record IsAccepted (s : SucceedChecklistInput) : Type 0 where
  pub limits : validate_limits s.limits ≡ ok tt
  pub dimensions : validate_dimensions s.dimensions s.limits ≡ ok tt
  pub candidates : validate_candidate_questions s.dimensions s.candidate_questions s.limits ≡ ok tt
  pub weights : validate_weights s.candidate_questions s.weights s.limits ≡ ok tt
  pub questions :
      validate_final_questions s.dimensions s.candidate_questions s.questions s.limits ≡ ok tt

module _ (results : Results) (input : CreateChecklistInput) where
  abbrev limits0 : ChecklistLimits
  limits0 = limits results input

  -- The calls end in a submission that the store accepts and Temporal reports as stored.
  abbrev pub Submits : List Call → Type 0
  Submits calls =
      (s : SucceedChecklistInput) × IsAccepted s
      × (s.checklist_id ≡ input.checklist_id)
      × (results.succeeded s ≡ ok tt)
      × EndsIn (succeed_checklist s) calls

  Submits-append :
      (first second calls : List Call) → calls ≡ first ++ second → Submits second → Submits calls
  Submits-append first second calls e (s, a, i, r, ends) =
      (s, a, i, r, EndsIn-append (succeed_checklist s) first second calls e ends)

  module _ (valid_limits : validate_limits limits0 ≡ ok tt) (ds : List Dimension)
      (valid_dimensions : validate_dimensions ds limits0 ≡ ok tt) where
    module _ (cs : List CandidateQuestion)
        (valid_candidates : validate_candidate_questions ds cs limits0 ≡ ok tt) where
      module _ (ws : List Weight) (valid_weights : validate_weights cs ws limits0 ≡ ok tt) where
        submit-done :
            (ss : List SplitQuestions)
            → (submit results input ds cs ws ss).1 ≡ done tt
            → Submits (submit results input ds cs ws ss).0
        unfolding submit
        submit-done ss h =
            let (qs, built, rest, calls) =
              check-eq-done "build_final_checklist" (build_final_checklist ds cs ws ss limits0) _
                h in
            let s = succeed_input results input ds cs ws qs in
            (
              s,
              record {
                limits = valid_limits;
                dimensions = valid_dimensions;
                candidates = valid_candidates;
                weights = valid_weights;
                questions = (build_final_checklist-IsValid ds cs ws ss limits0 qs built).1;
              },
              refl,
              execute-ok "succeed_checklist" (succeed_checklist s) (results.succeeded s) rest,
              EndsIn-append (succeed_checklist s) [] _ _ calls
                  (EndsIn-execute "succeed_checklist" (succeed_checklist s) (results.succeeded s)),
            )

        split_questions-done :
            (split_questions results input ds cs ws).1 ≡ done tt
            → Submits (split_questions results input ds cs ws).0
        unfolding split_questions
        split_questions-done h =
            let pending = split_inputs results input (weight_by_candidate_id ws) cs in
            let (ss, _, rest, calls) =
              check-eq-done "question_splitting" (gather_splits results input pending) _ h in
            Submits-append (map split_question pending) _ _
              (ap (λ cs. map split_question pending ++ cs) calls) (submit-done ss rest)

      weigh-done : (weigh results input ds cs).1 ≡ done tt → Submits (weigh results input ds cs).0
      unfolding weigh
      weigh-done h =
          let weighing = weigh_input results input cs in
          let (ws, _, h1, c1) =
            execute-eq-done "weight_assignment" (assign_weights weighing)
              (results.weighted weighing) _ h in
          let (_, valid, h2, c2) =
            check-eq-done "weight_assignment" (validate_weights cs ws limits0) _ h1 in
          let (_, _, h3, c3) =
            check-eq-done "weight_assignment"
              (error_only results input
                (validate_projected_final_question_count input.checklist_id ws limits0))
              _ h2 in
          Submits-append (assign_weights weighing ∷ []) _ _
            (c1 ∙ ap (λ cs. assign_weights weighing ∷ cs) (c2 ∙ c3))
            (split_questions-done ws valid h3)

    generate-done : (generate results input ds).1 ≡ done tt → Submits (generate results input ds).0
    unfolding generate
    generate-done h =
        let made =
          map (λ d. generate_questions_for_dimension (generate_input results input d)) ds in
        let (cs, _, h1, c1) =
          check-eq-done "question_generation" (gather_candidates results input [] ds) _ h in
        let (_, valid, h2, c2) =
          check-eq-done "question_generation" (validate_candidate_questions ds cs limits0) _ h1 in
        Submits-append made _ _ (ap (λ cs. made ++ cs) (c1 ∙ c2)) (weigh-done cs valid h2)

  pub create_body-done :
      (create_body results input).1 ≡ done tt → Submits (create_body results input).0
  unfolding create_body
  create_body-done h =
      let writing = write_input results input in
      let analysis = analyze_input results input in
      let (_, valid_limits, h1, c1) =
        check-eq-done "validate_limits" (validate_limits limits0) _ h in
      let (_, _, h2, c2) =
        execute-eq-done "write_checklist_inputs" (write_checklist_inputs writing)
          (results.written writing) _ h1 in
      let (ds, _, h3, c3) =
        execute-eq-done "dimension_analysis" (analyze_dimensions analysis)
          (results.analyzed analysis) _ h2 in
      let (_, valid, h4, c4) =
        check-eq-done "dimension_analysis" (validate_dimensions ds limits0) _ h3 in
      Submits-append (write_checklist_inputs writing ∷ analyze_dimensions analysis ∷ []) _ _
        (c1
          ∙ c2
          ∙ ap (λ cs. write_checklist_inputs writing ∷ cs)
              (c3 ∙ ap (λ cs. analyze_dimensions analysis ∷ cs) c4))
        (generate-done valid_limits ds valid h4)
