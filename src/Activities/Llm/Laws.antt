-- ===== src/Activities/Llm/Laws.antt =====
-- What the activities that call the model promise.
use self_imp_bin_eval.Base.{
  ltb, length, [], ◌≡◌, refl, ap, ==_refl, subst, String, true, false, List, arith,
}
use self_imp_bin_eval.Base.Int.{ℤ, pos, eq_ℤ}
use self_imp_bin_eval.Base.Keys.{contains}
use self_imp_bin_eval.Errors.{Result, ok, >>=-eq-ok, ok_injective}
use self_imp_bin_eval.Evalcore.Types.{
  Judgment, with_defaults, DraftDimension, Dimension, DraftQuestion, SplitQuestions,
}
use self_imp_bin_eval.Evalcore.Dimensions.{validate_dimension_generation, validate_dimensions}
use self_imp_bin_eval.Evalcore.Questions.{validate_split_questions}
use self_imp_bin_eval.Evalcore.Ids.{assign_dimension_ids}
use self_imp_bin_eval.Evalcore.Judgments.{validate_judgments}
use self_imp_bin_eval.Artifacts.{
  prompt_binary_judging, prompt_for_run, prompt_dimension_analysis, prompt_question_splitting,
  prompt_for,
}
use self_imp_bin_eval.Activities.Inputs.{
  JudgeAnswerInput, AnalyzeDimensionsInput, SplitQuestionInput,
}
use self_imp_bin_eval.Activities.{reported, reported-eq-ok}
use self_imp_bin_eval.Llm.{Bytes, Trace}
use self_imp_bin_eval.Activities.Llm.{
  judge_answer, run_evaluation_llm, check_run_index, Reply, run_llm, run_checklist_llm,
  analyze_dimensions, split_of, split_question,
}

module _ (write : (key : String) (body : Bytes) → Result (Unit {0})) (attempt : ℤ) where
  -- The dimensions that AnalyzeDimensions returns pass ValidateDimensions with the limits that the
  -- workflow uses.
  pub analyze_dimensions-ok :
      (input : AnalyzeDimensionsInput) (reply : Reply (List DraftDimension)) (ds : List Dimension)
      → analyze_dimensions write attempt input reply ≡ ok ds
      → validate_dimensions ds (with_defaults input.limits) ≡ ok tt
  unfolding analyze_dimensions
  analyze_dimensions-ok input reply ds h =
      let run =
        run_checklist_llm write attempt input.checklist_id prompt_dimension_analysis reply in
      let (drafts, _, h1) = >>=-eq-ok run.1 _ h in
      let l = with_defaults input.limits in
      let (_, _, h2) =
        >>=-eq-ok (reported attempt run.0 (validate_dimension_generation drafts l)) _ h1 in
      let dimensions = assign_dimension_ids drafts in
      let (_, e, same) =
        >>=-eq-ok (reported attempt run.0 (validate_dimensions dimensions l)) _ h2 in
      subst (λ t. validate_dimensions t l ≡ ok tt) (ok_injective dimensions ds same)
        (reported-eq-ok attempt run.0 (validate_dimensions dimensions l) e)

  -- What SplitQuestion returns is a split of the candidate that it was given, and passes
  -- ValidateSplitQuestions for the weight.
  pub split_question-ok :
      (input : SplitQuestionInput) (reply : Reply (List DraftQuestion)) (s : SplitQuestions)
      → split_question write attempt input reply ≡ ok s
      → (s.candidate_question_id ≡ input.candidate_question.id)
        × (validate_split_questions s input.weight.weight ≡ ok tt)
  unfolding split_question
  split_question-ok input reply s h =
      let prompt = prompt_for prompt_question_splitting input.candidate_question.id in
      let run = run_checklist_llm write attempt input.checklist_id prompt reply in
      let (questions, _, h1) = >>=-eq-ok run.1 _ h in
      let split = split_of write attempt input questions in
      let (_, e, same) =
        >>=-eq-ok (reported attempt run.0 (validate_split_questions split input.weight.weight)) _
          h1 in
      let valid =
        reported-eq-ok attempt run.0 (validate_split_questions split input.weight.weight) e in
      subst
        (λ (t : SplitQuestions).
          (t.candidate_question_id ≡ input.candidate_question.id)
          × (validate_split_questions t input.weight.weight ≡ ok tt))
        (ok_injective split s same) (refl, valid)

  -- What JudgeAnswer returns passes ValidateJudgments for the questions that it was given.
  pub judge_answer-ok :
      (input : JudgeAnswerInput) (reply : Reply (List Judgment)) (js : List Judgment)
      → judge_answer write attempt input reply ≡ ok js
      → validate_judgments input.questions js ≡ ok tt
  unfolding judge_answer
  judge_answer-ok input reply js h =
      let (_, _, h0) =
        >>=-eq-ok (reported attempt [] (check_run_index write attempt input.run_index)) _ h in
      let prompt = prompt_for_run prompt_binary_judging input.run_index in
      let run = run_evaluation_llm write attempt input.evaluation_id prompt reply in
      let (judgments, _, h1) = >>=-eq-ok run.1 _ h0 in
      let (_, e, same) =
        >>=-eq-ok (reported attempt run.0 (validate_judgments input.questions judgments)) _ h1 in
      subst (λ t. validate_judgments input.questions t ≡ ok tt) (ok_injective judgments js same)
        (reported-eq-ok attempt run.0 (validate_judgments input.questions judgments) e)

  -- The artifact was written, and its key is among the references.
  abbrev pub IsKept : (key : String) (body : Bytes) → List String → Type 0
  IsKept key body references = (write key body ≡ ok tt) × (contains references key ≡ true)

  -- A model call counts as made only with its trace kept: runLLM returns an output only if the model
  -- gave it, the request was written unless it was empty, and the response was written if there was
  -- one. The references then name what was written.
  pub run_llm-ok :
      {Output : Type 0} (trace : Trace) (reply : Result Output) (request_key response_key : String)
      (references : List String) (output : Output)
      → run_llm write attempt (trace, reply) request_key response_key ≡ (references, ok output)
      → (reply ≡ ok output)
        × (ltb 0 (length trace.request_body) ≡ true
            → IsKept request_key trace.request_body references)
        × (eq_ℤ trace.http_status (pos 0) ≡ false
            → IsKept response_key trace.response_body references)
  unfolding run_llm contains
  run_llm-ok trace reply k1 k2 references output h =
      let result = ap (λ p. p.1) h in
      let keys = ap (λ p. p.0) h in ground (arith, result, keys, ==_refl k1, ==_refl k2)
