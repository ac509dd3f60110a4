-- ===== src/Llm/Fitting.antt =====
-- The schema of a request lets the model give every output that its activity accepts.
use self_imp_bin_eval.Base.{
  ◌≡◌, ◌≤◌, String, true, List, [], ◌∷◌, map, length, length-map, All, All-imp, arith,
}
use self_imp_bin_eval.Base.Int.{ℤ}
use self_imp_bin_eval.Base.Keys.{contains}
use self_imp_bin_eval.Base.Pigeons.{length-le_of_contains}
use self_imp_bin_eval.Errors.{ok}
use self_imp_bin_eval.Evalcore.Types.{
  FinalQuestion, Judgment, Weight, CandidateQuestion, ChecklistLimits, with_defaults,
}
use self_imp_bin_eval.Evalcore.Types.Limits.{with_defaults_idem}
use self_imp_bin_eval.Evalcore.FinalQuestions.{question_ids}
use self_imp_bin_eval.Evalcore.Questions.{candidate_ids}
use self_imp_bin_eval.Evalcore.Judgments.{judgment_ids, validate_judgments}
use self_imp_bin_eval.Evalcore.Judgments.Laws.{validate_judgments_iff, IsShaped as IsShapedJudgment}
use self_imp_bin_eval.Evalcore.Weights.{weight_ids, validate_weights}
use self_imp_bin_eval.Evalcore.Weights.Laws.{
  validate_weights_iff, IsShaped as IsShapedWeight, IsKnown,
}
use self_imp_bin_eval.Llm.Json.{Json}
use self_imp_bin_eval.Llm.Accepts.{accepts}
use self_imp_bin_eval.Llm.Shapes.{encode_output}
use self_imp_bin_eval.Llm.Outputs.{
  encode_judgment, encode_weight, IsWeighed, binary_judging_schema-accepts_iff,
  weight_assignment_schema-accepts_iff,
}
use self_imp_bin_eval.Llm.Prompts.{build_binary_judging_request, build_weight_assignment_request}

-- Members with distinct keys that are among distinct other keys, and the other way around, are as many.
length-eq_of_keys {ℓ κ} :
    {A : Type ℓ} {B : Type κ} (f : A → String) (g : B → String) (xs : List A) (ys : List B)
    → length (map f xs) ≤ length (map g ys)
    → length (map g ys) ≤ length (map f xs)
    → length xs ≡ length ys
length-eq_of_keys f g xs ys h k = omega (arith, h, k, length-map f xs, length-map g ys)

All-to-map {ℓ κ} :
    {A : Type ℓ} (P : String → Type κ) (f : A → String) (xs : List A)
    → All (λ x. P (f x)) xs
    → All P (map f xs)
All-to-map P f [] h = tt
All-to-map P f (x ∷ xs) h = (h.0, All-to-map P f xs h.1)

-- The judgments that pass ValidateJudgments for the questions pass the schema of the request that
-- asks for them: the schema never keeps the model from giving an accepted output.
pub build_binary_judging_request-accepts :
    (must_json : Json → String) (task context_text model_answer model_profile : String)
    (qs : List FinalQuestion) (js : List Judgment)
    → validate_judgments qs js ≡ ok tt
    → let request =
        build_binary_judging_request must_json task context_text model_answer model_profile qs in
      accepts request.schema (encode_output "judgments" encode_judgment js) ≡ true
unfolding build_binary_judging_request
build_binary_judging_request-accepts must_json task context_text model_answer model_profile qs js
      h =
    let v = (validate_judgments_iff qs js).0 h in
    let fewer =
      length-le_of_contains (judgment_ids js) (question_ids qs) v.shaped.distinct
        (All-to-map (λ k. contains (question_ids qs) k ≡ true) _ js v.known) in
    let more =
      length-le_of_contains (question_ids qs) (judgment_ids js) v.distinct
        (All-to-map (λ k. contains (judgment_ids js) k ≡ true) _ qs v.covered) in
    (binary_judging_schema-accepts_iff (length qs) js).1 (
      length-eq_of_keys (λ (j : Judgment). j.question_id) (λ (q : FinalQuestion). q.id) js qs fewer
          more,
      All-imp (λ j (s : IsShapedJudgment j). s.answer) js v.shaped.each,
    )

weighed :
    (known : List String) (most : ℤ) (ws : List Weight)
    → All IsShapedWeight ws
    → All (IsKnown known most) ws
    → All (IsWeighed most) ws
weighed known most [] h k = tt
weighed known most (w ∷ ws) h k = ((h.0.not_negative, k.0.1), weighed known most ws h.1 k.1)

-- The weights that pass ValidateWeights for the candidates pass the schema of the request that asks
-- for them.
pub build_weight_assignment_request-accepts :
    (must_json : Json → String) (task context_text model_profile : String)
    (cs : List CandidateQuestion) (limits : ChecklistLimits) (ws : List Weight)
    → validate_weights cs ws limits ≡ ok tt
    → let request =
        build_weight_assignment_request must_json task context_text model_profile cs limits in
      accepts request.schema (encode_output "weights" encode_weight ws) ≡ true
unfolding build_weight_assignment_request
build_weight_assignment_request-accepts must_json task context_text model_profile cs limits ws h =
    let v = (validate_weights_iff cs ws limits).0 h in
    let most = (with_defaults limits).max_split_count in
    let fewer = length-le_of_contains (weight_ids ws) (candidate_ids cs) v.shaped.distinct (
      All-to-map (λ k. contains (candidate_ids cs) k ≡ true) _ ws
        (All-imp (λ w k. k.0) ws v.known)) in
    let more =
      length-le_of_contains (candidate_ids cs) (weight_ids ws) v.distinct
        (All-to-map (λ k. contains (weight_ids ws) k ≡ true) _ cs v.covered) in
    let idem = (with_defaults_idem limits).1 in
    (weight_assignment_schema-accepts_iff (with_defaults limits) (length cs) ws).1 (
      length-eq_of_keys (λ (w : Weight). w.candidate_question_id) (λ (c : CandidateQuestion). c.id)
          ws cs fewer more,
      rw idem (weighed (candidate_ids cs) most ws v.shaped.each v.known),
    )
