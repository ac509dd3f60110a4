-- ===== src/Activities/Asking/Laws.antt =====
-- What JudgeAnswer returns comes from the endpoint of the model, and both sides of the call are kept.
use self_imp_bin_eval.Base.{
  ◌≡◌, refl, sym, ap, ◌∙◌, ℕ, ◌+◌, ◌^◌, ◌≤◌, String, true, false, List, [], length, ltb, arith,
}
use self_imp_bin_eval.Base.Int.{ℤ, pos, eq_ℤ}
use self_imp_bin_eval.Errors.{Result, ok, >>=-eq-ok}
use self_imp_bin_eval.Evalcore.Types.{Judgment}
use self_imp_bin_eval.Evalcore.Judgments.{validate_judgments}
use self_imp_bin_eval.Artifacts.{
  prompt_binary_judging, prompt_for_run, evaluation_llm_request_key, evaluation_llm_response_key,
}
use self_imp_bin_eval.Llm.{Bytes}
use self_imp_bin_eval.Llm.Json.{Json}
use self_imp_bin_eval.Llm.Bounded.{read_bounded_response}
use self_imp_bin_eval.Llm.Bounds.{read_bounded_response-IsBounded}
use self_imp_bin_eval.Llm.Client.{
  HttpClient, HttpResponse, GenerateRequest, Library, generate_json, received,
}
use self_imp_bin_eval.Llm.Schemas.{validate_binary_judging_output}
use self_imp_bin_eval.Llm.Answers.{IsReceived, IsAccepted, generate_json_iff}
use self_imp_bin_eval.Activities.{reported}
use self_imp_bin_eval.Activities.Inputs.{JudgeAnswerInput}
use self_imp_bin_eval.Activities.Llm.{judge_answer, run_evaluation_llm, check_run_index, Reply}
use self_imp_bin_eval.Activities.Llm.Laws.{run_llm-ok, judge_answer-ok}
use self_imp_bin_eval.Llm.Prompts.{build_binary_judging_request}
use self_imp_bin_eval.Activities.Asking.{ask_judgments, judging_request}

module _ {Output : Type 0} (library : Library Output) (validate : Output → Result (Unit {0})) where
  generate_json-received :
      (c : HttpClient) (req : GenerateRequest) (request : Bytes) (response : HttpResponse)
      → IsReceived library c req request response
      → (generate_json library validate c req).0
        ≡ received request response.status_code
            (read_bounded_response response.body c.max_response_bytes)
  unfolding generate_json
  generate_json-received c req request response r = rw r.marshalled (rw r.checked (rw r.sent refl))

module _ (write : (key : String) (body : Bytes) → Result (Unit {0})) (attempt : ℤ) where
  judge_answer-run :
      (input : JudgeAnswerInput) (reply : Reply (List Judgment)) (js : List Judgment)
      → judge_answer write attempt input reply ≡ ok js
      → (run_evaluation_llm write attempt input.evaluation_id
          (prompt_for_run prompt_binary_judging input.run_index)
          reply).1
        ≡ ok js
  unfolding judge_answer
  judge_answer-run input reply js h =
      let (_, _, h0) =
        >>=-eq-ok (reported attempt [] (check_run_index write attempt input.run_index)) _ h in
      let prompt = prompt_for_run prompt_binary_judging input.run_index in
      let run = run_evaluation_llm write attempt input.evaluation_id prompt reply in
      let (judgments, given, h1) = >>=-eq-ok run.1 _ h0 in
      let (_, _, same) =
        >>=-eq-ok (reported attempt run.0 (validate_judgments input.questions judgments)) _ h1 in
      given ∙ same

  -- The judgments, with the call that they come from.
  pub record IsAsked (must_json : Json → String) (client : HttpClient) (model_profile : String)
      (library : Library (List Judgment)) (limit : ℕ) (input : JudgeAnswerInput)
      (js : List Judgment) : Type 0 where
    pub request : Bytes
    pub response : HttpResponse
    pub received :
        IsReceived library client
          (judging_request must_json client model_profile input)
          request
          response
    pub accepted :
        IsAccepted library validate_binary_judging_output "binary_judging" limit response js
    pub valid : validate_judgments input.questions js ≡ ok tt
    pub request_kept :
        ltb 0 (length request) ≡ true
        → write
            (evaluation_llm_request_key input.evaluation_id
              (prompt_for_run prompt_binary_judging input.run_index)
              attempt)
            request
          ≡ ok tt
    pub response_kept :
        write
          (evaluation_llm_response_key input.evaluation_id
            (prompt_for_run prompt_binary_judging input.run_index)
            attempt)
          response.body.bytes
        ≡ ok tt

  -- What JudgeAnswer returns is what the endpoint of the model answered to the request for its
  -- questions, in a whole response within the limit, and is valid for the questions. The request, unless it
  -- is empty, and the response, byte for byte, were written as artifacts.
  pub judge_answer-ask_judgments :
      (must_json : Json → String) (client : HttpClient) (model_profile : String)
      (library : Library (List Judgment)) (limit : ℕ) (input : JudgeAnswerInput)
      (js : List Judgment)
      → client.max_response_bytes ≡ pos limit
      → 1 ≤ limit
      → limit + 2 ≤ 2 ^ 63
      → judge_answer write attempt input
          (ask_judgments must_json client model_profile library input)
        ≡ ok js
      → IsAsked must_json client model_profile library limit input js
  unfolding ask_judgments run_evaluation_llm build_binary_judging_request
  judge_answer-ask_judgments must_json client model_profile library limit input js c l bound h =
      let req = judging_request must_json client model_profile input in
      let reply = generate_json library validate_binary_judging_output client req in
      let prompt = prompt_for_run prompt_binary_judging input.run_index in
      let run = run_evaluation_llm write attempt input.evaluation_id prompt reply in
      let given = judge_answer-run input reply js h in
      let (answer, request_kept, response_kept) =
        run_llm-ok write attempt reply.0 reply.1
          (evaluation_llm_request_key input.evaluation_id prompt attempt)
          (evaluation_llm_response_key input.evaluation_id prompt attempt) run.0 js
          (ap (λ o. (run.0, o)) given) in
      let (request, response, r, a) =
        (generate_json_iff library validate_binary_judging_output client req limit js c l bound).0
          answer in
      let trace =
        generate_json-received library validate_binary_judging_output client req request response
          r in
      let b = read_bounded_response-IsBounded response.body limit l bound in
      let short : (read_bounded_response response.body (pos limit)).truncated ≡ false =
        ground (arith, b.truncated, a.fits) in
      let status : eq_ℤ (reply.0).http_status (pos 0) ≡ false =
        ap (λ t. eq_ℤ t.http_status (pos 0)) trace ∙ ground (arith, a.success.0) in
      let sent = ap (λ t. t.request_body) trace in
      let body =
        ap (λ t. t.response_body) trace
        ∙ ap (λ m. (read_bounded_response response.body m).kept) c
        ∙ b.whole short (b.error a.fits ∙ a.whole) in
      record {
        request = request;
        response = response;
        received = r;
        accepted = a;
        valid = judge_answer-ok write attempt input reply js h;
        request_kept = λ some_sent.
            ap (write (evaluation_llm_request_key input.evaluation_id prompt attempt)) (sym sent)
            ∙ (request_kept (ap (λ t. ltb 0 (length t)) sent ∙ some_sent)).0;
        response_kept =
            ap (write (evaluation_llm_response_key input.evaluation_id prompt attempt)) (sym body)
            ∙ (response_kept status).0;
      }
