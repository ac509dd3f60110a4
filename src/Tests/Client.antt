-- ===== src/Tests/Client.antt =====
-- Calls of a model that answers, and of one that is busy.
use self_imp_bin_eval.Base.{
  ◌≡◌, refl, ℕ, true, List, [], ◌∷◌, none, inr, ◌↔◌, arith, String-discrete,
}
use self_imp_bin_eval.Base.Int.{pos, wrap64, ◌+ℤ◌}
use self_imp_bin_eval.Errors.{lit, int, GoError, infra, no_cause, Result, ok, err}
use self_imp_bin_eval.Activities.{failure_details}
use self_imp_bin_eval.Activities.Retries.{generate_json-retryable_iff}
use self_imp_bin_eval.Activities.Transient.{IsTransient}
use self_imp_bin_eval.Llm.{ascii, default_max_response_bytes}
use self_imp_bin_eval.Llm.Json.{text}
use self_imp_bin_eval.Llm.Bounded.{read_bounded_response}
use self_imp_bin_eval.Llm.Bounds.{IsBounded, read_bounded_response-IsBounded}
use self_imp_bin_eval.Llm.Stream.{Event}
use self_imp_bin_eval.Llm.Client.{
  GenerateRequest, HttpClient, HttpResponse, Library, new_http_client, trim_slashes, generate_json,
}
use self_imp_bin_eval.Llm.Kept.{IsKept, generate_json-IsKept}
use self_imp_bin_eval.Llm.Answers.{IsReceived, IsAccepted, generate_json_iff}

abbrev pub event : Event
event = record {
  type = "response.function_call_arguments.done";
  delta = "";
  arguments = "{}";
  item = none;
  message = "";
  error = none;
  response = none;
}

abbrev pub stream : List ℕ
stream = ascii "data: {}"

abbrev library_with : HttpResponse → Library ℕ
library_with response = record {
  marshal = λ v. inr (ascii "{}");
  check_request = λ request. none;
  send = λ request. inr response;
  decode_event = λ payload. inr event;
  decode_output = λ content. inr 7;
}

abbrev answering : Library ℕ
answering =
    library_with (record { status_code = pos 200; body = record { bytes = stream; broken = none } })

abbrev busy : Library ℕ
busy = library_with (record { status_code = pos 503; body = record { bytes = []; broken = none } })

abbrev accept : ℕ → Result (Unit {0})
accept n = ok tt

abbrev request : GenerateRequest
request = record {
  prompt_name = "dimension_analysis";
  model_profile = "m";
  messages = [];
  schema_name = "dimension_analysis";
  schema = text "";
}

abbrev pub client : HttpClient
client = record {
  base_url = "http://localhost";
  api_key = "";
  max_response_bytes = pos default_max_response_bytes;
}

made : new_http_client "http://localhost/" "" ≡ client
unfolding new_http_client trim_slashes String-discrete
made = refl

read_bounded_response-IsBounded_example :
    IsBounded
      (record { bytes = stream; broken = none })
      4
      (read_bounded_response (record { bytes = stream; broken = none }) (pos 4))
read_bounded_response-IsBounded_example =
    read_bounded_response-IsBounded (record { bytes = stream; broken = none }) 4 (omega arith)
      (omega arith)

generate_json_iff_example : ((generate_json answering accept client request).1 ≡ ok 7) ↔ (
    (sent : List ℕ) × (response : HttpResponse) × IsReceived answering client request sent response
    × IsAccepted answering accept "dimension_analysis" default_max_response_bytes response 7)
generate_json_iff_example =
    generate_json_iff answering accept client request default_max_response_bytes 7 refl
      (omega arith) (omega arith)

generate_json-IsKept_example :
    IsKept default_max_response_bytes (generate_json answering accept client request)
generate_json-IsKept_example =
    generate_json-IsKept answering accept default_max_response_bytes client request refl
      (omega arith) (omega arith)

abbrev unavailable : GoError
unavailable = infra (lit "LLM endpoint returned HTTP " ∷ int (pos 503) ∷ []) true no_cause

refused : (generate_json busy accept client request).1 ≡ err unavailable
unfolding generate_json read_bounded_response wrap64 ◌+ℤ◌
refused = refl

generate_json-retryable_iff_example :
    ((failure_details unavailable (pos 1)).retryable ≡ true)
    ↔ IsTransient busy client request default_max_response_bytes
generate_json-retryable_iff_example =
    generate_json-retryable_iff busy accept (pos 1) default_max_response_bytes client request
      unavailable refl (omega arith) (omega arith) refused
