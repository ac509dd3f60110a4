-- ===== src/Tests/Asked.antt =====
-- A judgment that the endpoint of the model gives and that JudgeAnswer returns.
use self_imp_bin_eval.Base.{◌≡◌, refl, String, List, none, false, inr, arith, String-discrete}
use self_imp_bin_eval.Base.Int.{pos, wrap64, ◌+ℤ◌}
use self_imp_bin_eval.Base.Keys.{contains}
use self_imp_bin_eval.Base.Text.{is_blank}
use self_imp_bin_eval.Errors.{Result, ok}
use self_imp_bin_eval.Evalcore.Types.{Judgment}
use self_imp_bin_eval.Evalcore.Judgments.{validate_judgment_shape, check_judgment_shape}
use self_imp_bin_eval.Llm.{Bytes, Trace, ascii, default_max_response_bytes}
use self_imp_bin_eval.Llm.Bounded.{read_bounded_response}
use self_imp_bin_eval.Llm.Stream.{
  read_structured_responses_stream, read_lines, on_line, on_event, drop_cr,
}
use self_imp_bin_eval.Llm.Client.{Library, generate_json}
use self_imp_bin_eval.Llm.Schemas.{validate_binary_judging_output}
use self_imp_bin_eval.Llm.Prompts.{build_binary_judging_request}
use self_imp_bin_eval.Activities.Inputs.{JudgeAnswerInput}
use self_imp_bin_eval.Activities.Llm.{judge_answer, run_evaluation_llm, run_llm}
use self_imp_bin_eval.Activities.Asking.{ask_judgments}
use self_imp_bin_eval.Activities.Asking.Laws.{IsAsked, judge_answer-ask_judgments}
use self_imp_bin_eval.Tests.Data.{questions, judgments}
use self_imp_bin_eval.Tests.Client.{client, event, stream}
use self_imp_bin_eval.Tests.Requested.{to_text, judged}

abbrev library : Library (List Judgment)
library = record {
  marshal = λ v. inr (ascii "{}");
  check_request = λ request. none;
  send = λ request.
      inr (record { status_code = pos 200; body = record { bytes = stream; broken = none } });
  decode_event = λ payload. inr event;
  decode_output = λ content. inr judgments;
}

abbrev input : JudgeAnswerInput
input = record {
  evaluation_id = "e";
  run_index = pos 1;
  task = "t";
  context = "c";
  model_answer = "a";
  questions = questions;
}

abbrev write : (key : String) (body : Bytes) → Result (Unit {0})
write key body = ok tt

shaped : validate_binary_judging_output judgments ≡ ok tt
unfolding validate_binary_judging_output validate_judgment_shape check_judgment_shape contains
    is_blank String-discrete
shaped = refl

abbrev trace : Trace
trace = record {
  request_body = ascii "{}";
  response_body = stream;
  http_status = pos 200;
  response_bytes_read = pos 8;
  response_truncated = false;
}

answered : ask_judgments to_text client "m" library input ≡ (trace, ok judgments)
unfolding ask_judgments generate_json read_bounded_response read_structured_responses_stream
    read_lines on_line on_event drop_cr is_blank wrap64 ◌+ℤ◌ String-discrete
    build_binary_judging_request
answered = rw shaped refl

returned :
    judge_answer write (pos 1) input (ask_judgments to_text client "m" library input) ≡ ok judgments
unfolding judge_answer run_evaluation_llm run_llm
returned = rw answered (rw judged refl)

judge_answer-ask_judgments_example :
    IsAsked write (pos 1) to_text client "m" library default_max_response_bytes input judgments
judge_answer-ask_judgments_example =
    judge_answer-ask_judgments write (pos 1) to_text client "m" library default_max_response_bytes
      input judgments refl (omega arith) (omega arith) returned
