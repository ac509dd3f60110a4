-- ===== src/Artifacts.antt =====
-- internal/artifacts/keys.go: the keys under which artifacts are written.
use Prim.Native.String.{◌++◌}
use self_imp_bin_eval.Base.{String}
use self_imp_bin_eval.Base.Int.{ℤ}
use self_imp_bin_eval.Base.Decimal.{itoa}

abbrev pub prompt_dimension_analysis : String
prompt_dimension_analysis = "dimension_analysis"

abbrev pub prompt_question_generation : String
prompt_question_generation = "question_generation"

abbrev pub prompt_weight_assignment : String
prompt_weight_assignment = "weight_assignment"

abbrev pub prompt_question_splitting : String
prompt_question_splitting = "question_splitting"

abbrev pub prompt_binary_judging : String
prompt_binary_judging = "binary_judging"

unfoldable pub checklist_task_key : String → String
checklist_task_key id = "checklists/" ++ id ++ "/inputs/task.txt"

unfoldable pub checklist_context_key : String → String
checklist_context_key id = "checklists/" ++ id ++ "/inputs/context.txt"

unfoldable pub llm_attempt_key : (entity_prefix prompt_name : String) → ℤ → String → String
llm_attempt_key entity_prefix prompt_name attempt filename =
    entity_prefix ++ "/llm/" ++ prompt_name ++ "/attempt-" ++ itoa attempt ++ "/" ++ filename

unfoldable pub checklist_llm_request_key : (id prompt_name : String) → ℤ → String
checklist_llm_request_key id prompt_name attempt =
    llm_attempt_key ("checklists/" ++ id) prompt_name attempt "request.json"

unfoldable pub checklist_llm_response_key : (id prompt_name : String) → ℤ → String
checklist_llm_response_key id prompt_name attempt =
    llm_attempt_key ("checklists/" ++ id) prompt_name attempt "response.body"

-- `prompt + "/" + id`, the name of a prompt that is run for each of several.
abbrev pub prompt_for : (prompt_name id : String) → String
prompt_for prompt_name id = prompt_name ++ "/" ++ id

unfoldable pub evaluation_answer_key : String → String
evaluation_answer_key id = "evaluations/" ++ id ++ "/inputs/model_answer.txt"

unfoldable pub evaluation_llm_request_key : (id prompt_name : String) → ℤ → String
evaluation_llm_request_key id prompt_name attempt =
    llm_attempt_key ("evaluations/" ++ id) prompt_name attempt "request.json"

unfoldable pub evaluation_llm_response_key : (id prompt_name : String) → ℤ → String
evaluation_llm_response_key id prompt_name attempt =
    llm_attempt_key ("evaluations/" ++ id) prompt_name attempt "response.body"

-- `prompt + "/run-" + strconv.Itoa(run_index)`
abbrev pub prompt_for_run : (prompt_name : String) → ℤ → String
prompt_for_run prompt_name run_index = prompt_name ++ "/run-" ++ itoa run_index
