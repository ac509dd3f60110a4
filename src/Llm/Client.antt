-- ===== src/Llm/Client.antt =====
-- internal/llm/client.go: HTTPClient and GenerateJSON.
use Prim.Native.String.{◌++◌}
use self_imp_bin_eval.Base.{
  Bool, true, false, not, ◌&&◌, ◌||◌, eq_ℕ, ◌==◌, String, if◌then◌else◌, List, [], ◌∷◌, map, Option,
  none, some, ◌⊎◌, inl, inr,
}
use Prim.Native.Char.{code}
use self_imp_bin_eval.Base.Int.{ℤ, pos, ltb_ℤ, leb_ℤ, eq_ℤ}
use self_imp_bin_eval.Base.Text.{is_blank}
use self_imp_bin_eval.Errors.{
  Message, lit, int, GoError, no_cause, cause, model_output, infra, response_size, opaque, Result,
  ok, err,
}
use self_imp_bin_eval.Llm.{Bytes, Trace, default_max_response_bytes}
use self_imp_bin_eval.Llm.Bounded.{Body, Read, read_bounded_response}
use self_imp_bin_eval.Llm.Stream.{Event, read_structured_responses_stream}
use self_imp_bin_eval.Llm.Json.{Json, text, number, boolean, array_of, object_of}

-- `Message` and `GenerateRequest` of internal/llm/prompts.go.
pub record ChatMessage : Type 0 where
  pub role : String
  pub content : String

pub record GenerateRequest : Type 0 where
  pub prompt_name : String
  pub model_profile : String
  pub messages : List ChatMessage
  pub schema_name : String
  pub schema : Json

-- `HTTPClient`, without the transport that it calls.
pub record HttpClient : Type 0 where
  pub base_url : String
  pub api_key : String
  pub max_response_bytes : ℤ

-- `strings.TrimRight(s, "/")`
unfoldable pub trim_slashes : String → String
trim_slashes String.[] = ""
trim_slashes (String.◌∷◌ c s) =
    let rest = trim_slashes s in if rest == "" && eq_ℕ (code c) 0x2f then "" else String.◌∷◌ c rest

unfoldable pub new_http_client : (base_url api_key : String) → HttpClient
new_http_client base_url api_key = record {
  base_url = trim_slashes base_url;
  api_key = api_key;
  max_response_bytes = pos default_max_response_bytes;
}

abbrev pub input_of : ChatMessage → Json
input_of message = object_of (
    ("role", text message.role)
    ∷ (
      "content",
      array_of (object_of (("type", text "input_text") ∷ ("text", text message.content) ∷ []) ∷ []),
    )
    ∷ [])

unfoldable pub body_of : GenerateRequest → Json
body_of req = object_of (
    ("model", text req.model_profile)
    ∷ ("stream", boolean true)
    ∷ ("input", array_of (map input_of req.messages))
    ∷ ("max_output_tokens", number (pos 16000))
    ∷ (
      "tools",
      array_of (
          object_of (
            ("type", text "function")
            ∷ ("name", text req.schema_name)
            ∷ ("description", text "Provide the structured result for this operation.")
            ∷ ("parameters", req.schema)
            ∷ ("strict", boolean true)
            ∷ [])
          ∷ []),
    )
    ∷ ("tool_choice", object_of (("type", text "function") ∷ ("name", text req.schema_name) ∷ []))
    ∷ [])

-- The request as it is sent, with its `Content-Type` and its `Authorization` header.
pub record HttpRequest : Type 0 where
  pub method : String
  pub url : String
  pub content_type : String
  pub authorization : Option String
  pub body : Bytes

pub record HttpResponse : Type 0 where
  pub status_code : ℤ
  pub body : Body

-- What the standard library does: an encoder, the check of a request, the transport, and the decoders.
-- Where it fails, its error is a message.
pub record Library (Output : Type 0) : Type 0 where
  pub marshal : Json → Message ⊎ Bytes
  pub check_request : HttpRequest → Option Message
  pub send : HttpRequest → Message ⊎ HttpResponse
  pub decode_event : Bytes → Message ⊎ Event
  pub decode_output : String → Message ⊎ Output

abbrev pub is_success : ℤ → Bool
is_success status = not (ltb_ℤ status (pos 200) || leb_ℤ (pos 300) status)

abbrev pub is_retryable_status : ℤ → Bool
is_retryable_status status = eq_ℤ status (pos 429) || leb_ℤ (pos 500) status

abbrev pub sent : Bytes → Trace
sent body = record {
  request_body = body;
  response_body = [];
  http_status = pos 0;
  response_bytes_read = pos 0;
  response_truncated = false;
}

abbrev pub received : Bytes → ℤ → Read → Trace
received body status read = record {
  request_body = body;
  response_body = read.kept;
  http_status = status;
  response_bytes_read = read.observed;
  response_truncated = read.truncated;
}

abbrev pub with_cause : String → GoError → GoError
with_cause message e = model_output (lit message ∷ []) (cause e)

abbrev pub infra_with : String → Bool → GoError → GoError
infra_with message retryable e = infra (lit message ∷ []) retryable (cause e)

abbrev pub request_of : HttpClient → Bytes → HttpRequest
request_of c body = record {
  method = "POST";
  url = c.base_url ++ "/v1/responses";
  content_type = "application/json";
  authorization = if c.api_key == "" then none else some ("Bearer " ++ c.api_key);
  body = body;
}

-- `validate` is `Validate` of the output's type.
module _ {Output : Type 0} (library : Library Output) (validate : Output → Result (Unit {0})) where
  abbrev pub checked : Output → Result (Unit {0}) → Result Output
  checked output (err e) = err (with_cause "LLM output failed structural validation" e)
  checked output (ok done) = ok output

  abbrev pub from_decoded : Message ⊎ Output → Result Output
  from_decoded (inl message) = err (with_cause "LLM returned invalid JSON content" (opaque message))
  from_decoded (inr output) = checked output (validate output)

  abbrev pub from_content : Result String → Result Output
  from_content (err e) = err (infra_with "failed to decode LLM response stream" true e)
  from_content (ok content) =
      if is_blank content
      then err (model_output (lit "LLM response contained no JSON content" ∷ []) no_cause)
      else from_decoded (library.decode_output content)

  abbrev pub from_body : (tool : String) (status : ℤ) → Bytes → Result Output
  from_body tool status body =
      if is_success status
      then from_content (read_structured_responses_stream library.decode_event body tool)
      else err (
          infra (lit "LLM endpoint returned HTTP " ∷ int status ∷ []) (is_retryable_status status)
            no_cause)

  abbrev pub from_read : (tool : String) (limit status : ℤ) → Read → Option Message → Result Output
  from_read tool limit status read (some message) =
      err (infra_with "failed to read LLM response" true (opaque message))
  from_read tool limit status read none =
      if read.truncated
      then err (response_size limit read.observed)
      else from_body tool status read.kept

  abbrev pub from_response :
      (limit : ℤ) (tool : String) → Bytes → Message ⊎ HttpResponse → Trace × Result Output
  from_response limit tool body (inl message) =
      (sent body, err (infra_with "LLM request failed" true (opaque message)))
  from_response limit tool body (inr response) =
      let read = read_bounded_response response.body limit in
      (
        received body response.status_code read,
        from_read tool limit response.status_code read read.error,
      )

  abbrev pub from_request :
      HttpClient → (tool : String) → Bytes → Option Message → Trace × Result Output
  from_request c tool body (some message) =
      (sent body, err (infra_with "failed to build LLM request" false (opaque message)))
  from_request c tool body none =
      from_response c.max_response_bytes tool body (library.send (request_of c body))

  abbrev pub from_marshal : HttpClient → (tool : String) → Message ⊎ Bytes → Trace × Result Output
  from_marshal c tool (inl message) =
      (sent [], err (with_cause "failed to marshal LLM request" (opaque message)))
  from_marshal c tool (inr body) =
      from_request c tool body (library.check_request (request_of c body))

  unfoldable pub generate_json : HttpClient → GenerateRequest → Trace × Result Output
  generate_json c req = from_marshal c req.schema_name (library.marshal (body_of req))
