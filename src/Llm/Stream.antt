-- ===== src/Llm/Stream.antt =====
-- internal/llm/client.go: readStructuredResponsesStream, the events of the stream and the texts of
-- its errors.
use Prim.Native.String.{◌++◌}
use self_imp_bin_eval.Base.{
  ℕ, Bool, true, false, not, ◌&&◌, ltb, eq_ℕ, ◌==◌, String, if◌then◌else◌, List, [], ◌∷◌, length,
  Option, none, some, ◌⊎◌, inl, inr,
}
use self_imp_bin_eval.Base.Text.{is_blank}
use self_imp_bin_eval.Errors.{Message, lit, str, Result, ok, err, opaque}
use self_imp_bin_eval.Llm.{Bytes, ascii, default_max_response_bytes}

pub record FunctionCall : Type 0 where
  pub type : String
  pub name : String
  pub arguments : String

pub record ErrorBody : Type 0 where
  pub message : String
  pub code : String

-- The `response` field is its `error` field, where the event has one.
pub record Event : Type 0 where
  pub type : String
  pub delta : String
  pub arguments : String
  pub item : Option FunctionCall
  pub message : String
  pub error : Option ErrorBody
  pub response : Option (Option ErrorBody)

unfoldable pub error_text : Option ErrorBody → String
error_text none = ""
error_text (some e) = if is_blank e.message then e.code else e.message

abbrev pub first_filled : List String → String
first_filled [] = "unknown error"
first_filled (candidate ∷ candidates) =
    let rest = first_filled candidates in if is_blank candidate then rest else candidate

abbrev pub response_error : Option (Option ErrorBody) → Option ErrorBody
response_error none = none
response_error (some e) = e

unfoldable pub response_stream_error : Event → String
response_stream_error event = first_filled (
    event.message
    ∷ error_text event.error
    ∷ error_text (response_error event.response)
    ∷ event.type
    ∷ [])

-- What a line does: it adds a text, ends the stream, or decides the result.
pub data Turn : Type 0 where
  more : String → Turn
  ended : Turn
  stop : Result String → Turn

abbrev pub stream_failed : Event → Turn
stream_failed event =
    stop (err (opaque (lit "responses stream failed: " ∷ str (response_stream_error event) ∷ [])))

abbrev pub call_arguments : (tool : String) → Option FunctionCall → Turn
call_arguments tool none = more ""
call_arguments tool (some item) =
    if item.type == "function_call" && item.name == tool && not (item.arguments == "")
    then stop (ok item.arguments)
    else more ""

-- The `switch` on the type.
unfoldable pub on_event : (tool : String) → Event → Turn
on_event tool event =
    if event.type == "response.function_call_arguments.delta"
    then more event.delta
    else if event.type == "response.function_call_arguments.done"
    then (if event.arguments == "" then more "" else stop (ok event.arguments))
    else if event.type == "response.output_item.done"
    then call_arguments tool event.item
    else if event.type == "response.failed"
    then stream_failed event
    else if event.type == "error"
    then stream_failed event
    else more ""

-- What follows a prefix, as `strings.HasPrefix` and `strings.TrimPrefix` find it.
abbrev pub after_prefix : (prefix line : Bytes) → Option Bytes
after_prefix [] line = some line
after_prefix (b ∷ prefix) [] = none
after_prefix (b ∷ prefix) (c ∷ line) =
    let rest = after_prefix prefix line in if eq_ℕ b c then rest else none

abbrev pub eq_bytes : Bytes → Bytes → Bool
eq_bytes [] [] = true
eq_bytes (b ∷ bs) (c ∷ cs) = eq_ℕ b c && eq_bytes bs cs
eq_bytes _ _ = false

-- The lines of a text as `bufio.ScanLines` cuts them, before it drops a carriage return: the text
-- after the last line feed is a line unless it is empty.
abbrev pub start_line : ℕ → List Bytes → List Bytes
start_line b [] = (b ∷ []) ∷ []
start_line b (line ∷ lines) = (b ∷ line) ∷ lines

abbrev pub lines_of : Bytes → List Bytes
lines_of [] = []
lines_of (b ∷ bs) = let lines = lines_of bs in if eq_ℕ b 10 then [] ∷ lines else start_line b lines

-- The carriage return before a line feed, or at the end of the text, is dropped.
unfoldable pub drop_cr : Bytes → Bytes
drop_cr [] = []
drop_cr (b ∷ []) = if eq_ℕ b 13 then [] else b ∷ []
drop_cr (b ∷ c ∷ bs) = b ∷ drop_cr (c ∷ bs)

-- An event is decoded by `json.Unmarshal`, which may fail with a message.
module _ (decode_event : Bytes → Message ⊎ Event) where
  abbrev pub on_decoded : (tool : String) → Message ⊎ Event → Turn
  on_decoded tool (inl message) = stop (err (opaque message))
  on_decoded tool (inr event) = on_event tool event

  abbrev pub on_payload : (tool : String) → Option Bytes → Turn
  on_payload tool none = more ""
  on_payload tool (some payload) =
      if eq_bytes payload (ascii "[DONE]") then ended else on_decoded tool (decode_event payload)

  -- The scanner's buffer holds a line of `DefaultMaxResponseBytes` and its line feed.
  unfoldable pub on_line : (tool : String) → Bytes → Turn
  on_line tool line =
      if ltb default_max_response_bytes (length line)
      then stop (err (opaque (lit "bufio.Scanner: token too long" ∷ [])))
      else on_payload tool (after_prefix (ascii "data: ") (drop_cr line))

  -- The loop, with the content so far.
  unfoldable pub read_lines : (tool : String) → List Bytes → (content : String) → Result String
  read_lines tool [] content = ok content
  read_lines tool (line ∷ lines) content = elim (on_line tool line) [
    | more delta ↦ read_lines tool lines (content ++ delta)
    | ended ↦ ok content
    | stop result ↦ result
  ]

  unfoldable pub read_structured_responses_stream : Bytes → (tool : String) → Result String
  read_structured_responses_stream bytes tool = read_lines tool (lines_of bytes) ""
