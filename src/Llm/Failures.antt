-- ===== src/Llm/Failures.antt =====
-- The errors of a stream: none has a type that the code asks for.
use Prim.Native.String.{◌++◌}
use self_imp_bin_eval.Base.{
  ◌≡◌, refl, Bool, true, false, ◌==◌, List, [], ◌∷◌, length, Option, none, some, ◌⊎◌, inl, inr,
  String, ltb, if◌then◌else◌,
}
use self_imp_bin_eval.Errors.{Message, lit, opaque, Result, ok, err}
use self_imp_bin_eval.Llm.{Bytes, ascii, default_max_response_bytes}
use self_imp_bin_eval.Llm.Stream.{
  Event, FunctionCall, after_prefix, drop_cr, call_arguments, stream_failed, on_decoded, on_payload,
  Turn, more, ended, stop, on_line, on_event, lines_of, read_lines,
  read_structured_responses_stream,
}

-- An error of a stream has no type that the code asks for.
abbrev pub IsOpaque : Result String → Type 0
IsOpaque (ok s) = Unit
IsOpaque (err e) = (m : Message) × (e ≡ opaque m)

unfoldable IsOpaqueTurn : Turn → Type 0
IsOpaqueTurn (stop r) = IsOpaque r
IsOpaqueTurn _ = Unit

more-IsOpaqueTurn : (delta : String) → IsOpaqueTurn (more delta)
unfolding IsOpaqueTurn
more-IsOpaqueTurn delta = tt

ended-IsOpaqueTurn : IsOpaqueTurn ended
unfolding IsOpaqueTurn
ended-IsOpaqueTurn = tt

stop-ok-IsOpaqueTurn : (s : String) → IsOpaqueTurn (stop (ok s))
unfolding IsOpaqueTurn
stop-ok-IsOpaqueTurn s = tt

stop-err-IsOpaqueTurn : (m : Message) → IsOpaqueTurn (stop (err (opaque m)))
unfolding IsOpaqueTurn
stop-err-IsOpaqueTurn m = (m, refl)

-- What holds of both branches holds of the conditional.
IsOpaqueTurn-if :
    (b : Bool) (x y : Turn) → IsOpaqueTurn x → IsOpaqueTurn y → IsOpaqueTurn (if b then x else y)
IsOpaqueTurn-if true x y h k = h
IsOpaqueTurn-if false x y h k = k

call_arguments-IsOpaque :
    (tool : String) (item : Option FunctionCall) → IsOpaqueTurn (call_arguments tool item)
call_arguments-IsOpaque tool none = more-IsOpaqueTurn ""
call_arguments-IsOpaque tool (some item) =
    IsOpaqueTurn-if _ _ _ (stop-ok-IsOpaqueTurn _) (more-IsOpaqueTurn "")

on_event-IsOpaque : (tool : String) (event : Event) → IsOpaqueTurn (on_event tool event)
unfolding on_event
on_event-IsOpaque tool event =
    let skip = more-IsOpaqueTurn "" in
    let failed : IsOpaqueTurn (stream_failed event) = stop-err-IsOpaqueTurn _ in
    let is : String → Bool = λ type. event.type == type in
    IsOpaqueTurn-if (is "response.function_call_arguments.delta") _ _
      (more-IsOpaqueTurn event.delta)
      (IsOpaqueTurn-if (is "response.function_call_arguments.done") _ _
        (IsOpaqueTurn-if (event.arguments == "") _ _ skip (stop-ok-IsOpaqueTurn event.arguments))
        (IsOpaqueTurn-if (is "response.output_item.done") _ _
          (call_arguments-IsOpaque tool event.item)
          (IsOpaqueTurn-if (is "response.failed") _ _ failed
            (IsOpaqueTurn-if (is "error") _ _ failed skip))))

module _ (decode_event : Bytes → Message ⊎ Event) (tool : String) where
  on_decoded-IsOpaque : (d : Message ⊎ Event) → IsOpaqueTurn (on_decoded decode_event tool d)
  on_decoded-IsOpaque (inl m) = stop-err-IsOpaqueTurn m
  on_decoded-IsOpaque (inr event) = on_event-IsOpaque tool event

  on_payload-IsOpaque :
      (payload : Option Bytes) → IsOpaqueTurn (on_payload decode_event tool payload)
  on_payload-IsOpaque none = more-IsOpaqueTurn ""
  on_payload-IsOpaque (some payload) =
      IsOpaqueTurn-if _ _ _ ended-IsOpaqueTurn (on_decoded-IsOpaque (decode_event payload))

  on_line-IsOpaque : (line : Bytes) → IsOpaqueTurn (on_line decode_event tool line)
  unfolding on_line
  on_line-IsOpaque line =
      IsOpaqueTurn-if (ltb default_max_response_bytes (length line)) _ _
        (stop-err-IsOpaqueTurn (lit "bufio.Scanner: token too long" ∷ []))
        (on_payload-IsOpaque (after_prefix (ascii "data: ") (drop_cr line)))

  read_lines-IsOpaque :
      (lines : List Bytes) (content : String)
      → IsOpaque (read_lines decode_event tool lines content)
  unfolding read_lines IsOpaqueTurn
  read_lines-IsOpaque [] content = tt
  read_lines-IsOpaque (line ∷ lines) content =
      elim (on_line decode_event tool line)
          as (λ t.
            IsOpaqueTurn t
            → IsOpaque (elim t [
              | more delta ↦ read_lines decode_event tool lines (content ++ delta)
              | ended ↦ ok content
              | stop result ↦ result
            ])) [
              | more delta ↦ λ o. read_lines-IsOpaque lines (content ++ delta)
              | ended ↦ λ o. tt
              | stop r ↦ λ o. o
            ]
        (on_line-IsOpaque line)

  pub stream-IsOpaque :
      (bytes : Bytes) → IsOpaque (read_structured_responses_stream decode_event bytes tool)
  unfolding read_structured_responses_stream
  stream-IsOpaque bytes = read_lines-IsOpaque (lines_of bytes) ""
