-- ===== src/Providers/OpenAi.antt =====
-- OpenAI's stream as provider events (src/py_code_act/providers/openai.py). The events of the SDK
-- stand for what its `model_dump` returns.
use py_code_act.Prelude.{
  String, Bool, true, false, ◌||◌, Option, none, some, List, [], ◌∷◌, ◌++◌, if◌then◌else◌, ◌>>=◌,
  Text, codes, eq_text,
}
use py_code_act.Prelude.Int.{ℤ, pos}
use py_code_act.Domain.Json.{
  Json, obj, Fields, end, get, is_text, mapping, Conversions, truth, text_or, text_at,
}
use py_code_act.Domain.Usage.{Usage, zero_usage}
use py_code_act.Domain.Messages.{StopReason, stop, aborted}
use py_code_act.Agent.World.{
  ProviderEventType, start, text_delta, reasoning_delta, reasoning_item, done, ProviderEvent,
  StreamEnd, finished, cancelled,
}

-- `_as_dict`
abbrev pub as_dict : Json → Fields
as_dict (obj fields) = fields
as_dict _ = end

-- `x if isinstance(x, Mapping) else {}`
abbrev pub mapping_or_empty : Option Fields → Fields
mapping_or_empty none = end
mapping_or_empty (some fields) = fields

-- An event with the defaults of its class.
abbrev pub provider_event : ProviderEventType → ProviderEvent
provider_event type = record {
  type = type;
  delta = [];
  reasoning_item = none;
  usage = zero_usage;
  stop_reason = none;
  error_message = none;
  response_id = none;
}

abbrev pub error_event : StopReason → Text → ProviderEvent
error_event reason message = record (provider_event ProviderEventType.error) {
  stop_reason = some reason;
  error_message = some message;
}

module _ (py : Conversions) where
  -- `x or y`
  abbrev pub or_else : Option Json → Option Json → Option Json
  or_else none y = y
  or_else (some v) y = if truth py v then some v else y

  -- `int(x or 0)`; `none` is a ValueError or TypeError.
  abbrev pub int_or_zero : Option Json → Option ℤ
  int_or_zero none = some (pos 0)
  int_or_zero (some v) = if truth py v then py.to_int v else some (pos 0)

  abbrev pub detail : String → Option Fields → Option ℤ
  detail key none = some (pos 0)
  detail key (some details) = int_or_zero (get key details)

  usage_in : Fields → Option Usage
  usage_in raw = do
    a ← int_or_zero (get "input_tokens" raw)
    b ← int_or_zero (get "output_tokens" raw)
    c ← detail "reasoning_tokens" (mapping (get "output_tokens_details" raw))
    d ← detail "cached_tokens" (mapping (get "input_tokens_details" raw))
    some (record {
      input_tokens = a;
      output_tokens = b;
      reasoning_tokens = c;
      cached_input_tokens = d;
    })

  -- `_usage`
  unfoldable pub usage_of : Fields → Option Usage
  unfolding usage_in
  usage_of response = elim (mapping (get "usage" response)) [
    | none ↦ some zero_usage
    | some raw ↦ usage_in raw
  ]

  -- `str(x) if x else None`
  abbrev pub text_if : Option Json → Option Text
  text_if none = none
  text_if (some v) = if truth py v then some (py.to_str v) else none

  -- `response.completed` and `response.incomplete`
  unfoldable pub final_events : Bool → Fields → Option (List ProviderEvent)
  final_events is_incomplete response = do
    usage ← usage_of response
    let reason =
        if is_incomplete || is_text (get "status" response) "incomplete"
        then StopReason.length
        else stop
    some (
        record (provider_event ProviderEventType.usage) { usage = usage }
        ∷ record (provider_event done) {
          stop_reason = some reason;
          usage = usage;
          response_id = text_if (get "id" response);
        }
        ∷ [])

  abbrev error_text : Option Json → Option Fields → Text
  error_text raw_error (some fields) =
      text_or py (or_else (get "message" fields) (get "code" fields)) (codes "provider error")
  error_text raw_error none = text_or py raw_error (codes "provider error")

  -- `response.failed`, `response.cancelled` and `error`
  unfoldable pub failure_event : Bool → Fields → ProviderEvent
  failure_event is_cancelled raw =
      let response = mapping_or_empty (mapping (get "response" raw)) in
      let raw_error = or_else (get "error" raw) (get "error" response) in
      error_event (if is_cancelled then aborted else StopReason.error)
        (error_text raw_error (mapping raw_error))

  abbrev item_events : Option Fields → List ProviderEvent
  item_events none = []
  item_events (some item) =
      if is_text (get "type" item) "reasoning"
      then record (provider_event reasoning_item) { reasoning_item = some item } ∷ []
      else []

  -- `normalize_openai_event`; `none` is a ValueError or TypeError of `_usage`.
  unfoldable pub normalize_openai_event : Fields → Option (List ProviderEvent)
  normalize_openai_event raw =
      let event_type = text_at py "type" [] raw in
      let is = λ (name : String). eq_text event_type (codes name) in
      let chunk = text_at py "delta" [] raw in
      if is "response.output_text.delta"
      then some (record (provider_event text_delta) { delta = chunk } ∷ [])
      else if is "response.reasoning_summary_text.delta" || is "response.reasoning_text.delta"
      then some (record (provider_event reasoning_delta) { delta = chunk } ∷ [])
      else if is "response.output_item.done"
      then some (item_events (mapping (get "item" raw)))
      else if is "response.completed" || is "response.incomplete"
      then final_events (is "response.incomplete") (mapping_or_empty (mapping (get "response" raw)))
      else if is "response.failed" || is "response.cancelled" || is "error"
      then some (failure_event (is "response.cancelled") raw ∷ [])
      else some []

-- `event.type in ("done", "error")`
abbrev pub is_terminal_type : ProviderEventType → Bool
is_terminal_type done = true
is_terminal_type ProviderEventType.error = true
is_terminal_type _ = false

abbrev pub is_terminal : ProviderEvent → Bool
is_terminal event = is_terminal_type event.type

abbrev pub any_terminal : List ProviderEvent → Bool
any_terminal [] = false
any_terminal (e ∷ events) = is_terminal e || any_terminal events

-- How the SDK's stream ends, also where the request fails: by itself, with an exception of this
-- text, or cancelled.
pub data ClientEnd : Type 0 where
  ended : ClientEnd
  client_error : Text → ClientEnd
  client_cancelled : ClientEnd

unfoldable pub end_events : Bool → ClientEnd → List ProviderEvent × StreamEnd
end_events terminal ended = (
  if terminal
      then []
      else error_event StopReason.error
          (codes "OpenAI stream ended without a terminal response event")
        ∷ [],
  finished,
)
end_events terminal (client_error message) = (error_event StopReason.error message ∷ [], finished)
end_events terminal client_cancelled = ([], cancelled)

-- `stream_response`, where `invalid` is the text of the exception of a malformed usage.
module _ (py : Conversions) (invalid : Text) where
  abbrev pub or_invalid :
      Option (List ProviderEvent)
      → (List ProviderEvent → List ProviderEvent × StreamEnd)
      → List ProviderEvent × StreamEnd
  or_invalid none rest = (error_event StopReason.error invalid ∷ [], finished)
  or_invalid (some events) rest =
      let (later, stream_end) = rest events in (events ++ later, stream_end)

  unfoldable pub read_raw : Bool → List Json → ClientEnd → List ProviderEvent × StreamEnd
  read_raw terminal [] e = end_events terminal e
  read_raw terminal (raw ∷ raws) e =
      or_invalid (normalize_openai_event py (as_dict raw))
        (λ events. read_raw (terminal || any_terminal events) raws e)

  unfoldable pub openai_stream : List Json → ClientEnd → List ProviderEvent × StreamEnd
  openai_stream raws e =
      let (events, stream_end) = read_raw false raws e in
      (provider_event start ∷ events, stream_end)
