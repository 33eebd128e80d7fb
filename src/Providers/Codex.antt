-- ===== src/Providers/Codex.antt =====
-- The Codex stream as provider events (src/py_code_act/providers/openai_codex.py): server-sent events
-- with one JSON text each.
use py_code_act.Prelude.{
  String, Bool, true, false, ◌||◌, Option, none, some, List, [], ◌∷◌, ◌++◌, if◌then◌else◌, Text,
  codes, is_nil, eq_text,
}
use py_code_act.Spaces.{lstrip, starts_with, drop}
use py_code_act.Domain.Json.{Json, str, Fields, end, field, Conversions}
use py_code_act.Domain.Messages.{StopReason}
use py_code_act.Agent.Monad.{other_error}
use py_code_act.Agent.World.{
  start, ModelRequest, ProviderEvent, StreamEnd, finished, cancelled, failed,
}
use py_code_act.Protocol.Observations.{join_lines}
use py_code_act.Providers.OpenAi.{
  as_dict, provider_event, error_event, normalize_openai_event, any_terminal, ClientEnd, ended,
  client_error, client_cancelled,
}

-- The headers of a request, from the credential's token and account.
unfoldable pub request_headers : Text → Text → ModelRequest → Fields
request_headers access account_id request =
    let add = λ (key : String) (value : Text) (rest : Fields). field key (str value) rest in
    add "Authorization" (codes "Bearer " ++ access) (
      add "chatgpt-account-id" account_id (
        add "originator" (codes "pi") (
          add "User-Agent" (codes "pi") (
            add "OpenAI-Beta" (codes "responses=experimental") (
              add "accept" (codes "text/event-stream") (
                add "content-type" (codes "application/json") (
                  add "session-id" request.session_id
                    (add "x-client-request-id" request.request_id end))))))))

-- The answer to the request: a status that is no success, with the detail that is told, or the
-- lines of its body and how they end.
pub data Answer : Type 0 where
  unsuccessful : Text → Text → Answer
  success : List Text → ClientEnd → Answer

unfoldable pub end_events : Bool → ClientEnd → List ProviderEvent × StreamEnd
end_events terminal ended = (
  if terminal
      then []
      else error_event StopReason.error
          (codes "Codex SSE stream ended without a terminal response event")
        ∷ [],
  finished,
)
end_events terminal (client_error message) = (error_event StopReason.error message ∷ [], finished)
end_events terminal client_cancelled = ([], cancelled)

-- `line[5:].lstrip()` of a line with data
abbrev pub data_of : Text → Option Text
data_of line = if starts_with (codes "data:") line then some (lstrip (drop 5 line)) else none

abbrev pub push : List Text → Option Text → List Text
push data_lines none = data_lines
push data_lines (some t) = data_lines ++ t ∷ []

-- `loads` is `json.loads`, `none` a JSONDecodeError.
module _ (py : Conversions) (loads : Text → Option Json) where
  abbrev pub events_of_text : Text → Option (List ProviderEvent)
  events_of_text t = if eq_text t (codes "[DONE]") then some [] else elim (loads t) [
    | none ↦ some (error_event StopReason.error (codes "invalid JSON in Codex SSE event") ∷ [])
    | some raw ↦ normalize_openai_event py (as_dict raw)
  ]

  -- `_events_from_sse_data`; `none` is a ValueError or TypeError of a malformed usage.
  unfoldable pub events_from_sse_data : List Text → Option (List ProviderEvent)
  events_from_sse_data [] = some []
  events_from_sse_data (t ∷ lines) = events_of_text (join_lines (t ∷ lines))

  -- An exception other than the client's ends the iteration as it is.
  abbrev pub and_then :
      Option (List ProviderEvent)
      → (List ProviderEvent → List ProviderEvent × StreamEnd)
      → List ProviderEvent × StreamEnd
  and_then none rest = ([], failed other_error)
  and_then (some events) rest =
      let (later, stream_end) = rest events in (events ++ later, stream_end)

  -- What follows the last line: an error of the client leaves the data that is still open.
  unfoldable pub finish_lines : Bool → List Text → ClientEnd → List ProviderEvent × StreamEnd
  finish_lines terminal data_lines ended =
      and_then (events_from_sse_data data_lines)
        (λ events. end_events (terminal || any_terminal events) ended)
  finish_lines terminal data_lines e = end_events terminal e

  -- The loop over the lines of the body.
  unfoldable pub read_lines :
      Bool → List Text → List Text → ClientEnd → List ProviderEvent × StreamEnd
  read_lines terminal data_lines [] e = finish_lines terminal data_lines e
  read_lines terminal data_lines (line ∷ lines) e = elim (is_nil line) [
    | true ↦
        and_then (events_from_sse_data data_lines)
          (λ events. read_lines (terminal || any_terminal events) [] lines e)
    | false ↦ read_lines terminal (push data_lines (data_of line)) lines e
  ]

  abbrev answer_events : Answer → List ProviderEvent × StreamEnd
  answer_events (unsuccessful status_code detail) = (
    error_event StopReason.error
          (codes "OpenAI Codex request failed (" ++ (status_code ++ (codes "): " ++ detail)))
        ∷ [],
    finished,
  )
  answer_events (success lines e) = read_lines false [] lines e

  -- `stream_response`
  unfoldable pub codex_stream : Answer → List ProviderEvent × StreamEnd
  codex_stream a =
      let (events, stream_end) = answer_events a in (provider_event start ∷ events, stream_end)
