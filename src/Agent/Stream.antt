-- ===== src/Agent/Stream.antt =====
-- One model response: `AgentLoop._stream_assistant` (src/py_code_act/agent/loop.py).
use py_code_act.Prelude.{
  Bool, true, false, Option, none, some, List, [], ◌∷◌, ◌++◌, if◌then◌else◌, Text, codes, join,
}
use py_code_act.Prelude.Int.{pos, eqb_ℤ}
use py_code_act.Domain.Json.{Fields, end, field, str}
use py_code_act.Domain.Usage.{Usage, zero_usage, total_tokens, add}
use py_code_act.Domain.Messages.{
  StopReason, aborted, AssistantBlock, reasoning_block, ExecBlock, AssistantMessage,
}
use py_code_act.Domain.Events.{
  EventType, EventArgs, no_args, delta, role, usage, message_start, message_text_delta,
  message_reasoning_delta, exec_code_delta, usage_update,
}
use py_code_act.Protocol.ExecParser
use py_code_act.Protocol.ExecParser.{
  ExecParser, ParserDelta, ParserResult, DeltaKind, feed, finalize,
}
use py_code_act.Agent.Monad.{
  other_error, raised, lift, Action, pure, raise, gets, for_each, ◌>>=◌, ◌>>◌,
}
use py_code_act.Agent.World.{
  World, RunConfig, ProviderEvent, ProviderEventType, ModelRequest, StreamEnd, finished, cancelled,
  failed, text_delta, reasoning_delta, reasoning_item, done, start,
}
use py_code_act.Agent.Harness.{Harness, set_state, new_id, utc_now, emit, ask_provider}

-- The local variables of `_stream_assistant` that its loop changes.
pub record Streaming : Type 0 where
  pub parser : ExecParser
  pub reasoning_text : List Text
  pub reasoning_items : List Fields
  pub usage : Usage
  pub stop_reason : StopReason
  pub error_message : Option Text
  pub response_id : Option Text
  pub terminal : Bool

abbrev pub streaming_start : Streaming
streaming_start = record {
  parser = ExecParser.initial;
  reasoning_text = [];
  reasoning_items = [];
  usage = zero_usage;
  stop_reason = StopReason.error;
  error_message = none;
  response_id = none;
  terminal = false;
}

-- `x or default`, where `x` may be `None`
abbrev pub or_default {ℓ} : {A : Type ℓ} → Option A → A → A
or_default none d = d
or_default (some a) d = a

-- A RuntimeError of the parser is raised.
unfoldable pub or_raise : {W A : Type 0} → Option A → Action (Harness W) A
or_raise none = raise other_error
or_raise (some a) = pure a

abbrev pub delta_event : DeltaKind → EventType
delta_event ExecParser.prose = message_text_delta
delta_event DeltaKind.code = exec_code_delta

abbrev pub add_item : Option Fields → Streaming → Streaming
add_item none s = s
add_item (some item) s = record s { reasoning_items = s.reasoning_items ++ item ∷ [] }

-- `done` and `error`: the last one decides.
abbrev pub on_terminal : ProviderEvent → Streaming → Streaming
on_terminal event s = record s {
  terminal = true;
  stop_reason = or_default event.stop_reason StopReason.error;
  error_message = event.error_message;
  response_id = event.response_id;
  usage = if eqb_ℤ (total_tokens event.usage) (pos 0) then s.usage else event.usage;
}

module _ {W : Type 0} (world : World W) (args : EventArgs) where
  unfoldable pub emit_delta : ParserDelta → Action (Harness W) Unit
  emit_delta d = emit world (delta_event d.kind) (record args { payload = delta d.delta })

  unfoldable pub on_text : Text → Streaming → Action (Harness W) Streaming
  on_text chunk s = do
    (parser, deltas) ← or_raise (feed s.parser chunk)
    for_each deltas emit_delta
    pure (record s { parser = parser })

  -- The branches of the loop over the provider's events, by the event's type.
  unfoldable pub on_event_of :
      ProviderEventType → ProviderEvent → Streaming → Action (Harness W) Streaming
  on_event_of start event s = pure s
  on_event_of text_delta event s = on_text event.delta s
  on_event_of reasoning_delta event s = do
    emit world message_reasoning_delta (record args { payload = delta event.delta })
    pure (record s { reasoning_text = s.reasoning_text ++ event.delta ∷ [] })
  on_event_of reasoning_item event s = pure (add_item event.reasoning_item s)
  on_event_of ProviderEventType.usage event s = do
    emit world usage_update (record args { payload = usage event.usage })
    pure (record s { usage = event.usage })
  on_event_of done event s = pure (on_terminal event s)
  on_event_of ProviderEventType.error event s = pure (on_terminal event s)

  unfoldable pub on_events : List ProviderEvent → Streaming → Action (Harness W) Streaming
  on_events [] s = pure s
  on_events (event ∷ events) s = do s' ← on_event_of event.type event s; on_events events s'

-- The end of the iteration: a cancellation is the end of an aborted response, and another failure
-- is raised. With no terminal event the response is an error.
unfoldable pub on_end : {W : Type 0} → StreamEnd → Streaming → Action (Harness W) Streaming
on_end (failed e) s = lift (raised e)
on_end cancelled s = pure (record s {
  terminal = true;
  stop_reason = aborted;
  error_message = some (codes "request cancelled");
})
on_end finished s = pure (
    if s.terminal then s else record s {
      stop_reason = StopReason.error;
      error_message = some (codes "provider stream ended without an authoritative terminal event");
    })

-- `ReasoningBlock("".join(reasoning_text) if index == 0 else "", item)` for each item
item_blocks : Text → List Fields → List AssistantBlock
item_blocks first [] = []
item_blocks first (item ∷ items) = reasoning_block first (some item) ∷ item_blocks [] items

unfoldable pub reasoning_blocks : List Text → List Fields → List AssistantBlock
unfolding item_blocks
reasoning_blocks [] [] = []
reasoning_blocks (t ∷ texts) [] = reasoning_block (join (t ∷ texts)) none ∷ []
reasoning_blocks texts (item ∷ items) = item_blocks (join texts) (item ∷ items)

-- `{"response_id": response_id} if response_id else {}`
abbrev pub metadata : Option Text → Fields
metadata none = end
metadata (some []) = end
metadata (some (c ∷ t)) = field "response_id" (str (c ∷ t)) end

-- What `_stream_assistant` returns.
pub record Streamed : Type 0 where
  pub assistant : AssistantMessage
  pub parser_error : Option Text
  pub exec_block : Option ExecBlock

module _ {W : Type 0} (world : World W) (config : RunConfig) where
  -- The id of an execution block is drawn here also where the response turns out to have none.
  unfoldable pub finish_message : Text → EventArgs → Streaming → Action (Harness W) Streamed
  finish_message message_id args s = do
    exec_id ← new_id world (codes "exec")
    (parser, parsed) ← or_raise (finalize s.parser exec_id)
    for_each parsed.final_deltas (emit_delta world args)
    now ← utc_now world
    let message : AssistantMessage = record {
      provider = world.provider_name;
      model = config.model;
      content = reasoning_blocks s.reasoning_text s.reasoning_items ++ parsed.blocks;
      stop_reason = s.stop_reason;
      id = message_id;
      usage = s.usage;
      error_message = s.error_message;
      created_at = now;
      provider_metadata = metadata s.response_id;
    }
    set_state
        (λ a. record a { usage_totals = add a.usage_totals s.usage; streaming_message_id = none })
    pure (record {
      assistant = message;
      parser_error = parsed.error;
      exec_block = parsed.exec_block;
    })

  unfoldable pub stream_assistant : Text → Text → Action (Harness W) Streamed
  stream_assistant run_id turn_id = do
    message_id ← new_id world (codes "msg")
    request_id ← new_id world (codes "request")
    set_state (λ a. record a { streaming_message_id = some message_id })
    let args : EventArgs = record no_args {
      run_id = some run_id;
      turn_id = some turn_id;
      request_id = some request_id;
      message_id = some message_id;
    }
    emit world message_start (record args { payload = role (codes "assistant") })
    h ← gets (λ h. h)
    let request : ModelRequest = record {
      model = config.model;
      system_prompt = h.state.system_prompt;
      messages = h.state.messages;
      reasoning_level = config.reasoning_level;
      session_id = h.ledger.session_id;
      request_id = request_id;
    }
    (events, stream_end) ← ask_provider world request
    read ← on_events world args events streaming_start
    s ← on_end stream_end read
    finish_message message_id args s
