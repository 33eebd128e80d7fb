-- ===== src/Agent/Steady/Response.antt =====
-- Reading a response keeps every steady property.
use py_code_act.Prelude.{refl, Option, none, some, List, [], ◌∷◌, Text}
use py_code_act.Domain.Events.{EventArgs}
use py_code_act.Protocol.ExecParser
use py_code_act.Protocol.ExecParser.{ParserDelta, DeltaKind}
use py_code_act.Agent.World.{
  World, RunConfig, ModelRequest, ProviderEvent, ProviderEventType, text_delta, StreamEnd,
}
use py_code_act.Agent.Stream.{
  Streaming, on_events, on_end, or_raise, emit_delta, delta_event, on_text, on_event_of,
  finish_message, stream_assistant,
}
use py_code_act.Agent.Rules.{Keeps, Keeps-bind}
use py_code_act.Agent.Steady.{
  Record, IsSteady, IsOther, Holds, Keeps-emit, Keeps-set_state, Keeps-ask_provider, with_request,
  primitive_rules,
}

module _ {W : Type 0} (world : World W) {P : Record → Type 0} (steady : IsSteady P) where
  pub Keeps-or_raise : {A : Type 0} (o : Option A) → Keeps (Holds W P) (or_raise {A = A} o)
  unfolding or_raise
  Keeps-or_raise none = search primitive_rules
  Keeps-or_raise (some a) = search primitive_rules

  pub Keeps-emit_delta :
      (args : EventArgs) (d : ParserDelta) → Keeps (Holds W P) (emit_delta world args d)
  unfolding emit_delta
  Keeps-emit_delta args d = Keeps-emit world steady (delta_event d.kind) _ (other d.kind)
    where
      other : (k : DeltaKind) → IsOther (delta_event k)
      other ExecParser.prose = refl
      other DeltaKind.code = refl

  pub Keeps-on_text :
      (args : EventArgs) (chunk : Text) (s : Streaming)
      → Keeps (Holds W P) (on_text world args chunk s)
  unfolding on_text
  Keeps-on_text args chunk s = search (primitive_rules, Keeps-or_raise, Keeps-emit_delta) depth 8

  pub Keeps-on_event_of :
      (args : EventArgs) (type : ProviderEventType) (event : ProviderEvent) (s : Streaming)
      → Keeps (Holds W P) (on_event_of world args type event s)
  unfolding on_event_of
  Keeps-on_event_of args text_delta event s = search (primitive_rules, Keeps-on_text)
  Keeps-on_event_of args _ event s = search (primitive_rules)

  pub Keeps-on_events :
      (args : EventArgs) (events : List ProviderEvent) (s : Streaming)
      → Keeps (Holds W P) (on_events world args events s)
  unfolding on_events
  Keeps-on_events args [] s = search primitive_rules
  Keeps-on_events args (event ∷ events) s =
      Keeps-bind _ _ (Keeps-on_event_of args event.type event s)
        (λ s'. Keeps-on_events args events s')

  pub Keeps-on_end : (e : StreamEnd) (s : Streaming) → Keeps (Holds W P) (on_end e s)
  unfolding on_end
  Keeps-on_end StreamEnd.finished s = search primitive_rules
  Keeps-on_end _ s = search primitive_rules

  pub Keeps-finish_message :
      (config : RunConfig) (id : Text) (args : EventArgs) (s : Streaming)
      → Keeps (Holds W P) (finish_message world config id args s)
  unfolding finish_message
  Keeps-finish_message config id args s =
      search (primitive_rules, Keeps-or_raise, Keeps-emit_delta, Keeps-set_state) depth 12

  pub Keeps-stream_assistant :
      ((r : Record) (q : ModelRequest) → P r → P (with_request r q))
      → (config : RunConfig) (run_id turn_id : Text)
      → Keeps (Holds W P) (stream_assistant world config run_id turn_id)
  unfolding stream_assistant
  Keeps-stream_assistant asks config run_id turn_id =
      let ask = Keeps-ask_provider world asks in
      search
        (primitive_rules, ask, Keeps-on_events, Keeps-on_end, Keeps-finish_message, Keeps-set_state)
        depth 16
