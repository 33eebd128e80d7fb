-- ===== src/Agent/Steady.antt =====
-- Properties of the events, the ledger and the transcript, and the primitives that keep them.
pub mod Response
pub mod Turns
use py_code_act.Prelude.{
  ℕ, zero, suc, ◌+◌, ◌-◌, ◌≤◌, ◌<◌, String, ◌≡◌, refl, sym, ap, ◌∙◌, ◌≢◌, ◌↔◌, ◌⊎◌, inl, inr, Bool,
  true, false, not, ◌&&◌, ◌||◌, Option, none, some, List, [], ◌∷◌, ◌++◌, map, append-nil,
  append_assoc, arith, ltb, leb, ◌==◌, if◌then◌else◌, Bool-cases, Option-cases, is_some, Text,
  codes, is_nil, length, length-append, eq_text, eq_text_iff, join, join-append,
}
use py_code_act.Prelude.Int.{ℤ}
use py_code_act.Domain.Json.{Fields, end, field, obj}
use py_code_act.Domain.Messages.{
  Message, user, assistant, execution, protocol_error, kernel_notice, StopReason, AssistantMessage,
  ExecBlock,
}
use py_code_act.Domain.Events
use py_code_act.Domain.Events.{EventType, EventArgs, RuntimeEvent, EventFactory, create, exec_start}
use py_code_act.Domain.Codec.Transcript.{message_to_dict}
use py_code_act.Storage.Session
use py_code_act.Storage.Session.{SessionEntry, SessionLedger}
use py_code_act.Protocol.ExecParser
use py_code_act.Protocol.ExecParser.{ParserDelta, DeltaKind}
use py_code_act.Agent.Monad.{Action, Result, pure, modify, ◌>>=◌, ◌>>◌}
use py_code_act.Agent.World.{
  World, ModelRequest, RunConfig, ProviderEvent, ProviderEventType, text_delta, reasoning_item,
  StreamEnd, CellEvent, wrote, asked_restart, KernelExecutionResult,
}
use py_code_act.Agent.Harness.{
  Harness, AgentState, set_state, set_last_error, set_active, new_id, utc_now, emit, append_entry,
  append_message, request_restart, perform, emit_background, ask_provider, run_cell, keep_entry,
  keep_message, consume_restart,
}
use py_code_act.Agent.Stream.{
  Streaming, on_events, on_end, or_raise, emit_delta, delta_event, on_text, on_event_of,
  finish_message, stream_assistant,
}
use py_code_act.Agent.Rules.{
  Keeps, keeps_rules, Keeps-draw, Keeps-modify, Keeps-bind, Keeps-then, Keeps-lift,
}
use py_code_act.Agent.Execute.{
  append_observation, on_cell_event, execute, record_kernel_replacement,
}
use py_code_act.Agent.Loop

-- What an invariant may speak of.
pub record Record : Type 0 where
  pub events : List RuntimeEvent
  pub factory : EventFactory
  pub ledger : SessionLedger
  pub messages : List Message
  pub requests : List ModelRequest
  pub cells : List Text

abbrev pub record_of : {W : Type 0} → Harness W → Record
record_of h = record {
  events = h.events;
  factory = h.factory;
  ledger = h.ledger;
  messages = h.state.messages;
  requests = h.requests;
  cells = h.cells;
}

abbrev pub starts_cell : EventType → Bool
starts_cell exec_start = true
starts_cell _ = false

abbrev pub is_assistant : Message → Bool
is_assistant (assistant m) = true
is_assistant _ = false

abbrev pub is_protocol_error : Message → Bool
is_protocol_error (protocol_error m) = true
is_protocol_error _ = false

abbrev pub IsOther : EventType → Type 0
IsOther type = starts_cell type ≡ false

-- Messages other than the assistant's and the protocol errors.
abbrev pub IsOtherMessage : Message → Type 0
IsOtherMessage m = is_assistant m || is_protocol_error m ≡ false

abbrev pub with_event : Record → EventType → EventArgs → Text → Record
with_event r type args now =
    let (factory, event) = create r.factory type args now in
    record r { factory = factory; events = r.events ++ event ∷ [] }

abbrev pub with_entry : Record → Text → Fields → Text → Text → Record
with_entry r type payload id now = record r { ledger = Session.append r.ledger type payload id now }

abbrev pub with_message : Record → Message → Text → Text → Record
with_message r m id now = record r {
  ledger = Session.append_message r.ledger m id now;
  messages = r.messages ++ m ∷ [];
}

abbrev pub with_request : Record → ModelRequest → Record
with_request r q = record r { requests = r.requests ++ q ∷ [] }

abbrev pub with_cell : Record → Text → Record
with_cell r code = record r { cells = r.cells ++ code ∷ [] }

-- The property survives every event but the start of a cell, every message but an assistant's or a
-- protocol error, and the entry for a new kernel.
pub record IsSteady (P : Record → Type 0) : Type 0 where
  pub event :
      (r : Record) (type : EventType) (args : EventArgs) (now : Text)
      → IsOther type
      → P r
      → P (with_event r type args now)
  pub entry :
      (r : Record) (payload : Fields) (id now : Text)
      → P r
      → P (with_entry r (codes "kernel_restart") payload id now)
  pub message :
      (r : Record) (m : Message) (id now : Text)
      → IsOtherMessage m
      → P r
      → P (with_message r m id now)

abbrev pub Holds : (W : Type 0) → (Record → Type 0) → Harness W → Type 0
Holds W P h = P (record_of h)

module _ {W : Type 0} (world : World W) (P : Record → Type 0) where
  Keeps-new_id_of : (prefix : Text) → Keeps (Holds W P) (new_id world prefix)
  unfolding new_id
  Keeps-new_id_of prefix = Keeps-draw _ (λ h p. p)

  Keeps-utc_now_of : Keeps (Holds W P) (utc_now world)
  unfolding utc_now
  Keeps-utc_now_of = Keeps-draw _ (λ h p. p)

  Keeps-perform_of : (f : W → Result (Unit {0}) × W) → Keeps (Holds W P) (perform world f)
  unfolding perform
  Keeps-perform_of f = Keeps-bind _ _ (Keeps-draw _ (λ h p. p)) (λ r. Keeps-lift r)

-- An event, an entry, a message, a request or a cell that the property survives.
module _ {W : Type 0} (world : World W) {P : Record → Type 0} where
  pub Keeps-background_of :
      (type : EventType) (args : EventArgs)
      → ((r : Record) (now : Text) → P r → P (with_event r type args now))
      → Keeps (Holds W P) (emit_background world type args)
  unfolding emit_background
  Keeps-background_of type args k = record {
    at = λ h p. k (record_of h) (world.utc_now h.world).0 p;
  }

  pub Keeps-emit_of :
      (type : EventType) (args : EventArgs)
      → ((r : Record) (now : Text) → P r → P (with_event r type args now))
      → Keeps (Holds W P) (emit world type args)
  unfolding emit
  Keeps-emit_of type args k =
      Keeps-then _ _ (Keeps-perform_of world P world.wait_until_idle)
        (Keeps-then _ _ (Keeps-background_of type args k) (Keeps-perform_of world P world.deliver))

  pub Keeps-entry_of :
      (type : Text) (payload : Fields)
      → ((r : Record) (id now : Text) → P r → P (with_entry r type payload id now))
      → Keeps (Holds W P) (append_entry world type payload)
  unfolding append_entry keep_entry
  Keeps-entry_of type payload k = Keeps-bind _ _ (Keeps-new_id_of world P _) (λ id.
      Keeps-bind _ _ (Keeps-utc_now_of world P) (λ now.
        Keeps-then (perform world world.write_line) (keep_entry world type payload id now)
          (Keeps-perform_of world P world.write_line) (kept id now)))
    where
      kept : (id now : Text) → Keeps (Holds W P) (keep_entry world type payload id now)
      kept id now = record { at = λ h p. k (record_of h) id now p }

  pub Keeps-message_of :
      (m : Message)
      → ((r : Record) (id now : Text) → P r → P (with_message r m id now))
      → Keeps (Holds W P) (append_message world m)
  unfolding append_message keep_message
  Keeps-message_of m k = Keeps-bind _ _ (Keeps-new_id_of world P _) (λ id.
      Keeps-bind _ _ (Keeps-utc_now_of world P) (λ now.
        Keeps-then (perform world world.write_line) (keep_message world m id now)
          (Keeps-perform_of world P world.write_line) (kept id now)))
    where
      kept : (id now : Text) → Keeps (Holds W P) (keep_message world m id now)
      kept id now = record { at = λ h p. k (record_of h) id now p }

  pub Keeps-ask_provider :
      ((r : Record) (q : ModelRequest) → P r → P (with_request r q))
      → (q : ModelRequest) → Keeps (Holds W P) (ask_provider world q)
  unfolding ask_provider
  Keeps-ask_provider k q = Keeps-draw _ (λ h p. k (record_of h) q p)

  pub Keeps-run_cell :
      ((r : Record) (code : Text) → P r → P (with_cell r code))
      → (code : Text) → Keeps (Holds W P) (run_cell world code)
  unfolding run_cell
  Keeps-run_cell k code = Keeps-draw _ (λ h p. k (record_of h) code p)

module _ {W : Type 0} (world : World W) {P : Record → Type 0} (steady : IsSteady P) where
  pub Keeps-set_last_error : (e : Option Text) → Keeps (Holds W P) (set_last_error e)
  unfolding set_last_error
  Keeps-set_last_error e = Keeps-modify _ (λ h p. p)

  pub Keeps-new_id : (prefix : Text) → Keeps (Holds W P) (new_id world prefix)
  Keeps-new_id prefix = Keeps-new_id_of world P prefix

  pub Keeps-utc_now : Keeps (Holds W P) (utc_now world)
  Keeps-utc_now = Keeps-utc_now_of world P

  pub Keeps-perform : (f : W → Result (Unit {0}) × W) → Keeps (Holds W P) (perform world f)
  Keeps-perform f = Keeps-perform_of world P f

  pub Keeps-emit :
      (type : EventType) (args : EventArgs)
      → IsOther type
      → Keeps (Holds W P) (emit world type args)
  Keeps-emit type args other =
      Keeps-emit_of world type args (λ r now p. steady.event r type args now other p)

  pub Keeps-emit_background :
      (type : EventType) (args : EventArgs)
      → IsOther type
      → Keeps (Holds W P) (emit_background world type args)
  Keeps-emit_background type args other =
      Keeps-background_of world type args (λ r now p. steady.event r type args now other p)

  pub Keeps-append_entry :
      (payload : Fields) → Keeps (Holds W P) (append_entry world (codes "kernel_restart") payload)
  Keeps-append_entry payload =
      Keeps-entry_of world (codes "kernel_restart") payload
        (λ r id now p. steady.entry r payload id now p)

  pub Keeps-append_message :
      (m : Message) → IsOtherMessage m → Keeps (Holds W P) (append_message world m)
  Keeps-append_message m other =
      Keeps-message_of world m (λ r id now p. steady.message r m id now other p)

  pub Keeps-set_active : (a b : Option Text) → Keeps (Holds W P) (set_active a b)
  unfolding set_active
  Keeps-set_active a b = record { at = λ h p. p }

  pub Keeps-consume_restart : Keeps (Holds W P) consume_restart
  unfolding consume_restart
  Keeps-consume_restart = record { at = λ h p. p }

  pub Keeps-set_state :
      (f : AgentState → AgentState)
      → ((s : AgentState) → (f s).messages ≡ s.messages)
      → Keeps (Holds W P) (set_state f)
  unfolding set_state
  Keeps-set_state f same = record { at = λ h p. rw (same h.state) p }

  pub ruleset primitive_rules = (
    keeps_rules, Keeps-set_last_error, Keeps-new_id, Keeps-utc_now, Keeps-emit,
    Keeps-emit_background, Keeps-append_entry, Keeps-append_message, Keeps-set_active,
    Keeps-consume_restart, Keeps-draw, Keeps-modify, tt, refl,
  )

  pub Keeps-request_restart : Keeps (Holds W P) (request_restart world)
  unfolding request_restart
  Keeps-request_restart = search primitive_rules
