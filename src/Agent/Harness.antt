-- ===== src/Agent/Harness.antt =====
-- The objects that the loop changes: the agent's state, the session with its ledger and its event
-- factory, and the restart controller (src/py_code_act/agent/state.py, session.py and loop.py).
-- Events are listed in the order of their creation. Sinks get them from the world and may raise; they
-- do not change these objects.
use py_code_act.Prelude.{Bool, true, false, not, Option, some, List, [], ◌∷◌, ◌++◌, Text, codes}
use py_code_act.Prelude.Int.{ℤ}
use py_code_act.Domain.Usage.{Usage}
use py_code_act.Domain.Messages.{Message}
use py_code_act.Domain.Events.{
  EventType, EventArgs, no_args, RuntimeEvent, EventFactory, create, kernel_restart_requested,
}
use py_code_act.Domain.Json.{Fields}
use py_code_act.Storage.Session
use py_code_act.Storage.Session.{SessionLedger}
use py_code_act.Agent.Monad.{Result, Action, modify, gets, draw, lift, when, ◌>>=◌, ◌>>◌}
use py_code_act.Agent.World.{World, ModelRequest, ProviderEvent, StreamEnd, CellEvent}

pub record AgentState : Type 0 where
  pub system_prompt : Text
  pub model : Text
  pub reasoning_level : Text
  pub messages : List Message
  pub is_running : Bool
  pub streaming_message_id : Option Text
  pub active_execution_id : Option Text
  pub kernel_generation : ℤ
  pub last_error : Option Text
  pub usage_totals : Usage

pub record Harness (W : Type 0) : Type 0 where
  pub world : W
  pub state : AgentState
  pub ledger : SessionLedger
  pub factory : EventFactory
  pub events : List RuntimeEvent
  -- `RestartController.requested`
  pub requested : Bool
  -- `_active_run_id` and `_active_turn_id` of the loop
  pub active_run_id : Option Text
  pub active_turn_id : Option Text
  -- the calls of `stream_response` and of `Kernel.execute`, in their order
  pub requests : List ModelRequest
  pub cells : List Text

module _ {W : Type 0} where
  unfoldable pub set_state : (AgentState → AgentState) → Action (Harness W) Unit
  unfolding modify
  set_state f = modify (λ h. record h { state = f h.state })

  unfoldable pub set_last_error : Option Text → Action (Harness W) Unit
  unfolding set_state
  set_last_error e = set_state (λ s. record s { last_error = e })

  unfoldable pub set_active : Option Text → Option Text → Action (Harness W) Unit
  unfolding modify
  set_active run_id turn_id =
      modify (λ h. record h { active_run_id = run_id; active_turn_id = turn_id })

module _ {W : Type 0} (world : World W) where
  unfoldable pub new_id : Text → Action (Harness W) Text
  unfolding draw
  new_id prefix =
      draw (λ h. let (id, w) = world.new_id prefix h.world in (id, record h { world = w }))

  unfoldable pub utc_now : Action (Harness W) Text
  unfolding draw
  utc_now = draw (λ h. let (now, w) = world.utc_now h.world in (now, record h { world = w }))

  -- A part of the world that may raise.
  unfoldable pub perform : (W → Result (Unit {0}) × W) → Action (Harness W) Unit
  unfolding draw lift ◌>>=◌
  perform f = do r ← draw (λ h. let (r, w) = f h.world in (r, record h { world = w })); lift r

  unfoldable pub ask_provider : ModelRequest → Action (Harness W) (List ProviderEvent × StreamEnd)
  unfolding draw
  ask_provider request = draw (λ h.
      let (events, e, w) = world.stream_response h.world request in
      ((events, e), record h { world = w; requests = h.requests ++ request ∷ [] }))

  unfoldable pub run_cell : Text → Action (Harness W) (List CellEvent)
  unfolding draw
  run_cell code = draw (λ h.
      let (cell_events, w) = world.run_cell h.world code in
      (cell_events, record h { world = w; cells = h.cells ++ code ∷ [] }))

  -- `emit_background`, whose delivery is a task of its own
  unfoldable pub emit_background : EventType → EventArgs → Action (Harness W) Unit
  unfolding utc_now modify create ◌>>=◌
  emit_background type args = do
    now ← utc_now
    modify (λ h.
        let (factory, event) = create h.factory type args now in
        record h { factory = factory; events = h.events ++ event ∷ [] })

  -- `AgentSession.emit`
  unfoldable pub emit : EventType → EventArgs → Action (Harness W) Unit
  unfolding perform emit_background ◌>>◌
  emit type args = do
    perform world.wait_until_idle
    emit_background type args
    perform world.deliver

  -- What is kept once the line is written.
  unfoldable pub keep_entry : Text → Fields → Text → Text → Action (Harness W) Unit
  unfolding modify Session.append
  keep_entry entry_type payload id now =
      modify (λ h. record h { ledger = Session.append h.ledger entry_type payload id now })

  unfoldable pub keep_message : Message → Text → Text → Action (Harness W) Unit
  unfolding modify Session.append_message
  keep_message m id now = modify (λ h. record h {
    ledger = Session.append_message h.ledger m id now;
    state = record h.state { messages = h.state.messages ++ m ∷ [] };
  })

  -- `SessionLedger.append`
  unfoldable pub append_entry : Text → Fields → Action (Harness W) Unit
  unfolding new_id utc_now perform keep_entry ◌>>=◌ ◌>>◌
  append_entry entry_type payload = do
    id ← new_id (codes "entry")
    now ← utc_now
    perform world.write_line
    keep_entry entry_type payload id now

  -- `AgentSession.append_message`: first the ledger, then the transcript in memory
  unfoldable pub append_message : Message → Action (Harness W) Unit
  unfolding new_id utc_now perform keep_message ◌>>=◌ ◌>>◌
  append_message m = do
    id ← new_id (codes "entry")
    now ← utc_now
    perform world.write_line
    keep_message m id now

  -- `RestartController.request`, whose callback is `AgentLoop._emit_restart_requested`
  unfoldable pub request_restart : Action (Harness W) Unit
  unfolding gets modify when emit_background ◌>>=◌ ◌>>◌
  request_restart = do
    h ← gets (λ h. h)
    modify (λ h. record h { requested = true })
    when (not h.requested) (
        emit_background kernel_restart_requested (record no_args {
          run_id = h.active_run_id;
          turn_id = h.active_turn_id;
          kernel_generation = some (world.generation h.world);
        }))

-- `RestartController.consume`
unfoldable pub consume_restart : {W : Type 0} → Action (Harness W) Bool
unfolding draw
consume_restart = draw (λ h. (h.requested, record h { requested = false }))
