-- ===== src/Agent/Stable.antt =====
-- A property of the events, the ledger and the transcript that survives every event, message and
-- entry survives a run.
use py_code_act.Prelude.{ℕ, zero, suc, Option, none, some, Text, codes}
use py_code_act.Domain.Json.{Fields}
use py_code_act.Domain.Messages.{Message, StopReason, ExecBlock, AssistantMessage}
use py_code_act.Domain.Events.{EventType, EventArgs}
use py_code_act.Agent.Monad.{Action}
use py_code_act.Agent.World.{World, RunConfig, ModelRequest}
use py_code_act.Agent.Harness.{Harness, emit, append_message}
use py_code_act.Agent.Stream.{Streamed}
use py_code_act.Agent.Execute.{append_observation, execute}
use py_code_act.Agent.Loop
use py_code_act.Agent.Loop.{Next, leave, again}
use py_code_act.Agent.Rules.{Keeps, Keeps-bind, Keeps-pure}
use py_code_act.Agent.Steady.{
  Record, IsSteady, Holds, with_event, with_entry, with_message, with_request, with_cell,
  primitive_rules, Keeps-emit_of, Keeps-message_of, Keeps-run_cell, Keeps-set_state,
  Keeps-set_last_error,
}
use py_code_act.Agent.Steady.Response.{Keeps-stream_assistant}
use py_code_act.Agent.Steady.Turns.{
  Keeps-on_cell_event, Keeps-end_turn, Keeps-after_execution, Keeps-final_turn, Keeps-failed_turn,
  Keeps-next_turn, Keeps-finish_run, Keeps-start_run,
}

pub record IsStable (P : Record → Type 0) : Type 0 where
  pub event :
      (r : Record) (type : EventType) (args : EventArgs) (now : Text)
      → P r
      → P (with_event r type args now)
  pub entry :
      (r : Record) (payload : Fields) (id now : Text)
      → P r
      → P (with_entry r (codes "kernel_restart") payload id now)
  pub message : (r : Record) (m : Message) (id now : Text) → P r → P (with_message r m id now)
  pub request : (r : Record) (q : ModelRequest) → P r → P (with_request r q)
  pub cell : (r : Record) (code : Text) → P r → P (with_cell r code)

pub IsStable-IsSteady : {P : Record → Type 0} → IsStable P → IsSteady P
IsStable-IsSteady s = record {
  event = λ r type args now other h. s.event r type args now h;
  entry = s.entry;
  message = λ r m id now other h. s.message r m id now h;
}

Keeps-continue_with :
    {W : Type 0} {P : Harness W → Type 0} (next_round : Text → ℕ → ℕ → Action (Harness W) Unit)
    → ((turn_id : Text) (executions repairs : ℕ) → Keeps P (next_round turn_id executions repairs))
    → (x : Next × Text) → Keeps P (Loop.continue_with next_round x)
unfolding Loop.continue_with
Keeps-continue_with next_round k (leave, turn_id) = Keeps-pure tt
Keeps-continue_with next_round k (again executions repairs, turn_id) = k turn_id executions repairs

module _ {W : Type 0} (world : World W) {P : Record → Type 0} (stable : IsStable P) where
  Keeps-any_emit : (type : EventType) (args : EventArgs) → Keeps (Holds W P) (emit world type args)
  Keeps-any_emit type args =
      Keeps-emit_of world type args (λ r now p. stable.event r type args now p)

  Keeps-any_message : (m : Message) → Keeps (Holds W P) (append_message world m)
  Keeps-any_message m = Keeps-message_of world m (λ r id now p. stable.message r m id now p)

  ruleset stable_rules = (primitive_rules, IsStable-IsSteady, Keeps-any_emit, Keeps-any_message)

  Keeps-any_observation :
      (m : Message) (run_id turn_id role_name : Text)
      → Keeps (Holds W P) (append_observation world m run_id turn_id role_name)
  unfolding append_observation
  Keeps-any_observation m run_id turn_id role_name = search stable_rules

  Keeps-execute :
      (block : ExecBlock) (run_id turn_id : Text)
      → Keeps (Holds W P) (execute world block run_id turn_id)
  unfolding execute
  Keeps-execute block run_id turn_id =
      let steady = IsStable-IsSteady stable in
      let run = Keeps-run_cell world stable.cell in
      search
        (
          primitive_rules, run, Keeps-any_emit, Keeps-any_observation, Keeps-set_state,
          Keeps-on_cell_event,
        )
        depth 24

  module _ (config : RunConfig) where
    Keeps-repair_turn :
        (f : Loop.ProtocolFailure) (m : AssistantMessage) (run_id turn_id : Text)
        (executions repairs : ℕ)
        → Keeps (Holds W P) (Loop.repair_turn world config f m run_id turn_id executions repairs)
    unfolding Loop.repair_turn Loop.after_repair Loop.too_many_repairs
    Keeps-repair_turn f m run_id turn_id executions repairs =
        let steady = IsStable-IsSteady stable in
        search (primitive_rules, Keeps-any_observation, Keeps-end_turn) depth 12

    Keeps-execute_turn :
        (block : ExecBlock) (run_id turn_id : Text) (executions repairs : ℕ)
        → Keeps (Holds W P) (Loop.execute_turn world config block run_id turn_id executions repairs)
    unfolding Loop.execute_turn Loop.run_block Loop.too_many_executions
    Keeps-execute_turn block run_id turn_id executions repairs =
        let steady = IsStable-IsSteady stable in
        search (primitive_rules, Keeps-execute, Keeps-end_turn, Keeps-after_execution) depth 12

    Keeps-act_on_block :
        (block : Option ExecBlock) (s : StopReason) (run_id turn_id : Text) (executions repairs : ℕ)
        → Keeps
            (Holds W P)
            (Loop.act_on_block world config block s run_id turn_id executions repairs)
    unfolding Loop.act_on_block
    Keeps-act_on_block none s run_id turn_id executions repairs =
        Keeps-final_turn world (IsStable-IsSteady stable) config s run_id turn_id
    Keeps-act_on_block (some block) s run_id turn_id executions repairs =
        let steady = IsStable-IsSteady stable in
        search (primitive_rules, Keeps-final_turn, Keeps-execute_turn)

    Keeps-act_on :
        (f : Option Loop.ProtocolFailure) (s : Streamed) (run_id turn_id : Text)
        (executions repairs : ℕ)
        → Keeps (Holds W P) (Loop.act_on world config f s run_id turn_id executions repairs)
    unfolding Loop.act_on
    Keeps-act_on none s run_id turn_id executions repairs =
        Keeps-act_on_block s.exec_block s.assistant.stop_reason run_id turn_id executions repairs
    Keeps-act_on (some f) s run_id turn_id executions repairs =
        Keeps-repair_turn f s.assistant run_id turn_id executions repairs

    Keeps-act :
        (s : Streamed) (run_id turn_id : Text) (executions repairs : ℕ)
        → Keeps (Holds W P) (Loop.act world config s run_id turn_id executions repairs)
    unfolding Loop.act
    Keeps-act s run_id turn_id executions repairs =
        let steady = IsStable-IsSteady stable in
        search (primitive_rules, Keeps-act_on, Keeps-failed_turn)

    Keeps-one_turn :
        (n : ℕ) (run_id previous : Text) (executions repairs : ℕ)
        → Keeps (Holds W P) (Loop.one_turn world config n run_id previous executions repairs)
    unfolding Loop.one_turn
    Keeps-one_turn n run_id previous executions repairs =
        let steady = IsStable-IsSteady stable in
        let streamed = Keeps-stream_assistant world steady stable.request config in
        search (primitive_rules, Keeps-any_message, Keeps-next_turn, streamed, Keeps-act) depth 12

    Keeps-turns :
        (left n : ℕ) (run_id turn_id : Text) (executions repairs : ℕ)
        → Keeps (Holds W P) (Loop.turns world config left n run_id turn_id executions repairs)
    unfolding Loop.turns
    Keeps-turns zero n run_id turn_id executions repairs =
        Keeps-set_last_error world (IsStable-IsSteady stable) _
    Keeps-turns (suc left) n run_id turn_id executions repairs =
        Keeps-bind _ _ (Keeps-one_turn n run_id turn_id executions repairs)
          (Keeps-continue_with _ (Keeps-turns left (suc n) run_id))

    pub Keeps-run : (user_text : Text) → Keeps (Holds W P) (Loop.run world config user_text)
    unfolding Loop.run Loop.run_once
    Keeps-run user_text =
        let steady = IsStable-IsSteady stable in
        search (primitive_rules, Keeps-start_run, Keeps-turns, Keeps-finish_run) depth 12
