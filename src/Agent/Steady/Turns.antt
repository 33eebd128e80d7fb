-- ===== src/Agent/Steady/Turns.antt =====
-- The parts of a turn that start no cell, and the ends of a run, keep every steady property.
use py_code_act.Prelude.{ℕ, zero, suc, Bool, Text}
use py_code_act.Domain.Messages.{Message, StopReason, AssistantMessage}
use py_code_act.Domain.Events.{EventArgs}
use py_code_act.Agent.World.{
  World, RunConfig, CellEvent, wrote, asked_restart, KernelExecutionResult,
}
use py_code_act.Agent.Rules.{Keeps}
use py_code_act.Agent.Execute.{append_observation, on_cell_event, record_kernel_replacement}
use py_code_act.Agent.Loop
use py_code_act.Agent.Steady.{
  Record, IsSteady, IsOtherMessage, Holds, Keeps-set_state, Keeps-request_restart, primitive_rules,
}

module _ {W : Type 0} (world : World W) {P : Record → Type 0} (steady : IsSteady P) where
  pub Keeps-append_observation :
      (m : Message) (run_id turn_id role_name : Text)
      → IsOtherMessage m
      → Keeps (Holds W P) (append_observation world m run_id turn_id role_name)
  unfolding append_observation
  Keeps-append_observation m run_id turn_id role_name other = search primitive_rules

  pub Keeps-on_cell_event :
      (args : EventArgs) (e : CellEvent) → Keeps (Holds W P) (on_cell_event world args e)
  unfolding on_cell_event
  Keeps-on_cell_event args (wrote o) = search primitive_rules
  Keeps-on_cell_event args asked_restart = Keeps-request_restart world steady

  pub Keeps-record_kernel_replacement :
      (is_forced : Bool) (run_id turn_id : Text)
      → Keeps (Holds W P) (record_kernel_replacement world is_forced run_id turn_id)
  unfolding record_kernel_replacement
  Keeps-record_kernel_replacement is_forced run_id turn_id =
      search (primitive_rules, Keeps-append_observation, Keeps-set_state) depth 16

  pub Keeps-end_turn :
      (config : RunConfig) (run_id turn_id : Text)
      → Keeps (Holds W P) (Loop.end_turn world config run_id turn_id)
  unfolding Loop.end_turn
  Keeps-end_turn config run_id turn_id = search primitive_rules

  pub Keeps-after_execution :
      (config : RunConfig) (result : KernelExecutionResult) (restart_requested : Bool)
      (run_id turn_id : Text)
      → Keeps
          (Holds W P)
          (Loop.after_execution world config result restart_requested run_id turn_id)
  unfolding Loop.after_execution
  Keeps-after_execution config result restart_requested run_id turn_id =
      search (primitive_rules, Keeps-record_kernel_replacement) depth 10

  pub Keeps-final_turn :
      (config : RunConfig) (r : StopReason) (run_id turn_id : Text)
      → Keeps (Holds W P) (Loop.final_turn world config r run_id turn_id)
  unfolding Loop.final_turn
  Keeps-final_turn config r run_id turn_id = search (primitive_rules, Keeps-end_turn) depth 8

  pub Keeps-failed_turn :
      (config : RunConfig) (a : AssistantMessage) (run_id turn_id : Text)
      → Keeps (Holds W P) (Loop.failed_turn world config a run_id turn_id)
  unfolding Loop.failed_turn
  Keeps-failed_turn config a run_id turn_id = search (primitive_rules, Keeps-end_turn) depth 8

  pub Keeps-next_turn :
      (config : RunConfig) (n : ℕ) (run_id turn_id : Text)
      → Keeps (Holds W P) (Loop.next_turn world config n run_id turn_id)
  unfolding Loop.next_turn
  Keeps-next_turn config zero run_id turn_id = search primitive_rules
  Keeps-next_turn config (suc n) run_id turn_id = search primitive_rules depth 8

  pub Keeps-finish_run :
      (config : RunConfig) (run_id : Text) → Keeps (Holds W P) (Loop.finish_run world config run_id)
  unfolding Loop.finish_run
  Keeps-finish_run config run_id = search (primitive_rules, Keeps-set_state) depth 8

  pub Keeps-start_run :
      (config : RunConfig) (user_text : Text)
      → Keeps (Holds W P) (Loop.start_run world config user_text)
  unfolding Loop.start_run
  Keeps-start_run config user_text = search (primitive_rules, Keeps-set_state) depth 16
