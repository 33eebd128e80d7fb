-- ===== src/Agent/Execute.antt =====
-- Running one cell and recording what came of it: `_execute`, `_append_observation` and
-- `_record_kernel_replacement` (src/py_code_act/agent/loop.py).
use py_code_act.Prelude.{Bool, none, some, if◌then◌else◌, Text, codes}
use py_code_act.Domain.Json.{end, field, int, str}
use py_code_act.Domain.Messages.{
  Message, user, assistant, execution, protocol_error, kernel_notice, ExecBlock,
}
use py_code_act.Domain.Events.{
  EventArgs, no_args, code, output, message, reason, role, role_message, exec_start, exec_output,
  exec_end, message_start, message_end, kernel_failed, kernel_restarted,
}
use py_code_act.Agent.Monad.{Action, pure, gets, draw, lift, when, for_each, ◌>>=◌, ◌>>◌}
use py_code_act.Agent.World.{World, KernelExecutionResult, CellEvent, wrote, asked_restart}
use py_code_act.Agent.Harness.{
  Harness, set_state, set_active, new_id, utc_now, emit, append_entry, append_message,
  request_restart, run_cell,
}

-- `message.id`
abbrev pub id_of : Message → Text
id_of (user m) = m.id
id_of (assistant m) = m.id
id_of (execution m) = m.id
id_of (protocol_error m) = m.id
id_of (kernel_notice m) = m.id

abbrev pub turn_args : Text → Text → EventArgs
turn_args run_id turn_id = record no_args { run_id = some run_id; turn_id = some turn_id }

module _ {W : Type 0} (world : World W) where
  unfoldable pub append_observation : Message → Text → Text → Text → Action (Harness W) Unit
  append_observation m run_id turn_id role_name = do
    append_message world m
    let args : EventArgs = record (turn_args run_id turn_id) { message_id = some (id_of m) }
    emit world message_start (record args { payload = role role_name })
    emit world message_end (record args { payload = role_message role_name m })

  -- `on_output`, and the handler of `tools.kernel.restart()`
  unfoldable pub on_cell_event : EventArgs → CellEvent → Action (Harness W) Unit
  on_cell_event args (wrote o) = emit world exec_output (record args { payload = output o })
  on_cell_event args asked_restart = request_restart world

  unfoldable pub execute : ExecBlock → Text → Text → Action (Harness W) KernelExecutionResult
  execute block run_id turn_id = do
    generation ← gets (λ h. world.generation h.world)
    set_state (λ s. record s { active_execution_id = some block.id })
    set_active (some run_id) (some turn_id)
    started_at ← utc_now world
    let args : EventArgs = record (turn_args run_id turn_id) {
      exec_id = some block.id;
      kernel_generation = some generation;
    }
    emit world exec_start (record args { payload = code block.code })
    cell_events ← run_cell world block.code
    for_each cell_events (on_cell_event args)
    ended ←
        draw (λ h. let (r, w) = world.cell_result h.world block.code in (r, record h { world = w }))
    result ← lift ended
    id ← new_id world (codes "msg")
    finished_at ← utc_now world
    let m = execution (record {
      exec_id = block.id;
      kernel_generation = result.kernel_generation;
      status = result.status;
      outputs = result.outputs;
      started_at = started_at;
      finished_at = finished_at;
      id = id;
    })
    emit world exec_end (record args {
      message_id = some id;
      kernel_generation = some result.kernel_generation;
      payload = message m;
    })
    append_observation m run_id turn_id (codes "execution")
    set_state (λ s. record s { active_execution_id = none })
    set_active none none
    pure result

  unfoldable pub record_kernel_replacement : Bool → Text → Text → Action (Harness W) Unit
  record_kernel_replacement is_forced run_id turn_id = do
    let reason_text = if is_forced then codes "forced_replacement" else codes "requested"
    generation ← gets (λ h. world.generation h.world)
    set_state (λ s. record s { kernel_generation = generation })
    append_entry world (codes "kernel_restart")
        (field "kernel_generation" (int generation) (field "reason" (str reason_text) end))
    let args : EventArgs = record (turn_args run_id turn_id) { kernel_generation = some generation }
    when is_forced (emit world kernel_failed args)
    emit world kernel_restarted (record args { payload = reason reason_text })
    id ← new_id world (codes "msg")
    now ← utc_now world
    append_observation
        (kernel_notice (record {
          message =
              codes
                "The Python kernel was replaced. Ordinary in-memory variables are gone; filesystem and external side effects may remain.";
          kernel_generation = generation;
          reason = reason_text;
          id = id;
          created_at = now;
        }))
        run_id turn_id (codes "kernel_notice")
