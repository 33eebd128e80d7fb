-- ===== src/Agent/Loop.antt =====
-- The agent loop: `AgentLoop.run` and `_run` (src/py_code_act/agent/loop.py).
use py_code_act.Prelude.{
  ℕ, zero, suc, ◌+◌, Bool, true, false, not, ◌&&◌, ◌||◌, Option, none, some, [], ltb, leb,
  if◌then◌else◌, is_some, Text, codes, is_nil,
}
use py_code_act.Domain.Messages.{
  StopReason, aborted, user, assistant, protocol_error, UserMessage, AssistantMessage, ExecBlock,
}
use py_code_act.Domain.Events.{
  EventArgs, no_args, role, role_message, error, agent_start, agent_end, turn_start, turn_end,
  message_start, message_end,
}
use py_code_act.Agent.Monad.{
  other_error, Action, pure, raise, gets, draw, lift, when, finally, except_timeout, ◌>>=◌, ◌>>◌,
}
use py_code_act.Agent.World.{World, RunConfig, KernelExecutionResult}
use py_code_act.Agent.Harness.{
  Harness, set_state, set_last_error, new_id, utc_now, emit, append_message, consume_restart,
}
use py_code_act.Agent.Stream.{Streamed, stream_assistant}
use py_code_act.Agent.Execute.{turn_args, append_observation, execute, record_kernel_replacement}

-- How the body of the `for` loop ends: by `break`, or with the counters for the next round.
pub data Next : Type 0 where
  leave : Next
  again : ℕ → ℕ → Next

pub record ProtocolFailure : Type 0 where
  pub error : Text
  pub message : Text

-- a response that the provider did not finish as it should
abbrev pub is_failed : StopReason → Bool
is_failed StopReason.error = true
is_failed aborted = true
is_failed _ = false

abbrev pub is_length : StopReason → Bool
is_length StopReason.length = true
is_length _ = false

-- `if parser_error:`, which an empty text fails as `None` does
abbrev pub is_error : Option Text → Bool
is_error none = false
is_error (some t) = not (is_nil t)

abbrev pub text_of : Option Text → Text
text_of none = []
text_of (some t) = t

unfoldable pub protocol_failure :
    StopReason → Option Text → Option ExecBlock → Option ProtocolFailure
protocol_failure stop_reason parser_error exec_block =
    if is_length stop_reason && (is_some exec_block || is_error parser_error)
    then some (record {
      error = codes "truncated_execution";
      message =
          codes
            "The response ended at its output limit, so its Python block was not executed. Retry with one complete, shorter <exec> block.";
    })
    else if is_error parser_error
    then some (record { error = codes "malformed_execution"; message = text_of parser_error })
    else none

-- A `break` ends the loop; otherwise the next round has the last turn's id and the counters.
unfoldable pub continue_with :
    {W : Type 0} → (Text → ℕ → ℕ → Action (Harness W) Unit) → Next × Text → Action (Harness W) Unit
continue_with next_round (leave, turn_id) = pure tt
continue_with next_round (again executions repairs, turn_id) = next_round turn_id executions repairs

module _ {W : Type 0} (world : World W) (config : RunConfig) where
  unfoldable pub end_turn : Text → Text → Action (Harness W) Unit
  end_turn run_id turn_id = emit world turn_end (turn_args run_id turn_id)

  unfoldable pub too_many_repairs : Action (Harness W) Next
  too_many_repairs = do set_last_error (some (codes "protocol repair limit exceeded")); pure leave

  -- `repairs` counts this one.
  unfoldable pub after_repair : ℕ → ℕ → Action (Harness W) Next
  after_repair executions repairs =
      if ltb config.max_protocol_repairs repairs
      then too_many_repairs
      else pure (again executions repairs)

  -- The response is a protocol failure: an observation tells the model.
  unfoldable pub repair_turn :
      ProtocolFailure → AssistantMessage → Text → Text → ℕ → ℕ → Action (Harness W) Next
  repair_turn failure a run_id turn_id executions repairs = do
    id ← new_id world (codes "msg")
    now ← utc_now world
    append_observation world
        (protocol_error (record {
          error = failure.error;
          message = failure.message;
          assistant_message_id = a.id;
          id = id;
          created_at = now;
        }))
        run_id turn_id (codes "protocol_error")
    end_turn run_id turn_id
    after_repair executions (repairs + 1)

  -- The kernel is replaced where it was lost, or where the cell asked for it.
  unfoldable pub after_execution :
      KernelExecutionResult → Bool → Text → Text → Action (Harness W) Unit
  after_execution result restart_requested run_id turn_id =
      if result.replaced_kernel
      then record_kernel_replacement world true run_id turn_id
      else when restart_requested (do
        restarted ← draw (λ h. let (r, w) = world.restart h.world in (r, record h { world = w }))
        lift restarted
        record_kernel_replacement world false run_id turn_id)

  unfoldable pub too_many_executions : Text → Text → Action (Harness W) Next
  too_many_executions run_id turn_id = do
    set_last_error (some (codes "execution limit exceeded"))
    end_turn run_id turn_id
    pure leave

  unfoldable pub run_block : ExecBlock → Text → Text → ℕ → ℕ → Action (Harness W) Next
  run_block block run_id turn_id executions repairs = do
    result ← execute world block run_id turn_id
    restart_requested ← consume_restart
    after_execution result restart_requested run_id turn_id
    end_turn run_id turn_id
    pure (again executions repairs)

  -- The response has a block to run.
  unfoldable pub execute_turn : ExecBlock → Text → Text → ℕ → ℕ → Action (Harness W) Next
  execute_turn block run_id turn_id executions repairs =
      if leb config.max_executions executions
      then too_many_executions run_id turn_id
      else run_block block run_id turn_id (executions + 1) repairs

  -- The response has nothing to run.
  unfoldable pub final_turn : StopReason → Text → Text → Action (Harness W) Next
  final_turn stop_reason run_id turn_id = do
    when (is_length stop_reason)
        (set_last_error (some (codes "model response reached its output limit")))
    end_turn run_id turn_id
    pure leave

  -- The provider failed.
  unfoldable pub failed_turn : AssistantMessage → Text → Text → Action (Harness W) Next
  failed_turn a run_id turn_id = do
    set_last_error a.error_message
    end_turn run_id turn_id
    pure leave

  unfoldable pub act_on_block :
      Option ExecBlock → StopReason → Text → Text → ℕ → ℕ → Action (Harness W) Next
  act_on_block none stop_reason run_id turn_id executions repairs =
      final_turn stop_reason run_id turn_id
  act_on_block (some block) stop_reason run_id turn_id executions repairs =
      if is_length stop_reason
      then final_turn stop_reason run_id turn_id
      else execute_turn block run_id turn_id executions repairs

  unfoldable pub act_on :
      Option ProtocolFailure → Streamed → Text → Text → ℕ → ℕ → Action (Harness W) Next
  act_on (some failure) streamed run_id turn_id executions repairs =
      repair_turn failure streamed.assistant run_id turn_id executions repairs
  act_on none streamed run_id turn_id executions repairs =
      act_on_block streamed.exec_block streamed.assistant.stop_reason run_id turn_id executions
        repairs

  -- What follows a finished response, by its stop reason, its protocol failure and its block.
  unfoldable pub act : Streamed → Text → Text → ℕ → ℕ → Action (Harness W) Next
  act streamed run_id turn_id executions repairs =
      let a = streamed.assistant in
      if is_failed a.stop_reason
      then failed_turn a run_id turn_id
      else act_on (protocol_failure a.stop_reason streamed.parser_error streamed.exec_block)
          streamed run_id turn_id executions repairs

  -- The id of a turn after the first is new.
  unfoldable pub next_turn : ℕ → Text → Text → Action (Harness W) Text
  next_turn zero run_id turn_id = pure turn_id
  next_turn (suc n) run_id turn_id = do
    id ← new_id world (codes "turn")
    emit world turn_start (turn_args run_id id)
    pure id

  unfoldable pub one_turn : ℕ → Text → Text → ℕ → ℕ → Action (Harness W) (Next × Text)
  one_turn turn_number run_id previous executions repairs = do
    turn_id ← next_turn turn_number run_id previous
    streamed ← stream_assistant world config run_id turn_id
    append_message world (assistant streamed.assistant)
    emit world message_end (record (turn_args run_id turn_id) {
      message_id = some streamed.assistant.id;
      payload = role_message (codes "assistant") (assistant streamed.assistant);
    })
    next ← act streamed run_id turn_id executions repairs
    pure (next, turn_id)

  -- `for turn_number in range(max_turns)` with its `else`, by the rounds that are left.
  unfoldable pub turns : ℕ → ℕ → Text → Text → ℕ → ℕ → Action (Harness W) Unit
  turns zero turn_number run_id turn_id executions repairs =
      set_last_error (some (codes "turn limit exceeded"))
  turns (suc left) turn_number run_id turn_id executions repairs = do
    ended ← one_turn turn_number run_id turn_id executions repairs
    continue_with (turns left (suc turn_number) run_id) ended

  -- the `finally` of `_run`
  unfoldable pub finish_run : Text → Action (Harness W) Unit
  finish_run run_id = do
    set_state (λ s. record s {
      is_running = false;
      streaming_message_id = none;
      active_execution_id = none;
    })
    last_error ← gets (λ h. h.state.last_error)
    emit world agent_end (record no_args { run_id = some run_id; payload = error last_error })

  -- `_run` up to its `try`
  unfoldable pub start_run : Text → Action (Harness W) (Text × Text)
  start_run user_text = do
    set_state (λ s. record s { is_running = true; last_error = none })
    run_id ← new_id world (codes "run")
    turn_id ← new_id world (codes "turn")
    emit world agent_start (record no_args { run_id = some run_id })
    emit world turn_start (turn_args run_id turn_id)
    id ← new_id world (codes "msg")
    now ← utc_now world
    let m : UserMessage = record { text = user_text; id = id; created_at = now }
    append_message world (user m)
    let args : EventArgs = record (turn_args run_id turn_id) { message_id = some id }
    emit world message_start (record args { payload = role (codes "user") })
    emit world message_end (record args { payload = role_message (codes "user") (user m) })
    pure (run_id, turn_id)

  -- `_run`
  unfoldable pub run_once : Text → Action (Harness W) Unit
  run_once user_text = do
    (run_id, turn_id) ← start_run user_text
    finally (turns config.max_turns 0 run_id turn_id 0 0) (finish_run run_id)

  -- `run`; the first branch is the RuntimeError "an agent run is already active".
  unfoldable pub run : Text → Action (Harness W) Unit
  run user_text = do
    is_running ← gets (λ h. h.state.is_running)
    if is_running
        then raise other_error
        else if config.has_run_timeout
        then except_timeout (run_once user_text)
            (set_last_error (some (codes "run deadline exceeded")))
        else run_once user_text
