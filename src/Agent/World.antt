-- ===== src/Agent/World.antt =====
-- What the loop works with and does not implement: the provider and the kernel as the protocols of
-- src/py_code_act/providers/base.py and src/py_code_act/kernel/base.py, new ids and the clock.
use py_code_act.Prelude.{ℕ, Bool, Option, List, Text}
use py_code_act.Prelude.Int.{ℤ}
use py_code_act.Domain.Json.{Fields}
use py_code_act.Domain.Usage.{Usage}
use py_code_act.Domain.Execution.{ExecutionOutput, ExecutionStatus}
use py_code_act.Domain.Messages.{Message, StopReason}
use py_code_act.Agent.Monad.{Failure, Result}

pub data ProviderEventType : Type 0 where
  start text_delta reasoning_delta reasoning_item usage done error : ProviderEventType

pub record ProviderEvent : Type 0 where
  pub type : ProviderEventType
  pub delta : Text
  pub reasoning_item : Option Fields
  pub usage : Usage
  pub stop_reason : Option StopReason
  pub error_message : Option Text
  pub response_id : Option Text

pub record ModelRequest : Type 0 where
  pub model : Text
  pub system_prompt : Text
  pub messages : List Message
  pub reasoning_level : Text
  pub session_id : Text
  pub request_id : Text

-- How the iteration over a provider's events ends.
pub data StreamEnd : Type 0 where
  finished cancelled : StreamEnd
  failed : Failure → StreamEnd

pub record KernelExecutionResult : Type 0 where
  pub status : ExecutionStatus
  pub outputs : List ExecutionOutput
  pub kernel_generation : ℤ
  pub replaced_kernel : Bool

-- What reaches the harness while a cell runs: an output, or a call of `tools.kernel.restart()`.
pub data CellEvent : Type 0 where
  wrote : ExecutionOutput → CellEvent
  asked_restart : CellEvent

-- The surroundings in a state of `W`. Nothing is assumed of them.
pub record World (W : Type 0) : Type 0 where
  pub provider_name : Text
  pub stream_response : W → ModelRequest → List ProviderEvent × StreamEnd × W
  -- `Kernel.execute`: what the cell does while it runs, and then how the kernel ends it
  pub run_cell : W → Text → List CellEvent × W
  pub cell_result : W → Text → Result KernelExecutionResult × W
  pub restart : W → Result (Unit {0}) × W
  pub generation : W → ℤ
  pub new_id : Text → W → Text × W
  pub utc_now : W → Text × W
  -- The write of a ledger line, which an OSError or a lone surrogate ends; the wait of `emit` for the
  -- events before, and the delivery of an event, which the sinks may end.
  pub write_line : W → Result (Unit {0}) × W
  pub wait_until_idle : W → Result (Unit {0}) × W
  pub deliver : W → Result (Unit {0}) × W

-- The fields of `RunConfig` (src/py_code_act/config.py) that the loop reads. `validate` makes the
-- limits non-negative.
pub record RunConfig : Type 0 where
  pub model : Text
  pub reasoning_level : Text
  pub max_turns : ℕ
  pub max_executions : ℕ
  pub max_protocol_repairs : ℕ
  pub has_run_timeout : Bool
