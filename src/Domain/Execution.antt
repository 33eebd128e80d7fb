-- ===== src/Domain/Execution.antt =====
-- What a cell writes (src/py_code_act/domain/execution.py).
use py_code_act.Prelude.{List, Text}

pub data Channel : Type 0 where
  stdout stderr : Channel

pub data ExecutionOutput : Type 0 where
  stream : Channel → Text → ExecutionOutput
  value : Text → Text → ExecutionOutput
  display : Text → Text → ExecutionOutput
  error : Text → Text → List Text → ExecutionOutput

-- `ExecutionStatus` of src/py_code_act/domain/messages.py
pub data ExecutionStatus : Type 0 where
  ok error interrupted timed_out kernel_lost : ExecutionStatus
