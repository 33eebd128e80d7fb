-- ===== src/Domain/Events.antt =====
-- Runtime events and their factory (src/py_code_act/domain/events.py).
use py_code_act.Prelude.{ℕ, suc, Option, none, Text}
use py_code_act.Prelude.Int.{ℤ}
use py_code_act.Domain.Usage.{Usage}
use py_code_act.Domain.Execution.{ExecutionOutput}
use py_code_act.Domain.Messages.{Message}

pub data EventType : Type 0 where
  agent_start agent_end turn_start turn_end : EventType
  message_start message_text_delta message_reasoning_delta exec_code_delta message_end : EventType
  exec_start exec_output exec_end : EventType
  kernel_start kernel_restart_requested kernel_restarted kernel_failed : EventType
  usage_update todo_changed : EventType

-- The payloads that the program gives to its events, one constructor for each set of keys.
pub data Payload : Type 0 where
  no_payload : Payload
  role : Text → Payload
  role_message : Text → Message → Payload
  delta : Text → Payload
  usage : Usage → Payload
  code : Text → Payload
  output : ExecutionOutput → Payload
  message : Message → Payload
  reason : Text → Payload
  error : Option Text → Payload

-- the keyword arguments of `create`
pub record EventArgs : Type 0 where
  pub run_id : Option Text
  pub turn_id : Option Text
  pub request_id : Option Text
  pub message_id : Option Text
  pub exec_id : Option Text
  pub kernel_generation : Option ℤ
  pub payload : Payload

abbrev pub no_args : EventArgs
no_args = record {
  run_id = none;
  turn_id = none;
  request_id = none;
  message_id = none;
  exec_id = none;
  kernel_generation = none;
  payload = no_payload;
}

pub record RuntimeEvent : Type 0 where
  pub type : EventType
  pub sequence : ℕ
  pub occurred_at : Text
  pub session_id : Text
  pub args : EventArgs

pub record EventFactory : Type 0 where
  pub session_id : Text
  pub sequence : ℕ

-- `create`, at the time `now`
unfoldable pub create : EventFactory → EventType → EventArgs → Text → EventFactory × RuntimeEvent
create f type args now =
    let next = suc f.sequence in
    (
      record f { sequence = next },
      record {
        type = type;
        sequence = next;
        occurred_at = now;
        session_id = f.session_id;
        args = args;
      },
    )
