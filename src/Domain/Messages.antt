-- ===== src/Domain/Messages.antt =====
-- The messages of a transcript (src/py_code_act/domain/messages.py).
use py_code_act.Prelude.{Option, List, Text}
use py_code_act.Prelude.Int.{ℤ}
use py_code_act.Domain.Json.{Fields}
use py_code_act.Domain.Usage.{Usage}
use py_code_act.Domain.Execution.{ExecutionOutput, ExecutionStatus}

pub data StopReason : Type 0 where
  stop length error aborted : StopReason

pub record ExecBlock : Type 0 where
  pub code : Text
  pub id : Text

pub data AssistantBlock : Type 0 where
  text_block : Text → AssistantBlock
  reasoning_block : Text → Option Fields → AssistantBlock
  exec_block : ExecBlock → AssistantBlock

pub record UserMessage : Type 0 where
  pub text : Text
  pub id : Text
  pub created_at : Text

pub record AssistantMessage : Type 0 where
  pub provider : Text
  pub model : Text
  pub content : List AssistantBlock
  pub stop_reason : StopReason
  pub id : Text
  pub usage : Usage
  pub error_message : Option Text
  pub created_at : Text
  pub provider_metadata : Fields

pub record ExecutionMessage : Type 0 where
  pub exec_id : Text
  pub kernel_generation : ℤ
  pub status : ExecutionStatus
  pub outputs : List ExecutionOutput
  pub started_at : Text
  pub finished_at : Text
  pub id : Text

pub record ProtocolErrorMessage : Type 0 where
  pub error : Text
  pub message : Text
  pub assistant_message_id : Text
  pub id : Text
  pub created_at : Text

pub record KernelNoticeMessage : Type 0 where
  pub message : Text
  pub kernel_generation : ℤ
  pub reason : Text
  pub id : Text
  pub created_at : Text

pub data Message : Type 0 where
  user : UserMessage → Message
  assistant : AssistantMessage → Message
  execution : ExecutionMessage → Message
  protocol_error : ProtocolErrorMessage → Message
  kernel_notice : KernelNoticeMessage → Message
