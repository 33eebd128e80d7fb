-- ===== src/Domain/Codec/RoundTrip.antt =====
-- A message that is written to the ledger is read back as it was.
use py_code_act.Prelude.{
  ◌≡◌, refl, ap, false, Option, none, some, List, [], ◌∷◌, Text, codes, is_nil, eq_text,
}
use py_code_act.Domain.Json.{Conversions}
use py_code_act.Domain.Usage.{from_dict-to_dict}
use py_code_act.Domain.Execution.{
  ExecutionOutput, ExecutionStatus, ok, interrupted, timed_out, kernel_lost,
}
use py_code_act.Domain.Messages.{
  StopReason, stop, aborted, Message, user, assistant, execution, protocol_error, kernel_notice,
}
use py_code_act.Domain.Codec.Outputs.{output_from_dict-output_to_dict}
use py_code_act.Domain.Codec.Blocks.{HaveIds, blocks_from-blocks_to_items}
use py_code_act.Domain.Codec.Transcript.{
  stop_reason_text, stop_reason_of, status_text, status_of, outputs_to_items, outputs_from,
  message_to_dict, message_from_dict, Fresh, optional_text, error_message_of,
}

stop_reason_of-stop_reason_text : (r : StopReason) → stop_reason_of (stop_reason_text r) ≡ r
unfolding stop_reason_of stop_reason_text codes eq_text
stop_reason_of-stop_reason_text stop = refl
stop_reason_of-stop_reason_text StopReason.length = refl
stop_reason_of-stop_reason_text StopReason.error = refl
stop_reason_of-stop_reason_text aborted = refl

status_of-status_text : (s : ExecutionStatus) → status_of (status_text s) ≡ s
unfolding status_of status_text codes eq_text
status_of-status_text ok = refl
status_of-status_text ExecutionStatus.error = refl
status_of-status_text interrupted = refl
status_of-status_text timed_out = refl
status_of-status_text kernel_lost = refl

-- What every message that the program creates has: a non-empty id and time, and execution blocks
-- with ids.
abbrev pub HasIds : Message → Type 0
HasIds (user m) = (is_nil m.id ≡ false) × (is_nil m.created_at ≡ false)
HasIds (assistant m) = (is_nil m.id ≡ false) × (is_nil m.created_at ≡ false) × HaveIds m.content
HasIds (execution m) = is_nil m.id ≡ false
HasIds (protocol_error m) = (is_nil m.id ≡ false) × (is_nil m.created_at ≡ false)
HasIds (kernel_notice m) = (is_nil m.id ≡ false) × (is_nil m.created_at ≡ false)

module _ (py : Conversions) where
  outputs_from-outputs_to_items :
      (outputs : List ExecutionOutput) → outputs_from py (outputs_to_items outputs) ≡ some outputs
  unfolding outputs_from outputs_to_items
  outputs_from-outputs_to_items [] = refl
  outputs_from-outputs_to_items (o ∷ outputs) =
      rw (output_from_dict-output_to_dict, outputs_from-outputs_to_items outputs)

  error_message_of-optional_text :
      (o : Option Text) → error_message_of py (some (optional_text o)) ≡ o
  unfolding error_message_of optional_text
  error_message_of-optional_text none = refl
  error_message_of-optional_text (some t) = ap some (py.to_str_str t)

  -- Reading the JSON form of a message with ids gives the message, for every kind of message and
  -- whatever new ids and times are at hand.
  pub message_from_dict-message_to_dict :
      (fresh : Fresh) (m : Message)
      → HasIds m
      → message_from_dict py fresh (message_to_dict m) ≡ some m
  unfolding message_from_dict message_to_dict codes eq_text
  message_from_dict-message_to_dict fresh (user m) h = simp (py.to_str_str, h.0, h.1)
  message_from_dict-message_to_dict fresh (assistant m) h = simp (
    blocks_from-blocks_to_items py fresh.exec_id 0 m.content h.2,
    from_dict-to_dict,
    error_message_of-optional_text,
    stop_reason_of-stop_reason_text,
    py.to_str_str,
    h.0,
    h.1,
  )
  message_from_dict-message_to_dict fresh (execution m) h =
      simp (py.to_str_str, py.to_int_int, h, outputs_from-outputs_to_items, status_of-status_text)
  message_from_dict-message_to_dict fresh (protocol_error m) h = simp (py.to_str_str, h.0, h.1)
  message_from_dict-message_to_dict fresh (kernel_notice m) h =
      simp (py.to_str_str, py.to_int_int, h.0, h.1)
