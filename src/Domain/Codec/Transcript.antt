-- ===== src/Domain/Codec/Transcript.antt =====
-- The JSON form of a transcript's messages (src/py_code_act/domain/messages.py).
use py_code_act.Prelude.{
  ℕ, Option, none, some, List, [], ◌∷◌, if◌then◌else◌, ◌>>=◌, Text, codes, eq_text,
}
use py_code_act.Prelude.Int.{pos}
use py_code_act.Domain.Json.{
  Json, null, int, str, arr, obj, Items, nil, cons, Fields, end, field, get, get_or, is_text,
  list_or_missing, mapping, Conversions, text_or, text_at,
}
use py_code_act.Domain.Usage
use py_code_act.Domain.Usage.{Usage}
use py_code_act.Domain.Execution.{
  ExecutionOutput, ExecutionStatus, ok, interrupted, timed_out, kernel_lost,
}
use py_code_act.Domain.Messages.{
  StopReason, stop, aborted, Message, user, assistant, execution, protocol_error, kernel_notice,
}
use py_code_act.Domain.Codec.Outputs.{output_to_dict, output_from_dict}
use py_code_act.Domain.Codec.Blocks.{blocks_to_items, blocks_from}

unfoldable pub stop_reason_text : StopReason → Text
stop_reason_text stop = codes "stop"
stop_reason_text StopReason.length = codes "length"
stop_reason_text StopReason.error = codes "error"
stop_reason_text aborted = codes "aborted"

-- what is none of the four reasons is read as an error
unfoldable pub stop_reason_of : Text → StopReason
stop_reason_of t =
    if eq_text t (codes "stop")
    then stop
    else if eq_text t (codes "length")
    then StopReason.length
    else if eq_text t (codes "aborted")
    then aborted
    else StopReason.error

unfoldable pub status_text : ExecutionStatus → Text
status_text ok = codes "ok"
status_text ExecutionStatus.error = codes "error"
status_text interrupted = codes "interrupted"
status_text timed_out = codes "timed_out"
status_text kernel_lost = codes "kernel_lost"

unfoldable pub status_of : Text → ExecutionStatus
status_of t =
    if eq_text t (codes "ok")
    then ok
    else if eq_text t (codes "interrupted")
    then interrupted
    else if eq_text t (codes "timed_out")
    then timed_out
    else if eq_text t (codes "kernel_lost")
    then kernel_lost
    else ExecutionStatus.error

-- `[output_to_dict(output) for output in message.outputs]`
unfoldable pub outputs_to_items : List ExecutionOutput → Items
outputs_to_items [] = nil
outputs_to_items (o ∷ outputs) = cons (obj (output_to_dict o)) (outputs_to_items outputs)

unfoldable pub optional_text : Option Text → Json
optional_text none = null
optional_text (some t) = str t

unfoldable pub message_to_dict : Message → Fields
unfolding stop_reason_text status_text
message_to_dict (user m) =
    field "kind" (str (codes "user")) (
      field "id" (str m.id) (field "text" (str m.text) (field "created_at" (str m.created_at) end)))
message_to_dict (assistant m) = field "kind" (str (codes "assistant")) (
    field "id" (str m.id) (
      field "provider" (str m.provider) (
        field "model" (str m.model) (
          field "content" (arr (blocks_to_items m.content)) (
            field "usage" (obj (Usage.to_dict m.usage)) (
              field "stop_reason" (str (stop_reason_text m.stop_reason)) (
                field "error_message" (optional_text m.error_message) (
                  field "created_at" (str m.created_at)
                    (field "provider_metadata" (obj m.provider_metadata) end)))))))))
message_to_dict (execution m) = field "kind" (str (codes "execution")) (
    field "id" (str m.id) (
      field "exec_id" (str m.exec_id) (
        field "kernel_generation" (int m.kernel_generation) (
          field "status" (str (status_text m.status)) (
            field "outputs" (arr (outputs_to_items m.outputs)) (
              field "started_at" (str m.started_at)
                (field "finished_at" (str m.finished_at) end)))))))
message_to_dict (protocol_error m) = field "kind" (str (codes "protocol_error")) (
    field "id" (str m.id) (
      field "error" (str m.error) (
        field "message" (str m.message) (
          field "assistant_message_id" (str m.assistant_message_id)
            (field "created_at" (str m.created_at) end)))))
message_to_dict (kernel_notice m) = field "kind" (str (codes "kernel_notice")) (
    field "id" (str m.id) (
      field "message" (str m.message) (
        field "kernel_generation" (int m.kernel_generation)
          (field "reason" (str m.reason) (field "created_at" (str m.created_at) end)))))

-- What `new_id` and `utc_now` return while one message is read.
pub record Fresh : Type 0 where
  pub message_id : Text
  pub exec_id : ℕ → Text
  pub now : Text

module _ (py : Conversions) where
  unfoldable pub outputs_from : Items → Option (List ExecutionOutput)
  outputs_from nil = some []
  outputs_from (cons (obj fields) items) = do
    output ← output_from_dict py fields
    outputs ← outputs_from items
    some (output ∷ outputs)
  outputs_from (cons _ items) = outputs_from items

  -- `str(value["error_message"]) if value.get("error_message") is not None else None`
  unfoldable pub error_message_of : Option Json → Option Text
  error_message_of none = none
  error_message_of (some null) = none
  error_message_of (some v) = some (py.to_str v)

  abbrev mapping_or_empty : Option Json → Fields
  mapping_or_empty (some (obj fields)) = fields
  mapping_or_empty _ = end

  assistant_from_dict : Fresh → Text → Text → Fields → Option Message
  assistant_from_dict fresh id created_at fields = do
    items ← list_or_missing (get "content" fields)
    content ← blocks_from py fresh.exec_id 0 items
    usage ← Usage.from_dict py (mapping (get "usage" fields))
    some (
        assistant (record {
          provider = text_at py "provider" (codes "unknown") fields;
          model = text_at py "model" (codes "unknown") fields;
          content = content;
          stop_reason = stop_reason_of (text_at py "stop_reason" (codes "error") fields);
          id = id;
          usage = usage;
          error_message = error_message_of (get "error_message" fields);
          created_at = created_at;
          provider_metadata = mapping_or_empty (get "provider_metadata" fields);
        }))

  execution_from_dict : Text → Text → Fields → Option Message
  execution_from_dict id created_at fields = do
    items ← list_or_missing (get "outputs" fields)
    generation ← py.to_int (get_or "kernel_generation" (int (pos 0)) fields)
    outputs ← outputs_from items
    some (
        execution (record {
          exec_id = text_at py "exec_id" [] fields;
          kernel_generation = generation;
          status = status_of (text_at py "status" (codes "error") fields);
          outputs = outputs;
          started_at = text_at py "started_at" created_at fields;
          finished_at = text_at py "finished_at" created_at fields;
          id = id;
        }))

  kernel_notice_from_dict : Text → Text → Fields → Option Message
  kernel_notice_from_dict id created_at fields = do
    generation ← py.to_int (get_or "kernel_generation" (int (pos 0)) fields)
    some (
        kernel_notice (record {
          message = text_at py "message" [] fields;
          kernel_generation = generation;
          reason = text_at py "reason" (codes "unknown") fields;
          id = id;
          created_at = created_at;
        }))

  -- `none` is a ValueError or TypeError: an unknown kind, a content or outputs that is no list, a
  -- part that cannot be read.
  unfoldable pub message_from_dict : Fresh → Fields → Option Message
  unfolding assistant_from_dict execution_from_dict kernel_notice_from_dict
  message_from_dict fresh fields =
      let kind = get "kind" fields in
      let id = text_or py (get "id" fields) fresh.message_id in
      let created_at = text_or py (get "created_at" fields) fresh.now in
      if is_text kind "user"
      then some
          (user (record { text = text_at py "text" [] fields; id = id; created_at = created_at }))
      else if is_text kind "assistant"
      then assistant_from_dict fresh id created_at fields
      else if is_text kind "execution"
      then execution_from_dict id created_at fields
      else if is_text kind "protocol_error"
      then some (
          protocol_error (record {
            error = text_at py "error" (codes "protocol_error") fields;
            message = text_at py "message" [] fields;
            assistant_message_id = text_at py "assistant_message_id" [] fields;
            id = id;
            created_at = created_at;
          }))
      else if is_text kind "kernel_notice"
      then kernel_notice_from_dict id created_at fields
      else none
