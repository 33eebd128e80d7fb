-- ===== src/Domain/Codec/Outputs.antt =====
-- The JSON form of what a cell wrote (src/py_code_act/domain/execution.py).
use py_code_act.Prelude.{◌≡◌, Option, none, some, [], if◌then◌else◌, ◌>>=◌, Text, codes, eq_text}
use py_code_act.Domain.Json.{
  Json, str, arr, Items, nil, Fields, end, field, get, is_text, Conversions, text_at, from_texts,
  to_texts, to_texts-from_texts,
}
use py_code_act.Domain.Execution.{Channel, stdout, stderr, ExecutionOutput, stream, value, display}

unfoldable pub channel_text : Channel → Text
channel_text stdout = codes "stdout"
channel_text stderr = codes "stderr"

unfoldable pub output_to_dict : ExecutionOutput → Fields
unfolding channel_text
output_to_dict (stream channel t) =
    field "kind" (str (codes "stream"))
      (field "channel" (str (channel_text channel)) (field "text" (str t) end))
output_to_dict (value mime_type content) =
    field "kind" (str (codes "value"))
      (field "mime_type" (str mime_type) (field "data" (str content) end))
output_to_dict (display mime_type content) =
    field "kind" (str (codes "display"))
      (field "mime_type" (str mime_type) (field "data" (str content) end))
output_to_dict (ExecutionOutput.error name message traceback) = field "kind" (str (codes "error")) (
    field "name" (str name)
      (field "message" (str message) (field "traceback" (arr (from_texts traceback)) end)))

-- `none` is the ValueError "invalid stream channel".
unfoldable pub channel_of : Text → Option Channel
channel_of t =
    if eq_text t (codes "stdout")
    then some stdout
    else if eq_text t (codes "stderr")
    then some stderr
    else none

-- the traceback of an error, empty unless it is a list
abbrev items_or_none : Option Json → Items
items_or_none (some (arr items)) = items
items_or_none _ = nil

module _ (py : Conversions) where
  -- `none` is a ValueError: an unknown kind or channel.
  unfoldable pub output_from_dict : Fields → Option ExecutionOutput
  unfolding channel_of
  output_from_dict fields =
      let kind = get "kind" fields in
      if is_text kind "stream"
      then (do
        channel ← channel_of (text_at py "channel" (codes "stdout") fields)
        some (stream channel (text_at py "text" [] fields)))
      else if is_text kind "value"
      then some
          (value (text_at py "mime_type" (codes "text/plain") fields) (text_at py "data" [] fields))
      else if is_text kind "display"
      then some (
          display (text_at py "mime_type" (codes "text/plain") fields)
            (text_at py "data" [] fields))
      else if is_text kind "error"
      then some (
          ExecutionOutput.error (text_at py "name" (codes "Error") fields)
            (text_at py "message" [] fields) (to_texts py (items_or_none (get "traceback" fields))))
      else none

  pub output_from_dict-output_to_dict :
      (o : ExecutionOutput) → output_from_dict (output_to_dict o) ≡ some o
  unfolding output_from_dict output_to_dict codes eq_text
  output_from_dict-output_to_dict (stream stdout t) = simp py.to_str_str
  output_from_dict-output_to_dict (stream stderr t) = simp py.to_str_str
  output_from_dict-output_to_dict (value m t) = simp py.to_str_str
  output_from_dict-output_to_dict (display m t) = simp py.to_str_str
  output_from_dict-output_to_dict (ExecutionOutput.error n m t) =
      simp (py.to_str_str, to_texts-from_texts)
