-- ===== src/Providers/Conversion.antt =====
-- Transcripts as request bodies (src/py_code_act/providers/openai_conversion.py).
use py_code_act.Prelude.{
  ◌≡◌, refl, sym, ap, ◌∙◌, Bool, true, false, not, ◌&&◌, ◌||◌, some, List, [], ◌∷◌, ◌++◌,
  append_assoc, ◌==◌, if◌then◌else◌, Text, codes, is_nil, eq_text, join,
}
use py_code_act.Domain.Json.{
  Json, bool, str, arr, obj, Items, nil, cons, Fields, end, field, Conversions,
}
use py_code_act.Domain.Messages.{
  AssistantBlock, text_block, reasoning_block, exec_block, AssistantMessage, Message, user,
  assistant, execution, protocol_error, kernel_notice,
}
use py_code_act.Protocol.Observations.{
  format_execution_result, format_protocol_error, format_kernel_notice,
}
use py_code_act.Agent.World.{ModelRequest}

-- `t.startswith(("\n", "\r"))`
abbrev pub starts_line : Text → Bool
starts_line [] = false
starts_line (c ∷ t) = c == b'\n' || c == b'\r'

-- `t.endswith(("\n", "\r"))`
unfoldable pub ends_line : Text → Bool
ends_line [] = false
ends_line (c ∷ []) = c == b'\n' || c == b'\r'
ends_line (c ∷ t) = ends_line t

-- the newline before a text that follows an execution block
abbrev pub separator : Bool → Text → List Text
separator previous_was_exec t =
    if previous_was_exec && not (is_nil t) && not (starts_line t) then codes "\n" ∷ [] else []

abbrev pub closed_code : Text → Text
closed_code code = if not (is_nil code) && not (ends_line code) then code ++ codes "\n" else code

-- The loop of `serialize_assistant_text`; the test is `previous_was_exec`.
pieces_of : Bool → List AssistantBlock → List Text
pieces_of previous_was_exec [] = []
pieces_of previous_was_exec (text_block t ∷ blocks) =
    separator previous_was_exec t ++ t ∷ pieces_of false blocks
pieces_of previous_was_exec (reasoning_block t item ∷ blocks) = pieces_of previous_was_exec blocks
pieces_of previous_was_exec (exec_block b ∷ blocks) =
    join (codes "<exec>\n" ∷ closed_code b.code ∷ codes "</exec>" ∷ []) ∷ pieces_of true blocks

unfoldable pub serialize_assistant_text : AssistantMessage → Text
unfolding pieces_of
serialize_assistant_text m = join (pieces_of false m.content)

-- `{"role": role, "content": [{"type": type, "text": text}]}`
abbrev pub text_item : Text → Text → Text → Json
text_item role type t = obj (
    field "role" (str role) (
      field "content" (arr (cons (obj (field "type" (str type) (field "text" (str t) end))) nil))
        end))

abbrev pub input_text : Text → Json
input_text = text_item (codes "user") (codes "input_text")

-- The provider's own items of a message's reasoning.
unfoldable pub reasoning_inputs : List AssistantBlock → List Json
reasoning_inputs [] = []
reasoning_inputs (reasoning_block t (some item) ∷ blocks) = obj item ∷ reasoning_inputs blocks
reasoning_inputs (_ ∷ blocks) = reasoning_inputs blocks

-- `if text:`
abbrev pub output_inputs : Text → List Json
output_inputs [] = []
output_inputs (c ∷ t) = text_item (codes "assistant") (codes "output_text") (c ∷ t) ∷ []

module _ (py : Conversions) where
  unfoldable pub convert_message : Message → List Json
  convert_message (user m) = input_text m.text ∷ []
  convert_message (assistant m) =
      reasoning_inputs m.content ++ output_inputs (serialize_assistant_text m)
  convert_message (execution m) = input_text (format_execution_result py m) ∷ []
  convert_message (protocol_error m) = input_text (format_protocol_error py m) ∷ []
  convert_message (kernel_notice m) = input_text (format_kernel_notice py m) ∷ []

  unfoldable pub convert_messages : List Message → List Json
  convert_messages [] = []
  convert_messages (m ∷ messages) = convert_message m ++ convert_messages messages

  pub convert_messages-append :
      (a b : List Message) → convert_messages (a ++ b) ≡ convert_messages a ++ convert_messages b
  unfolding convert_messages
  convert_messages-append [] b = refl
  convert_messages-append (m ∷ a) b =
      ap (◌++◌ (convert_message m)) (convert_messages-append a b)
      ∙ sym (append_assoc (convert_message m) (convert_messages a) (convert_messages b))

abbrev items_of : List Json → Items
items_of [] = nil
items_of (v ∷ vs) = cons v (items_of vs)

-- `body.update(...)` with keys that the body does not have
abbrev then_fields : Fields → Fields → Fields
then_fields end later = later
then_fields (field k v rest) later = field k v (then_fields rest later)

-- `if request.reasoning_level != "none"`
abbrev reasoning_fields : Text → Fields
reasoning_fields level =
    if eq_text level (codes "none")
    then end
    else field "reasoning"
        (obj (field "effort" (str level) (field "summary" (str (codes "auto")) end))) end

module _ (py : Conversions) where
  unfoldable pub build_public_request : ModelRequest → Fields
  build_public_request request = field "model" (str request.model) (
      field "stream" (bool true) (
        field "instructions" (str request.system_prompt) (
          field "input" (arr (items_of (convert_messages py request.messages))) (
            field "include" (arr (cons (str (codes "reasoning.encrypted_content")) nil))
              (reasoning_fields request.reasoning_level)))))

  unfoldable pub build_codex_request : ModelRequest → Fields
  build_codex_request request = then_fields (build_public_request request) (
      field "store" (bool false) (
        field "text" (obj (field "verbosity" (str (codes "low")) end)) (
          field "prompt_cache_key" (str request.session_id) (
            field "tool_choice" (str (codes "auto"))
              (field "parallel_tool_calls" (bool true) end)))))
