-- ===== src/Storage/Entries.antt =====
-- The JSON form of ledger entries, and the kernel generations that a ledger tells
-- (src/py_code_act/storage/session_jsonl.py).
use py_code_act.Prelude.{
  ℕ, String, ◌≡◌, Bool, ◌||◌, Option, none, some, List, [], ◌∷◌, ◌++◌, if◌then◌else◌, ◌>>=◌, Text,
  codes, eq_text,
}
use py_code_act.Prelude.Int.{ℤ, pos, ltb_ℤ}
use text.Mathlib.Text.{◌==◌}
use py_code_act.Domain.Json.{
  Json, int, str, obj, Fields, end, field, get, get_or, mapping, Conversions, text_at,
}
use py_code_act.Domain.Messages.{Message, execution, kernel_notice}
use py_code_act.Domain.Codec.Transcript.{Fresh}
use py_code_act.Storage.Session.{SessionEntry, SessionLedger, schema_version, messages, new_entry}

-- `message.kernel_generation`, where the message has one
abbrev generation_of : Message → Option ℤ
generation_of (execution m) = some m.kernel_generation
generation_of (kernel_notice m) = some m.kernel_generation
generation_of _ = none

message_generations : List Message → List ℤ
message_generations [] = []
message_generations (m ∷ ms) = elim (generation_of m) [
  | none ↦ message_generations ms
  | some g ↦ g ∷ message_generations ms
]

-- The generations that the entries for kernels and sessions have.
entry_generations : Conversions → List SessionEntry → Option (List ℤ)
entry_generations py [] = some []
entry_generations py (e ∷ entries) = do
  rest ← entry_generations py entries
  if eq_text e.type (codes "kernel_restart") || eq_text e.type (codes "session_info")
      then (do g ← py.to_int (get_or "kernel_generation" (int (pos 0)) e.payload); some (g ∷ rest))
      else some rest

abbrev greatest : ℤ → List ℤ → ℤ
greatest g [] = g
greatest g (h ∷ hs) = greatest (if ltb_ℤ g h then h else g) hs

-- `max(generations, default=0)`
abbrev max_or_zero : List ℤ → ℤ
max_or_zero [] = pos 0
max_or_zero (g ∷ gs) = greatest g gs

-- `none` is an error of `int` or of `messages`.
unfoldable pub max_kernel_generation : Conversions → (ℕ → Fresh) → SessionLedger → Option ℤ
unfolding entry_generations message_generations
max_kernel_generation py fresh ledger = do
  from_entries ← entry_generations py ledger.entries
  ms ← messages py fresh ledger
  some (max_or_zero (from_entries ++ message_generations ms))

-- `{**fields, key: v}`
abbrev put : String → Json → Fields → Fields
put k v end = field k v end
put k v (field j w rest) =
    let later = put k v rest in if j == k then field j v rest else field j w later

unfoldable pub to_dict : SessionEntry → Fields
to_dict e = put "payload" (obj e.payload) (
    put "session_id" (str e.session_id) (
      put "timestamp" (str e.timestamp) (
        put "id" (str e.id)
          (put "schema_version" (int e.schema_version) (put "type" (str e.type) e.extra)))))

abbrev is_known : String → Bool
is_known k =
    k == "type"
    || k == "schema_version"
    || k == "id"
    || k == "timestamp"
    || k == "session_id"
    || k == "payload"

-- `{key: item for key, item in value.items() if key not in known}`
unknown_fields : Fields → Fields
unknown_fields end = end
unknown_fields (field k v rest) =
    let later = unknown_fields rest in if is_known k then later else field k v later

entry_of : Conversions → Fields → ℤ → Option Fields → Option SessionEntry
entry_of py fields version none = none
entry_of py fields version (some payload) = some (record {
  type = text_at py "type" [] fields;
  id = text_at py "id" [] fields;
  timestamp = text_at py "timestamp" [] fields;
  session_id = text_at py "session_id" [] fields;
  payload = payload;
  schema_version = version;
  extra = unknown_fields fields;
})

-- `none` is a SessionFormatError, or an error of `int`.
unfoldable pub from_dict : Conversions → Fields → Option SessionEntry
unfolding entry_of unknown_fields
from_dict py fields = do
  version ← py.to_int (get_or "schema_version" (int (pos 0)) fields)
  if ltb_ℤ schema_version version
      then none
      else if ltb_ℤ version (pos 1)
      then none
      else entry_of py fields version (mapping (get "payload" fields))

-- Reading the JSON form of an entry that `append` adds gives the entry, whatever its type, payload,
-- id and time are.
pub from_dict-new_entry :
    (py : Conversions) (ledger : SessionLedger) (type : Text) (payload : Fields) (id now : Text)
    → from_dict py (to_dict (new_entry ledger type payload id now))
      ≡ some (new_entry ledger type payload id now)
unfolding from_dict to_dict unknown_fields entry_of
from_dict-new_entry py ledger type payload id now = simp (py.to_str_str, py.to_int_int)
