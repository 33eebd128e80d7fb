-- ===== src/Storage/Session.antt =====
-- Entries of the session ledger (src/py_code_act/storage/session_jsonl.py).
use py_code_act.Prelude.{
  ℕ, suc, ◌≡◌, refl, not, ◌&&◌, ◌||◌, Option, none, some, List, [], ◌∷◌, ◌++◌, if◌then◌else◌, ◌>>=◌,
  Text, codes, is_nil, eq_text,
}
use py_code_act.Prelude.Int.{ℤ, pos}
use py_code_act.Domain.Json.{obj, Fields, end, field, get, mapping, Conversions, text_at, is_text}
use py_code_act.Dict.{Dict, set}
use py_code_act.Domain.Messages.{Message}
use py_code_act.Domain.Codec.Transcript.{message_to_dict, message_from_dict, Fresh}

pub record SessionEntry : Type 0 where
  pub type : Text
  pub id : Text
  pub timestamp : Text
  pub session_id : Text
  pub payload : Fields
  pub schema_version : ℤ
  pub extra : Fields

abbrev pub schema_version : ℤ
schema_version = pos 1

pub record SessionLedger : Type 0 where
  pub session_id : Text
  pub entries : List SessionEntry

abbrev pub new_entry : SessionLedger → Text → Fields → Text → Text → SessionEntry
new_entry ledger entry_type payload id now = record {
  type = entry_type;
  id = id;
  timestamp = now;
  session_id = ledger.session_id;
  payload = payload;
  schema_version = schema_version;
  extra = end;
}

-- `append`, with the id and the time that it draws, where the write to the file succeeds. What
-- happens where it raises is said by those who call it.
unfoldable pub append : SessionLedger → Text → Fields → Text → Text → SessionLedger
append ledger entry_type payload id now = record ledger {
  entries = ledger.entries ++ new_entry ledger entry_type payload id now ∷ [];
}

unfoldable pub append_message : SessionLedger → Message → Text → Text → SessionLedger
append_message ledger m =
    append ledger (codes "message") (field "message" (obj (message_to_dict m)) end)

abbrev with_raw : Option Fields → List Fields → List Fields
with_raw none rest = rest
with_raw (some raw) rest = raw ∷ rest

-- The payloads of the entries that hold a message (the tests of `messages`).
unfoldable pub raw_messages : List SessionEntry → List Fields
raw_messages [] = []
raw_messages (e ∷ entries) =
    let rest = raw_messages entries in
    if eq_text e.type (codes "message")
    then with_raw (mapping (get "message" e.payload)) rest
    else rest

unfoldable pub read_messages : Conversions → (ℕ → Fresh) → ℕ → List Fields → Option (List Message)
read_messages py fresh n [] = some []
read_messages py fresh n (raw ∷ raws) = do
  m ← message_from_dict py (fresh n) raw
  ms ← read_messages py fresh (suc n) raws
  some (m ∷ ms)

-- `SessionLedger.messages`; `none` is an error of `message_from_dict`.
unfoldable pub messages : Conversions → (ℕ → Fresh) → SessionLedger → Option (List Message)
messages py fresh ledger = read_messages py fresh 0 (raw_messages ledger.entries)

-- One entry in the loop of `todo_state`.
unfoldable pub todo_step : Conversions → Dict Text → SessionEntry → Dict Text
todo_step py state e =
    let operation = get "operation" e.payload in
    let name = text_at py "name" [] e.payload in
    if not (eq_text e.type (codes "todo_change"))
    then state
    else if is_text operation "clear"
    then []
    else if (is_text operation "create" || is_text operation "update") && not (is_nil name)
    then set name (text_at py "status" (codes "pending") e.payload) state
    else state

todo_state_from : Conversions → Dict Text → List SessionEntry → Dict Text
todo_state_from py state [] = state
todo_state_from py state (e ∷ entries) = todo_state_from py (todo_step py state e) entries

unfoldable pub todo_state : Conversions → SessionLedger → Dict Text
unfolding todo_state_from
todo_state py ledger = todo_state_from py [] ledger.entries

todo_state_from-append :
    (py : Conversions) (state : Dict Text) (entries : List SessionEntry) (e : SessionEntry)
    → todo_state_from py state (entries ++ e ∷ [])
      ≡ todo_step py (todo_state_from py state entries) e
unfolding todo_state_from
todo_state_from-append py state [] e = refl
todo_state_from-append py state (d ∷ entries) e =
    todo_state_from-append py (todo_step py state d) entries e

pub todo_state-append :
    (py : Conversions) (ledger : SessionLedger) (type : Text) (payload : Fields) (id now : Text)
    → todo_state py (append ledger type payload id now)
      ≡ todo_step py (todo_state py ledger) (new_entry ledger type payload id now)
unfolding todo_state append
todo_state-append py ledger type payload id now = todo_state_from-append py [] ledger.entries _
