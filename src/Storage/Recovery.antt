-- ===== src/Storage/Recovery.antt =====
-- Opening a ledger's file (`_read_existing` and `__init__` of `SessionLedger` in
-- src/py_code_act/storage/session_jsonl.py). A file is its bytes.
pub mod Crash
use py_code_act.Prelude.{
  ℕ, zero, suc, ◌+◌, ◌-◌, ◌≤◌, ◌<◌, String, ◌≡◌, refl, sym, ap, ◌∙◌, ◌≢◌, ◌↔◌, ◌⊎◌, inl, inr, Bool,
  true, false, not, ◌&&◌, ◌||◌, Option, none, some, List, [], ◌∷◌, ◌++◌, map, append-nil,
  append_assoc, arith, ltb, leb, ◌==◌, if◌then◌else◌, Bool-cases, Option-cases, is_some, ◌>>=◌,
  Text, codes, is_nil, length, length-append, eq_text, eq_text_iff, join, join-append,
}
use py_code_act.Spaces.{strip_bytes}
use py_code_act.Domain.Json.{Json, str, obj, Fields, end, field, Conversions}
use py_code_act.Storage.Session.{SessionEntry, SessionLedger, append, new_entry}
use py_code_act.Storage.Entries.{to_dict, from_dict}

-- `json.loads` on bytes: a JSONDecodeError, or a UnicodeDecodeError, which is another ValueError.
pub data Loaded : Type 0 where
  loaded : Json → Loaded
  invalid_json : Loaded
  undecodable : Loaded

pub data ReadError : Type 0 where
  invalid_jsonl not_an_object bad_entry several_sessions no_session_id decode_error : ReadError

-- The entries and the file as reading leaves it, or an exception.
pub data ReadResult : Type 0 where
  entries_and_file : List SessionEntry → Text → ReadResult
  refused : ReadError → ReadResult

abbrev starts_newline : Text → Bool
starts_newline [] = false
starts_newline (c ∷ t) = c == b'\n'

abbrev cons_first : ℕ → List Text → List Text
cons_first c [] = (c ∷ []) ∷ []
cons_first c (line ∷ lines) = (c ∷ line) ∷ lines

-- `splitlines(keepends=True)`: a line ends with "\n", "\r" or "\r\n".
unfoldable pub splitlines_keepends : Text → List Text
splitlines_keepends [] = []
splitlines_keepends (c ∷ t) =
    let lines = splitlines_keepends t in
    if c == b'\n' || (c == b'\r' && not (starts_newline t))
    then (c ∷ []) ∷ lines
    else cons_first c lines

-- `raw_line.endswith((b"\n", b"\r"))`
unfoldable pub ends_line : Text → Bool
ends_line [] = false
ends_line (c ∷ []) = c == b'\n' || c == b'\r'
ends_line (c ∷ t) = ends_line t

abbrev pub and_entry : SessionEntry → ReadResult → ReadResult
and_entry e (entries_and_file entries file) = entries_and_file (e ∷ entries) file
and_entry e (refused error) = refused error

abbrev entry_first : Option SessionEntry → ReadResult → ReadResult
entry_first none rest = refused bad_entry
entry_first (some e) rest = and_entry e rest

module _ (py : Conversions) (loads : Text → Loaded) where
  -- One line that is not blank. Where it is not JSON, is the last and is not ended, the file is cut
  -- to the bytes before it.
  abbrev pub on_loaded : Loaded → Text → Text → List Text → ReadResult → ReadResult
  on_loaded (loaded (obj fields)) kept line lines rest = entry_first (from_dict py fields) rest
  on_loaded (loaded _) kept line lines rest = refused not_an_object
  on_loaded invalid_json kept line lines rest =
      if is_nil lines && not (ends_line line)
      then entries_and_file [] kept
      else refused invalid_jsonl
  on_loaded undecodable kept line lines rest = refused decode_error

  -- The loop over the lines, after the bytes `kept`.
  unfoldable pub read_from : Text → List Text → ReadResult
  read_from kept [] = entries_and_file [] kept
  read_from kept (line ∷ lines) =
      let rest = read_from (kept ++ line) lines in
      if is_nil (strip_bytes line)
      then rest
      else on_loaded (loads (strip_bytes line)) kept line lines rest

  abbrev pub all_of_session : Text → List SessionEntry → Bool
  all_of_session session_id [] = true
  all_of_session session_id (e ∷ entries) =
      eq_text e.session_id session_id && all_of_session session_id entries

  abbrev pub same_session : List SessionEntry → Bool
  same_session [] = true
  same_session (e ∷ entries) = all_of_session e.session_id entries

  abbrev pub checked : ReadResult → ReadResult
  checked (entries_and_file entries file) =
      if same_session entries then entries_and_file entries file else refused several_sessions
  checked (refused error) = refused error

  -- `_read_existing`; a file that is missing or empty has no lines.
  unfoldable pub read_existing : Text → ReadResult
  read_existing file = checked (read_from [] (splitlines_keepends file))

-- `json.dumps(entry.to_dict(), ...) + "\n"`, written at the end of the file
unfoldable pub write_entry : (Fields → Text) → Text → SessionEntry → Text
write_entry dumps file e = file ++ (dumps (to_dict e) ++ b'\n' ∷ [])

-- A ledger, whether it was resumed, and its file.
pub record Opened : Type 0 where
  pub ledger : SessionLedger
  pub resumed : Bool
  pub file : Text

pub data OpenResult : Type 0 where
  opened : Opened → OpenResult
  open_error : ReadError → OpenResult

module _ (py : Conversions) (loads : Text → Loaded) (dumps : Fields → Text) where
  -- A new ledger with its first entry; the id and the times are new.
  unfoldable pub new_ledger : Text → Text → Text → Text → Text → Opened
  new_ledger file session_id created_at id now =
      let ledger : SessionLedger = record { session_id = session_id; entries = [] } in
      let payload =
        field "created_at" (str created_at)
          (field "format" (str (codes "py-code-act-semantic-jsonl")) end) in
      record {
        ledger = append ledger (codes "session") payload id now;
        resumed = false;
        file = write_entry dumps file (new_entry ledger (codes "session") payload id now);
      }

  abbrev open_read : ReadResult → Text → Text → Text → Text → OpenResult
  open_read (refused error) session_id created_at id now = open_error error
  open_read (entries_and_file [] file) session_id created_at id now =
      opened (new_ledger file session_id created_at id now)
  open_read (entries_and_file (e ∷ entries) file) session_id created_at id now =
      if is_nil e.session_id
      then open_error no_session_id
      else opened (record {
        ledger = record { session_id = e.session_id; entries = e ∷ entries };
        resumed = true;
        file = file;
      })

  -- `__init__`
  unfoldable pub open_ledger : Text → Text → Text → Text → Text → OpenResult
  open_ledger file session_id created_at id now =
      open_read (read_existing py loads file) session_id created_at id now
