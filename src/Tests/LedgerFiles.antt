-- ===== src/Tests/LedgerFiles.antt =====
-- Files of a ledger with one entry, whose JSON text is "{}".
use py_code_act.Prelude.{◌≡◌, refl, inr, List, [], ◌∷◌, ◌++◌, ◌==◌, if◌then◌else◌, Text, codes}
use py_code_act.Domain.Json.{obj, Fields, end}
use py_code_act.Storage.Session.{SessionEntry, SessionLedger, new_entry}
use py_code_act.Storage.Entries.{to_dict, from_dict-new_entry}
use py_code_act.Storage.Recovery.{
  Loaded, loaded, invalid_json, undecodable, entries_and_file, refused, invalid_jsonl,
  read_existing, write_entry,
}
use py_code_act.Storage.Recovery.Crash.{
  IsStored, file_of, read_existing-broken, read_existing-unended,
}
use py_code_act.Spaces.{lstrip_by, rstrip_by}
use py_code_act.Tests.Sample

abbrev ledger : SessionLedger
ledger = record { session_id = codes "s"; entries = [] }

abbrev first : SessionEntry
first = new_entry ledger (codes "message") end (codes "1") (codes "now")

abbrev dumps : Fields → Text
dumps fields = b'{' ∷ b'}' ∷ []

-- The byte 195 begins a character of two bytes.
abbrev loads : Text → Loaded
loads (c ∷ []) = if c == 195 then undecodable else invalid_json
loads (c ∷ d ∷ []) = loaded (obj (to_dict first))
loads t = invalid_json

first-IsStored : IsStored Sample.conversions loads dumps first
first-IsStored = record {
  text = record { body = []; braces = refl; one_line = refl };
  loads_back = refl;
  reads_back =
      from_dict-new_entry Sample.conversions ledger (codes "message") end (codes "1") (codes "now");
}

abbrev stored : List SessionEntry
stored = first ∷ []

read_existing-broken_example :
    read_existing Sample.conversions loads
      (file_of Sample.conversions loads dumps stored ++ b'{' ∷ [])
    ≡ entries_and_file stored (file_of Sample.conversions loads dumps stored)
unfolding lstrip_by rstrip_by
read_existing-broken_example =
    read_existing-broken Sample.conversions loads dumps stored (b'{' ∷ []) (first-IsStored, tt) refl
      (record { one_line = refl; no_json = inr (refl, refl) })

read_existing-unended_example :
    (read_existing Sample.conversions loads (b'{' ∷ b'}' ∷ [])
      ≡ entries_and_file stored (b'{' ∷ b'}' ∷ []))
    × (read_existing Sample.conversions loads (write_entry dumps (b'{' ∷ b'}' ∷ []) first)
        ≡ refused invalid_jsonl)
read_existing-unended_example =
    read_existing-unended Sample.conversions loads dumps [] first first tt first-IsStored
      first-IsStored refl refl
