-- ===== src/Storage/Recovery/Crash.antt =====
-- What opening a file recovers after a write that broke off
-- (src/py_code_act/storage/session_jsonl.py).
use py_code_act.Prelude.{
  ℕ, ◌≡◌, refl, sym, ap, ◌∙◌, ◌⊎◌, inl, inr, Bool, true, false, ◌&&◌, ◌||◌, some, List, [], ◌∷◌,
  ◌++◌, append-nil, append_assoc, arith, ◌==◌, if◌then◌else◌, Text, is_nil,
}
use py_code_act.Spaces.{is_ascii_space, lstrip_by, rstrip_by, strip_bytes, rstrip_by-append}
use py_code_act.Domain.Json.{obj, Fields, Conversions}
use py_code_act.Storage.Session.{SessionEntry}
use py_code_act.Storage.Entries.{to_dict, from_dict}
use py_code_act.Storage.Recovery.{
  ReadError, Loaded, loaded, invalid_json, ReadResult, entries_and_file, refused, invalid_jsonl,
  splitlines_keepends, ends_line, on_loaded, read_from, and_entry, same_session, read_existing,
  write_entry,
}

abbrev pub is_break : ℕ → Bool
is_break c = c == b'\n' || c == b'\r'

abbrev pub has_break : Text → Bool
has_break [] = false
has_break (c ∷ t) = is_break c || has_break t

-- A line ends at its newline.
splitlines-line :
    (t rest : Text)
    → has_break t ≡ false
    → splitlines_keepends (t ++ b'\n' ∷ rest) ≡ (t ++ b'\n' ∷ []) ∷ splitlines_keepends rest
unfolding splitlines_keepends
splitlines-line [] rest h = refl
splitlines-line (c ∷ t) rest h = rw (splitlines-line t rest (ground arith)) (ground arith)

-- A text with no line break is one line.
splitlines-tail :
    (c : ℕ) (t : Text) → has_break (c ∷ t) ≡ false → splitlines_keepends (c ∷ t) ≡ (c ∷ t) ∷ []
unfolding splitlines_keepends
splitlines-tail c [] h = ground arith
splitlines-tail c (d ∷ t) h = rw (splitlines-tail d t (ground arith)) (ground arith)

not-ends_line : (c : ℕ) (t : Text) → has_break (c ∷ t) ≡ false → ends_line (c ∷ t) ≡ false
unfolding ends_line
not-ends_line c [] h = ground arith
not-ends_line c (d ∷ t) h = not-ends_line d t (ground arith)

has_break-append : (a b : Text) → has_break (a ++ b) ≡ has_break a || has_break b
has_break-append [] b = refl
has_break-append (c ∷ a) b = ground (arith, has_break-append a b)

-- The text of a JSON object on one line.
pub record IsObjectText (t : Text) : Type 0 where
  pub body : Text
  pub braces : t ≡ b'{' ∷ (body ++ b'}' ∷ [])
  pub one_line : has_break body ≡ false

has_break-IsObjectText : (t : Text) → IsObjectText t → has_break t ≡ false
has_break-IsObjectText t o = rw (o.braces, has_break-append, o.one_line) refl

is_nil-IsObjectText : (t : Text) → IsObjectText t → is_nil t ≡ false
is_nil-IsObjectText t o = ap is_nil o.braces

kept_brace : (t : Text) → (if is_nil t && is_ascii_space b'{' then [] else b'{' ∷ t) ≡ b'{' ∷ t
kept_brace [] = refl
kept_brace (c ∷ t) = refl

-- White space after an object is stripped, and nothing else.
strip_bytes-IsObjectText :
    (t ending : Text)
    → IsObjectText t
    → rstrip_by is_ascii_space (b'}' ∷ ending) ≡ b'}' ∷ []
    → strip_bytes (t ++ ending) ≡ t
unfolding lstrip_by rstrip_by
strip_bytes-IsObjectText t ending o e =
    let kept = rstrip_by-append is_ascii_space o.body (b'}' ∷ ending) (ap is_nil e) in
    rw (o.braces, append_assoc, kept) (rw e (kept_brace (o.body ++ b'}' ∷ [])))

-- A newline in front of the end ends a line.
ends_line-newline : (t : Text) → ends_line (t ++ b'\n' ∷ []) ≡ true
unfolding ends_line
ends_line-newline [] = refl
ends_line-newline (c ∷ []) = refl
ends_line-newline (c ∷ d ∷ t) = ends_line-newline (d ∷ t)

-- `s` then `t`, as one text in braces.
joined : (s t : Text) → IsObjectText s → IsObjectText t → IsObjectText (s ++ t)
joined s t o p = record {
  body = o.body ++ b'}' ∷ b'{' ∷ p.body;
  braces =
      rw (o.braces, p.braces)
        (ap (◌∷◌ b'{') (
          append_assoc o.body (b'}' ∷ []) _
          ∙ sym (append_assoc o.body (b'}' ∷ b'{' ∷ p.body) (b'}' ∷ []))));
  one_line = rw (has_break-append, o.one_line, p.one_line) refl;
}

abbrev and_entries : List SessionEntry → ReadResult → ReadResult
and_entries [] r = r
and_entries (e ∷ es) r = and_entry e (and_entries es r)

and_entries-entries_and_file :
    (es fs : List SessionEntry) (file : Text)
    → and_entries es (entries_and_file fs file) ≡ entries_and_file (es ++ fs) file
and_entries-entries_and_file [] fs file = refl
and_entries-entries_and_file (e ∷ es) fs file = rw (and_entries-entries_and_file es fs file) refl

and_entries-refused :
    (es : List SessionEntry) (x : ReadError) → and_entries es (refused x) ≡ refused x
and_entries-refused [] x = refl
and_entries-refused (e ∷ es) x = rw (and_entries-refused es x) refl

-- The JSON texts of the ledger: `dumps` writes an object on one line, `loads` reads it back.
module _ (py : Conversions) (loads : Text → Loaded) (dumps : Fields → Text) where
  pub record IsStored (e : SessionEntry) : Type 0 where
    pub text : IsObjectText (dumps (to_dict e))
    pub loads_back : loads (dumps (to_dict e)) ≡ loaded (obj (to_dict e))
    pub reads_back : from_dict py (to_dict e) ≡ some e

  abbrev pub AreStored : List SessionEntry → Type 0
  AreStored [] = Unit
  AreStored (e ∷ es) = IsStored e × AreStored es

  -- The bytes after these entries were written.
  abbrev pub file_of : List SessionEntry → Text
  file_of [] = []
  file_of (e ∷ es) = dumps (to_dict e) ++ b'\n' ∷ file_of es

  -- What is left of a write that broke off: nothing, or bytes on one line that are no JSON.
  pub record IsBroken (t : Text) : Type 0 where
    pub one_line : has_break t ≡ false
    pub no_json :
        (is_nil t ≡ true)
        ⊎ ((is_nil (strip_bytes t) ≡ false) × (loads (strip_bytes t) ≡ invalid_json))

  -- The last line of a file, where no newline ends it.
  read_from-last :
      (kept t : Text)
      → has_break t ≡ false
      → is_nil (strip_bytes t) ≡ false
      → is_nil t ≡ false
      → read_from py loads kept (splitlines_keepends t)
        ≡ on_loaded py loads (loads (strip_bytes t)) kept t [] (entries_and_file [] (kept ++ t))
  unfolding read_from
  read_from-last kept [] h n m = absurd (ground arith)
  read_from-last kept (c ∷ t) h n m = rw (splitlines-tail c t h, n) refl

  read_from-broken :
      (kept tail : Text)
      → IsBroken tail
      → read_from py loads kept (splitlines_keepends tail) ≡ entries_and_file [] kept
  unfolding read_from splitlines_keepends
  read_from-broken kept [] b = refl
  read_from-broken kept (c ∷ tail) b = elim b.no_json [
    | inl e ↦ absurd (ground arith)
    | inr (n, l) ↦
        rw (splitlines-tail c tail b.one_line) (rw (n, l, not-ends_line c tail b.one_line) refl)
  ]

  -- A line in front of others that holds an object.
  read_from-line :
      (kept t rest : Text)
      → IsObjectText t
      → read_from py loads kept (splitlines_keepends (t ++ b'\n' ∷ rest))
        ≡ on_loaded py loads
            (loads t)
            kept
            (t ++ b'\n' ∷ [])
            (splitlines_keepends rest)
            (read_from py loads (kept ++ (t ++ b'\n' ∷ [])) (splitlines_keepends rest))
  unfolding read_from rstrip_by
  read_from-line kept t rest o =
      rw
        (
          splitlines-line t rest (has_break-IsObjectText t o),
          strip_bytes-IsObjectText t (b'\n' ∷ []) o refl,
          is_nil-IsObjectText t o,
        )
        refl

  read_unended :
      (kept : Text) (e : SessionEntry)
      → IsStored e
      → read_from py loads kept (splitlines_keepends (dumps (to_dict e)))
        ≡ entries_and_file (e ∷ []) (kept ++ dumps (to_dict e))
  unfolding rstrip_by
  read_unended kept e s =
      let d = dumps (to_dict e) in
      let stripped : strip_bytes d ≡ d =
        ap strip_bytes (sym (append-nil d)) ∙ strip_bytes-IsObjectText d [] s.text refl in
      read_from-last kept d (has_break-IsObjectText d s.text)
        (rw stripped (is_nil-IsObjectText d s.text)) (is_nil-IsObjectText d s.text)
      ∙ rw (stripped, s.loads_back, s.reads_back) refl

  -- A line that ends and is no JSON is refused.
  read_from-invalid :
      (kept t : Text)
      → IsObjectText t
      → loads t ≡ invalid_json
      → read_from py loads kept (splitlines_keepends (t ++ b'\n' ∷ [])) ≡ refused invalid_jsonl
  unfolding splitlines_keepends
  read_from-invalid kept t o l = read_from-line kept t [] o ∙ rw (l, ends_line-newline t) refl

  read_from-stored :
      (kept : Text) (e : SessionEntry) (rest : Text)
      → IsStored e
      → read_from py loads kept (splitlines_keepends (dumps (to_dict e) ++ b'\n' ∷ rest))
        ≡ and_entry e (
            read_from py loads
              (kept ++ (dumps (to_dict e) ++ b'\n' ∷ []))
              (splitlines_keepends rest))
  read_from-stored kept e rest s =
      read_from-line kept (dumps (to_dict e)) rest s.text ∙ rw (s.loads_back, s.reads_back) refl

  read_from-file :
      (kept : Text) (es : List SessionEntry) (rest : Text)
      → AreStored es
      → read_from py loads kept (splitlines_keepends (file_of es ++ rest))
        ≡ and_entries es (read_from py loads (kept ++ file_of es) (splitlines_keepends rest))
  read_from-file kept [] rest s = rw append-nil refl
  read_from-file kept (e ∷ es) rest s =
      let d = dumps (to_dict e) in
      ap (λ (t : Text). read_from py loads kept (splitlines_keepends t))
        (append_assoc d (b'\n' ∷ file_of es) rest)
      ∙ (read_from-stored kept e (file_of es ++ rest) s.0
          ∙ (ap (and_entry e) (read_from-file (kept ++ (d ++ b'\n' ∷ [])) es rest s.1)
              ∙ ap
                  (λ (t : Text).
                    and_entries (e ∷ es) (read_from py loads t (splitlines_keepends rest)))
                  (append_assoc kept (d ++ b'\n' ∷ []) (file_of es)
                    ∙ ap (◌++◌ kept) (append_assoc d (b'\n' ∷ []) (file_of es)))))

  -- However many entries were written, where the bytes of a later write that broke off stand on one
  -- line and are empty, or are not blank and no JSON (`loads` raises a JSONDecodeError), opening the
  -- file reads exactly these entries and cuts the file to their bytes, so that the next entry starts
  -- on a line of its own. Bytes that are no text and a line without its newline are not meant here.
  pub read_existing-broken :
      (es : List SessionEntry) (tail : Text)
      → AreStored es
      → same_session py loads es ≡ true
      → IsBroken tail
      → read_existing py loads (file_of es ++ tail) ≡ entries_and_file es (file_of es)
  unfolding read_existing
  read_existing-broken es tail s m b =
      rw
        (
          read_from-file [] es tail s,
          read_from-broken (file_of es) tail b,
          and_entries-entries_and_file,
          append-nil,
          m,
        )
        refl

  -- Where a write lost only its newline, opening the file reads the entry and leaves the file as it
  -- is. The next entry is then written on the same line, and where two objects in a row are no JSON
  -- the file cannot be opened again.
  pub read_existing-unended :
      (es : List SessionEntry) (e f : SessionEntry)
      → AreStored es
      → IsStored e
      → IsStored f
      → same_session py loads (es ++ e ∷ []) ≡ true
      → loads (dumps (to_dict e) ++ dumps (to_dict f)) ≡ invalid_json
      → (read_existing py loads (file_of es ++ dumps (to_dict e))
          ≡ entries_and_file (es ++ e ∷ []) (file_of es ++ dumps (to_dict e)))
        × (read_existing py loads (write_entry dumps (file_of es ++ dumps (to_dict e)) f)
            ≡ refused invalid_jsonl)
  unfolding read_existing write_entry
  read_existing-unended es e f s se sf m l = (
    rw
        (
          read_from-file [] es (dumps (to_dict e)) s,
          read_unended (file_of es) e se,
          and_entries-entries_and_file,
          m,
        )
        refl,
    rw
        (
          append_assoc,
          read_from-file [] es _ s,
          sym (append_assoc (dumps (to_dict e)) (dumps (to_dict f)) (b'\n' ∷ [])),
        )
        (rw
          (
            read_from-invalid (file_of es) (dumps (to_dict e) ++ dumps (to_dict f))
                (joined _ _ se.text sf.text) l,
            and_entries-refused,
          )
          refl),
  )
