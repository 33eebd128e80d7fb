-- ===== src/Observability.antt =====
-- The development trace (src/py_code_act/observability/redaction.py and trace.py in the same
-- directory). `lower` is Python's `str.lower`.
pub mod Secrets
pub mod Trace
use py_code_act.Prelude.{
  ℕ, zero, suc, ◌+◌, ◌-◌, ◌≤◌, ◌<◌, String, ◌≡◌, refl, sym, ap, ◌∙◌, ◌≢◌, ◌↔◌, ◌⊎◌, inl, inr, Bool,
  true, false, not, ◌&&◌, ◌||◌, Option, none, some, List, [], ◌∷◌, ◌++◌, map, append-nil,
  append_assoc, arith, ltb, leb, ◌==◌, if◌then◌else◌, Bool-cases, Option-cases, is_some, ◌>>=◌,
  Text, codes, is_nil, length, length-append, eq_text, eq_text_iff, join, join-append,
}
use py_code_act.Prelude.Int.{pos}
use text.Mathlib.Text.{◌==◌ as str_eq}
use py_code_act.Domain.Json.{
  Json, null, bool, int, real, str, arr, obj, Items, nil, cons, Fields, end, field,
}

abbrev pub sensitive_keys : List Text
sensitive_keys =
    codes "authorization"
    ∷ codes "api_key"
    ∷ codes "apikey"
    ∷ codes "access"
    ∷ codes "access_token"
    ∷ codes "refresh"
    ∷ codes "refresh_token"
    ∷ codes "cookie"
    ∷ codes "set-cookie"
    ∷ codes "client_secret"
    ∷ codes "code_verifier"
    ∷ []

abbrev pub member : Text → List Text → Bool
member t [] = false
member t (x ∷ xs) = eq_text t x || member t xs

-- "[REDACTED]"
abbrev pub mask : Json
mask = str (codes "[REDACTED]")

module _ (lower : Text → Text) where
  -- `str(key).lower() in SENSITIVE_KEYS`
  unfoldable pub is_sensitive : String → Bool
  is_sensitive key = member (lower (codes key)) sensitive_keys

  -- `redact` on JSON values; other objects it gives back as they are.
  unfoldable mutual
    pub redact : Json → Json
    redact null = null
    redact (bool b) = bool b
    redact (int n) = int n
    redact (real t) = real t
    redact (str t) = str t
    redact (arr items) = arr (redact_items items)
    redact (obj fields) = obj (redact_fields fields)

    pub redact_items : Items → Items
    redact_items nil = nil
    redact_items (cons v items) = cons (redact v) (redact_items items)

    pub redact_fields : Fields → Fields
    redact_fields end = end
    redact_fields (field key v fields) =
        let clean = redact v in
        field key (if is_sensitive key then mask else clean) (redact_fields fields)

-- A recorder with its file, as the objects of its lines, the messages it wrote to stderr, and the
-- exceptions that left `record`.
pub record TraceRecorder : Type 0 where
  pub enabled : Bool
  pub provider_raw : Bool
  pub sequence : ℕ
  pub reported_failure : Bool
  pub lines : List Fields
  pub notices : List Text
  pub raised : List Text

unfoldable pub report_failure : TraceRecorder → Text → TraceRecorder
report_failure r error =
    if r.reported_failure
    then r
    else record r { notices = r.notices ++ error ∷ []; reported_failure = true }

-- Opening the file: `none` where it succeeds, or the text of an OSError.
abbrev pub disabled_by : TraceRecorder → Option Text → TraceRecorder → TraceRecorder
disabled_by r none written = written
disabled_by r (some error) written = report_failure (record r { enabled = false }) error

-- `__init__`, on a file that holds no lines yet
unfoldable pub new_recorder : Bool → Bool → Option Text → TraceRecorder
new_recorder enabled provider_raw opening =
    let r : TraceRecorder = record {
      enabled = enabled;
      provider_raw = provider_raw;
      sequence = 0;
      reported_failure = false;
      lines = [];
      notices = [];
      raised = [];
    } in
    let opened = disabled_by r opening r in if enabled then opened else r

-- Writing a line: it succeeds, it fails with an OSError, or another exception comes before anything is
-- written, such as the UnicodeEncodeError of a lone surrogate in the text.
pub data Writing : Type 0 where
  line_written : Writing
  os_error unwritable : Text → Writing

-- A call of `record` with what its clock and its file give.
pub record Call : Type 0 where
  pub event : Text
  pub payload : Json
  pub correlation : Fields
  pub timestamp : Text
  pub monotonic : Text
  pub writing : Writing

abbrev pub skips : TraceRecorder → Text → Bool
skips r event = not r.enabled || (eq_text event (codes "openai.raw_event") && not r.provider_raw)

-- What becomes of a line: only an OSError is caught.
abbrev pub after_writing : TraceRecorder → Fields → Writing → TraceRecorder
after_writing r line line_written = record r { lines = r.lines ++ line ∷ [] }
after_writing r line (os_error error) = disabled_by r (some error) r
after_writing r line (unwritable error) = record r { raised = r.raised ++ error ∷ [] }

module _ (lower : Text → Text) where
  abbrev pub line_of : ℕ → Call → Fields
  line_of n c = field "timestamp" (str c.timestamp) (
      field "monotonic" (real c.monotonic) (
        field "sequence" (int (pos n)) (
          field "event" (str c.event) (
            field "correlation" (obj (redact_fields lower c.correlation))
              (field "payload" (redact lower c.payload) end)))))

  -- `record`
  unfoldable pub trace : TraceRecorder → Call → TraceRecorder
  trace r c =
      if skips r c.event
      then r
      else after_writing (record r { sequence = suc r.sequence }) (line_of (suc r.sequence) c)
          c.writing

  unfoldable pub traces : TraceRecorder → List Call → TraceRecorder
  traces r [] = r
  traces r (c ∷ later) = traces (trace r c) later
