-- ===== src/Protocol/Observations.antt =====
-- Observations as the text that the model reads (src/py_code_act/protocol/exec_result.py).
pub mod Tags
use py_code_act.Prelude.{
  ℕ, zero, suc, ◌+◌, ◌-◌, ◌≤◌, ◌<◌, String, ◌≡◌, refl, sym, ap, ◌∙◌, ◌≢◌, ◌↔◌, ◌⊎◌, inl, inr, Bool,
  true, false, not, ◌&&◌, ◌||◌, Option, none, some, List, [], ◌∷◌, ◌++◌, map, append-nil,
  append_assoc, arith, ltb, leb, ◌==◌, if◌then◌else◌, Bool-cases, Option-cases, is_some, ◌>>=◌,
  Text, codes, is_nil, length, length-append, eq_text, eq_text_iff, join, join-append,
}
use py_code_act.Domain.Json.{Conversions, int}
use py_code_act.Domain.Execution.{ExecutionOutput, stream, value, display}
use py_code_act.Domain.Messages.{ExecutionMessage, ProtocolErrorMessage, KernelNoticeMessage}
use py_code_act.Domain.Codec.Outputs.{channel_text}
use py_code_act.Domain.Codec.Transcript.{status_text}

-- `xml.sax.saxutils.escape`: the three replacements act on different characters, and none on what
-- another one writes but that of `&`, which comes first.
abbrev pub escape_char : ℕ → Text
escape_char c =
    if c == b'&'
    then codes "&amp;"
    else if c == b'>'
    then codes "&gt;"
    else if c == b'<'
    then codes "&lt;"
    else c ∷ []

unfoldable pub escape : Text → Text
escape [] = []
escape (c ∷ t) = escape_char c ++ escape t

-- the further entities of `quoteattr`
abbrev pub escape_attribute_char : ℕ → Text
escape_attribute_char c =
    if c == b'\n'
    then codes "&#10;"
    else if c == b'\r'
    then codes "&#13;"
    else if c == b'\t'
    then codes "&#9;"
    else escape_char c

unfoldable pub escape_attribute : Text → Text
escape_attribute [] = []
escape_attribute (c ∷ t) = escape_attribute_char c ++ escape_attribute t

-- `c in t`
unfoldable pub contains : ℕ → Text → Bool
contains c [] = false
contains c (x ∷ t) = x == c || contains c t

-- `t.replace("\"", "&quot;")`
unfoldable pub replace_quotes : Text → Text
replace_quotes [] = []
replace_quotes (c ∷ t) = (if c == b'"' then codes "&quot;" else c ∷ []) ++ replace_quotes t

-- `xml.sax.saxutils.quoteattr`
unfoldable pub quoteattr : Text → Text
quoteattr t =
    let body = escape_attribute t in
    if contains b'"' body
    then (if contains b'\'' body
        then b'"' ∷ replace_quotes body ++ b'"' ∷ []
        else b'\'' ∷ body ++ b'\'' ∷ [])
    else b'"' ∷ body ++ b'"' ∷ []

-- `"\n".join(lines)`
unfoldable pub join_lines : List Text → Text
join_lines [] = []
join_lines (t ∷ []) = t
join_lines (t ∷ ts) = t ++ b'\n' ∷ join_lines ts

-- An f-string is the `join` of its pieces.
unfoldable pub format_output : ExecutionOutput → Text
format_output (stream channel t) = join (
    codes "<stream channel="
    ∷ quoteattr (channel_text channel)
    ∷ codes ">"
    ∷ escape t
    ∷ codes "</stream>"
    ∷ [])
format_output (value mime_type content) = join (
    codes "<value mime_type="
    ∷ quoteattr mime_type
    ∷ codes ">"
    ∷ escape content
    ∷ codes "</value>"
    ∷ [])
format_output (display mime_type content) = join (
    codes "<display mime_type="
    ∷ quoteattr mime_type
    ∷ codes ">"
    ∷ escape content
    ∷ codes "</display>"
    ∷ [])
format_output (ExecutionOutput.error name message traceback) = join (
    codes "<error name="
    ∷ quoteattr name
    ∷ codes " message="
    ∷ quoteattr message
    ∷ codes ">"
    ∷ escape (join_lines traceback)
    ∷ codes "</error>"
    ∷ [])

module _ (py : Conversions) where
  opening_tag : ExecutionMessage → Text
  opening_tag m = join (
      codes "<exec_result id="
      ∷ quoteattr m.exec_id
      ∷ codes " status="
      ∷ quoteattr (status_text m.status)
      ∷ codes " kernel_generation="
      ∷ quoteattr (py.to_str (int m.kernel_generation))
      ∷ codes ">"
      ∷ [])

  unfoldable pub format_execution_result : ExecutionMessage → Text
  unfolding opening_tag
  format_execution_result m =
      join_lines (opening_tag m ∷ map format_output m.outputs ++ codes "</exec_result>" ∷ [])

  unfoldable pub format_protocol_error : ProtocolErrorMessage → Text
  format_protocol_error m = join (
      codes "<protocol_error error="
      ∷ quoteattr m.error
      ∷ codes " assistant_message_id="
      ∷ quoteattr m.assistant_message_id
      ∷ codes ">\n"
      ∷ escape m.message
      ∷ codes "\n</protocol_error>"
      ∷ [])

  unfoldable pub format_kernel_notice : KernelNoticeMessage → Text
  format_kernel_notice m = join (
      codes "<kernel_notice reason="
      ∷ quoteattr m.reason
      ∷ codes " kernel_generation="
      ∷ quoteattr (py.to_str (int m.kernel_generation))
      ∷ codes ">\n"
      ∷ escape m.message
      ∷ codes "\n</kernel_notice>"
      ∷ [])
