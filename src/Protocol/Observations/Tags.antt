-- ===== src/Protocol/Observations/Tags.antt =====
-- The angle brackets of an observation (src/py_code_act/protocol/exec_result.py).
use py_code_act.Prelude.{
  ℕ, ◌+◌, ◌≡◌, refl, Bool, true, false, List, [], ◌∷◌, ◌++◌, map, append-nil, arith, ◌==◌,
  if◌then◌else◌, Text, codes, length, join,
}
use Prim.Native.Nat.{◌*◌}
use py_code_act.Domain.Json.{Conversions, int}
use py_code_act.Domain.Execution.{ExecutionOutput, stream, value, display}
use py_code_act.Domain.Messages.{ExecutionMessage, ProtocolErrorMessage, KernelNoticeMessage}
use py_code_act.Domain.Codec.Outputs.{channel_text}
use py_code_act.Domain.Codec.Transcript.{status_text}
use py_code_act.Protocol.Observations.{
  escape_char, escape, escape_attribute_char, escape_attribute, contains, replace_quotes, quoteattr,
  join_lines, format_output, format_execution_result, format_protocol_error, format_kernel_notice,
}

-- How often a character occurs in a text.
abbrev pub occurrences : ℕ → Text → ℕ
occurrences c [] = 0
occurrences c (x ∷ t) = (if x == c then 1 else 0) + occurrences c t

-- The text has so many `<` and so many `>`.
pub record HasTags (n m : ℕ) (t : Text) : Type 0 where
  pub opened : occurrences b'<' t ≡ n
  pub closed : occurrences b'>' t ≡ m

occurrences-append :
    (c : ℕ) (a b : Text) → occurrences c (a ++ b) ≡ occurrences c a + occurrences c b
occurrences-append c [] b = omega arith
occurrences-append c (x ∷ a) b = omega (arith, occurrences-append c a b)

HasTags-append :
    {n m k l : ℕ} {a b : Text} → HasTags n m a → HasTags k l b → HasTags (n + k) (m + l) (a ++ b)
HasTags-append {a = a} {b = b} h h' = record {
  opened = omega (arith, occurrences-append b'<' a b, h.opened, h'.opened);
  closed = omega (arith, occurrences-append b'>' a b, h.closed, h'.closed);
}

escape_char-HasTags : (c : ℕ) → HasTags 0 0 (escape_char c)
unfolding codes
escape_char-HasTags c = record { opened = ground arith; closed = ground arith }

escape-HasTags : (t : Text) → HasTags 0 0 (escape t)
unfolding escape
escape-HasTags [] = record { opened = refl; closed = refl }
escape-HasTags (c ∷ t) = HasTags-append (escape_char-HasTags c) (escape-HasTags t)

escape_attribute_char-HasTags : (c : ℕ) → HasTags 0 0 (escape_attribute_char c)
unfolding codes
escape_attribute_char-HasTags c = record { opened = ground arith; closed = ground arith }

escape_attribute-HasTags : (t : Text) → HasTags 0 0 (escape_attribute t)
unfolding escape_attribute
escape_attribute-HasTags [] = record { opened = refl; closed = refl }
escape_attribute-HasTags (c ∷ t) =
    HasTags-append (escape_attribute_char-HasTags c) (escape_attribute-HasTags t)

replace_quotes-HasTags : (t : Text) → HasTags 0 0 t → HasTags 0 0 (replace_quotes t)
unfolding replace_quotes codes
replace_quotes-HasTags [] h = record { opened = refl; closed = refl }
replace_quotes-HasTags (c ∷ t) h =
    HasTags-append {n = 0} {m = 0}
      (record { opened = ground (arith, h.opened); closed = ground (arith, h.closed) })
      (replace_quotes-HasTags t
        (record { opened = ground (arith, h.opened); closed = ground (arith, h.closed) }))

quoted-HasTags :
    (q : ℕ) (t : Text) → HasTags 0 0 (q ∷ []) → HasTags 0 0 t → HasTags 0 0 (q ∷ t ++ q ∷ [])
quoted-HasTags q t hq h = HasTags-append hq (HasTags-append h hq)

HasTags-if :
    {n m : ℕ} (b : Bool) (s t : Text)
    → HasTags n m s
    → HasTags n m t
    → HasTags n m (if b then s else t)
HasTags-if true s t hs ht = hs
HasTags-if false s t hs ht = ht

quoteattr-HasTags : (t : Text) → HasTags 0 0 (quoteattr t)
unfolding quoteattr
quoteattr-HasTags t =
    let body = escape_attribute-HasTags t in
    let double : HasTags 0 0 (b'"' ∷ []) = record { opened = refl; closed = refl } in
    let single : HasTags 0 0 (b'\'' ∷ []) = record { opened = refl; closed = refl } in
    HasTags-if (contains b'"' (escape_attribute t)) _ _
      (HasTags-if (contains b'\'' (escape_attribute t)) _ _
        (quoted-HasTags b'"' _ double (replace_quotes-HasTags _ body))
        (quoted-HasTags b'\'' _ single body))
      (quoted-HasTags b'"' _ double body)

HasTags-literal : (t : Text) → HasTags (occurrences b'<' t) (occurrences b'>' t) t
HasTags-literal t = record { opened = refl; closed = refl }

-- A line in front of other lines adds its own tags.
HasTags-cons :
    (n : ℕ) (t : Text) (ts : List Text) (m : ℕ)
    → HasTags n n t
    → HasTags m m (join_lines ts)
    → HasTags (n + m) (n + m) (join_lines (t ∷ ts))
unfolding join_lines
HasTags-cons n t [] m h k = record {
  opened = omega (arith, h.opened, k.opened);
  closed = omega (arith, h.closed, k.closed);
}
HasTags-cons n t (u ∷ ts) m h k = record {
  opened =
      omega (arith, h.opened, k.opened, occurrences-append b'<' t (b'\n' ∷ join_lines (u ∷ ts)));
  closed =
      omega (arith, h.closed, k.closed, occurrences-append b'>' t (b'\n' ∷ join_lines (u ∷ ts)));
}

HasTags-piece :
    {n m k l : ℕ} {a : Text} (ts : List Text)
    → HasTags n m a
    → HasTags k l (join ts)
    → HasTags (n + k) (m + l) (join (a ∷ ts))
unfolding join
HasTags-piece ts h h' = HasTags-append h h'

HasTags-last : (t : Text) → HasTags (occurrences b'<' t) (occurrences b'>' t) (join (t ∷ []))
unfolding join
HasTags-last t = rw (append-nil t) (HasTags-literal t)

format_output-HasTags : (o : ExecutionOutput) → HasTags 2 2 (format_output o)
unfolding format_output codes
format_output-HasTags (stream channel t) =
    HasTags-piece _ (HasTags-literal (codes "<stream channel=")) (
      HasTags-piece _ (quoteattr-HasTags (channel_text channel)) (
        HasTags-piece _ (HasTags-literal (codes ">"))
          (HasTags-piece _ (escape-HasTags t) (HasTags-last (codes "</stream>")))))
format_output-HasTags (value mime_type content) =
    HasTags-piece _ (HasTags-literal (codes "<value mime_type=")) (
      HasTags-piece _ (quoteattr-HasTags mime_type) (
        HasTags-piece _ (HasTags-literal (codes ">"))
          (HasTags-piece _ (escape-HasTags content) (HasTags-last (codes "</value>")))))
format_output-HasTags (display mime_type content) =
    HasTags-piece _ (HasTags-literal (codes "<display mime_type=")) (
      HasTags-piece _ (quoteattr-HasTags mime_type) (
        HasTags-piece _ (HasTags-literal (codes ">"))
          (HasTags-piece _ (escape-HasTags content) (HasTags-last (codes "</display>")))))
format_output-HasTags (ExecutionOutput.error name message traceback) =
    HasTags-piece _ (HasTags-literal (codes "<error name=")) (
      HasTags-piece _ (quoteattr-HasTags name) (
        HasTags-piece _ (HasTags-literal (codes " message=")) (
          HasTags-piece _ (quoteattr-HasTags message) (
            HasTags-piece _ (HasTags-literal (codes ">")) (
              HasTags-piece _ (escape-HasTags (join_lines traceback))
                (HasTags-last (codes "</error>")))))))

outputs-HasTags :
    (os : List ExecutionOutput)
    → HasTags
        (2 * length os + 1)
        (2 * length os + 1)
        (join_lines (map format_output os ++ codes "</exec_result>" ∷ []))
unfolding join_lines codes
outputs-HasTags [] = record { opened = refl; closed = refl }
outputs-HasTags (o ∷ os) =
    let h =
      HasTags-cons 2 (format_output o) (map format_output os ++ codes "</exec_result>" ∷ [])
        (2 * length os + 1) (format_output-HasTags o) (outputs-HasTags os) in
    record { opened = omega (arith, h.opened); closed = omega (arith, h.closed) }

module _ (py : Conversions) where
  -- The text of an execution has two tags for itself and two for every output, and no other `<` or
  -- `>`, whatever the cell wrote: nothing that a cell writes can open or close a tag.
  pub format_execution_result-HasTags :
      (m : ExecutionMessage)
      → HasTags (2 * length m.outputs + 2) (2 * length m.outputs + 2) (format_execution_result py m)
  unfolding format_execution_result codes
  format_execution_result-HasTags m =
      let opening = HasTags-piece _ (HasTags-literal (codes "<exec_result id=")) (
        HasTags-piece _ (quoteattr-HasTags m.exec_id) (
          HasTags-piece _ (HasTags-literal (codes " status=")) (
            HasTags-piece _ (quoteattr-HasTags (status_text m.status)) (
              HasTags-piece _ (HasTags-literal (codes " kernel_generation=")) (
                HasTags-piece _ (quoteattr-HasTags (py.to_str (int m.kernel_generation)))
                  (HasTags-last (codes ">"))))))) in
      let h = HasTags-cons 1 _ _ (2 * length m.outputs + 1) opening (outputs-HasTags m.outputs) in
      record { opened = omega (arith, h.opened); closed = omega (arith, h.closed) }

  -- The text of a protocol error or of a kernel notice has two tags and no other `<` or `>`.
  pub notices-HasTags :
      (e : ProtocolErrorMessage) (n : KernelNoticeMessage)
      → HasTags 2 2 (format_protocol_error py e) × HasTags 2 2 (format_kernel_notice py n)
  unfolding format_protocol_error format_kernel_notice codes
  notices-HasTags e n = (
    HasTags-piece _ (HasTags-literal (codes "<protocol_error error=")) (
        HasTags-piece _ (quoteattr-HasTags e.error) (
          HasTags-piece _ (HasTags-literal (codes " assistant_message_id=")) (
            HasTags-piece _ (quoteattr-HasTags e.assistant_message_id) (
              HasTags-piece _ (HasTags-literal (codes ">\n")) (
                HasTags-piece _ (escape-HasTags e.message)
                  (HasTags-last (codes "\n</protocol_error>"))))))),
    HasTags-piece _ (HasTags-literal (codes "<kernel_notice reason=")) (
        HasTags-piece _ (quoteattr-HasTags n.reason) (
          HasTags-piece _ (HasTags-literal (codes " kernel_generation=")) (
            HasTags-piece _ (quoteattr-HasTags (py.to_str (int n.kernel_generation))) (
              HasTags-piece _ (HasTags-literal (codes ">\n")) (
                HasTags-piece _ (escape-HasTags n.message)
                  (HasTags-last (codes "\n</kernel_notice>"))))))),
  )
