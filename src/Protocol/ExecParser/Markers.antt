-- ===== src/Protocol/ExecParser/Markers.antt =====
-- Lines that are markers, lines that are not, and the parser on a run of lines that are not.
use py_code_act.Prelude.{
  Bool, true, false, List, [], ◌∷◌, ◌++◌, ◌≡◌, refl, ◌⊎◌, inl, inr, ◌||◌, arith, append_assoc,
  Bool-cases, Text, codes, eq_text, eq_text_iff, none, some, append-nil,
}
use py_code_act.Protocol.ExecParser.{
  ExecParser, ParserDelta, DeltaKind, prose, text, exec, after_exec, error, process_line,
  line_value,
}
use py_code_act.Protocol.ExecParser.Lines.{steps}

abbrev pub IsOpening : Text → Type 0
IsOpening line = line_value line ≡ codes "<exec>"

abbrev pub IsClosing : Text → Type 0
IsClosing line = line_value line ≡ codes "</exec>"

abbrev pub is_marker : Text → Bool
is_marker line =
    eq_text (line_value line) (codes "<exec>") || eq_text (line_value line) (codes "</exec>")

-- No line is a marker.
abbrev pub Plain : List Text → Type 0
Plain [] = Unit
Plain (line ∷ lines) = (is_marker line ≡ false) × Plain lines

-- One delta for each line.
abbrev pub told : DeltaKind → List Text → List ParserDelta
told kind [] = []
told kind (line ∷ lines) = record { kind = kind; delta = line } ∷ told kind lines

pub is_marker-cases : (line : Text) → is_marker line ≡ true → IsOpening line ⊎ IsClosing line
is_marker-cases line h = ground (
  arith,
  eq_text_iff (line_value line) (codes "<exec>"),
  eq_text_iff (line_value line) (codes "</exec>"),
)

pub first_marker :
    (lines : List Text)
    → Plain lines
      ⊎ ((before after : List Text) × (marker : Text) × (lines ≡ before ++ marker ∷ after)
          × Plain before
          × (IsOpening marker ⊎ IsClosing marker))
first_marker [] = inl tt
first_marker (line ∷ lines) = elim (Bool-cases (is_marker line)) [
  | inl m ↦ inr ([], lines, line, refl, tt, is_marker-cases line m)
  | inr n ↦ elim (first_marker lines) [
    | inl plain ↦ inl (n, plain)
    | inr (before, after, marker, e, plain, m) ↦
        inr (line ∷ before, after, marker, cc, (n, plain), m)
  ]
]

pub steps-text :
    (p : ExecParser) (lines : List Text)
    → p.state ≡ text
    → Plain lines
    → steps p lines ≡ (record p { prefix = p.prefix ++ lines }, told prose lines)
unfolding steps process_line
steps-text p [] h plain = rw append-nil
steps-text p (line ∷ lines) h plain = ground (
  arith,
  steps-text (record p { prefix = p.prefix ++ line ∷ [] }) lines,
  append_assoc p.prefix (line ∷ []) lines,
)

pub steps-exec :
    (p : ExecParser) (lines : List Text)
    → p.state ≡ exec
    → Plain lines
    → steps p lines ≡ (record p { code = p.code ++ lines }, told DeltaKind.code lines)
unfolding steps process_line
steps-exec p [] h plain = rw append-nil
steps-exec p (line ∷ lines) h plain = ground (
  arith,
  steps-exec (record p { code = p.code ++ line ∷ [] }) lines,
  append_assoc p.code (line ∷ []) lines,
)

pub steps-after_exec :
    (p : ExecParser) (lines : List Text)
    → p.state ≡ after_exec
    → Plain lines
    → steps p lines ≡ (record p { suffix = p.suffix ++ lines }, told prose lines)
unfolding steps process_line
steps-after_exec p [] h plain = rw append-nil
steps-after_exec p (line ∷ lines) h plain = ground (
  arith,
  steps-after_exec (record p { suffix = p.suffix ++ line ∷ [] }) lines,
  append_assoc p.suffix (line ∷ []) lines,
)

eq_text_refl : (a : Text) → eq_text a a ≡ true
eq_text_refl a = (eq_text_iff a a).1 refl

markers_differ : eq_text (codes "</exec>") (codes "<exec>") ≡ false
unfolding eq_text codes
markers_differ = refl

-- The opening marker, where it is allowed.
pub process_line-opening :
    (p : ExecParser) (line : Text)
    → p.state ≡ text
    → IsOpening line
    → process_line p line ≡ (record p { state = exec }, none)
unfolding process_line
process_line-opening p line s o = rw (s, o, eq_text_refl) refl

pub process_line-closing :
    (p : ExecParser) (line : Text)
    → p.state ≡ exec
    → IsClosing line
    → process_line p line ≡ (record p { state = after_exec }, none)
unfolding process_line
process_line-closing p line s o = ground (arith, markers_differ, eq_text_refl (codes "</exec>"))

-- Where a marker stops the parser: a closing marker before any opening one, an opening one inside
-- a block, and any after it.
abbrev pub Refused : ExecParser → Text → Type 0
Refused p line =
    ((p.state ≡ text) × IsClosing line)
    ⊎ ((p.state ≡ exec) × IsOpening line)
    ⊎ ((p.state ≡ after_exec) × (IsOpening line ⊎ IsClosing line))

-- The parser stops there in its error state with a message, and tells nothing of the line.
pub process_line-Refused :
    (p : ExecParser) (line : Text)
    → Refused p line
    → (message : Text) × (process_line p line
        ≡ (record p { state = error; error = some message }, none))
unfolding process_line
process_line-Refused p line (inl (s, m)) = (
  codes "closing </exec> marker without an opening marker",
  rw (s, m, markers_differ, eq_text_refl) refl,
)
process_line-Refused p line (inr (inl (s, m))) =
    (codes "a second <exec> marker is not allowed", rw (s, m, eq_text_refl) refl)
process_line-Refused p line (inr (inr (s, inl m))) = (
  codes "only one execution block is allowed per assistant response",
  rw (s, m, eq_text_refl) refl,
)
process_line-Refused p line (inr (inr (s, inr m))) = (
  codes "only one execution block is allowed per assistant response",
  rw (s, m, markers_differ, eq_text_refl) refl,
)
