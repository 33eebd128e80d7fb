-- ===== src/Kernel/Outputs.antt =====
-- The messages of a kernel as outputs (src/py_code_act/kernel/outputs.py).
use py_code_act.Prelude.{
  ℕ, zero, suc, ◌-◌, Bool, true, false, ◌&&◌, Option, none, some, List, [], ◌∷◌, leb, ◌==◌,
  if◌then◌else◌, ◌>>=◌, Text, codes, eq_text,
}
use py_code_act.Domain.Json.{
  Json, arr, Fields, get, mapping, Conversions, text_at, is_text, to_texts,
}
use py_code_act.Domain.Execution.{stdout, stderr, ExecutionOutput, stream, value, display}

-- The length of the rest of a match of ANSI_ESCAPE after "\x1b[": parameters, where none of the
-- intermediate characters was yet, intermediate characters and a final one. The three classes have
-- no character in common.
unfoldable pub escape_length : Bool → Text → Option ℕ
escape_length in_parameters [] = none
escape_length in_parameters (c ∷ t) =
    let parameters = escape_length true t in
    let intermediates = escape_length false t in
    if in_parameters && leb 48 c && leb c 63
    then (do n ← parameters; some (suc n))
    else if leb 32 c && leb c 47
    then (do n ← intermediates; some (suc n))
    else if leb 64 c && leb c 126
    then some 1
    else none

-- The length of a match at the start of a text.
abbrev match_length : Text → Option ℕ
match_length (c ∷ d ∷ t) =
    if c == 27 && d == b'[' then (do n ← escape_length true t; some (suc (suc n))) else none
match_length _ = none

-- `ANSI_ESCAPE.sub("", t)`, where the next characters are still in a match
unfoldable pub without_escapes : ℕ → Text → Text
without_escapes n [] = []
without_escapes (suc n) (c ∷ t) = without_escapes n t
without_escapes zero (c ∷ t) = elim (match_length (c ∷ t)) [
  | none ↦ c ∷ without_escapes 0 t
  | some n ↦ without_escapes (n - 1) t
]

abbrev pub strip_escapes : List Text → List Text
strip_escapes [] = []
strip_escapes (line ∷ lines) = without_escapes 0 line ∷ strip_escapes lines

module _ (py : Conversions) where
  abbrev traceback_lines : Option Json → List Text
  traceback_lines (some (arr items)) = strip_escapes (to_texts py items)
  traceback_lines _ = []

  abbrev plain_text : Option Fields → Option Text
  plain_text none = none
  plain_text (some fields) = elim (get "text/plain" fields) [
    | none ↦ none
    | some v ↦ some (py.to_str v)
  ]

  abbrev from_content : Option Json → Fields → Option ExecutionOutput
  from_content kind content =
      if is_text kind "stream"
      then some (
          stream
            (if eq_text (text_at py "name" (codes "stdout") content) (codes "stderr")
              then stderr
              else stdout)
            (text_at py "text" [] content))
      else if is_text kind "execute_result"
      then (do t ← plain_text (mapping (get "data" content)); some (value (codes "text/plain") t))
      else if is_text kind "display_data"
      then (do t ← plain_text (mapping (get "data" content)); some (display (codes "text/plain") t))
      else if is_text kind "error"
      then some (
          ExecutionOutput.error (text_at py "ename" (codes "Error") content)
            (text_at py "evalue" [] content) (traceback_lines (get "traceback" content)))
      else none

  -- `output_from_iopub`
  unfoldable pub output_from_iopub : Fields → Option ExecutionOutput
  output_from_iopub message = elim (mapping (get "content" message)) [
    | none ↦ none
    | some content ↦ from_content (get "msg_type" message) content
  ]
