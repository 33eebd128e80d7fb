-- ===== src/Protocol/ExecParser.antt =====
-- The incremental parser of one `<exec>` block (src/py_code_act/protocol/exec_parser.py).
pub mod Lines
pub mod Feeding
pub mod Chunks
pub mod Markers
pub mod Blocks
pub mod Reading
pub mod Correct
use py_code_act.Prelude.{
  ℕ, zero, suc, Bool, true, false, ◌&&◌, ◌||◌, Option, none, some, List, [], ◌∷◌, ◌++◌, ◌==◌,
  if◌then◌else◌, ◌>>=◌, Text, codes, is_nil, length, eq_text, join,
}
use py_code_act.Domain.Messages.{AssistantBlock, text_block, ExecBlock}

pub data ParserState : Type 0 where
  text exec after_exec error : ParserState

pub data DeltaKind : Type 0 where
  prose code : DeltaKind

pub record ParserDelta : Type 0 where
  pub kind : DeltaKind
  pub delta : Text

pub record ExecParser : Type 0 where
  pub state : ParserState
  pub pending : Text
  pub raw : List Text
  pub prefix : List Text
  pub code : List Text
  pub suffix : List Text
  pub error : Option Text
  pub finalized : Bool

abbrev pub initial : ExecParser
initial = record {
  state = text;
  pending = [];
  raw = [];
  prefix = [];
  code = [];
  suffix = [];
  error = none;
  finalized = false;
}

-- `text.removesuffix(c)` for one character
pub removesuffix : ℕ → Text → Text
removesuffix c [] = []
removesuffix c (x ∷ xs) = if is_nil xs && x == c then [] else x ∷ removesuffix c xs

unfoldable pub line_value : Text → Text
unfolding removesuffix
line_value line = removesuffix b'\r' (removesuffix b'\n' line)

abbrev pub fail : ExecParser → Text → ExecParser
fail p message = record p { state = error; error = some message }

-- `_process_line`, branch by branch of the state
process_text : ExecParser → Text → ExecParser × Option ParserDelta
process_text p line =
    let value = line_value line in
    if eq_text value (codes "<exec>")
    then (record p { state = exec }, none)
    else if eq_text value (codes "</exec>")
    then (fail p (codes "closing </exec> marker without an opening marker"), none)
    else (record p { prefix = p.prefix ++ line ∷ [] }, some (record { kind = prose; delta = line }))

process_exec : ExecParser → Text → ExecParser × Option ParserDelta
process_exec p line =
    let value = line_value line in
    if eq_text value (codes "<exec>")
    then (fail p (codes "a second <exec> marker is not allowed"), none)
    else if eq_text value (codes "</exec>")
    then (record p { state = after_exec }, none)
    else (
      record p { code = p.code ++ line ∷ [] },
      some (record { kind = DeltaKind.code; delta = line }),
    )

process_after : ExecParser → Text → ExecParser × Option ParserDelta
process_after p line =
    let value = line_value line in
    if eq_text value (codes "<exec>") || eq_text value (codes "</exec>")
    then (fail p (codes "only one execution block is allowed per assistant response"), none)
    else (record p { suffix = p.suffix ++ line ∷ [] }, some (record { kind = prose; delta = line }))

process_in : ParserState → ExecParser → Text → ExecParser × Option ParserDelta
process_in text p line = process_text p line
process_in exec p line = process_exec p line
process_in after_exec p line = process_after p line
process_in error p line = (p, none)

unfoldable pub process_line : ExecParser → Text → ExecParser × Option ParserDelta
unfolding process_in process_text process_exec process_after
process_line p line = process_in p.state p line

-- The text up to its first newline and the rest, if it has a newline (`find`, and the two slices).
unfoldable pub cut_line : Text → Option (Text × Text)
cut_line [] = none
cut_line (x ∷ xs) =
    if x == b'\n'
    then some (x ∷ [], xs)
    else elim (cut_line xs) [ none ↦ none | some (line, rest) ↦ some (x ∷ line, rest) ]

abbrev pub to_list {ℓ} : {A : Type ℓ} → Option A → List A
to_list none = []
to_list (some a) = a ∷ []

-- The `while` loop of `feed`; each round shortens `pending`, so `suc (length pending)` rounds do.
unfoldable pub drain : ℕ → ExecParser → ExecParser × List ParserDelta
drain zero p = (p, [])
drain (suc fuel) p = elim (cut_line p.pending) [
  | none ↦ (p, [])
  | some (line, rest) ↦
      let (q, delta) = process_line (record p { pending = rest }) line in
      let (r, deltas) = drain fuel q in (r, to_list delta ++ deltas)
]

-- `none` is the RuntimeError "parser is already finalized".
unfoldable pub feed : ExecParser → Text → Option (ExecParser × List ParserDelta)
feed p chunk =
    if p.finalized
    then none
    else if is_nil chunk
    then some (p, [])
    else let kept = record p { raw = p.raw ++ chunk ∷ [] } in
      elim p.state [
        | error ↦ some (kept, [])
        | _ ↦
            let fed = record kept { pending = p.pending ++ chunk } in
            some (drain (suc (length fed.pending)) fed)
      ]

pub record ParserResult : Type 0 where
  pub blocks : List AssistantBlock
  pub exec_block : Option ExecBlock
  pub error : Option Text
  pub final_deltas : List ParserDelta

-- The last line has no newline; it is processed like the others.
flush : ExecParser → ExecParser × List ParserDelta
flush p = elim p.state [
  | error ↦ (p, [])
  | _ ↦
      if is_nil p.pending
      then (p, [])
      else let (q, delta) = process_line p p.pending in (record q { pending = [] }, to_list delta)
]

end_of_input : ExecParser → ExecParser
end_of_input p = elim p.state [
  | exec ↦ fail p (codes "assistant response ended inside an execution block")
  | _ ↦ p
]

unfoldable pub nonempty_block : Text → List AssistantBlock
nonempty_block [] = []
nonempty_block (c ∷ t) = text_block (c ∷ t) ∷ []

-- The blocks of a response that has none or one execution block; `id` is the new block's id.
result_in : ParserState → ExecParser → Text → List ParserDelta → ParserResult
result_in error p id deltas = record {
  blocks = text_block (join p.raw) ∷ [];
  exec_block = none;
  error = p.error;
  final_deltas = deltas;
}
result_in after_exec p id deltas =
    let block : ExecBlock = record { code = join p.code; id = id } in
    record {
      blocks =
          nonempty_block (join p.prefix)
          ++ AssistantBlock.exec_block block ∷ nonempty_block (join p.suffix);
      exec_block = some block;
      error = none;
      final_deltas = deltas;
    }
result_in _ p id deltas =
    let blocks = nonempty_block (join p.prefix) in
    record {
      blocks = if is_nil blocks then text_block [] ∷ [] else blocks;
      exec_block = none;
      error = none;
      final_deltas = deltas;
    }

-- `none` is the RuntimeError "parser is already finalized".
unfoldable pub finalize : ExecParser → Text → Option (ExecParser × ParserResult)
unfolding flush end_of_input result_in nonempty_block
finalize p id =
    if p.finalized
    then none
    else let (flushed, deltas) = flush (record p { finalized = true }) in
      let last = end_of_input flushed in some (last, result_in last.state last id deltas)

-- How `_stream_assistant` drives a parser: a new one, every chunk in order, then `finalize`.
unfoldable pub feed_all : ExecParser → List Text → Option (ExecParser × List ParserDelta)
feed_all p [] = some (p, [])
feed_all p (chunk ∷ chunks) = do
  (q, deltas) ← feed p chunk
  (r, later) ← feed_all q chunks
  some (r, deltas ++ later)

unfoldable pub parse_chunks : Text → List Text → Option (ParserResult × List ParserDelta)
unfolding feed_all finalize
parse_chunks id chunks = do
  (p, deltas) ← feed_all initial chunks
  (q, result) ← finalize p id
  some (result, deltas)
