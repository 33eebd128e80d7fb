-- ===== src/Protocol/ExecParser/Chunks.antt =====
-- However the provider cuts a response into chunks, the parser reads its lines.
use py_code_act.Prelude.{
  false, Option, none, some, List, [], ◌∷◌, ◌++◌, ◌≡◌, ◌≢◌, ap, sym, ◌∙◌, inl, inr, arith,
  append-nil, Text, join, is_nil, ◌>>=◌, if◌then◌else◌,
}
use py_code_act.Domain.Messages.{AssistantBlock, ExecBlock}
use py_code_act.Protocol.ExecParser.{
  ExecParser, ParserDelta, ParserResult, error, initial, process_line, finalize, parse_chunks,
  end_of_input, result_in,
}
use py_code_act.Protocol.ExecParser.Lines.{
  split_lines, steps, steps-append, with_input, steps-with_input,
}
use py_code_act.Protocol.ExecParser.Feeding.{
  ParserState-cases, read, Fed, Fed-initial, core-state, FeedsAll, feed_all_lem, steps-error,
}

-- What a caller sees of a finished parser: the result, and all deltas in order.
pub record Outcome : Type 0 where
  pub blocks : List AssistantBlock
  pub exec_block : Option ExecBlock
  pub error : Option Text
  pub deltas : List ParserDelta

abbrev pub outcome : Option (ParserResult × List ParserDelta) → Option Outcome
outcome none = none
outcome (some (r, deltas)) = some (record {
  blocks = r.blocks;
  exec_block = r.exec_block;
  error = r.error;
  deltas = deltas ++ r.final_deltas;
})

-- The unfinished last line, if there is one.
abbrev pub last_line : Text → List Text
last_line rest = if is_nil rest then [] else rest ∷ []

-- The lines of a response, the unfinished last one included.
unfoldable pub lines_of : Text → List Text
lines_of t = let (lines, rest) = split_lines t in lines ++ last_line rest

-- The reference: the whole response, line by line.
unfoldable pub finish : ExecParser × List ParserDelta → Text → Text → Outcome
unfolding end_of_input result_in with_input
finish (p, deltas) id t =
    let last = end_of_input p in
    let r = result_in last.state (with_input last [] (t ∷ [])) id [] in
    record { blocks = r.blocks; exec_block = r.exec_block; error = r.error; deltas = deltas }

unfoldable pub parse : Text → Text → Outcome
parse id t = finish (steps initial (lines_of t)) id t

finalize-error :
    (p : ExecParser) (id : Text) (deltas : List ParserDelta)
    → p.finalized ≡ false
    → p.state ≡ error
    → outcome (do (q, r) ← finalize p id; some (r, deltas))
      ≡ some (finish (with_input p [] [], deltas) id (join p.raw))
unfolding finalize with_input join finish
finalize-error p id deltas o e = ground (arith, append-nil deltas, append-nil (join p.raw))

finalize_last :
    (p : ExecParser) (id : Text) (deltas : List ParserDelta)
    → p.finalized ≡ false
    → p.state ≢ error
    → outcome (do (q, r) ← finalize p id; some (r, deltas))
      ≡ some (
          finish
            (let (q, ds) =
                steps (with_input p [] []) (if is_nil p.pending then [] else p.pending ∷ []) in
              (q, deltas ++ ds))
            id
            (join p.raw))
unfolding finalize with_input join steps process_line finish
finalize_last p id deltas o e = ground (arith, append-nil deltas, append-nil (join p.raw))

read-core : (t : Text) (p : ExecParser) → Fed t p → with_input p [] [] ≡ (read t).0
unfolding with_input
read-core t p h =
    h.core
    ∙ sym (
        ap (λ (r : ExecParser × List ParserDelta). r.0)
          (steps-with_input initial [] [] (split_lines t).0))

steps-lines_of :
    (t : Text)
    → steps initial (lines_of t) ≡ (
      (steps (read t).0 (last_line (split_lines t).1)).0,
      (read t).1 ++ (steps (read t).0 (last_line (split_lines t).1)).1,
    )
unfolding lines_of
steps-lines_of t = steps-append initial (split_lines t).0 (last_line (split_lines t).1)

finalize-Fed :
    (t id : Text) (p : ExecParser)
    → Fed t p
    → outcome (do (q, r) ← finalize p id; some (r, (read t).1)) ≡ some (parse id t)
unfolding parse
finalize-Fed t id p h = elim (ParserState-cases p.state) [
  | inl e ↦
      rw
        (
          steps-lines_of,
          steps-error (read t).0 (last_line (split_lines t).1) (core-state t p h ∙ e),
          append-nil,
        )
        (rw (← read-core t p h) (rw h.raw at (finalize-error p id (read t).1 h.open_still e)))
  | inr e ↦
      rw (steps-lines_of, ← h.pending e, ← read-core t p h)
        (rw h.raw at (finalize_last p id (read t).1 h.open_still e))
]

told-initial :
    (chunks : List Text) (f : FeedsAll [] chunks initial) → (read (join chunks)).1 ≡ f.deltas
unfolding split_lines steps
told-initial chunks f = f.told

-- However a response is cut into chunks, also into empty ones, the parser raises nothing, and its
-- blocks, execution block, error and deltas are those of the reference, which reads the lines of
-- the joined text.
pub parse_chunks-eq-parse :
    (id : Text) (chunks : List Text)
    → outcome (parse_chunks id chunks) ≡ some (parse id (join chunks))
unfolding parse_chunks
parse_chunks-eq-parse id chunks =
    let f = feed_all_lem [] chunks initial Fed-initial in
    rw (f.fed, ← told-initial chunks f) (finalize-Fed (join chunks) id f.last f.holds)
