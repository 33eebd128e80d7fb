-- ===== src/Protocol/ExecParser/Correct.antt =====
-- The parser against its specification, for any way of cutting the response into chunks.
use py_code_act.Prelude.{
  some, List, [], ◌∷◌, ◌≡◌, ◌↔◌, refl, sym, ◌∙◌, append-nil, Text, join, join-append, ap, is_nil,
  ◌⊎◌, inl, inr, if◌then◌else◌,
}
use mathlib.Core.Option.{some-injective}
use py_code_act.Domain.Messages.{text_block, ExecBlock}
use py_code_act.Protocol.ExecParser.{initial, parse_chunks, nonempty_block}
use py_code_act.Protocol.ExecParser.Lines.{split_lines, join-split_lines}
use py_code_act.Protocol.ExecParser.Chunks.{
  Outcome, outcome, parse, finish, last_line, lines_of, parse_chunks-eq-parse,
}
use py_code_act.Protocol.ExecParser.Markers.{Plain, steps-text}
use py_code_act.Protocol.ExecParser.Blocks.{HasBlock, block_outcome, prose_outcome, parse-HasBlock}
use py_code_act.Protocol.ExecParser.Reading.{
  Reading, as_prose, as_block, as_rejected, IsRejected, read_all,
}

join-last_line : (rest : Text) → join (last_line rest) ≡ rest
unfolding join
join-last_line [] = refl
join-last_line (c ∷ rest) = append-nil (c ∷ rest)

-- Nothing of a response is lost when it is cut into lines.
pub join-lines_of : (t : Text) → join (lines_of t) ≡ t
unfolding lines_of
join-lines_of t =
    join-append (split_lines t).0 (last_line (split_lines t).1)
    ∙ rw join-last_line (join-split_lines t)

prose_block :
    (t : Text)
    → (if is_nil (nonempty_block t) then text_block [] ∷ [] else nonempty_block t)
      ≡ text_block t ∷ []
unfolding nonempty_block
prose_block [] = refl
prose_block (c ∷ t) = refl

parse-Plain : (id t : Text) → Plain (lines_of t) → parse id t ≡ prose_outcome t (lines_of t)
unfolding parse finish
parse-Plain id t plain =
    rw (steps-text initial (lines_of t) refl plain, join-lines_of) (rw prose_block)

-- `b` is the execution block of the lines, with this id.
abbrev pub IsBlockOf : Text → List Text → ExecBlock → Type 0
IsBlockOf id lines b =
    (prefix code suffix : List Text) × HasBlock lines prefix code suffix
    × (b ≡ record { code = join code; id = id })

-- The response is prose, has one block, or is rejected.
abbrev pub IsRead : Text → Text → Outcome → Type 0
IsRead id t o =
    (Plain (lines_of t) × (o ≡ prose_outcome t (lines_of t)))
    ⊎ ((prefix code suffix : List Text) × HasBlock (lines_of t) prefix code suffix
        × (o ≡ block_outcome id prefix code suffix))
    ⊎ IsRejected t o

parse-Reading : (id t : Text) → Reading id t (lines_of t) → IsRead id t (parse id t)
unfolding parse
parse-Reading id t (as_prose p) = inl (p, parse-Plain id t p)
parse-Reading id t (as_block prefix code suffix h) =
    inr (inl (prefix, code, suffix, h, parse-HasBlock id t h))
parse-Reading id t (as_rejected r) = inr (inr r)

IsBlockOf-IsRead :
    (id t : Text) (o : Outcome) (b : ExecBlock)
    → IsRead id t o
    → o.exec_block ≡ some b
    → IsBlockOf id (lines_of t) b
IsBlockOf-IsRead id t o b (inl (plain, e)) h = cc
IsBlockOf-IsRead id t o b (inr (inl (prefix, code, suffix, shape, e))) h =
    (prefix, code, suffix, shape, some-injective _ _ (sym h ∙ ap (λ (x : Outcome). x.exec_block) e))
IsBlockOf-IsRead id t o b (inr (inr r)) h = cc (r.exec_block)

parse-IsBlockOf :
    (id t : Text) (b : ExecBlock) → IsBlockOf id (lines_of t) b → (parse id t).exec_block ≡ some b
parse-IsBlockOf id t b (prefix, code, suffix, shape, e) = rw (parse-HasBlock id t shape, e) refl

module _ (id : Text) (chunks : List Text) where
  -- The parser raises nothing on any chunks, and its outcome is one of three. With no marker line
  -- the response is one text block and is told as prose. With one block it is the prefix, the
  -- block and the suffix, empty texts left out, told line by line. Otherwise there is an error and
  -- no execution block, and the one block has the whole text.
  pub parse_chunks_total :
      (o : Outcome) × (outcome (parse_chunks id chunks) ≡ some o) × IsRead id (join chunks) o
  parse_chunks_total = (
    parse id (join chunks),
    parse_chunks-eq-parse id chunks,
    parse-Reading id (join chunks) (read_all id (join chunks) (lines_of (join chunks))),
  )

  -- A finished parser has the execution block `b` exactly when the lines of the response are a
  -- prefix, an opening marker, the code of `b`, a closing marker and a suffix, with no other marker
  -- line, and `b` has the given id.
  pub exec_block_iff :
      (o : Outcome) (b : ExecBlock)
      → outcome (parse_chunks id chunks) ≡ some o
      → (o.exec_block ≡ some b) ↔ IsBlockOf id (lines_of (join chunks)) b
  exec_block_iff o b e =
      let same : parse id (join chunks) ≡ o =
        some-injective _ _ (sym (parse_chunks-eq-parse id chunks) ∙ e) in
      (
        IsBlockOf-IsRead id (join chunks) o b (
            rw same at (
              parse-Reading id (join chunks) (read_all id (join chunks) (lines_of (join chunks))))),
        λ h. rw (← same) (parse-IsBlockOf id (join chunks) b h),
      )
