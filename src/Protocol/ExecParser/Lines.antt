-- ===== src/Protocol/ExecParser/Lines.antt =====
-- The reference for the parser: the lines of the whole response, read one by one.
use py_code_act.Prelude.{
  ℕ, zero, suc, ◌<◌, none, some, List, [], ◌∷◌, ◌++◌, ◌==◌, ◌≡◌, refl, inl, inr, arith,
  Option-cases, append_assoc, if◌then◌else◌, Text, length, join,
}
use py_code_act.Protocol.ExecParser.{
  ExecParser, ParserDelta, process_line, cut_line, to_list, drain,
}

abbrev cons_to : ℕ → List Text → Text → List Text × Text
cons_to x [] rest = ([], x ∷ rest)
cons_to x (line ∷ lines) rest = ((x ∷ line) ∷ lines, rest)

-- The complete lines of a text, newlines kept, and what follows the last newline.
unfoldable pub split_lines : Text → List Text × Text
split_lines [] = ([], [])
split_lines (x ∷ xs) =
    let (lines, rest) = split_lines xs in
    if x == b'\n' then ((x ∷ []) ∷ lines, rest) else cons_to x lines rest

-- The parser on one line after another.
unfoldable pub steps : ExecParser → List Text → ExecParser × List ParserDelta
steps p [] = (p, [])
steps p (line ∷ lines) =
    let (q, delta) = process_line p line in
    let (r, deltas) = steps q lines in (r, to_list delta ++ deltas)

pub split_lines-append :
    (t c : Text)
    → split_lines (t ++ c) ≡ (
      (split_lines t).0 ++ (split_lines ((split_lines t).1 ++ c)).0,
      (split_lines ((split_lines t).1 ++ c)).1,
    )
unfolding split_lines
split_lines-append [] c = refl
split_lines-append (x ∷ t) c = ground (arith, split_lines-append t c)

pub join-split_lines : (t : Text) → join (split_lines t).0 ++ (split_lines t).1 ≡ t
unfolding split_lines join
join-split_lines [] = refl
join-split_lines (x ∷ t) = ground (arith, join-split_lines t)

pub steps-append :
    (p : ExecParser) (a b : List Text)
    → steps p (a ++ b) ≡ ((steps (steps p a).0 b).0, (steps p a).1 ++ (steps (steps p a).0 b).1)
unfolding steps
steps-append p [] b = refl
steps-append p (line ∷ a) b = ground (
  arith,
  steps-append (process_line p line).0 a b,
  append_assoc (to_list (process_line p line).1) (steps (process_line p line).0 a).1
      (steps (steps (process_line p line).0 a).0 b).1,
)

cut_line-none : (t : Text) → cut_line t ≡ none → split_lines t ≡ ([], t)
unfolding cut_line split_lines
cut_line-none [] h = refl
cut_line-none (x ∷ t) h = ground (arith, cut_line-none t)

cut_line-some :
    (t line rest : Text)
    → cut_line t ≡ some (line, rest)
    → (split_lines t ≡ (line ∷ (split_lines rest).0, (split_lines rest).1))
      × (length rest < length t)
unfolding cut_line split_lines
cut_line-some [] line rest h = cc
cut_line-some (x ∷ t) line rest h = elim (Option-cases (cut_line t)) [
  | inl e ↦ (ground arith, ground arith)
  | inr ((l, r), e) ↦ let (split, shorter) = cut_line-some t l r e in (ground arith, ground arith)
]

-- One processed line does not look at `pending` or at `raw`.
unfoldable pub with_input : ExecParser → Text → List Text → ExecParser
with_input p pending raw = record p { pending = pending; raw = raw }

pub process_line-with_input :
    (p : ExecParser) (pending : Text) (raw : List Text) (line : Text)
    → process_line (with_input p pending raw) line
      ≡ (with_input (process_line p line).0 pending raw, (process_line p line).1)
unfolding process_line with_input
process_line-with_input p pending raw line = ground arith

pub steps-with_input :
    (p : ExecParser) (pending : Text) (raw lines : List Text)
    → steps (with_input p pending raw) lines
      ≡ (with_input (steps p lines).0 pending raw, (steps p lines).1)
unfolding steps
steps-with_input p pending raw [] = refl
steps-with_input p pending raw (line ∷ lines) = ground (
  arith,
  process_line-with_input p pending raw line,
  steps-with_input (process_line p line).0 pending raw lines,
)

-- With a round for each character of `pending` to spare, `drain` reads every complete line of it
-- and keeps the rest.
pub drain_lem :
    (fuel : ℕ) (p : ExecParser)
    → length p.pending < fuel
    → drain fuel p ≡ (
      with_input (steps p (split_lines p.pending).0).0 (split_lines p.pending).1 p.raw,
      (steps p (split_lines p.pending).0).1,
    )
unfolding drain steps with_input
drain_lem zero p h = absurd (omega arith)
drain_lem (suc fuel) p h = elim (Option-cases (cut_line p.pending)) [
  | inl e ↦ ground (arith, cut_line-none p.pending e)
  | inr ((line, rest), e) ↦
      let (split, shorter) = cut_line-some p.pending line rest e in
      let q = (process_line p line).0 in
      ground (
        arith,
        split,
        process_line-with_input p rest p.raw line,
        drain_lem fuel (with_input q rest p.raw) (omega arith),
        steps-with_input q rest p.raw (split_lines rest).0,
      )
]
