-- ===== src/Protocol/ExecParser/Reading.antt =====
-- Every response is plain prose, has one block, or is rejected.
use py_code_act.Prelude.{
  true, none, some, List, [], ◌∷◌, ◌++◌, ◌≡◌, refl, inl, inr, arith, append-nil, Text, join,
  is_some,
}
use py_code_act.Domain.Messages.{text_block}
use py_code_act.Protocol.ExecParser.{ExecParser, ParserDelta, exec, error, initial}
use py_code_act.Protocol.ExecParser.Lines.{steps, steps-append}
use py_code_act.Protocol.ExecParser.Chunks.{Outcome, finish}
use py_code_act.Protocol.ExecParser.Feeding.{steps-error}
use py_code_act.Protocol.ExecParser.Markers.{
  IsOpening, IsClosing, Plain, first_marker, steps-text, steps-exec, steps-after_exec,
  process_line-Refused, Refused,
}
use py_code_act.Protocol.ExecParser.Blocks.{
  HasBlock, after_opening, after_closing, steps-opening, steps-closing,
}

-- A response that the parser rejects has no execution block, an error, and its whole text back.
pub record IsRejected (t : Text) (o : Outcome) : Type 0 where
  pub blocks : o.blocks ≡ text_block t ∷ []
  pub exec_block : o.exec_block ≡ none
  pub error : is_some o.error ≡ true

finish-error :
    (q : ExecParser) (deltas : List ParserDelta) (id t : Text)
    → q.state ≡ error
    → is_some q.error ≡ true
    → IsRejected t (finish (q, deltas) id t)
unfolding finish join
finish-error q deltas id t s e = record {
  blocks = ground (arith, append-nil t);
  exec_block = ground arith;
  error = ground arith;
}

finish_unclosed :
    (q : ExecParser) (deltas : List ParserDelta) (id t : Text)
    → q.state ≡ exec
    → IsRejected t (finish (q, deltas) id t)
unfolding finish join
finish_unclosed q deltas id t s = record {
  blocks = ground (arith, append-nil t);
  exec_block = ground arith;
  error = ground arith;
}

record Stopped (p : ExecParser) (lines : List Text) : Type 0 where
  state : (steps p lines).0.state ≡ error
  message : is_some (steps p lines).0.error ≡ true

steps-Refused :
    (p : ExecParser) (marker : Text) (rest : List Text)
    → Refused p marker
    → Stopped p (marker ∷ rest)
unfolding steps
steps-Refused p marker rest r =
    let (message, e) = process_line-Refused p marker r in
    let q = record p { state = error; error = some message } in
    record { state = rw (e, steps-error q rest refl); message = rw (e, steps-error q rest refl) }

-- From a parser that goes on to `q` over plain lines, a marker that `q` refuses.
Stopped-append :
    (p q : ExecParser) (deltas : List ParserDelta) (before rest : List Text) (marker : Text)
    → steps p before ≡ (q, deltas)
    → Refused q marker
    → Stopped p (before ++ marker ∷ rest)
Stopped-append p q deltas before rest marker e r =
    let s = steps-Refused q marker rest r in
    record { state = rw (steps-append, e) s.state; message = rw (steps-append, e) s.message }

pub data Reading (id t : Text) (lines : List Text) : Type 0 where
  as_prose : Plain lines → Reading id t lines
  as_block :
      (prefix code suffix : List Text) → HasBlock lines prefix code suffix → Reading id t lines
  as_rejected : IsRejected t (finish (steps initial lines) id t) → Reading id t lines

module _ (id t : Text) where
  Stopped-Reading : {lines : List Text} → Stopped initial lines → Reading id t lines
  Stopped-Reading {lines} s =
      as_rejected
        (finish-error (steps initial lines).0 (steps initial lines).1 id t s.state s.message)

  -- After both markers.
  read_suffix :
      {lines : List Text} (prefix code rest : List Text) (opening closing : Text)
      → lines ≡ prefix ++ opening ∷ (code ++ closing ∷ rest)
      → IsOpening opening
      → IsClosing closing
      → Plain prefix
      → Plain code
      → Reading id t lines
  unfolding after_closing
  read_suffix prefix code rest opening closing e o c p q = elim (first_marker rest) [
    | inl plain ↦ as_block prefix code rest (record {
      opening = opening;
      closing = closing;
      splits = e;
      opens = o;
      closes = c;
      plain_prefix = p;
      plain_code = q;
      plain_suffix = plain;
    })
    | inr (before, after, marker, split, plain, m) ↦
        let s =
          Stopped-append (after_closing prefix code []) _ _ before after marker
            (steps-after_exec (after_closing prefix code []) before refl plain)
            (inr (inr (refl, m))) in
        let walk = steps-opening prefix (code ++ closing ∷ rest) opening o p in
        let walk' = steps-closing prefix code rest closing c q in
        Stopped-Reading (record {
          state = rw (e, walk, walk', split) s.state;
          message = rw (e, walk, walk', split) s.message;
        })
  ]

  -- After the opening marker.
  read_code :
      {lines : List Text} (prefix rest : List Text) (opening : Text)
      → lines ≡ prefix ++ opening ∷ rest
      → IsOpening opening
      → Plain prefix
      → Reading id t lines
  unfolding after_opening
  read_code {lines} prefix rest opening e o p =
      let walk = steps-opening prefix rest opening o p in
      elim (first_marker rest) [
        | inl plain ↦ as_rejected (
            finish_unclosed (steps initial lines).0 (steps initial lines).1 id t
              (rw (e, walk, steps-exec (after_opening prefix []) rest refl plain)))
        | inr (before, after, marker, split, plain, inl m) ↦
            let s =
              Stopped-append (after_opening prefix []) _ _ before after marker
                (steps-exec (after_opening prefix []) before refl plain) (inr (inl (refl, m))) in
            Stopped-Reading (record {
              state = rw (e, walk, split) s.state;
              message = rw (e, walk, split) s.message;
            })
        | inr (before, after, marker, split, plain, inr m) ↦
            read_suffix prefix before after opening marker (rw (e, split)) o m p plain
      ]

  pub read_all : (lines : List Text) → Reading id t lines
  read_all lines = elim (first_marker lines) [
    | inl plain ↦ as_prose plain
    | inr (before, after, marker, split, plain, inl m) ↦ read_code before after marker split m plain
    | inr (before, after, marker, split, plain, inr m) ↦
        let s =
          Stopped-append initial _ _ before after marker (steps-text initial before refl plain)
            (inl (refl, m)) in
        Stopped-Reading (record { state = rw split s.state; message = rw split s.message })
  ]
