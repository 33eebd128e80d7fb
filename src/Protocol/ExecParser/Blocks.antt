-- ===== src/Protocol/ExecParser/Blocks.antt =====
-- A response with one execution block: the parser finds the block and what stands around it.
use py_code_act.Prelude.{none, some, List, [], ◌∷◌, ◌++◌, ◌≡◌, refl, Text, join}
use py_code_act.Domain.Messages.{AssistantBlock, text_block, ExecBlock}
use py_code_act.Protocol.ExecParser.{
  ExecParser, DeltaKind, prose, exec, after_exec, initial, nonempty_block,
}
use py_code_act.Protocol.ExecParser.Lines.{steps, steps-append}
use py_code_act.Protocol.ExecParser.Chunks.{Outcome, parse, finish, lines_of}
use py_code_act.Protocol.ExecParser.Markers.{
  IsOpening, IsClosing, Plain, told, steps-text, steps-exec, steps-after_exec, process_line-opening,
  process_line-closing,
}

-- The lines are a prefix, an opening marker, the code, a closing marker and a suffix, and no other
-- line is a marker.
pub record HasBlock (lines prefix code suffix : List Text) : Type 0 where
  pub opening : Text
  pub closing : Text
  pub splits : lines ≡ prefix ++ opening ∷ (code ++ closing ∷ suffix)
  pub opens : IsOpening opening
  pub closes : IsClosing closing
  pub plain_prefix : Plain prefix
  pub plain_code : Plain code
  pub plain_suffix : Plain suffix

-- The outcome that such a response should have, with `id` for the new block.
abbrev pub block_outcome : Text → List Text → List Text → List Text → Outcome
block_outcome id prefix code suffix =
    let block : ExecBlock = record { code = join code; id = id } in
    record {
      blocks =
          nonempty_block (join prefix)
          ++ AssistantBlock.exec_block block ∷ nonempty_block (join suffix);
      exec_block = some block;
      error = none;
      deltas = told prose prefix ++ (told DeltaKind.code code ++ told prose suffix);
    }

abbrev pub prose_outcome : Text → List Text → Outcome
prose_outcome t lines = record {
  blocks = text_block t ∷ [];
  exec_block = none;
  error = none;
  deltas = told prose lines;
}

after_prefix : List Text → ExecParser
after_prefix prefix = record initial { prefix = prefix }

unfoldable pub after_opening : List Text → List Text → ExecParser
after_opening prefix code = record initial { state = exec; prefix = prefix; code = code }

unfoldable pub after_closing : List Text → List Text → List Text → ExecParser
after_closing prefix code suffix = record initial {
  state = after_exec;
  prefix = prefix;
  code = code;
  suffix = suffix;
}

pub steps-opening :
    (prefix rest : List Text) (line : Text)
    → IsOpening line
    → Plain prefix
    → steps initial (prefix ++ line ∷ rest) ≡ (
      (steps (after_opening prefix []) rest).0,
      told prose prefix ++ (steps (after_opening prefix []) rest).1,
    )
unfolding steps after_opening
steps-opening prefix rest line o plain = rw (
  steps-append,
  steps-text initial prefix refl plain,
  process_line-opening (record initial { prefix = prefix }) line refl o,
)

pub steps-closing :
    (prefix code rest : List Text) (line : Text)
    → IsClosing line
    → Plain code
    → steps (after_opening prefix []) (code ++ line ∷ rest) ≡ (
      (steps (after_closing prefix code []) rest).0,
      told DeltaKind.code code ++ (steps (after_closing prefix code []) rest).1,
    )
unfolding steps after_opening after_closing
steps-closing prefix code rest line o plain = rw (
  steps-append,
  steps-exec (record initial { state = exec; prefix = prefix }) code refl plain,
  process_line-closing (record initial { state = exec; prefix = prefix; code = code }) line refl o,
)

steps-HasBlock :
    {lines prefix code suffix : List Text}
    → HasBlock lines prefix code suffix
    → steps initial lines ≡ (
      after_closing prefix code suffix,
      told prose prefix ++ (told DeltaKind.code code ++ told prose suffix),
    )
unfolding after_closing
steps-HasBlock {prefix = prefix} {code = code} {suffix = suffix} h = rw (
  h.splits,
  steps-opening prefix (code ++ h.closing ∷ suffix) h.opening h.opens h.plain_prefix,
  steps-closing prefix code suffix h.closing h.closes h.plain_code,
  steps-after_exec (after_closing prefix code []) suffix refl h.plain_suffix,
)

pub parse-HasBlock :
    (id t : Text) {prefix code suffix : List Text}
    → HasBlock (lines_of t) prefix code suffix
    → parse id t ≡ block_outcome id prefix code suffix
unfolding parse finish after_closing
parse-HasBlock id t h = rw (steps-HasBlock h)
