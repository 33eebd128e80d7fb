-- ===== src/Observability/Trace.antt =====
-- The order and the number of the trace's lines (src/py_code_act/observability/trace.py).
use py_code_act.Prelude.{
  ℕ, suc, ◌+◌, ◌≤◌, ◌<◌, ◌≡◌, refl, ap, ◌∙◌, inl, inr, Bool, true, false, Option, none, some, List,
  [], ◌∷◌, ◌++◌, arith, Bool-cases, Text, length, length-append,
}
use py_code_act.Domain.Json.{int, Fields, get}
use py_code_act.Prelude.Int.{pos}
use py_code_act.Observability.{
  TraceRecorder, Call, new_recorder, trace, traces, report_failure, skips, Writing, line_written,
  os_error, unwritable, after_writing, line_of,
}

-- The numbers of the lines are `n + 1`, `n + 2`, … in the order of the file.
abbrev pub IsNumberedFrom : ℕ → List Fields → Type 0
IsNumberedFrom n [] = Unit
IsNumberedFrom n (line ∷ lines) =
    (get "sequence" line ≡ some (int (pos (suc n)))) × IsNumberedFrom (suc n) lines

abbrev pub flag : Bool → ℕ
flag true = 1
flag false = 0

-- The numbers of the lines grow from above `n` up to `last`.
abbrev pub IsIncreasing : ℕ → ℕ → List Fields → Type 0
IsIncreasing n last [] = n ≤ last
IsIncreasing n last (line ∷ lines) =
    (m : ℕ) × (get "sequence" line ≡ some (int (pos m))) × (n < m) × IsIncreasing m last lines

-- The lines are numbered in increasing order, up to the number of calls, and from 1 without a gap
-- where no exception left `record`; an enabled recorder has written each call that it numbered or let
-- its exception through; and stderr has one message exactly where a failure was reported, which only
-- a disabled one has.
pub record IsOrderly (r : TraceRecorder) : Type 0 where
  pub increasing : IsIncreasing 0 r.sequence r.lines
  pub numbered : length r.raised ≡ 0 → IsNumberedFrom 0 r.lines
  pub written : r.enabled ≡ true → length r.lines + length r.raised ≡ r.sequence
  pub told_once : length r.notices ≡ flag r.reported_failure
  pub quiet : r.enabled ≡ true → r.reported_failure ≡ false

IsIncreasing-more :
    (n last : ℕ) (lines : List Fields) → IsIncreasing n last lines → IsIncreasing n (suc last) lines
IsIncreasing-more n last [] h = omega (arith, h)
IsIncreasing-more n last (line ∷ lines) (m, e, less, h) =
    (m, e, less, IsIncreasing-more m last lines h)

IsIncreasing-append :
    (n last : ℕ) (lines : List Fields) (line : Fields)
    → IsIncreasing n last lines
    → get "sequence" line ≡ some (int (pos (suc last)))
    → IsIncreasing n (suc last) (lines ++ line ∷ [])
IsIncreasing-append n last [] line h e = (suc last, e, omega (arith, h), omega arith)
IsIncreasing-append n last (l ∷ lines) line (m, e', less, h) e =
    (m, e', less, IsIncreasing-append m last lines line h e)

IsNumberedFrom-append :
    (n : ℕ) (lines : List Fields) (line : Fields)
    → IsNumberedFrom n lines
    → get "sequence" line ≡ some (int (pos (suc (n + length lines))))
    → IsNumberedFrom n (lines ++ line ∷ [])
IsNumberedFrom-append n [] line h e =
    (e ∙ ap (λ (k : ℕ). some (int (pos (suc k)))) (omega arith), tt)
IsNumberedFrom-append n (l ∷ lines) line h e = (
  h.0,
  IsNumberedFrom-append (suc n) lines line h.1
      (e ∙ ap (λ (k : ℕ). some (int (pos (suc k)))) (omega arith)),
)

new_recorder-IsOrderly :
    (enabled provider_raw : Bool) (opening : Option Text)
    → IsOrderly (new_recorder enabled provider_raw opening)
unfolding new_recorder report_failure
new_recorder-IsOrderly true provider_raw none = record {
  numbered = λ e. tt;
  increasing = omega arith;
  written = λ e. refl;
  told_once = refl;
  quiet = λ e. refl;
}
new_recorder-IsOrderly true provider_raw (some error) = record {
  numbered = λ e. tt;
  increasing = omega arith;
  written = λ e. refl;
  told_once = refl;
  quiet = λ e. ground arith;
}
new_recorder-IsOrderly false provider_raw opening = record {
  numbered = λ e. tt;
  increasing = omega arith;
  written = λ e. refl;
  told_once = refl;
  quiet = λ e. refl;
}

module _ (lower : Text → Text) where
  -- A call that gets a number: its line is written, or the recorder is disabled and says so, or an
  -- exception is raised.
  after_writing-IsOrderly :
      (r : TraceRecorder) (c : Call) (writing : Writing)
      → r.enabled ≡ true
      → IsOrderly r
      → IsOrderly (
          after_writing
            (record r { sequence = suc r.sequence })
            (line_of lower (suc r.sequence) c)
            writing)
  unfolding report_failure
  after_writing-IsOrderly r c line_written on h = record {
    increasing = IsIncreasing-append 0 r.sequence r.lines _ h.increasing refl;
    numbered = λ none_raised.
        IsNumberedFrom-append 0 r.lines _ (h.numbered none_raised)
          (ap (λ (k : ℕ). some (int (pos (suc k)))) (omega (arith, h.written on, none_raised)));
    written = λ e. rw (length-append r.lines) (omega (arith, h.written on));
    told_once = h.told_once;
    quiet = h.quiet;
  }
  after_writing-IsOrderly r c (os_error error) on h = rw (h.quiet on) (record {
    increasing = IsIncreasing-more 0 r.sequence r.lines h.increasing;
    numbered = h.numbered;
    written = λ e. absurd (ground arith);
    told_once = length-append r.notices _ ∙ rw (h.told_once, h.quiet on) refl;
    quiet = λ e. absurd (ground arith);
  })
  after_writing-IsOrderly r c (unwritable error) on h =
      let raised = length-append r.raised (error ∷ []) in
      record {
        increasing = IsIncreasing-more 0 r.sequence r.lines h.increasing;
        numbered = λ none_raised. absurd (omega (arith, raised, none_raised));
        written = λ e. rw raised (omega (arith, h.written on));
        told_once = h.told_once;
        quiet = h.quiet;
      }

  trace-IsOrderly : (r : TraceRecorder) (c : Call) → IsOrderly r → IsOrderly (trace lower r c)
  unfolding trace
  trace-IsOrderly r c h = elim (Bool-cases (skips r c.event)) [
    | inl skipped ↦ rw skipped h
    | inr kept ↦ rw kept (after_writing-IsOrderly r c c.writing (ground arith) h)
  ]

  traces-keep : (r : TraceRecorder) (cs : List Call) → IsOrderly r → IsOrderly (traces lower r cs)
  unfolding traces
  traces-keep r [] h = h
  traces-keep r (c ∷ cs) h = traces-keep (trace lower r c) cs (trace-IsOrderly r c h)

  -- Whatever calls a recorder takes, and wherever its file fails, the numbers of its lines increase,
  -- and have no gap from 1 on where no exception left `record`; an enabled one has written every call
  -- that it numbered, but for those whose exception left it; and it reports a failure at most once,
  -- after which it is disabled.
  pub traces-IsOrderly :
      (enabled provider_raw : Bool) (opening : Option Text) (cs : List Call)
      → IsOrderly (traces lower (new_recorder enabled provider_raw opening) cs)
  traces-IsOrderly enabled provider_raw opening cs =
      traces-keep (new_recorder enabled provider_raw opening) cs
        (new_recorder-IsOrderly enabled provider_raw opening)
