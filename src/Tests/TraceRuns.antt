-- ===== src/Tests/TraceRuns.antt =====
-- A trace of one call with a token, whose file fails at the second call.
use py_code_act.Prelude.{◌≡◌, refl, ◌↔◌, true, false, none, [], ◌∷◌, Text, codes, eq_text}
use py_code_act.Domain.Json.{Json, str, obj, arr, nil, cons, Fields, end, field}
use py_code_act.Observability.{
  TraceRecorder, Call, Writing, line_written, os_error, unwritable, new_recorder, traces, redact,
  is_sensitive,
}
use py_code_act.Observability.Secrets.{
  same_obj, same_end, same_secret, same_field, same_str, is_clean, traces-SameCalls,
  redact_fixed_iff,
}
use py_code_act.Observability.Trace.{IsOrderly, traces-IsOrderly}

abbrev lower : Text → Text
lower t = t

-- {"input": "prompt", "api_key": …}
abbrev with_key : Text → Fields
with_key secret = field "input" (str (codes "prompt")) (field "api_key" (str secret) end)

abbrev call_with : Text → Writing → Call
call_with secret writing = record {
  event = codes "openai.request";
  payload = obj (with_key secret);
  correlation = end;
  timestamp = codes "now";
  monotonic = codes "1.0";
  writing = writing;
}

abbrev recorder : TraceRecorder
recorder = new_recorder true false none

api_key-sensitive : is_sensitive lower "api_key" ≡ true
unfolding is_sensitive codes eq_text
api_key-sensitive = refl

traces-SameCalls_example :
    traces lower recorder (call_with (codes "a") line_written ∷ [])
    ≡ traces lower recorder (call_with (codes "b") line_written ∷ [])
traces-SameCalls_example =
    traces-SameCalls lower recorder (call_with (codes "a") line_written ∷ [])
      (call_with (codes "b") line_written ∷ [])
      (
        record {
          event = refl;
          payload =
              same_obj
                (same_field (same_str (codes "prompt")) (same_secret api_key-sensitive same_end));
          correlation = same_end;
          timestamp = refl;
          monotonic = refl;
          writing = refl;
        },
        tt,
      )

abbrev nested : Json
nested = arr (cons (obj (with_key (codes "a"))) nil)

redact_fixed_iff_example :
    (is_clean lower (redact lower nested) ≡ true)
    × ((redact lower nested ≡ nested) ↔ (is_clean lower nested ≡ true))
    × (redact lower (redact lower nested) ≡ redact lower nested)
redact_fixed_iff_example = redact_fixed_iff lower nested

traces-IsOrderly_example : IsOrderly (
    traces lower (new_recorder true false none) (
      call_with (codes "a") line_written
      ∷ call_with (codes "a") (unwritable (codes "surrogates not allowed"))
      ∷ call_with (codes "a") line_written
      ∷ call_with (codes "a") (os_error (codes "disk full"))
      ∷ call_with (codes "a") line_written
      ∷ []))
traces-IsOrderly_example = traces-IsOrderly lower true false none (
    call_with (codes "a") line_written
    ∷ call_with (codes "a") (unwritable (codes "surrogates not allowed"))
    ∷ call_with (codes "a") line_written
    ∷ call_with (codes "a") (os_error (codes "disk full"))
    ∷ call_with (codes "a") line_written
    ∷ [])
