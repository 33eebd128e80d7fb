-- ===== src/Tests/Sample.antt =====
-- A concrete run: Python's conversions on the values that occur, a scripted model with one cell,
-- a kernel, and a harness before its first run.
use py_code_act.Prelude.{
  ℕ, suc, ◌+◌, true, false, Option, none, some, List, [], ◌∷◌, ◌++◌, refl, Text, codes, ◌==◌,
  if◌then◌else◌, length,
}
use py_code_act.Prelude.Int.{ℤ, pos}
use py_code_act.Domain.Json.{Json, str, int, Conversions}
use py_code_act.Domain.Usage.{zero_usage}
use py_code_act.Domain.Execution.{ExecutionStatus, stream, stdout}
use py_code_act.Domain.Messages.{stop}
use py_code_act.Domain.Codec.Transcript.{Fresh}
use py_code_act.Agent.Monad.{ok}
use py_code_act.Agent.World.{
  ProviderEvent, text_delta, done, finished, KernelExecutionResult, wrote, asked_restart, World,
  RunConfig,
}
use py_code_act.Agent.Harness.{Harness}

abbrev pub to_str : Json → Text
to_str (str t) = t
to_str _ = []

abbrev pub to_int : Json → Option ℤ
to_int (int n) = some n
to_int _ = none

abbrev pub conversions : Conversions
conversions = record {
  to_str = to_str;
  to_int = to_int;
  real_truth = λ t. true;
  to_str_str = λ t. refl;
  to_int_int = λ n. refl;
}

abbrev pub text_event : Text → ProviderEvent
text_event t = record {
  type = text_delta;
  delta = t;
  reasoning_item = none;
  usage = zero_usage;
  stop_reason = none;
  error_message = none;
  response_id = none;
}

abbrev pub done_event : ProviderEvent
done_event = record (text_event []) { type = done; stop_reason = some stop }

-- The first response has a cell, cut in the middle of its closing marker; later ones have none.
abbrev pub response : ℕ → List ProviderEvent
response n =
    if n == 1
    then text_event (codes "<exec>\nx\n</ex") ∷ text_event (codes "ec>\n") ∷ done_event ∷ []
    else text_event (codes "ok") ∷ done_event ∷ []

abbrev pub cell_result : KernelExecutionResult
cell_result = record {
  status = ExecutionStatus.ok;
  outputs = stream stdout (codes "1") ∷ [];
  kernel_generation = pos 1;
  replaced_kernel = false;
}

-- Its state counts the ids.
abbrev pub world : World ℕ
world = record {
  provider_name = codes "scripted";
  stream_response = λ w request. (response (length request.messages), finished, w);
  run_cell = λ w code. (wrote (stream stdout (codes "1")) ∷ asked_restart ∷ [], w);
  cell_result = λ w code. (ok cell_result, w);
  restart = λ w. (ok tt, w);
  generation = λ w. pos 1;
  new_id = λ prefix w. (prefix ++ (b'0' + w) ∷ [], suc w);
  utc_now = λ w. (codes "now", w);
  write_line = λ w. (ok tt, w);
  wait_until_idle = λ w. (ok tt, w);
  deliver = λ w. (ok tt, w);
}

abbrev pub config : RunConfig
config = record {
  model = codes "m";
  reasoning_level = codes "none";
  max_turns = 4;
  max_executions = 2;
  max_protocol_repairs = 1;
  has_run_timeout = true;
}

abbrev pub harness : Harness ℕ
harness = record {
  world = 0;
  state = record {
    system_prompt = codes "p";
    model = codes "m";
    reasoning_level = codes "none";
    messages = [];
    is_running = false;
    streaming_message_id = none;
    active_execution_id = none;
    kernel_generation = pos 1;
    last_error = none;
    usage_totals = zero_usage;
  };
  ledger = record { session_id = codes "s"; entries = [] };
  factory = record { session_id = codes "s"; sequence = 0 };
  events = [];
  requested = false;
  active_run_id = none;
  active_turn_id = none;
  requests = [];
  cells = [];
}

abbrev pub fresh : ℕ → Fresh
fresh n = record { message_id = codes "new"; now = codes "now"; exec_id = λ k. codes "exec" }
