-- ===== src/Tests/Witnesses.antt =====
-- The theorems at concrete inputs.
use py_code_act.Prelude.{
  ℕ, ◌+◌, ◌≤◌, ◌≡◌, refl, ◌↔◌, ◌⊎◌, true, false, none, some, List, [], ◌∷◌, Text, codes, eq_text,
  join, length,
}
use py_code_act.Protocol.ExecParser
use py_code_act.Protocol.ExecParser.{parse_chunks}
use py_code_act.Protocol.ExecParser.Chunks.{
  Outcome, outcome, parse, lines_of, parse_chunks-eq-parse,
}
use py_code_act.Protocol.ExecParser.Correct.{IsRead, IsBlockOf, parse_chunks_total, exec_block_iff}
use py_code_act.Domain.Messages.{ExecBlock, AssistantBlock, text_block, stop, StopReason}
use py_code_act.Domain.Usage.{zero_usage}
use py_code_act.Domain.Json.{end}
use py_code_act.Domain.Codec.Transcript.{message_to_dict, message_from_dict}
use py_code_act.Domain.Codec.RoundTrip.{HasIds, message_from_dict-message_to_dict}
use py_code_act.Domain.Messages.{Message, assistant}
use py_code_act.Agent.Loop
use py_code_act.Agent.Stream
use py_code_act.Agent.Execute
use py_code_act.Domain.Usage.{add}
use py_code_act.Domain.Events
use py_code_act.Agent.Monad.{
  raised, other_error, lift, when, for_each, finally, except_timeout, modify, gets, draw, pure,
  ◌>>=◌, ◌>>◌,
}
use py_code_act.Agent.Harness.{
  Harness, set_state, set_last_error, set_active, append_entry, request_restart, consume_restart,
  new_id, utc_now, emit, append_message, emit_background, perform, ask_provider, run_cell,
  keep_message, keep_entry,
}
use py_code_act.Agent.Limits.{cells_started, protocol_errors, run_limits}
use py_code_act.Agent.Steady.{record_of}
use py_code_act.Agent.Idle.{Ends, run-IsIdle}
use py_code_act.Agent.Recorded.{
  IsNumbered, Extends, IsRecorded, All, run-IsNumbered, run-Extends, messages-run,
}
use py_code_act.Storage.Session.{raw_messages, messages, todo_state}
use py_code_act.Dict.{has, set}
use py_code_act.Tools.Todo.{
  TodoService, Task, Change, pending, answer, with_task, LogWrite, TodoCall, create_call,
  update_call, Logged, calls, call, create, update, load, list, done, todo_changed, is_visible,
  validate_status,
}
use py_code_act.Tools.Todo.Replay.{IsLogged, calls-load, create-unwritten}
use py_code_act.Agent.Stream.{Streamed}
use py_code_act.Agent.Safe.{MayRun, act-MayRun}
use py_code_act.Prelude.Int.{pos}
use py_code_act.Domain.Execution.{ExecutionStatus, stream, stdout}
use py_code_act.Domain.Messages.{ExecutionMessage, ProtocolErrorMessage, KernelNoticeMessage}
use py_code_act.Protocol.Observations.{
  format_execution_result, format_protocol_error, format_kernel_notice,
}
use py_code_act.Protocol.Observations.Tags.{
  HasTags, format_execution_result-HasTags, notices-HasTags,
}
use py_code_act.Storage.Session.{new_entry}
use py_code_act.Domain.Json.{null, field}
use py_code_act.Storage.Entries.{from_dict, to_dict, from_dict-new_entry}
use py_code_act.Tests.Sample

-- `<exec>` split over two chunks
abbrev sample_chunks : List Text
sample_chunks = codes "a\n<ex" ∷ codes "ec>\r\nx\n</exec>" ∷ []

abbrev sample_outcome : Outcome
sample_outcome = parse (codes "e") (join sample_chunks)

abbrev sample_block : ExecBlock
sample_block = record { code = codes "x\n"; id = codes "e" }

parse_chunks-eq-parse_example :
    outcome (parse_chunks (codes "e") sample_chunks) ≡ some sample_outcome
parse_chunks-eq-parse_example = parse_chunks-eq-parse (codes "e") sample_chunks

parse_chunks_total_example :
    (o : Outcome) × (outcome (parse_chunks (codes "e") sample_chunks) ≡ some o)
    × IsRead (codes "e") (join sample_chunks) o
parse_chunks_total_example = parse_chunks_total (codes "e") sample_chunks

exec_block_iff_example :
    (sample_outcome.exec_block ≡ some sample_block)
    ↔ IsBlockOf (codes "e") (lines_of (join sample_chunks)) sample_block
exec_block_iff_example =
    exec_block_iff (codes "e") sample_chunks sample_outcome sample_block
      (parse_chunks-eq-parse (codes "e") sample_chunks)

abbrev after_run : Harness ℕ
after_run = (Loop.run Sample.world Sample.config (codes "hi") Sample.harness).1

run_limits_example :
    (length after_run.cells ≤ length Sample.harness.cells + 2)
    × (length after_run.requests ≤ length Sample.harness.requests + 4)
    × (protocol_errors after_run ≤ protocol_errors Sample.harness + 2)
run_limits_example = run_limits Sample.world Sample.config (codes "hi") Sample.harness

run-IsIdle_example :
    ((false ≡ true)
      × (Loop.run Sample.world Sample.config (codes "hi") Sample.harness
          ≡ (raised other_error, Sample.harness)))
    ⊎ ((false ≡ false) × Ends Sample.world Sample.config (codes "hi") Sample.harness after_run)
run-IsIdle_example = run-IsIdle Sample.world Sample.config (codes "hi") Sample.harness

run-IsNumbered_example : IsNumbered (record_of after_run)
run-IsNumbered_example =
    run-IsNumbered Sample.world Sample.config (codes "hi") Sample.harness
      (record { numbered = tt; last = refl })

run-Extends_example : Extends (record_of Sample.harness) (record_of after_run)
run-Extends_example = run-Extends Sample.world Sample.config (codes "hi") Sample.harness

sample-IsRecorded : IsRecorded (record_of Sample.harness)
unfolding raw_messages
sample-IsRecorded = refl

-- A transcript as a run leaves it in the ledger.
abbrev sample_message : Message
sample_message = assistant (record {
  provider = codes "p";
  model = codes "m";
  content = text_block (codes "a") ∷ AssistantBlock.exec_block sample_block ∷ [];
  stop_reason = stop;
  id = codes "1";
  usage = zero_usage;
  error_message = none;
  created_at = codes "now";
  provider_metadata = end;
})

message_from_dict-message_to_dict_example :
    message_from_dict Sample.conversions (Sample.fresh 0) (message_to_dict sample_message)
    ≡ some sample_message
unfolding codes
message_from_dict-message_to_dict_example =
    message_from_dict-message_to_dict Sample.conversions (Sample.fresh 0) sample_message
      (refl, refl, (tt, (refl, tt)))

sample_ids : All HasIds after_run.state.messages
unfolding Loop.run Loop.run_once Loop.start_run Loop.turns Loop.one_turn Loop.next_turn Loop.act
    Loop.act_on Loop.act_on_block Loop.execute_turn Loop.run_block Loop.after_execution
    Loop.final_turn Loop.end_turn Loop.finish_run Loop.continue_with Loop.protocol_failure
    Stream.or_raise Stream.emit_delta Stream.on_text Stream.on_event_of Stream.on_events
    Stream.on_end Stream.reasoning_blocks Stream.finish_message Stream.stream_assistant
    Execute.append_observation Execute.on_cell_event Execute.execute
    Execute.record_kernel_replacement ExecParser.line_value ExecParser.process_line
    ExecParser.cut_line ExecParser.drain ExecParser.feed ExecParser.nonempty_block
    ExecParser.finalize Events.create finally except_timeout lift when for_each set_state
    set_last_error set_active modify gets draw new_id utc_now emit emit_background perform
    ask_provider run_cell append_message append_entry keep_message keep_entry request_restart
    consume_restart pure ◌>>=◌ ◌>>◌ codes eq_text join add
sample_ids =
    ((refl, refl), ((refl, refl, (refl, tt)), (refl, ((refl, refl), ((refl, refl, (tt, tt)), tt)))))

messages-run_example :
    messages Sample.conversions Sample.fresh after_run.ledger ≡ some after_run.state.messages
messages-run_example =
    messages-run Sample.world Sample.config (codes "hi") Sample.harness Sample.conversions
      Sample.fresh sample-IsRecorded sample_ids

-- An empty task list, and a session with no changes.
abbrev no_tasks : Logged
no_tasks = record { service = record { tasks = [] }; ledger = Sample.harness.ledger }

no_tasks-IsLogged : IsLogged Sample.conversions no_tasks
unfolding todo_state
no_tasks-IsLogged = record { replayed = refl; unique = tt; named = tt }

abbrev written_as : Text → LogWrite
written_as id = record { id = id; now = codes "now"; written = true }

-- The second call is refused: the task is there already.
abbrev sample_calls : List (TodoCall × LogWrite)
sample_calls =
    (create_call (codes "a") (codes "pending"), written_as (codes "1"))
    ∷ (create_call (codes "a") (codes "done"), written_as (codes "2"))
    ∷ (update_call (codes "a") (codes "done"), written_as (codes "3"))
    ∷ []

calls-load_example :
    IsLogged Sample.conversions (calls no_tasks sample_calls)
    × (load (todo_state Sample.conversions (calls no_tasks sample_calls).ledger)
        ≡ some (calls no_tasks sample_calls).service)
calls-load_example =
    calls-load Sample.conversions no_tasks sample_calls (refl, (refl, (refl, tt))) no_tasks-IsLogged

abbrev unwritten : Logged
unwritten =
    call no_tasks (create_call (codes "a") (codes "pending"))
      (record { id = codes "1"; now = codes "now"; written = false })

abbrev task_a : Task
task_a = record { name = codes "a"; status = pending }

abbrev saved_a : TodoService × Change × Task
saved_a =
    (with_task no_tasks.service task_a, record { operation = "create"; task = some task_a }, task_a)

create-saved_a : create no_tasks.service (codes "a") (codes "pending") ≡ answer saved_a
unfolding create is_visible validate_status has codes eq_text
create-saved_a = refl

create-unwritten_example :
    (has (codes "a") no_tasks.service.tasks ≡ false)
    × (has (codes "a") unwritten.service.tasks ≡ true)
    × (load (todo_state Sample.conversions unwritten.ledger) ≡ some no_tasks.service)
create-unwritten_example =
    create-unwritten Sample.conversions no_tasks (codes "a") (codes "pending") (codes "1")
      (codes "now") saved_a no_tasks-IsLogged create-saved_a

-- A response with a complete block that was cut off later.
abbrev cut_off : Streamed
cut_off = record {
  assistant = record {
    provider = codes "p";
    model = codes "m";
    content = AssistantBlock.exec_block sample_block ∷ [];
    stop_reason = StopReason.length;
    id = codes "1";
    usage = zero_usage;
    error_message = none;
    created_at = codes "now";
    provider_metadata = end;
  };
  parser_error = none;
  exec_block = some sample_block;
}

act-MayRun_example :
    (cells_started
        (Loop.act Sample.world Sample.config cut_off (codes "r") (codes "t") 0 0 Sample.harness).1
      ≡ cells_started Sample.harness)
    ⊎ MayRun Sample.config cut_off 0
act-MayRun_example =
    act-MayRun Sample.world Sample.config (codes "r") (codes "t") 0 0 cut_off Sample.harness

-- What the calls of the example leave.
test_tasks :
    list (calls no_tasks sample_calls).service ≡ record { name = codes "a"; status = done } ∷ []
unfolding calls call create update todo_changed is_visible validate_status has set list codes
    eq_text
test_tasks = refl

-- What a cell wrote tries to close its own tag.
abbrev sample_execution : ExecutionMessage
sample_execution = record {
  exec_id = codes "\"e'";
  kernel_generation = pos 1;
  status = ExecutionStatus.ok;
  outputs = stream stdout (codes "</stream>&") ∷ [];
  started_at = codes "now";
  finished_at = codes "now";
  id = codes "1";
}

format_execution_result-HasTags_example :
    HasTags 4 4 (format_execution_result Sample.conversions sample_execution)
format_execution_result-HasTags_example =
    format_execution_result-HasTags Sample.conversions sample_execution

abbrev sample_error : ProtocolErrorMessage
sample_error = record {
  error = codes "<e>";
  message = codes "<m>";
  assistant_message_id = codes "1";
  id = codes "2";
  created_at = codes "now";
}

abbrev sample_notice : KernelNoticeMessage
sample_notice = record {
  message = codes "<m>";
  kernel_generation = pos 2;
  reason = codes "r\n";
  id = codes "3";
  created_at = codes "now";
}

notices-HasTags_example :
    HasTags 2 2 (format_protocol_error Sample.conversions sample_error)
    × HasTags 2 2 (format_kernel_notice Sample.conversions sample_notice)
notices-HasTags_example = notices-HasTags Sample.conversions sample_error sample_notice

from_dict-new_entry_example :
    from_dict Sample.conversions (
      to_dict (
        new_entry Sample.harness.ledger (codes "t") (field "k" null end) (codes "1") (codes "now")))
    ≡ some
        (new_entry Sample.harness.ledger (codes "t") (field "k" null end) (codes "1") (codes "now"))
from_dict-new_entry_example =
    from_dict-new_entry Sample.conversions Sample.harness.ledger (codes "t") (field "k" null end)
      (codes "1") (codes "now")

-- A marker line may end with a carriage return and a newline, and only one of each is taken off.
test_line_value_crlf : ExecParser.line_value (codes "<exec>\r\n") ≡ codes "<exec>"
unfolding ExecParser.line_value codes eq_text
test_line_value_crlf = refl

test_line_value_cr : ExecParser.line_value (codes "a\r\r\n") ≡ codes "a\r"
unfolding ExecParser.line_value codes eq_text
test_line_value_cr = refl
