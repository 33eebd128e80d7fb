-- ===== src/Lib.antt =====
-- py-code-act runs a language model that acts through Python code. The agent loop
-- (src/py_code_act/agent/loop.py) asks a provider for a response, finds one `<exec>` block in it
-- with a parser (src/py_code_act/protocol/exec_parser.py), runs the block in a kernel, adds what
-- happened to the transcript, and goes on until the model is done or a limit is reached. Every
-- message goes to a ledger (src/py_code_act/storage/session_jsonl.py), from which a later session
-- resumes, and every step is told by a numbered event (src/py_code_act/domain/events.py).
--
-- The files:
-- - Prelude, Dict, Spaces, Files: texts as lists of code points, integers, dictionaries in order of
--   insertion, white space, paths and the tree of files behind them.
-- - Domain: src/py_code_act/domain. Usage, Execution, Messages and Events are the data; Json is the
--   JSON values, and Codec with its children is `output_to_dict`, `block_to_dict`,
--   `message_to_dict` and their inverses.
-- - Protocol.ExecParser: src/py_code_act/protocol/exec_parser.py. `process_line` is `_process_line`,
--   `drain` the loop of `feed`, `flush`, `end_of_input` and `result_in` the parts of `finalize`. Its
--   children hold the reference that reads whole lines, and the proofs.
-- - Protocol.Observations: src/py_code_act/protocol/exec_result.py, with `escape` and `quoteattr` of
--   xml.sax.saxutils written out; Tags counts the angle brackets.
-- - Providers.Conversion: src/py_code_act/providers/openai_conversion.py. `pieces_of` is the loop of
--   `serialize_assistant_text`, `convert_message` one round of `convert_messages`.
-- - Providers.OpenAi, Codex: src/py_code_act/providers/openai.py and openai_codex.py. `openai_stream`
--   and `codex_stream` are the two `stream_response`, with what the client delivers as arguments.
--   Terminal, Delivered and Agree hold the proofs; Delivered runs the loop of `_stream_assistant`.
-- - Storage.Session: `append`, `append_message`, `messages` and `todo_state` of
--   src/py_code_act/storage/session_jsonl.py.
-- - Storage.Entries: `SessionEntry.to_dict` and `from_dict`, and `max_kernel_generation`, there.
-- - Storage.Recovery: `__init__`, `_read_existing` and the write of `append` there. `read_from` is the
--   loop over the lines, `open_ledger` the constructor; Crash is about writes that broke off.
-- - Tools.Registry, Tools.Server: src/py_code_act/tools/namespace.py and server.py. `invoke` is the
--   registry's, `handle` is `_handle` up to the write of the response. Guarded and Preserved are about
--   sequences of requests.
-- - Tools.Services: the namespaces that src/py_code_act/application.py registers, with
--   src/py_code_act/tools/protocol.py; Logs joins the server, the task list and the ledger.
-- - Tools.Skills with Scan and Discovery: src/py_code_act/tools/skills.py. `visit_entry` and
--   `visit_each` are the recursion of `visit`, `discover_from` the loop over the sources; Names is
--   about `_validate_name`.
-- - Agent.Context: src/py_code_act/agent/context.py and src/py_code_act/protocol/system_prompt.py.
--   `from_candidates` and `from_directories` are the loops of `discover_context_files`.
-- - Observability: src/py_code_act/observability. `trace` is `TraceRecorder.record`.
-- - Kernel: src/py_code_act/kernel/jupyter.py, and outputs.py in Outputs. A cell's run gets the events
--   of its channels as lists; Runs is about the result and the generation.
-- - Tools.Todo: src/py_code_act/tools/todo.py, and `todo_changed` of src/py_code_act/application.py.
-- - Agent: src/py_code_act/agent. Monad is state with exceptions, Harness the session, the state and
--   the restart controller, Stream `_stream_assistant`, Execute `_execute`, `_append_observation`
--   and `_record_kernel_replacement`, Loop `run` and `_run`. Rules, Triples and Steady are rules for
--   invariants of actions; Limits, Stable, Recorded, Idle and Safe use them. The harness lists
--   the requests and the cells that went out, by `ask_provider` and `run_cell`.
-- - Tests: a scripted provider and kernel, and the theorems at concrete inputs.
--
-- Fuel: the loop of `feed` gets one round more than its pending text has characters; each round but
-- the last takes a line off that text, so the loop ends by itself. The loop of `_run` recurs on the
-- turns that are left.
--
-- Parameters: the provider, the kernel, new ids, the clock, the writes of ledger lines and the
-- delivery of events are the record World of Agent.World, with no assumption on them. Python's
-- `str`, `int` and the truth of a float, applied to JSON values of unknown shape, are the record
-- Conversions of Domain.Json, which assumes that `str` keeps a string and `int` keeps an integer.
-- JSON and YAML texts, `repr`, `upper` and `lower`, `fnmatch`, `splitlines` of texts, the binding
-- of arguments and `compare_digest` are parameters too; of the last one it is assumed that texts
-- which it finds equal are equal.
--
-- Not modelled: what sinks do with events, payloads of traces that are no JSON values, file
-- permissions and fsync, cancellation at other places than the provider's stream and the end of a
-- cell, the sockets, the network clients and the processes themselves, authentication, the
-- terminal, and the wiring in src/py_code_act/application.py but for the registry and
-- `todo_changed`. A file system is a tree without cycles of links. The id of an execution block is
-- drawn also where a response has no block. The trace callbacks of the providers and of the kernel
-- are left out.
pub mod Prelude
pub mod Files
pub mod Observability
pub mod Spaces
pub mod Dict
pub mod Domain
pub mod Protocol
pub mod Storage
pub mod Kernel
pub mod Tools
pub mod Providers
pub mod Agent
pub mod Tests
