-- ===== src/Tests/KernelRuns.antt =====
-- A cell that writes and gets idle, behind a message of an earlier one, and a cell that times out.
use py_code_act.Prelude.{String, ◌≡◌, true, some, [], ◌∷◌, Text, codes}
use py_code_act.Prelude.Int.{pos}
use py_code_act.Domain.Json.{str, obj, Fields, end, field}
use py_code_act.Kernel.{standing, JupyterKernel, installed, Event, arrived, CellRun, execute}
use py_code_act.Kernel.Runs.{AfterRun, own_run, execute-AfterRun, execute-own_run}
use py_code_act.Tests.Sample

abbrev message : Text → String → Fields → Fields
message parent kind content =
    field "parent_header" (obj (field "msg_id" (str parent) end))
      (field "msg_type" (str (codes kind)) (field "content" (obj content) end))

abbrev written : Text → Event
written parent = arrived (message parent "stream" (field "text" (str (codes "1")) end))

abbrev idle : Text → Event
idle parent = arrived (message parent "status" (field "execution_state" (str (codes "idle")) end))

abbrev kernel : JupyterKernel
kernel = record { running = true; generation = pos 1; rpc_token = codes "t"; process = standing }

abbrev timed_run : CellRun
timed_run = record {
  message_id = codes "m";
  iopub = written (codes "old") ∷ written (codes "m") ∷ [];
  shell = [];
  after_interrupt = [];
  alive = true;
  fate = installed (some (codes "u"));
}

abbrev idle_run : CellRun
idle_run = record timed_run {
  iopub = written (codes "old") ∷ written (codes "m") ∷ idle (codes "m") ∷ [];
  shell = arrived (message (codes "m") "execute_reply" end) ∷ [];
}

execute-AfterRun_example : AfterRun kernel (execute Sample.conversions kernel timed_run)
execute-AfterRun_example = execute-AfterRun Sample.conversions kernel timed_run

execute-own_run_example :
    execute Sample.conversions kernel (own_run Sample.conversions idle_run)
    ≡ execute Sample.conversions kernel idle_run
execute-own_run_example = execute-own_run Sample.conversions kernel idle_run
