-- ===== src/Kernel.antt =====
-- The Jupyter kernel (src/py_code_act/kernel/jupyter.py). What the kernel's process and its channels
-- do is given by lists of events.
pub mod Outputs
pub mod Runs
use py_code_act.Prelude.{
  ℕ, zero, suc, ◌+◌, ◌-◌, ◌≤◌, ◌<◌, String, ◌≡◌, refl, sym, ap, ◌∙◌, ◌≢◌, ◌↔◌, ◌⊎◌, inl, inr, Bool,
  true, false, not, ◌&&◌, ◌||◌, Option, none, some, List, [], ◌∷◌, ◌++◌, map, append-nil,
  append_assoc, arith, ltb, leb, ◌==◌, if◌then◌else◌, Bool-cases, Option-cases, is_some, ◌>>=◌,
  Text, codes, is_nil, length, length-append, eq_text, eq_text_iff, join, join-append,
}
use py_code_act.Prelude.Int.{ℤ, pos, ◌+ℤ◌}
use py_code_act.Domain.Json.{
  Json, null, bool, int, real, str, arr, obj, Items, Fields, end, get, mapping, Conversions, truth,
  is_text,
}
use py_code_act.Domain.Execution.{
  ExecutionOutput, stream, value, display, ExecutionStatus, interrupted, timed_out, kernel_lost,
}
use py_code_act.Domain.Execution
use py_code_act.Agent.World.{KernelExecutionResult}
use py_code_act.Dict.{Dict}
use py_code_act.Observability.{member}
use py_code_act.Kernel.Outputs.{output_from_iopub}

abbrev pub credential_environment_variables : List Text
credential_environment_variables =
    codes "OPENAI_API_KEY"
    ∷ codes "AZURE_OPENAI_API_KEY"
    ∷ codes "OPENAI_ORG_ID"
    ∷ codes "OPENAI_PROJECT"
    ∷ codes "ANTHROPIC_API_KEY"
    ∷ codes "DEEPSEEK_API_KEY"
    ∷ codes "OPENAI_ACCESS_TOKEN"
    ∷ codes "OPENAI_REFRESH_TOKEN"
    ∷ codes "CHATGPT_ACCOUNT_ID"
    ∷ []

-- `sanitized_environment`; `upper` is `str.upper`.
unfoldable pub sanitized_environment : (Text → Text) → Dict Text → Dict Text
sanitized_environment upper [] = []
sanitized_environment upper ((k, v) ∷ environment) =
    let rest = sanitized_environment upper environment in
    if member (upper k) credential_environment_variables then rest else (k, v) ∷ rest

-- The process behind the client is ready and has its tools, or is ready without them, or a
-- replacement stopped the old one and no new one is ready.
pub data ProcessState : Type 0 where
  standing untooled unready : ProcessState

-- `running` where `_manager` and `_client` are set, which happens at once.
pub record JupyterKernel : Type 0 where
  pub running : Bool
  pub generation : ℤ
  pub rpc_token : Text
  pub process : ProcessState

-- `not_started` is the RuntimeError; the others are exceptions of the client and of the manager.
pub data KernelError : Type 0 where
  not_started not_ready not_installed client_error wait_cancelled : KernelError

-- What ends a start or a replacement before its time.
pub data Cause : Type 0 where
  by_error by_cancellation : Cause

abbrev caused : Cause → KernelError → KernelError
caused by_error e = e
caused by_cancellation e = wait_cancelled

-- How a start or a replacement goes: the new process is ready and gets its tools, with the token
-- that the rotator gives if there is one, or it fails before or while they are installed.
pub data Fate : Type 0 where
  installed : Option Text → Fate
  failing_tools : Cause → Option Text → Fate
  failing_process : Cause → Fate

-- `start`
unfoldable pub start : JupyterKernel → Fate → JupyterKernel × Option KernelError
start k fate = if k.running then (k, none) else elim fate [
  | installed token ↦ (record k { running = true; process = standing }, none)
  | failing_tools cause token ↦
      (record k { running = true; process = untooled }, some (caused cause not_installed))
  | failing_process cause ↦ (k, some (caused cause not_ready))
]

abbrev token_or : Option Text → Text → Text
token_or none old = old
token_or (some new) old = new

-- The next generation, with its token.
abbrev pub next_generation : JupyterKernel → Option Text → ProcessState → JupyterKernel
next_generation k token state = record k {
  generation = k.generation +ℤ pos 1;
  rpc_token = token_or token k.rpc_token;
  process = state;
}

-- The old channels and the old process are stopped first, so a replacement that fails before the new
-- process is ready leaves none.
abbrev pub replaced_by : JupyterKernel → Fate → JupyterKernel × Option KernelError
replaced_by k (installed token) = (next_generation k token standing, none)
replaced_by k (failing_tools cause token) =
    (next_generation k token untooled, some (caused cause not_installed))
replaced_by k (failing_process cause) =
    (record k { process = unready }, some (caused cause not_ready))

-- `_replace_kernel`
unfoldable pub replace_kernel : JupyterKernel → Fate → JupyterKernel × Option KernelError
replace_kernel k fate = if k.running then replaced_by k fate else (k, some not_started)

-- `restart`
unfoldable pub restart : JupyterKernel → Fate → JupyterKernel × Option KernelError
restart k fate = replace_kernel k fate

unfoldable pub shutdown : JupyterKernel → JupyterKernel
shutdown k = record k { running = false }

-- What reaches a loop that waits: a message, half a second without one, with whether the process is
-- alive then, the timeout around the loop, a cancellation, or an exception of the client. Where a
-- list ends, nothing comes before the timeout.
pub data Event : Type 0 where
  arrived : Fields → Event
  silence : Bool → Event
  deadline cancellation broken : Event

unfoldable pub any_cancellation : List Event → Bool
any_cancellation [] = false
any_cancellation (cancellation ∷ events) = true
any_cancellation (e ∷ events) = any_cancellation events

-- What reaches a task behind a shield.
unfoldable pub uncancelled : List Event → List Event
uncancelled [] = []
uncancelled (cancellation ∷ events) = uncancelled events
uncancelled (e ∷ events) = e ∷ uncancelled events

pub data WaitEnd : Type 0 where
  timeout cancelled failed : WaitEnd

pub data ReplyEnd : Type 0 where
  reply : Fields → ReplyEnd
  no_reply : WaitEnd → ReplyEnd

-- What the surroundings give to an execution: the id of its request, what comes on the two channels
-- and on the first one after an interrupt, whether the process is alive where the client fails, and
-- how a replacement goes.
pub record CellRun : Type 0 where
  pub message_id : Text
  pub iopub : List Event
  pub shell : List Event
  pub after_interrupt : List Event
  pub alive : Bool
  pub fate : Fate

pub data Executed : Type 0 where
  finished : KernelExecutionResult → Executed
  raised : KernelError → Executed

-- The outputs in their order, and how the loop ends: `none` where it returns.
abbrev pub Collected : Type 0
Collected = List ExecutionOutput × Option WaitEnd

abbrev pub and_output : Option ExecutionOutput → Collected → Collected
and_output none c = c
and_output (some output) c = (output ∷ c.0, c.1)

abbrev pub is_error : ExecutionOutput → Bool
is_error (ExecutionOutput.error name message traceback) = true
is_error _ = false

unfoldable pub any_error : List ExecutionOutput → Bool
any_error [] = false
any_error (output ∷ outputs) = is_error output || any_error outputs

-- `reply.get("content", {})`; `none` is a value with no `get`, which raises an AttributeError.
abbrev pub reply_content : Option Json → Option Fields
reply_content none = some end
reply_content content = mapping content

abbrev pub status_of : Fields → List ExecutionOutput → ExecutionStatus
status_of content outputs =
    if is_text (get "status" content) "error" || any_error outputs
    then ExecutionStatus.error
    else ExecutionStatus.ok

abbrev pub result_of :
    ExecutionStatus → List ExecutionOutput → JupyterKernel → Bool → KernelExecutionResult
result_of status outputs k replaced = record {
  status = status;
  outputs = outputs;
  kernel_generation = k.generation;
  replaced_kernel = replaced;
}

-- The result of an execution in the generation of `k`, or the exception of the replacement.
abbrev pub or_raise :
    KernelExecutionResult → JupyterKernel × Option KernelError → JupyterKernel × Executed
or_raise r (k, none) = (k, finished r)
or_raise r (k, some error) = (k, raised error)

module _ (py : Conversions) where
  abbrev id_in : Option Json → Option Text
  id_in none = none
  id_in (some v) = if truth py v then some (py.to_str v) else none

  abbrev id_of : Option Fields → Option Text
  id_of none = none
  id_of (some parent) = id_in (get "msg_id" parent)

  -- `_parent_id`
  unfoldable pub parent_id : Fields → Option Text
  parent_id message = id_of (mapping (get "parent_header" message))

  abbrev same_id : Option Text → Text → Bool
  same_id none id = false
  same_id (some p) id = eq_text p id

  abbrev pub is_own : Text → Fields → Bool
  is_own id message = same_id (parent_id message) id

  abbrev idle_content : Option Fields → Bool
  idle_content none = false
  idle_content (some content) = is_text (get "execution_state" content) "idle"

  abbrev pub is_idle : Fields → Bool
  is_idle message =
      is_text (get "msg_type" message) "status" && idle_content (mapping (get "content" message))

  -- `_wait_for_idle`; `none` where it returns
  unfoldable pub wait_for_idle : Text → List Event → Option WaitEnd
  wait_for_idle id [] = some timeout
  wait_for_idle id (arrived message ∷ events) =
      let rest = wait_for_idle id events in
      if is_own id message && is_idle message then none else rest
  wait_for_idle id (silence alive ∷ events) = wait_for_idle id events
  wait_for_idle id (deadline ∷ events) = some timeout
  wait_for_idle id (cancellation ∷ events) = some cancelled
  wait_for_idle id (broken ∷ events) = some failed

  -- `_collect_iopub`; a process that is dead is the KernelDiedError
  unfoldable pub collect_iopub : Text → List Event → Collected
  collect_iopub id [] = ([], some timeout)
  collect_iopub id (arrived message ∷ events) =
      let rest = collect_iopub id events in
      if is_own id message
      then and_output (output_from_iopub py message) (if is_idle message then ([], none) else rest)
      else rest
  collect_iopub id (silence alive ∷ events) =
      let rest = collect_iopub id events in if alive then rest else ([], some failed)
  collect_iopub id (deadline ∷ events) = ([], some timeout)
  collect_iopub id (cancellation ∷ events) = ([], some cancelled)
  collect_iopub id (broken ∷ events) = ([], some failed)

  -- `_matching_shell_reply`
  unfoldable pub matching_shell_reply : Text → List Event → ReplyEnd
  matching_shell_reply id [] = no_reply timeout
  matching_shell_reply id (arrived message ∷ events) =
      let rest = matching_shell_reply id events in if is_own id message then reply message else rest
  matching_shell_reply id (silence alive ∷ events) = matching_shell_reply id events
  matching_shell_reply id (deadline ∷ events) = no_reply timeout
  matching_shell_reply id (cancellation ∷ events) = no_reply cancelled
  matching_shell_reply id (broken ∷ events) = no_reply failed

  -- `_interrupt_and_wait`, and the result: the kernel is replaced where it does not get idle.
  abbrev pub interrupted_run :
      ExecutionStatus
      → JupyterKernel
      → List ExecutionOutput
      → CellRun
      → Option WaitEnd
      → JupyterKernel × Executed
  interrupted_run status k outputs x none = (k, finished (result_of status outputs k false))
  interrupted_run status k outputs x (some timeout) =
      or_raise (result_of status outputs k true) (replace_kernel k x.fate)
  interrupted_run status k outputs x (some cancelled) = (k, raised wait_cancelled)
  interrupted_run status k outputs x (some failed) = (k, raised client_error)

  -- Whether another cancellation comes while a shielded wait and a replacement after it go on.
  unfoldable pub is_cancelled : Text → List Event → Bool
  is_cancelled id [] = false
  is_cancelled id (arrived message ∷ events) =
      let rest = is_cancelled id events in not (is_own id message && is_idle message) && rest
  is_cancelled id (silence alive ∷ events) = is_cancelled id events
  is_cancelled id (deadline ∷ events) = any_cancellation events
  is_cancelled id (cancellation ∷ events) = true
  is_cancelled id (broken ∷ events) = false

  -- `asyncio.shield`: a cancellation ends `execute`, and the task behind the shield goes on to its
  -- end. The kernel is what that task leaves, if nothing else uses it before.
  abbrev pub shielded : Bool → JupyterKernel × Executed → JupyterKernel × Executed
  shielded is_cancelled (k, executed) =
      (k, if is_cancelled then raised wait_cancelled else executed)

  -- The handlers of `execute`.
  abbrev pub ended :
      JupyterKernel → List ExecutionOutput → CellRun → WaitEnd → JupyterKernel × Executed
  ended k outputs x timeout =
      interrupted_run timed_out k outputs x (wait_for_idle x.message_id x.after_interrupt)
  ended k outputs x cancelled = shielded (is_cancelled x.message_id x.after_interrupt) (
      interrupted_run interrupted k outputs x
        (wait_for_idle x.message_id (uncancelled x.after_interrupt)))
  ended k outputs x failed =
      if x.alive
      then (k, raised client_error)
      else or_raise (result_of kernel_lost outputs k true) (replace_kernel k x.fate)

  abbrev pub answered :
      JupyterKernel → List ExecutionOutput → CellRun → Option Fields → JupyterKernel × Executed
  answered k outputs x (some content) =
      (k, finished (result_of (status_of content outputs) outputs k false))
  answered k outputs x none = ended k outputs x failed

  abbrev pub replied :
      JupyterKernel → List ExecutionOutput → CellRun → ReplyEnd → JupyterKernel × Executed
  replied k outputs x (reply answer) = answered k outputs x (reply_content (get "content" answer))
  replied k outputs x (no_reply e) = ended k outputs x e

  abbrev pub collected : JupyterKernel → CellRun → Collected → JupyterKernel × Executed
  collected k x (outputs, none) = replied k outputs x (matching_shell_reply x.message_id x.shell)
  collected k x (outputs, some e) = ended k outputs x e

  -- `execute`
  unfoldable pub execute : JupyterKernel → CellRun → JupyterKernel × Executed
  execute k x =
      if k.running
      then collected k x (collect_iopub x.message_id x.iopub)
      else (k, raised not_started)
