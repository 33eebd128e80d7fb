-- ===== src/Kernel/Runs.antt =====
-- What an execution says about the kernel (src/py_code_act/kernel/jupyter.py).
use py_code_act.Prelude.{
  ◌≡◌, refl, ap, ◌∙◌, ◌⊎◌, inl, inr, Bool, true, false, Option, none, some, List, [], ◌∷◌, arith,
  if◌then◌else◌, Bool-cases, Text,
}
use py_code_act.Domain.Json.{Fields, get, Conversions}
use py_code_act.Domain.Execution.{
  ExecutionOutput, ExecutionStatus, timed_out, interrupted, kernel_lost,
}
use py_code_act.Agent.World.{KernelExecutionResult}
use py_code_act.Kernel.{
  standing, untooled, unready, JupyterKernel, KernelError, not_ready, not_installed, wait_cancelled,
  by_error, by_cancellation, next_generation, any_cancellation, uncancelled, is_cancelled, shielded,
  Fate, installed, failing_tools, failing_process, replace_kernel, replaced_by, Event, arrived,
  silence, deadline, cancellation, broken, WaitEnd, timeout, cancelled, failed, ReplyEnd, reply,
  no_reply, CellRun, Executed, finished, raised, Collected, result_of, status_of, or_raise,
  interrupted_run, ended, answered, replied, reply_content, collected, is_own, wait_for_idle,
  collect_iopub, matching_shell_reply, execute,
}

-- A result that tells which generation ran the cell, and whether another one stands there now.
pub record TellsKernel (k next : JupyterKernel) (r : KernelExecutionResult) : Type 0 where
  pub ran_in : r.kernel_generation ≡ k.generation
  pub kept : r.replaced_kernel ≡ false → next ≡ k
  pub replaced :
      r.replaced_kernel ≡ true → (token : Option Text) × (next ≡ next_generation k token standing)

-- What an exception leaves: the kernel; the kernel without a process, where a replacement did not get
-- ready; the next generation without its tools, where they were not installed; or the next generation,
-- where `execute` was cancelled while the replacement went on behind the shield.
pub data MayFail (k next : JupyterKernel) (e : KernelError) : Type 0 where
  kept : next ≡ k → MayFail k next e
  no_process :
      next ≡ record k { process = unready }
      → (e ≡ not_ready) ⊎ (e ≡ wait_cancelled)
      → MayFail k next e
  no_tools :
      (token : Option Text)
      → next ≡ next_generation k token untooled
      → (e ≡ not_installed) ⊎ (e ≡ wait_cancelled)
      → MayFail k next e
  behind_shield :
      (token : Option Text)
      → next ≡ next_generation k token standing
      → e ≡ wait_cancelled
      → MayFail k next e

abbrev pub AfterRun : JupyterKernel → JupyterKernel × Executed → Type 0
AfterRun k (next, finished r) = TellsKernel k next r
AfterRun k (next, raised e) = MayFail k next e

untouched :
    (k : JupyterKernel) (status : ExecutionStatus) (outputs : List ExecutionOutput)
    → AfterRun k (k, finished (result_of status outputs k false))
untouched k status outputs = record {
  ran_in = refl;
  kept = λ e. refl;
  replaced = λ e. absurd (ground arith);
}

AfterRun-if :
    (k : JupyterKernel) (b : Bool) (x y : JupyterKernel × Executed)
    → AfterRun k x
    → AfterRun k y
    → AfterRun k (if b then x else y)
AfterRun-if k true x y p q = p
AfterRun-if k false x y p q = q

replaced_by-AfterRun :
    (k : JupyterKernel) (status : ExecutionStatus) (outputs : List ExecutionOutput) (fate : Fate)
    → AfterRun k (or_raise (result_of status outputs k true) (replaced_by k fate))
replaced_by-AfterRun k status outputs (installed token) = record {
  ran_in = refl;
  kept = λ e. absurd (ground arith);
  replaced = λ e. (token, refl);
}
replaced_by-AfterRun k status outputs (failing_tools by_error token) =
    no_tools token refl (inl refl)
replaced_by-AfterRun k status outputs (failing_tools by_cancellation token) =
    no_tools token refl (inr refl)
replaced_by-AfterRun k status outputs (failing_process by_error) = no_process refl (inl refl)
replaced_by-AfterRun k status outputs (failing_process by_cancellation) = no_process refl (inr refl)

or_raise-AfterRun :
    (k : JupyterKernel) (status : ExecutionStatus) (outputs : List ExecutionOutput) (fate : Fate)
    → AfterRun k (or_raise (result_of status outputs k true) (replace_kernel k fate))
unfolding replace_kernel
or_raise-AfterRun k status outputs fate = go k.running
  where
    go :
        (b : Bool)
        → AfterRun k (
            or_raise
              (result_of status outputs k true)
              (if b then replaced_by k fate else (k, some KernelError.not_started)))
    go true = replaced_by-AfterRun k status outputs fate
    go false = kept refl

interrupted_run-AfterRun :
    (py : Conversions) (status : ExecutionStatus) (k : JupyterKernel)
    (outputs : List ExecutionOutput) (x : CellRun) (e : Option WaitEnd)
    → AfterRun k (interrupted_run py status k outputs x e)
interrupted_run-AfterRun py status k outputs x none = untouched k status outputs
interrupted_run-AfterRun py status k outputs x (some timeout) =
    or_raise-AfterRun k status outputs x.fate
interrupted_run-AfterRun py status k outputs x (some cancelled) = kept refl
interrupted_run-AfterRun py status k outputs x (some failed) = kept refl

MayFail-cancelled :
    (k next : JupyterKernel) (e : KernelError) → MayFail k next e → MayFail k next wait_cancelled
MayFail-cancelled k next e (kept n) = kept n
MayFail-cancelled k next e (no_process n c) = no_process n (inr refl)
MayFail-cancelled k next e (no_tools token n c) = no_tools token n (inr refl)
MayFail-cancelled k next e (behind_shield token n c) = behind_shield token n refl

-- A cancellation while the task behind the shield goes on.
shielded-AfterRun :
    (py : Conversions) (k next : JupyterKernel) (b : Bool) (executed : Executed)
    → AfterRun k (next, executed)
    → AfterRun k (shielded py b (next, executed))
shielded-AfterRun py k next false executed h = h
shielded-AfterRun py k next true (raised e) h = MayFail-cancelled k next e h
shielded-AfterRun py k next true (finished r) h = elim (Bool-cases r.replaced_kernel) [
  | inl replaced ↦ let (token, n) = h.replaced replaced in behind_shield token n refl
  | inr same ↦ kept (h.kept same)
]

ended-AfterRun :
    (py : Conversions) (k : JupyterKernel) (outputs : List ExecutionOutput) (x : CellRun)
    (e : WaitEnd)
    → AfterRun k (ended py k outputs x e)
ended-AfterRun py k outputs x timeout =
    interrupted_run-AfterRun py timed_out k outputs x
      (wait_for_idle py x.message_id x.after_interrupt)
ended-AfterRun py k outputs x cancelled =
    shielded-AfterRun py k _ (is_cancelled py x.message_id x.after_interrupt) _ (
      interrupted_run-AfterRun py interrupted k outputs x
        (wait_for_idle py x.message_id (uncancelled x.after_interrupt)))
ended-AfterRun py k outputs x failed =
    AfterRun-if k x.alive _ _ (kept refl) (or_raise-AfterRun k kernel_lost outputs x.fate)

answered-AfterRun :
    (py : Conversions) (k : JupyterKernel) (outputs : List ExecutionOutput) (x : CellRun)
    (content : Option Fields)
    → AfterRun k (answered py k outputs x content)
answered-AfterRun py k outputs x (some content) = untouched k (status_of content outputs) outputs
answered-AfterRun py k outputs x none = ended-AfterRun py k outputs x failed

replied-AfterRun :
    (py : Conversions) (k : JupyterKernel) (outputs : List ExecutionOutput) (x : CellRun)
    (e : ReplyEnd)
    → AfterRun k (replied py k outputs x e)
replied-AfterRun py k outputs x (reply answer) =
    answered-AfterRun py k outputs x (reply_content (get "content" answer))
replied-AfterRun py k outputs x (no_reply e) = ended-AfterRun py k outputs x e

collected-AfterRun :
    (py : Conversions) (k : JupyterKernel) (x : CellRun) (c : Collected)
    → AfterRun k (collected py k x c)
collected-AfterRun py k x (outputs, none) =
    replied-AfterRun py k outputs x (matching_shell_reply py x.message_id x.shell)
collected-AfterRun py k x (outputs, some e) = ended-AfterRun py k outputs x e

-- Whatever the kernel and its channels do, a result names the generation that ran the cell, and it
-- says that the kernel was replaced exactly where the next generation stands there now with its
-- tools. An exception leaves the kernel as it was; or without a process, where a replacement raised
-- or was cancelled before the new process was ready; or in the next generation without its tools,
-- where their installation raised or was cancelled; or in the next generation, where a second
-- cancellation ended `execute` while the replacement went on behind the shield.
pub execute-AfterRun :
    (py : Conversions) (k : JupyterKernel) (x : CellRun) → AfterRun k (execute py k x)
unfolding execute
execute-AfterRun py k x =
    AfterRun-if k k.running _ _ (collected-AfterRun py k x (collect_iopub py x.message_id x.iopub))
      (kept refl)

module _ (py : Conversions) (id : Text) where
  -- The events without the messages that answer other requests.
  unfoldable pub own_events : List Event → List Event
  own_events [] = []
  own_events (arrived message ∷ events) =
      let rest = own_events events in if is_own py id message then arrived message ∷ rest else rest
  own_events (silence alive ∷ events) = silence alive ∷ own_events events
  own_events (deadline ∷ events) = deadline ∷ own_events events
  own_events (cancellation ∷ events) = cancellation ∷ own_events events
  own_events (broken ∷ events) = broken ∷ own_events events

  collect_iopub-own_events :
      (es : List Event) → collect_iopub py id (own_events es) ≡ collect_iopub py id es
  unfolding collect_iopub own_events
  collect_iopub-own_events [] = refl
  collect_iopub-own_events (arrived m ∷ es) = elim (Bool-cases (is_own py id m)) [
    | inl own ↦ rw own (rw (own, collect_iopub-own_events es) refl)
    | inr other ↦ rw other (collect_iopub-own_events es)
  ]
  collect_iopub-own_events (silence alive ∷ es) = rw (collect_iopub-own_events es) refl
  collect_iopub-own_events (deadline ∷ es) = refl
  collect_iopub-own_events (cancellation ∷ es) = refl
  collect_iopub-own_events (broken ∷ es) = refl

  wait_for_idle-own_events :
      (es : List Event) → wait_for_idle py id (own_events es) ≡ wait_for_idle py id es
  unfolding wait_for_idle own_events
  wait_for_idle-own_events [] = refl
  wait_for_idle-own_events (arrived m ∷ es) = elim (Bool-cases (is_own py id m)) [
    | inl own ↦ rw own (rw (own, wait_for_idle-own_events es) refl)
    | inr other ↦ rw other (wait_for_idle-own_events es)
  ]
  wait_for_idle-own_events (silence alive ∷ es) = wait_for_idle-own_events es
  wait_for_idle-own_events (deadline ∷ es) = refl
  wait_for_idle-own_events (cancellation ∷ es) = refl
  wait_for_idle-own_events (broken ∷ es) = refl

  any_cancellation-own_events :
      (es : List Event) → any_cancellation (own_events es) ≡ any_cancellation es
  unfolding any_cancellation own_events
  any_cancellation-own_events [] = refl
  any_cancellation-own_events (arrived m ∷ es) = elim (Bool-cases (is_own py id m)) [
    | inl own ↦ rw own (any_cancellation-own_events es)
    | inr other ↦ rw other (any_cancellation-own_events es)
  ]
  any_cancellation-own_events (silence alive ∷ es) = any_cancellation-own_events es
  any_cancellation-own_events (deadline ∷ es) = any_cancellation-own_events es
  any_cancellation-own_events (cancellation ∷ es) = refl
  any_cancellation-own_events (broken ∷ es) = any_cancellation-own_events es

  is_cancelled-own_events :
      (es : List Event) → is_cancelled py id (own_events es) ≡ is_cancelled py id es
  unfolding is_cancelled own_events
  is_cancelled-own_events [] = refl
  is_cancelled-own_events (arrived m ∷ es) = elim (Bool-cases (is_own py id m)) [
    | inl own ↦ rw own (rw (own, is_cancelled-own_events es) refl)
    | inr other ↦ rw other (is_cancelled-own_events es)
  ]
  is_cancelled-own_events (silence alive ∷ es) = is_cancelled-own_events es
  is_cancelled-own_events (deadline ∷ es) = any_cancellation-own_events es
  is_cancelled-own_events (cancellation ∷ es) = refl
  is_cancelled-own_events (broken ∷ es) = refl

  uncancelled-own_events :
      (es : List Event) → uncancelled (own_events es) ≡ own_events (uncancelled es)
  unfolding uncancelled own_events
  uncancelled-own_events [] = refl
  uncancelled-own_events (arrived m ∷ es) = elim (Bool-cases (is_own py id m)) [
    | inl own ↦ rw own (ap (◌∷◌ (arrived m)) (uncancelled-own_events es))
    | inr other ↦ rw other (uncancelled-own_events es)
  ]
  uncancelled-own_events (silence alive ∷ es) = ap (◌∷◌ (silence alive)) (uncancelled-own_events es)
  uncancelled-own_events (deadline ∷ es) = ap (◌∷◌ deadline) (uncancelled-own_events es)
  uncancelled-own_events (cancellation ∷ es) = uncancelled-own_events es
  uncancelled-own_events (broken ∷ es) = ap (◌∷◌ broken) (uncancelled-own_events es)

  reply-own_events :
      (es : List Event) → matching_shell_reply py id (own_events es) ≡ matching_shell_reply py id es
  unfolding matching_shell_reply own_events
  reply-own_events [] = refl
  reply-own_events (arrived m ∷ es) = elim (Bool-cases (is_own py id m)) [
    | inl own ↦ rw own (rw own refl)
    | inr other ↦ rw other (reply-own_events es)
  ]
  reply-own_events (silence alive ∷ es) = reply-own_events es
  reply-own_events (deadline ∷ es) = refl
  reply-own_events (cancellation ∷ es) = refl
  reply-own_events (broken ∷ es) = refl

abbrev pub own_run : Conversions → CellRun → CellRun
own_run py x = record x {
  iopub = own_events py x.message_id x.iopub;
  shell = own_events py x.message_id x.shell;
  after_interrupt = own_events py x.message_id x.after_interrupt;
}

interrupted_run-own_run :
    (py : Conversions) (status : ExecutionStatus) (k : JupyterKernel)
    (outputs : List ExecutionOutput) (x : CellRun) (e : Option WaitEnd)
    → interrupted_run py status k outputs (own_run py x) e ≡ interrupted_run py status k outputs x e
interrupted_run-own_run py status k outputs x none = refl
interrupted_run-own_run py status k outputs x (some timeout) = refl
interrupted_run-own_run py status k outputs x (some cancelled) = refl
interrupted_run-own_run py status k outputs x (some failed) = refl

ended-own_run :
    (py : Conversions) (k : JupyterKernel) (outputs : List ExecutionOutput) (x : CellRun)
    (e : WaitEnd)
    → ended py k outputs (own_run py x) e ≡ ended py k outputs x e
ended-own_run py k outputs x timeout =
    ap (interrupted_run py timed_out k outputs (own_run py x))
      (wait_for_idle-own_events py x.message_id x.after_interrupt)
    ∙ interrupted_run-own_run py timed_out k outputs x
        (wait_for_idle py x.message_id x.after_interrupt)
ended-own_run py k outputs x cancelled =
    let id = x.message_id in
    let wait = uncancelled x.after_interrupt in
    rw
      (
        is_cancelled-own_events py id x.after_interrupt,
        uncancelled-own_events py id x.after_interrupt,
        wait_for_idle-own_events py id wait,
      )
      (ap (shielded py (is_cancelled py id x.after_interrupt))
        (interrupted_run-own_run py interrupted k outputs x (wait_for_idle py id wait)))
ended-own_run py k outputs x failed = refl

answered-own_run :
    (py : Conversions) (k : JupyterKernel) (outputs : List ExecutionOutput) (x : CellRun)
    (content : Option Fields)
    → answered py k outputs (own_run py x) content ≡ answered py k outputs x content
answered-own_run py k outputs x (some content) = refl
answered-own_run py k outputs x none = ended-own_run py k outputs x failed

replied-own_run :
    (py : Conversions) (k : JupyterKernel) (outputs : List ExecutionOutput) (x : CellRun)
    (e : ReplyEnd)
    → replied py k outputs (own_run py x) e ≡ replied py k outputs x e
replied-own_run py k outputs x (reply answer) =
    answered-own_run py k outputs x (reply_content (get "content" answer))
replied-own_run py k outputs x (no_reply e) = ended-own_run py k outputs x e

collected-own_run :
    (py : Conversions) (k : JupyterKernel) (x : CellRun) (c : Collected)
    → collected py k (own_run py x) c ≡ collected py k x c
collected-own_run py k x (outputs, none) =
    ap (replied py k outputs (own_run py x)) (reply-own_events py x.message_id x.shell)
    ∙ replied-own_run py k outputs x (matching_shell_reply py x.message_id x.shell)
collected-own_run py k x (outputs, some e) = ended-own_run py k outputs x e

-- Messages that answer other requests, such as what earlier cells still write, change neither the
-- outputs of a cell nor its result nor the kernel, wherever they arrive.
pub execute-own_run :
    (py : Conversions) (k : JupyterKernel) (x : CellRun)
    → execute py k (own_run py x) ≡ execute py k x
unfolding execute
execute-own_run py k x = rw (collect_iopub-own_events py x.message_id x.iopub) (
    ap
      (λ (r : JupyterKernel × Executed).
        if k.running then r else (k, raised KernelError.not_started))
      (collected-own_run py k x (collect_iopub py x.message_id x.iopub)))
