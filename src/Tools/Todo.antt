-- ===== src/Tools/Todo.antt =====
-- The task list (src/py_code_act/tools/todo.py), and the session's log of its changes (`todo_changed` in
-- src/py_code_act/application.py). Names and statuses are texts, as the signatures say.
pub mod Replay
use py_code_act.Prelude.{
  ℕ, zero, suc, ◌+◌, ◌-◌, ◌≤◌, ◌<◌, String, ◌≡◌, refl, sym, ap, ◌∙◌, ◌≢◌, ◌↔◌, ◌⊎◌, inl, inr, Bool,
  true, false, not, ◌&&◌, ◌||◌, Option, none, some, List, [], ◌∷◌, ◌++◌, map, append-nil,
  append_assoc, arith, ltb, leb, ◌==◌, if◌then◌else◌, Bool-cases, Option-cases, is_some, ◌>>=◌,
  Text, codes, is_nil, length, length-append, eq_text, eq_text_iff, join, join-append,
}
use py_code_act.Spaces.{is_space}
use py_code_act.Dict.{Dict, set, lookup, has}
use py_code_act.Domain.Json.{Fields, end, field, str}
use py_code_act.Storage.Session
use py_code_act.Storage.Session.{SessionLedger}

pub data TaskStatus : Type 0 where
  pending in_progress done : TaskStatus

pub record Task : Type 0 where
  pub name : Text
  pub status : TaskStatus

pub record TodoService : Type 0 where
  pub tasks : Dict Task

-- the exceptions of the service: ValueErrors, and the KeyError "unknown task"
pub data TodoError : Type 0 where
  empty_name already_exists invalid_status unknown_task : TodoError

pub data TodoResult (A : Type 0) : Type 0 where
  answer : A → TodoResult A
  refused : TodoError → TodoResult A

-- What `on_change` is called with.
pub record Change : Type 0 where
  pub operation : String
  pub task : Option Task

abbrev pub status_text : TaskStatus → String
status_text pending = "pending"
status_text in_progress = "in_progress"
status_text done = "done"

-- `_validate_status`; `none` is the ValueError.
unfoldable pub validate_status : Text → Option TaskStatus
validate_status t =
    if eq_text t (codes "pending")
    then some pending
    else if eq_text t (codes "in_progress")
    then some in_progress
    else if eq_text t (codes "done")
    then some done
    else none

-- `bool(name.strip())`
unfoldable pub is_visible : Text → Bool
is_visible [] = false
is_visible (c ∷ t) = not (is_space c) || is_visible t

abbrev pub new_task : Text → TaskStatus → Task
new_task name status = record { name = name; status = status }

abbrev pub with_task : TodoService → Task → TodoService
with_task s t = record s { tasks = set t.name t s.tasks }

abbrev pub save :
    String → TodoService → Text → Option TaskStatus → TodoResult (TodoService × Change × Task)
save operation s name none = refused invalid_status
save operation s name (some status) =
    let task = new_task name status in
    answer (with_task s task, record { operation = operation; task = some task }, task)

-- The operations return the new service, the change that they report, and their result.
unfoldable pub create : TodoService → Text → Text → TodoResult (TodoService × Change × Task)
create s name status =
    if not (is_visible name)
    then refused empty_name
    else if has name s.tasks
    then refused already_exists
    else save "create" s name (validate_status status)

unfoldable pub update : TodoService → Text → Text → TodoResult (TodoService × Change × Task)
update s name status =
    if not (has name s.tasks)
    then refused unknown_task
    else save "update" s name (validate_status status)

unfoldable pub get : TodoService → Text → TodoResult Task
get s name = elim (lookup name s.tasks) [ none ↦ refused unknown_task | some task ↦ answer task ]

values : Dict Task → List Task
values [] = []
values ((k, t) ∷ d) = t ∷ values d

unfoldable pub list : TodoService → List Task
unfolding values
list s = values s.tasks

unfoldable pub clear : TodoService → TodoService × Change
clear s = (record s { tasks = [] }, record { operation = "clear"; task = none })

-- `__init__` with its initial names and statuses; `none` is the ValueError of a status.
unfoldable pub load_onto : Dict Task → Dict Text → Option (Dict Task)
load_onto tasks [] = some tasks
load_onto tasks ((name, status) ∷ initial) = do
  valid ← validate_status status
  load_onto (set name (new_task name valid) tasks) initial

unfoldable pub load : Dict Text → Option TodoService
load initial = do tasks ← load_onto [] initial; some (record { tasks = tasks })

-- The payload that `todo_changed` logs.
abbrev pub task_fields : Option Task → Fields
task_fields none = end
task_fields (some t) =
    field "name" (str t.name) (field "status" (str (codes (status_text t.status))) end)

unfoldable pub todo_changed : SessionLedger → Change → Text → Text → SessionLedger
todo_changed ledger c id now =
    Session.append ledger (codes "todo_change")
      (field "operation" (str (codes c.operation)) (task_fields c.task)) id now

-- The calls that change the list.
pub data TodoCall : Type 0 where
  create_call update_call : Text → Text → TodoCall
  clear_call : TodoCall

-- A service whose changes are logged.
pub record Logged : Type 0 where
  pub service : TodoService
  pub ledger : SessionLedger

-- What the write of a ledger entry gets and does: its id, its time, and whether the line was written
-- or the write raised, by an OSError or since the text has a lone surrogate.
pub record LogWrite : Type 0 where
  pub id : Text
  pub now : Text
  pub written : Bool

-- `on_change`: an entry whose write raises is not kept.
abbrev pub on_change : SessionLedger → Change → LogWrite → SessionLedger
on_change ledger change w =
    let logged = todo_changed ledger change w.id w.now in if w.written then logged else ledger

-- The service changes before `on_change`, whose exception leaves the change as it is.
abbrev pub after_save : Logged → LogWrite → TodoResult (TodoService × Change × Task) → Logged
after_save s w (refused e) = s
after_save s w (answer (service, change, task)) = record {
  service = service;
  ledger = on_change s.ledger change w;
}

unfoldable pub call : Logged → TodoCall → LogWrite → Logged
call s (create_call name status) w = after_save s w (create s.service name status)
call s (update_call name status) w = after_save s w (update s.service name status)
call s clear_call w =
    let (service, change) = clear s.service in
    record { service = service; ledger = on_change s.ledger change w }

-- Calls in order.
unfoldable pub calls : Logged → List (TodoCall × LogWrite) → Logged
calls s [] = s
calls s ((c, w) ∷ later) = calls (call s c w) later
