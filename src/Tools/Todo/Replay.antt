-- ===== src/Tools/Todo/Replay.antt =====
-- The task list that a session resumes with (`todo_state` in src/py_code_act/storage/session_jsonl.py,
-- and `TodoService(ledger.todo_state(), todo_changed)` in src/py_code_act/application.py).
use py_code_act.Prelude.{
  ◌≡◌, refl, sym, ap, ◌∙◌, inl, inr, Bool, true, false, not, Option, none, some, List, [], ◌∷◌,
  ◌++◌, append-nil, append_assoc, arith, if◌then◌else◌, Bool-cases, Text, codes, is_nil, eq_text,
  eq_text_iff,
}
use py_code_act.Dict.{
  eq_text_comm, Dict, set, has, Unique, has-set_same, set-Unique, set_new, has-append,
}
use py_code_act.Domain.Json.{Conversions, end, field, str}
use py_code_act.Storage.Session.{SessionLedger, new_entry, todo_state, todo_step, todo_state-append}
use py_code_act.Tools.Todo.{
  TaskStatus, pending, in_progress, done, Task, TodoService, TodoError, empty_name, already_exists,
  TodoResult, refused, Change, status_text, validate_status, is_visible, new_task, with_task, save,
  create, update, clear, load_onto, load, task_fields, todo_changed, TodoCall, create_call,
  update_call, clear_call, Logged, answer, LogWrite, after_save, call, calls,
}

-- The names and statuses of a list of tasks.
abbrev pub statuses : Dict Task → Dict Text
statuses [] = []
statuses ((k, t) ∷ d) = (k, codes (status_text t.status)) ∷ statuses d

-- Every task stands under its own name, which is not empty.
abbrev pub Named : Dict Task → Type 0
Named [] = Unit
Named ((k, t) ∷ d) = (k ≡ t.name) × (is_nil k ≡ false) × Named d

-- The ledger's changes tell the tasks.
pub record IsLogged (py : Conversions) (s : Logged) : Type 0 where
  pub replayed : todo_state py s.ledger ≡ statuses s.service.tasks
  pub unique : Unique s.service.tasks
  pub named : Named s.service.tasks

statuses-set :
    (k : Text) (t : Task) (d : Dict Task)
    → statuses (set k t d) ≡ set k (codes (status_text t.status)) (statuses d)
unfolding set
statuses-set k t [] = refl
statuses-set k t ((j, u) ∷ d) = ground (arith, statuses-set k t d)

set-Named : (t : Task) (d : Dict Task) → is_nil t.name ≡ false → Named d → Named (set t.name t d)
unfolding set
set-Named t [] n h = (refl, n, tt)
set-Named t ((j, u) ∷ d) n h = elim (Bool-cases (eq_text j t.name)) [
  | inl same ↦ rw same ((eq_text_iff j t.name).0 same, h.1, h.2)
  | inr other ↦ rw other (h.0, h.1, set-Named t d n h.2)
]

is_nil-visible : (name : Text) → is_visible name ≡ true → is_nil name ≡ false
unfolding is_visible
is_nil-visible [] v = ground arith
is_nil-visible (c ∷ t) v = refl

is_nil-has : (name : Text) (d : Dict Task) → has name d ≡ true → Named d → is_nil name ≡ false
unfolding has
is_nil-has name [] h n = ground arith
is_nil-has name ((j, u) ∷ d) h n = elim (Bool-cases (eq_text j name)) [
  | inl same ↦ rw (← (eq_text_iff j name).0 same) n.1
  | inr other ↦ is_nil-has name d (rw other at h) n.2
]

validate_status-status_text : (s : TaskStatus) → validate_status (codes (status_text s)) ≡ some s
unfolding validate_status codes eq_text
validate_status-status_text pending = refl
validate_status-status_text in_progress = refl
validate_status-status_text done = refl

-- Every write succeeds.
abbrev pub AllWritten : List (TodoCall × LogWrite) → Type 0
AllWritten [] = Unit
AllWritten ((c, w) ∷ cs) = (w.written ≡ true) × AllWritten cs

module _ (py : Conversions) where
  step-clear :
      (ledger : SessionLedger) (id now : Text) (state : Dict Text)
      → todo_step py state (
          new_entry ledger
            (codes "todo_change")
            (field "operation" (str (codes "clear")) end)
            id
            now)
        ≡ []
  unfolding todo_step codes eq_text
  step-clear ledger id now state = refl

  step-create :
      (ledger : SessionLedger) (t : Task) (id now : Text) (state : Dict Text)
      → is_nil t.name ≡ false
      → todo_step py state (
          new_entry ledger
            (codes "todo_change")
            (field "operation" (str (codes "create")) (task_fields (some t)))
            id
            now)
        ≡ set t.name (codes (status_text t.status)) state
  unfolding todo_step codes eq_text
  step-create ledger t id now state n = simp (py.to_str_str, n)

  step-update :
      (ledger : SessionLedger) (t : Task) (id now : Text) (state : Dict Text)
      → is_nil t.name ≡ false
      → todo_step py state (
          new_entry ledger
            (codes "todo_change")
            (field "operation" (str (codes "update")) (task_fields (some t)))
            id
            now)
        ≡ set t.name (codes (status_text t.status)) state
  unfolding todo_step codes eq_text
  step-update ledger t id now state n = simp (py.to_str_str, n)

  -- A task that is saved and logged.
  IsLogged-saved :
      (s : Logged) (t : Task) (ledger : SessionLedger)
      → IsLogged py s
      → is_nil t.name ≡ false
      → todo_state py ledger ≡ set t.name (codes (status_text t.status)) (todo_state py s.ledger)
      → IsLogged py (record { service = with_task s.service t; ledger = ledger })
  IsLogged-saved s t ledger h n e = record {
    replayed = e ∙ rw h.replayed (sym (statuses-set t.name t s.service.tasks));
    unique = set-Unique t.name t s.service.tasks h.unique;
    named = set-Named t s.service.tasks n h.named;
  }

  IsLogged-create :
      (s : Logged) (name : Text) (w : LogWrite) (status : Option TaskStatus)
      → IsLogged py s
      → w.written ≡ true
      → is_nil name ≡ false
      → IsLogged py (after_save s w (save "create" s.service name status))
  unfolding todo_changed
  IsLogged-create s name w none h written n = h
  IsLogged-create s name w (some status) h written n = rw written (
      IsLogged-saved s (new_task name status) _ h n (
        todo_state-append py s.ledger _ _ w.id w.now
        ∙ step-create s.ledger (new_task name status) w.id w.now _ n))

  IsLogged-update :
      (s : Logged) (name : Text) (w : LogWrite) (status : Option TaskStatus)
      → IsLogged py s
      → w.written ≡ true
      → is_nil name ≡ false
      → IsLogged py (after_save s w (save "update" s.service name status))
  unfolding todo_changed
  IsLogged-update s name w none h written n = h
  IsLogged-update s name w (some status) h written n = rw written (
      IsLogged-saved s (new_task name status) _ h n (
        todo_state-append py s.ledger _ _ w.id w.now
        ∙ step-update s.ledger (new_task name status) w.id w.now _ n))

  IsLogged-if :
      (b : Bool) (s : Logged) (w : LogWrite) (e : TodoError)
      (r : TodoResult (TodoService × Change × Task))
      → IsLogged py s
      → (b ≡ false → IsLogged py (after_save s w r))
      → IsLogged py (after_save s w (if b then refused e else r))
  IsLogged-if true s w e r h k = h
  IsLogged-if false s w e r h k = k refl

  pub IsLogged-call :
      (s : Logged) (c : TodoCall) (w : LogWrite)
      → w.written ≡ true
      → IsLogged py s
      → IsLogged py (call s c w)
  unfolding call create update clear todo_changed
  IsLogged-call s (create_call name status) w written h =
      IsLogged-if (not (is_visible name)) s w _ _ h (λ visible.
        IsLogged-if (has name s.service.tasks) s w _ _ h
          (λ fresh. IsLogged-create s name w _ h written (is_nil-visible name (ground arith))))
  IsLogged-call s (update_call name status) w written h =
      IsLogged-if (not (has name s.service.tasks)) s w _ _ h (λ known.
        IsLogged-update s name w _ h written
          (is_nil-has name s.service.tasks (ground arith) h.named))
  IsLogged-call s clear_call w written h = rw written (record {
    replayed = todo_state-append py s.ledger _ _ w.id w.now ∙ step-clear s.ledger w.id w.now _;
    unique = tt;
    named = tt;
  })

  IsLogged-calls :
      (s : Logged) (cs : List (TodoCall × LogWrite))
      → AllWritten cs
      → IsLogged py s
      → IsLogged py (calls s cs)
  unfolding calls
  IsLogged-calls s [] a h = h
  IsLogged-calls s ((c, w) ∷ cs) a h =
      IsLogged-calls (call s c w) cs a.1 (IsLogged-call s c w a.0 h)

-- No key of `d` is in `c`.
abbrev Apart : Dict Task → Dict Task → Type 0
Apart c [] = Unit
Apart c ((k, t) ∷ d) = (has k c ≡ false) × Apart c d

Apart-nil : (d : Dict Task) → Apart [] d
unfolding has
Apart-nil [] = tt
Apart-nil ((k, t) ∷ d) = (refl, Apart-nil d)

Apart-concat :
    (c d : Dict Task) (k : Text) (t : Task)
    → has k d ≡ false
    → Apart c d
    → Apart (c ++ (k, t) ∷ []) d
unfolding has
Apart-concat c [] k t h a = tt
Apart-concat c ((j, u) ∷ d) k t h a = (
  has-append j c ((k, t) ∷ []) ∙ rw (a.0, eq_text_comm k j) (ground arith),
  Apart-concat c d k t (ground arith) a.1,
)

load_onto-statuses :
    (c d : Dict Task) → Unique d → Named d → Apart c d → load_onto c (statuses d) ≡ some (c ++ d)
unfolding load_onto
load_onto-statuses c [] u n a = ap some (sym (append-nil c))
load_onto-statuses c ((k, t) ∷ d) u n a =
    let same : new_task k t.status ≡ t = ap (λ (x : Text). new_task x t.status) n.0 in
    rw (validate_status-status_text, same, set_new k t c a.0)
      (load_onto-statuses (c ++ (k, t) ∷ []) d u.1 n.2 (Apart-concat c d k t u.0 a.1)
        ∙ ap some (append_assoc c ((k, t) ∷ []) d))

load-statuses :
    (s : TodoService) → Unique s.tasks → Named s.tasks → load (statuses s.tasks) ≡ some s
unfolding load
load-statuses s u n = rw (load_onto-statuses [] s.tasks u n (Apart-nil s.tasks)) refl

pub load-IsLogged :
    (py : Conversions) (s : Logged) → IsLogged py s → load (todo_state py s.ledger) ≡ some s.service
load-IsLogged py s l = rw l.replayed (load-statuses s.service l.unique l.named)

-- Where the log of a ledger tells the tasks of a service, as the log of a new session tells none,
-- it does so after any calls that create, update or clear tasks, also refused ones, whose writes to
-- the ledger succeed, and a service that is started from that ledger again has the same tasks, in
-- the same order.
pub calls-load :
    (py : Conversions) (s : Logged) (cs : List (TodoCall × LogWrite))
    → AllWritten cs
    → IsLogged py s
    → IsLogged py (calls s cs)
      × (load (todo_state py (calls s cs).ledger) ≡ some (calls s cs).service)
calls-load py s cs a h = let l = IsLogged-calls py s cs a h in (l, load-IsLogged py (calls s cs) l)

abbrev service_of : TodoService → TodoResult (TodoService × Change × Task) → TodoService
service_of s (answer saved) = saved.0
service_of s (refused e) = s

-- A new task that is accepted is not there yet, and is then.
save-answer :
    (s : TodoService) (name : Text) (visible known : Bool) (status : Option TaskStatus)
    (saved : TodoService × Change × Task)
    → (if not visible
        then refused empty_name
        else if known
        then refused already_exists
        else save "create" s name status)
      ≡ answer saved
    → (known ≡ false) × (valid : TaskStatus) × (with_task s (new_task name valid) ≡ saved.0)
save-answer s name false known status saved e = absurd (cc)
save-answer s name true true status saved e = absurd (cc)
save-answer s name true false none saved e = absurd (cc)
save-answer s name true false (some valid) saved e = (refl, valid, ap (service_of s) e)

-- Where a new task is accepted and the write of its entry raises, the service keeps the task, which it
-- did not have, and a service that is started from the ledger does not get it.
pub create-unwritten :
    (py : Conversions) (s : Logged) (name status id now : Text)
    (saved : TodoService × Change × Task)
    → IsLogged py s
    → create s.service name status ≡ answer saved
    → let w : LogWrite = record { id = id; now = now; written = false } in
      let after = call s (create_call name status) w in
      (has name s.service.tasks ≡ false)
      × (has name after.service.tasks ≡ true)
      × (load (todo_state py after.ledger) ≡ some s.service)
unfolding call create
create-unwritten py s name status id now saved h e =
    let (new, valid, tasks) = save-answer s.service name _ _ _ saved e in
    (
      new,
      rw (e, ← tasks) (has-set_same name (new_task name valid) s.service.tasks),
      rw e (load-IsLogged py s h),
    )
