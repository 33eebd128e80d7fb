-- ===== src/Tools/Services/Logs.antt =====
-- The task list behind the tool server (src/py_code_act/application.py, tools/server.py,
-- tools/todo.py and `todo_state` in storage/session_jsonl.py).
use py_code_act.Prelude.{ℕ, true, ◌≡◌, inl, inr, some, List, Bool-cases, Text, codes, eq_text}
use py_code_act.Domain.Json.{Json, str, Conversions}
use py_code_act.Dict.{Dict}
use py_code_act.Files.{FileSystem}
use py_code_act.Storage.Session.{todo_state}
use py_code_act.Tools.Todo.{load}
use py_code_act.Tools.Todo.Replay.{IsLogged, IsLogged-call, load-IsLogged}
use py_code_act.Tools.Skills.{SkillSummary}
use py_code_act.Tools.Server.{Library, Handled, ServerStep, steps}
use py_code_act.Tools.Server.Preserved.{CallsKeep, steps-CallsKeep}
use py_code_act.Tools.Services.{
  ToolState, Surroundings, create_with, update_with, get_with, todo_call, kernel_call, skills_call,
  todo_namespace, skills_namespace, kernel_namespace, application_registry,
}

-- `written`: every write to the ledger succeeds.
module _ {K : Type 0} (py : Surroundings K) (cv : Conversions)
    (written : (n : ℕ) → (py.fresh n).written ≡ true) where
  abbrev TellsTasks : ToolState K → Type 0
  TellsTasks s = IsLogged cv s.todo

  create_with-IsLogged :
      (s : ToolState K) (name : Json) (status : Text)
      → TellsTasks s
      → TellsTasks (create_with py s name status).0
  create_with-IsLogged s (str name) status h = IsLogged-call cv s.todo _ _ (written s.drawn) h
  create_with-IsLogged s name status h = h

  update_with-IsLogged :
      (s : ToolState K) (name : Json) (status : Text)
      → TellsTasks s
      → TellsTasks (update_with py s name status).0
  update_with-IsLogged s (str name) status h = IsLogged-call cv s.todo _ _ (written s.drawn) h
  update_with-IsLogged s name status h = h

  get_with-IsLogged :
      (s : ToolState K) (name : Json) → TellsTasks s → TellsTasks (get_with py s name).0
  get_with-IsLogged s (str name) h = h
  get_with-IsLogged s name h = h

  todo_call-IsLogged : CallsKeep TellsTasks (todo_namespace py)
  unfolding todo_call
  todo_call-IsLogged method arguments s h = elim (Bool-cases (eq_text method (codes "create"))) [
    | inl e ↦ rw e (create_with-IsLogged s _ _ h)
    | inr create ↦ elim (Bool-cases (eq_text method (codes "get"))) [
      | inl e ↦ rw (create, e) (get_with-IsLogged s _ h)
      | inr get ↦ elim (Bool-cases (eq_text method (codes "update"))) [
        | inl e ↦ rw (create, get, e) (update_with-IsLogged s _ _ h)
        | inr update ↦ elim (Bool-cases (eq_text method (codes "list"))) [
          | inl e ↦ rw (create, get, update, e) h
          | inr list ↦ elim (Bool-cases (eq_text method (codes "clear"))) [
            | inl e ↦
                rw (create, get, update, list, e) (IsLogged-call cv s.todo _ _ (written s.drawn) h)
            | inr clear ↦ rw (create, get, update, list, clear) h
          ]
        ]
      ]
    ]
  ]

  skills_call-IsLogged :
      (fs : FileSystem) (skills : Dict SkillSummary)
      → CallsKeep TellsTasks (skills_namespace py fs skills)
  unfolding skills_call
  skills_call-IsLogged fs skills method arguments s h =
      elim (Bool-cases (eq_text method (codes "list"))) [
        | inl e ↦ rw e h
        | inr list ↦ elim (Bool-cases (eq_text method (codes "load"))) [
          | inl e ↦ rw (list, e) h
          | inr load ↦ rw (list, load) h
        ]
      ]

  kernel_call-IsLogged : CallsKeep TellsTasks (kernel_namespace py)
  unfolding kernel_call
  kernel_call-IsLogged method arguments s h = elim (Bool-cases (eq_text method (codes "restart"))) [
    | inl e ↦ rw e h
    | inr e ↦ rw e h
  ]

  -- Where the log of the ledger tells the tasks and every write to the ledger succeeds, the log tells
  -- them after any requests of any cells, valid or not, and any rotations of the token: a session that is resumed from that ledger has the tasks
  -- that the requests left.
  pub steps-load :
      (lib : Library) (fs : FileSystem) (skills : Dict SkillSummary) (h : Handled (ToolState K))
      (xs : List ServerStep)
      → IsLogged cv h.services.todo
      → let after = (steps lib (application_registry py fs skills) h xs).services.todo in
        load (todo_state cv after.ledger) ≡ some after.service
  unfolding application_registry
  steps-load lib fs skills h xs logged = load-IsLogged cv _ (
      steps-CallsKeep lib _ TellsTasks h xs
        (todo_call-IsLogged, (skills_call-IsLogged fs skills, (kernel_call-IsLogged, tt))) logged)
