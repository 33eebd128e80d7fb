-- ===== src/Tools/Services.antt =====
-- The registry that the application sets up: the task list, the skills and the kernel service
-- (src/py_code_act/application.py, src/py_code_act/tools/protocol.py and the services' methods).
pub mod Logs
use py_code_act.Prelude.{
  ℕ, zero, suc, ◌+◌, ◌-◌, ◌≤◌, ◌<◌, String, ◌≡◌, refl, sym, ap, ◌∙◌, ◌≢◌, ◌↔◌, ◌⊎◌, inl, inr, Bool,
  true, false, not, ◌&&◌, ◌||◌, Option, none, some, List, [], ◌∷◌, ◌++◌, map, append-nil,
  append_assoc, arith, ltb, leb, ◌==◌, if◌then◌else◌, Bool-cases, Option-cases, is_some, ◌>>=◌,
  Text, codes, is_nil, length, length-append, eq_text, eq_text_iff, join, join-append,
}
use py_code_act.Domain.Json.{Json, null, str, Items, Fields, get, get_or, Conversions}
use py_code_act.Dict.{Dict}
use py_code_act.Files.{FilePath, path_text, Content, os_error, unicode_error, FileSystem}
use py_code_act.Tools.Todo
use py_code_act.Tools.Todo.{
  Task, TodoService, TodoError, empty_name, already_exists, invalid_status, unknown_task,
  TodoResult, answer, refused, Change, status_text, TodoCall, create_call, update_call, clear_call,
  Logged, LogWrite,
}
use py_code_act.Tools.Skills.{SkillSummary}
use py_code_act.Tools.Skills.Discovery
use py_code_act.Tools.Skills.Discovery.{
  skills_of, SkillContent, SkillLoad, skill_content, unknown_skill, unread_skill,
}
use py_code_act.Tools.Registry.{
  ToolError, error_of, Value, none_value, bool_value, text_value, path_value, dataclass_value,
  mapping_value, sequence_value, Values, no_values, and_value, no_members, and_member, Outcome,
  returned, raised, ToolNamespace, tool_registry,
}

-- The state of the services: the logged tasks, the restart controller, and how many calls were made.
pub record ToolState (K : Type 0) : Type 0 where
  pub todo : Logged
  pub controller : K
  pub drawn : ℕ

-- `asdict(task)`
abbrev pub task_value : Task → Value
task_value t = mapping_value (
    and_member "name" (text_value t.name)
      (and_member "status" (text_value (codes (status_text t.status))) no_members))

unfoldable pub task_values : List Task → Values
task_values [] = no_values
task_values (t ∷ tasks) = and_value (task_value t) (task_values tasks)

unfoldable pub skill_values : List SkillSummary → Values
skill_values [] = no_values
skill_values (s ∷ skills) =
    let members = and_member "name" (text_value s.name) (
      and_member "description" (text_value s.description) (
        and_member "file_path" (path_value (path_text s.file_path)) (
          and_member "base_dir" (path_value (path_text s.base_dir)) (
            and_member "disable_model_invocation" (bool_value s.disable_model_invocation)
              no_members)))) in
    and_value (dataclass_value members) (skill_values skills)

abbrev pub content_value : SkillContent → Value
content_value s = dataclass_value (
    and_member "name" (text_value s.name) (
      and_member "content" (text_value s.content) (
        and_member "file_path" (path_value (path_text s.file_path))
          (and_member "base_dir" (path_value (path_text s.base_dir)) no_members))))

-- What the code takes from its surroundings: `repr`, the binding of arguments, the errors of looking
-- up a value that is no text and of a missing method or file, new ids and times with how the writes to
-- the ledger go and what they raise, and the callback of the restart controller.
pub record Surroundings (K : Type 0) : Type 0 where
  pub repr : Text → Text
  pub bind : Text → Text → Items → Fields → Outcome Fields
  pub bad_key : Json → ToolError
  pub no_method : Text → ToolError
  pub no_file : ToolError
  pub fresh : ℕ → LogWrite
  pub write_error : ℕ → ToolError
  pub request_restart : K → K

module _ {K : Type 0} (py : Surroundings K) where
  abbrev todo_error : TodoError → Text → ToolError
  todo_error empty_name name = error_of "ValueError" (codes "task name must be a non-empty string")
  todo_error already_exists name = error_of "ValueError" (codes "task already exists: " ++ name)
  todo_error invalid_status name =
      error_of "ValueError" (codes "status must be pending, in_progress, or done")
  todo_error unknown_task name = error_of "KeyError" (py.repr (codes "unknown task: " ++ name))

  abbrev saved : Text → TodoResult (TodoService × Change × Task) → Outcome Value
  saved name (answer (service, change, task)) = returned (task_value task)
  saved name (refused error) = raised (todo_error error name)

  abbrev got : Text → TodoResult Task → Outcome Value
  got name (answer task) = returned (task_value task)
  got name (refused error) = raised (todo_error error name)

  -- The exception of the write leaves a call that is not refused.
  abbrev pub after_write : Bool → ToolError → Outcome Value → Outcome Value
  after_write false error (returned value) = raised error
  after_write _ error outcome = outcome

  -- A call that may change the list, with the write of its entry.
  abbrev pub changing : ToolState K → TodoCall → Outcome Value → ToolState K × Outcome Value
  changing s c outcome =
      let w = py.fresh s.drawn in
      (
        record s { todo = Todo.call s.todo c w; drawn = suc s.drawn },
        after_write w.written (py.write_error s.drawn) outcome,
      )

  -- A status that is no text is none of the three, as the empty text is.
  abbrev status_arg : Json → Text
  status_arg (str t) = t
  status_arg _ = []

  abbrev pub create_with : ToolState K → Json → Text → ToolState K × Outcome Value
  create_with s (str name) status =
      changing s (create_call name status) (saved name (Todo.create s.todo.service name status))
  create_with s _ status = (s, raised (todo_error empty_name []))

  abbrev pub update_with : ToolState K → Json → Text → ToolState K × Outcome Value
  update_with s (str name) status =
      changing s (update_call name status) (saved name (Todo.update s.todo.service name status))
  update_with s key status = (s, raised (py.bad_key key))

  abbrev pub get_with : ToolState K → Json → ToolState K × Outcome Value
  get_with s (str name) = (s, got name (Todo.get s.todo.service name))
  get_with s key = (s, raised (py.bad_key key))

  -- The methods of the task list, on bound arguments.
  unfoldable pub todo_call : Text → Fields → ToolState K → ToolState K × Outcome Value
  todo_call method arguments s =
      let name = get_or "name" null arguments in
      if eq_text method (codes "create")
      then create_with s name (status_arg (get_or "status" (str (codes "pending")) arguments))
      else if eq_text method (codes "get")
      then get_with s name
      else if eq_text method (codes "update")
      then update_with s name (status_arg (get_or "status" null arguments))
      else if eq_text method (codes "list")
      then (s, returned (sequence_value (task_values (Todo.list s.todo.service))))
      else if eq_text method (codes "clear")
      then changing s clear_call (returned none_value)
      else (s, raised (py.no_method method))

  -- `KernelService.restart`
  unfoldable pub kernel_call : Text → Fields → ToolState K → ToolState K × Outcome Value
  kernel_call method arguments s =
      if eq_text method (codes "restart")
      then (
        record s { controller = py.request_restart s.controller },
        returned (mapping_value (and_member "scheduled" (bool_value true) no_members)),
      )
      else (s, raised (py.no_method method))

  abbrev loaded : SkillLoad → Outcome Value
  loaded (skill_content c) = returned (content_value c)
  loaded (unknown_skill name) =
      raised (error_of "KeyError" (py.repr (codes "unknown skill: " ++ name)))
  loaded (unread_skill (some (os_error error))) = raised (error_of "OSError" error)
  loaded (unread_skill (some (unicode_error error))) = raised (error_of "UnicodeDecodeError" error)
  loaded (unread_skill _) = raised py.no_file

  abbrev load_with : FileSystem → Dict SkillSummary → Json → Outcome Value
  load_with fs skills (str name) = loaded (Discovery.load fs skills name)
  load_with fs skills key = raised (py.bad_key key)

  -- The methods of the skills service, which keeps no state of its own.
  unfoldable pub skills_call :
      FileSystem → Dict SkillSummary → Text → Fields → ToolState K → ToolState K × Outcome Value
  skills_call fs skills method arguments s =
      if eq_text method (codes "list")
      then (s, returned (sequence_value (skill_values (skills_of skills))))
      else if eq_text method (codes "load")
      then (s, load_with fs skills (get_or "name" null arguments))
      else (s, raised (py.no_method method))

  -- The namespaces of `run`.
  abbrev pub todo_namespace : ToolNamespace (ToolState K)
  todo_namespace = record {
    name = codes "todo";
    prompt = codes "`tools.todo` maintains a simple task list.";
    methods = codes "create" ∷ codes "get" ∷ codes "update" ∷ codes "list" ∷ codes "clear" ∷ [];
    bind = py.bind (codes "todo");
    call = todo_call;
  }

  abbrev pub skills_namespace : FileSystem → Dict SkillSummary → ToolNamespace (ToolState K)
  skills_namespace fs skills = record {
    name = codes "skills";
    prompt = codes "`tools.skills` lists and loads Agent Skills on demand.";
    methods = codes "list" ∷ codes "load" ∷ [];
    bind = py.bind (codes "skills");
    call = skills_call fs skills;
  }

  abbrev pub kernel_namespace : ToolNamespace (ToolState K)
  kernel_namespace = record {
    name = codes "kernel";
    prompt = codes "`tools.kernel.restart()` schedules replacement after the current cell.";
    methods = codes "restart" ∷ [];
    bind = py.bind (codes "kernel");
    call = kernel_call;
  }

  unfoldable pub application_registry :
      FileSystem → Dict SkillSummary → Dict (ToolNamespace (ToolState K))
  application_registry fs skills =
      tool_registry (todo_namespace ∷ skills_namespace fs skills ∷ kernel_namespace ∷ [])
