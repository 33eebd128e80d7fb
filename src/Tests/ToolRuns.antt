-- ===== src/Tests/ToolRuns.antt =====
-- The application's registry behind a server, on requests with a valid token and a stale one, skills and
-- instruction files in small file systems.
use py_code_act.Prelude.{
  ℕ, suc, ◌≤◌, ◌≡◌, refl, ap, ◌∙◌, ◌↔◌, ◌⊎◌, Bool, true, false, Option, none, some, List, [], ◌∷◌,
  arith, Text, codes, length, eq_text, eq_text_iff,
}
use py_code_act.Domain.Json.{Json, null, str, arr, obj, Items, nil, cons, Fields, end, field, get}
use py_code_act.Dict.{Dict, lookup}
use py_code_act.Files.{
  member_path, FilePath, Node, file, directory, entry, no_more, find, readable, FileSystem,
}
use py_code_act.Storage.Session.{todo_state}
use py_code_act.Tools.Todo.{load}
use py_code_act.Tools.Todo.Replay.{IsLogged}
use py_code_act.Tools.Skills.{
  SkillSummary, SkillLibrary, yaml, found, load_file, parse_frontmatter, until_fence, validate_name,
  all_name_chars, ends_hyphen, double_hyphen,
}
use py_code_act.Tools.Skills.Scan.{scanned, scan_directory, patterns_from, is_ignored}
use py_code_act.Tools.Skills.Discovery.{
  Selected, nothing_selected, discover_from, discover_skills, select_all,
}
use py_code_act.Tools.Skills.Discovery.Selection.{
  OnScanned, IsSelection, discover_skills-IsSelection, discover_from-first,
}
use py_code_act.Tools.Registry.{error_of, Outcome, returned, raised, ToolNamespace}
use py_code_act.Tools.Server.{
  ToolRpcServer, new_server, Received, message, Library, Handled, ServerStep, request, rotation,
  handle, steps,
}
use py_code_act.Tools.Server.Guarded.{
  Presents, IsServed, IsRefused, handle-cases, steps-NonePresents,
}
use py_code_act.Tools.Services.{ToolState, Surroundings, application_registry}
use py_code_act.Tools.Services.Logs.{steps-load}
use py_code_act.Spaces.{lstrip_by, rstrip_by}
use py_code_act.Tools.Skills.Names.{IsSkillName, validate_name_iff}
use py_code_act.Agent.Context.{
  Context, ancestor_chain, from_directories, discover_context_files, build_system_prompt,
}
use py_code_act.Agent.Context.Order.{
  OnContext, IsContext, Adds, from_directories-IsContext, discover_context_files-IsContext,
}
use py_code_act.Agent.Context.Hidden.{build_system_prompt-hidden}
use py_code_act.Protocol.Observations.{join_lines}
use py_code_act.Tests.Sample

abbrev compare_digest : Text → Text → Outcome Bool
compare_digest a b = returned (eq_text a b)

abbrev of_returned : Outcome Bool → Bool
of_returned (returned b) = b
of_returned (raised e) = false

abbrev library : Library
library = record {
  compare_digest = compare_digest;
  compare_digest-returned = λ a b e. (eq_text_iff a b).0 (ap of_returned e);
  repr = λ t. t;
}

abbrev first_item : Items → Json
first_item nil = null
first_item (cons v items) = v

abbrev surroundings : Surroundings ℕ
surroundings = record {
  repr = λ t. t;
  bind = λ service method args kwargs. returned (field "name" (first_item args) end);
  bad_key = λ v. error_of "TypeError" (codes "unhashable type");
  no_method = λ name. error_of "AttributeError" name;
  no_file = error_of "FileNotFoundError" [];
  fresh = λ n. record { id = codes "id"; now = codes "now"; written = true };
  write_error = λ n. error_of "OSError" [];
  request_restart = λ n. suc n;
}

abbrev declared : Node
declared = directory none (entry (codes "SKILL.md") (file (readable (codes "x"))) no_more)

abbrev files : FileSystem
files = record { look = λ p. some declared; resolve = λ p. p; expanduser = λ p. p; home = [] }

abbrev registry : Dict (ToolNamespace (ToolState ℕ))
registry = application_registry surroundings files []

abbrev state : ToolState ℕ
state = record {
  todo = record {
    service = record { tasks = [] };
    ledger = record { session_id = codes "s"; entries = [] };
  };
  controller = 0;
  drawn = 0;
}

abbrev with_token : Text → Received
with_token token = message (
    obj (
      field "id" (str (codes "1")) (
        field "token" (str token) (
          field "method" (str (codes "todo.create"))
            (field "args" (arr (cons (str (codes "task")) nil)) end)))))

abbrev server : ToolRpcServer
server = new_server (codes "new") true

handle-cases_example :
    IsServed library registry server state
      (with_token (codes "new"))
      (handle library registry server state (with_token (codes "new")))
    ⊎ IsRefused library registry state
        (handle library registry server state (with_token (codes "new")))
handle-cases_example = handle-cases library registry server state (with_token (codes "new"))

abbrev token_text : Option Json → Text
token_text (some (str t)) = t
token_text _ = []

abbrev text_of : Received → Text
text_of (message (obj raw)) = token_text (get "token" raw)
text_of r = []

not-Presents : ¬ Presents library registry (codes "new") (with_token (codes "old"))
unfolding codes eq_text
not-Presents p = absurd (
    ground (
      arith,
      (eq_text_iff (codes "old") (codes "new")).1
          (ap text_of p.is_object ∙ ap token_text p.supplied),
    ))

abbrev handled : Handled (ToolState ℕ)
handled = record { server = new_server (codes "old") true; services = state; response = end }

abbrev stale_steps : List ServerStep
stale_steps = rotation (codes "new") ∷ request (with_token (codes "old")) ∷ []

steps-NonePresents_example : (steps library registry handled stale_steps).services ≡ state
steps-NonePresents_example =
    steps-NonePresents library registry handled stale_steps (not-Presents, tt)

state-IsLogged : IsLogged Sample.conversions state.todo
unfolding todo_state
state-IsLogged = record { replayed = refl; unique = tt; named = tt }

abbrev valid_steps : List ServerStep
valid_steps = request (with_token (codes "old")) ∷ []

steps-load_example :
    load (
      todo_state Sample.conversions
        (steps library registry handled valid_steps).services.todo.ledger)
    ≡ some (steps library registry handled valid_steps).services.todo.service
steps-load_example =
    steps-load surroundings Sample.conversions (λ n. refl) library files [] handled valid_steps
      state-IsLogged

abbrev metadata : Fields
metadata = field "name" (str (codes "a")) (field "description" (str (codes "d")) end)

abbrev skill_library : SkillLibrary
skill_library = record {
  py = Sample.conversions;
  safe_load = λ t. yaml (obj metadata);
  splitlines = λ t. codes "---" ∷ codes "name: a" ∷ codes "---" ∷ [];
  fnmatch = λ name pattern. false;
}

discover_skills-IsSelection_example :
    OnScanned
      (IsSelection skill_library files)
      (discover_skills skill_library files (codes "w" ∷ []) [])
discover_skills-IsSelection_example =
    discover_skills-IsSelection skill_library files (codes "w" ∷ []) []

abbrev path : FilePath
path = codes "skills" ∷ []

abbrev skill : SkillSummary
skill = record {
  name = codes "a";
  description = codes "d";
  file_path = codes "SKILL.md" ∷ path;
  base_dir = path;
  disable_model_invocation = false;
}

declared-found :
    scan_directory skill_library files (some declared) path true ≡ scanned (found (skill ∷ []) [])
unfolding scan_directory patterns_from find is_ignored load_file parse_frontmatter until_fence
    join_lines validate_name all_name_chars ends_hyphen double_hyphen codes eq_text lstrip_by
    rstrip_by
declared-found = refl

discover_from-first_example :
    OnScanned
      (λ (r : Selected). lookup (codes "a") r.skills ≡ some skill)
      (discover_from skill_library files [] nothing_selected
        ((path, true) ∷ (codes "other" ∷ [], true) ∷ []))
unfolding select_all lookup member_path
discover_from-first_example =
    discover_from-first skill_library files [] nothing_selected path true
      ((codes "other" ∷ [], true) ∷ []) declared (found (skill ∷ []) []) [] [] skill refl
      declared-found refl refl refl

validate_name_iff_example :
    (validate_name Sample.conversions (codes "my-skill") ≡ []) ↔ IsSkillName (codes "my-skill")
validate_name_iff_example = validate_name_iff Sample.conversions (codes "my-skill")

-- A file system in which every path is a file.
abbrev all_files : FileSystem
all_files = record files { look = λ p. some (file (readable (codes "x"))) }

discover_context_files-IsContext_example :
    OnContext
      (λ (r : Context). IsContext r × (length r.files ≤ 3))
      (discover_context_files all_files (codes "w" ∷ []) (some (codes "global" ∷ [])))
unfolding ancestor_chain
discover_context_files-IsContext_example =
    discover_context_files-IsContext all_files (codes "w" ∷ []) (some (codes "global" ∷ []))

abbrev no_context : Context
no_context = record { files = []; seen = [] }

from_directories-IsContext_example :
    OnContext
      (λ (r : Context). IsContext r × Adds 2 no_context r)
      (from_directories all_files no_context ([] ∷ (codes "w" ∷ []) ∷ []))
from_directories-IsContext_example =
    from_directories-IsContext all_files no_context ([] ∷ (codes "w" ∷ []) ∷ [])
      (record { seen = refl; different = tt })

build_system_prompt-hidden_example :
    build_system_prompt registry (record skill { disable_model_invocation = true } ∷ skill ∷ []) []
    ≡ build_system_prompt registry (skill ∷ []) []
build_system_prompt-hidden_example =
    build_system_prompt-hidden registry [] [] (skill ∷ [])
      (record skill { disable_model_invocation = true }) refl
