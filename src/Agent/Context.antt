-- ===== src/Agent/Context.antt =====
-- Instruction files and the system prompt (src/py_code_act/agent/context.py and
-- src/py_code_act/protocol/system_prompt.py).
pub mod Order
pub mod Hidden
use py_code_act.Prelude.{
  ℕ, zero, suc, ◌+◌, ◌-◌, ◌≤◌, ◌<◌, String, ◌≡◌, refl, sym, ap, ◌∙◌, ◌≢◌, ◌↔◌, ◌⊎◌, inl, inr, Bool,
  true, false, not, ◌&&◌, ◌||◌, Option, none, some, List, [], ◌∷◌, ◌++◌, map, append-nil,
  append_assoc, arith, ltb, leb, ◌==◌, if◌then◌else◌, Bool-cases, Option-cases, is_some, ◌>>=◌,
  Text, codes, is_nil, length, length-append, eq_text, eq_text_iff, join, join-append,
}
use py_code_act.Spaces.{strip, rstrip}
use py_code_act.Dict.{Dict}
use py_code_act.Files.{
  member_path, FilePath, path_text, Content, readable, os_error, unicode_error, FileSystem,
  content_of,
}
use py_code_act.Tools.Registry.{ToolNamespace, prompt_contribution}
use py_code_act.Tools.Skills.{SkillSummary}
use py_code_act.Tools.Skills.Discovery.{format_skills_for_prompt}

abbrev pub context_candidates : List Text
context_candidates =
    codes "AGENTS.override.md"
    ∷ codes "AGENTS.md"
    ∷ codes "AGENTS.MD"
    ∷ codes "CLAUDE.md"
    ∷ codes "CLAUDE.MD"
    ∷ []

pub record ContextFile : Type 0 where
  pub path : FilePath
  pub content : Text

-- The files so far with the resolved paths seen, or the exception of reading a file.
pub record Context : Type 0 where
  pub files : List ContextFile
  pub seen : List FilePath

pub data ContextResult : Type 0 where
  context : Context → ContextResult
  unreadable : Content → ContextResult

abbrev pub on_context : ContextResult → (Context → ContextResult) → ContextResult
on_context (context c) f = f c
on_context (unreadable e) f = unreadable e

-- `ancestor_chain` of a resolved path, the root first
unfoldable pub ancestor_chain : FilePath → List FilePath
ancestor_chain [] = [] ∷ []
ancestor_chain (name ∷ parent) = ancestor_chain parent ++ (name ∷ parent) ∷ []

abbrev pub with_file : Context → FilePath → Text → Context
with_file c path text = record {
  files = c.files ++ record { path = path; content = text } ∷ [];
  seen = path ∷ c.seen;
}

module _ (fs : FileSystem) where
  abbrev pub add_content : Context → FilePath → Option Content → ContextResult
  add_content c path (some (readable text)) = context (with_file c path text)
  add_content c path (some error) = unreadable error
  add_content c path none = unreadable (os_error [])

  -- The resolved file, which is read again at its resolved path.
  abbrev pub add_file : Context → FilePath → ContextResult
  add_file c path = add_content c path (content_of (fs.look path))

  -- `candidate.is_file()`
  abbrev is_file : FilePath → Bool
  is_file path = is_some (content_of (fs.look path))

  -- The first candidate of a directory that is a file, and no other.
  unfoldable pub from_candidates : Context → FilePath → List Text → ContextResult
  from_candidates c path [] = context c
  from_candidates c path (name ∷ names) =
      let next = from_candidates c path names in
      let file = fs.resolve (name ∷ path) in
      if is_file (name ∷ path)
      then (if member_path file c.seen then context c else add_file c file)
      else next

  unfoldable pub from_directories : Context → List FilePath → ContextResult
  from_directories c [] = context c
  from_directories c (path ∷ paths) =
      on_context (from_candidates c path context_candidates) (λ next. from_directories next paths)

  abbrev pub global_context : Option FilePath → ContextResult
  global_context none = context (record { files = []; seen = [] })
  global_context (some path) =
      if is_file path
      then add_file (record { files = []; seen = [] }) (fs.resolve path)
      else context (record { files = []; seen = [] })

  -- `discover_context_files`
  unfoldable pub discover_context_files : FilePath → Option FilePath → ContextResult
  discover_context_files cwd global_file =
      on_context (global_context global_file)
        (λ c. from_directories c (ancestor_chain (fs.resolve cwd)))

-- `"\n\n".join(sections)`
unfoldable pub join_sections : List Text → Text
join_sections [] = []
join_sections (t ∷ []) = t
join_sections (t ∷ ts) = t ++ b'\n' ∷ b'\n' ∷ join_sections ts

unfoldable pub instruction_sections : List ContextFile → List Text
instruction_sections [] = []
instruction_sections (f ∷ files) =
    (codes "<project_instructions path=\""
      ++ path_text f.path
      ++ codes "\">\n"
      ++ rstrip f.content
      ++ codes "\n</project_instructions>")
    ∷ instruction_sections files

unfoldable pub format_project_instructions : List ContextFile → Text
format_project_instructions files = join_sections (instruction_sections files)

abbrev pub section_if : Text → Text → List Text → List Text
section_if heading [] sections = sections
section_if heading (c ∷ t) sections = (heading ++ c ∷ t) ∷ sections

-- BASE_PROMPT
unfoldable pub base_prompt : Text
base_prompt =
    codes "You are a coding agent operating in a persistent Python kernel.\n\n"
    ++ codes "Use normal prose for user-facing answers. To take an action, emit exactly one Python "
    ++ codes "block whose opening and closing markers are each alone on a line:\n"
    ++ codes "<exec>\n"
    ++ codes "# Python code\n"
    ++ codes "</exec>\n"
    ++ codes
        "You may write prose before and after that block. Wait for the execution result before "
    ++ codes "issuing more code. Never emit multiple execution blocks in one response.\n\n"
    ++ codes
        "The Python namespace persists within one kernel generation. A restart or resumed session "
    ++ codes
        "loses ordinary Python variables; filesystem and external side effects may persist. The "
    ++ codes
        "injected `tools` object is available without import and can be inspected with dir() and "
    ++ codes
        "help(). Execution output is returned completely and protocol-marker text in output is "
    ++ codes
        "escaped. Malformed blocks and blocks from truncated model responses are not executed.\n"

unfoldable pub build_system_prompt :
    {S : Type 0} → Dict (ToolNamespace S) → List SkillSummary → List ContextFile → Text
build_system_prompt registry skills files =
    let project = format_project_instructions files in
    join_sections (
      rstrip base_prompt
      ∷ section_if (codes "Available harness services:\n") (strip (prompt_contribution registry)) (
          section_if [] (format_skills_for_prompt skills)
            (section_if (codes "Project instructions (nearer files are later):\n") project [])))
    ++ b'\n' ∷ []
