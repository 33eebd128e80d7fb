-- ===== src/Tools/Skills/Discovery.antt =====
-- The choice of skills among their sources, the service that loads them, and their part of the
-- system prompt (src/py_code_act/tools/skills.py).
pub mod Selection
use py_code_act.Prelude.{
  ℕ, zero, suc, ◌+◌, ◌-◌, ◌≤◌, ◌<◌, String, ◌≡◌, refl, sym, ap, ◌∙◌, ◌≢◌, ◌↔◌, ◌⊎◌, inl, inr, Bool,
  true, false, not, ◌&&◌, ◌||◌, Option, none, some, List, [], ◌∷◌, ◌++◌, map, append-nil,
  append_assoc, arith, ltb, leb, ◌==◌, if◌then◌else◌, Bool-cases, Option-cases, is_some, ◌>>=◌,
  Text, codes, is_nil, length, length-append, eq_text, eq_text_iff, join, join-append,
}
use py_code_act.Dict.{Dict, set, lookup}
use py_code_act.Files.{
  FilePath, member_path, path_text, Content, readable, Node, file, FileSystem, content_of,
}
use py_code_act.Protocol.Observations.{escape_char, join_lines}
use py_code_act.Tools.Skills.{
  SkillSummary, SkillDiagnostic, warning, SkillLibrary, Found, found, load_file,
}
use py_code_act.Tools.Skills.Scan.{Scanned, scanned, decode_error, and_then, scan_directory}

-- What `discover_skills` keeps between sources.
pub record Selected : Type 0 where
  pub skills : Dict SkillSummary
  pub canonical_paths : List FilePath
  pub diagnostics : List SkillDiagnostic

abbrev pub nothing_selected : Selected
nothing_selected = record { skills = []; canonical_paths = []; diagnostics = [] }

abbrev pub with_diagnostics : Selected → List SkillDiagnostic → Selected
with_diagnostics s more = record s { diagnostics = s.diagnostics ++ more }

-- The name of a skill is taken.
abbrev pub collision : SkillSummary → SkillSummary → SkillDiagnostic
collision skill existing = record {
  level = "collision";
  message =
      codes "name \""
      ++ skill.name
      ++ codes "\" collision; keeping "
      ++ path_text existing.file_path;
  path = skill.file_path;
}

abbrev pub with_skill : Selected → FilePath → SkillSummary → Selected
with_skill s canonical skill = record s {
  skills = set skill.name skill s.skills;
  canonical_paths = canonical ∷ s.canonical_paths;
}

-- A source: a path, and whether Markdown files in it are skills.
abbrev pub Source : Type 0
Source = FilePath × Bool

module _ (lib : SkillLibrary) (fs : FileSystem) where
  abbrev pub resolved : FilePath → FilePath
  resolved path = fs.resolve (fs.expanduser path)

  -- `_project_agents_directories`, from a resolved path up to the root of a repository
  unfoldable pub agents_directories : FilePath → List FilePath
  agents_directories [] = (codes "skills" ∷ codes ".agents" ∷ []) ∷ []
  agents_directories (name ∷ parent) =
      let current = name ∷ parent in
      let above = agents_directories parent in
      let here = codes "skills" ∷ codes ".agents" ∷ current in
      if is_some (fs.look (codes ".git" ∷ current)) then here ∷ [] else here ∷ above

  abbrev pub flagged : Bool → (FilePath → FilePath) → List FilePath → List Source
  flagged include f [] = []
  flagged include f (path ∷ paths) = (f path, include) ∷ flagged include f paths

  unfoldable pub sources : FilePath → List FilePath → List Source
  sources cwd explicit_paths =
      flagged true resolved explicit_paths
      ++ (codes "skills" ∷ codes "agent" ∷ codes ".pi" ∷ fs.home, true)
        ∷ (codes "skills" ∷ codes ".agents" ∷ fs.home, false)
        ∷ (codes "skills" ∷ codes ".pi" ∷ fs.resolve cwd, true)
        ∷ flagged false (λ path. path) (agents_directories (fs.resolve cwd))

  abbrev pub resolved_all : List FilePath → List FilePath
  resolved_all [] = []
  resolved_all (path ∷ paths) = resolved path ∷ resolved_all paths

  -- The inner loop: a file that was selected is passed over, and a name that is taken is reported.
  abbrev select_new : Selected → FilePath → SkillSummary → Option SkillSummary → Selected
  select_new s canonical skill none = with_skill s canonical skill
  select_new s canonical skill (some existing) = with_diagnostics s (collision skill existing ∷ [])

  unfoldable pub select : Selected → SkillSummary → Selected
  select s skill =
      let canonical = fs.resolve skill.file_path in
      if member_path canonical s.canonical_paths
      then s
      else select_new s canonical skill (lookup skill.name s.skills)

  unfoldable pub select_all : Selected → List SkillSummary → Selected
  select_all s [] = s
  select_all s (skill ∷ skills) = select_all (select s skill) skills

  abbrev pub select_found : Selected → Found → Selected
  select_found s f = select_all (with_diagnostics s f.diagnostics) f.skills

  abbrev pub found_at : FilePath → Bool → Node → Scanned Found
  found_at path include (file content) = scanned (load_file lib fs path content)
  found_at path include node = scan_directory lib fs (some node) path include

  abbrev pub at_source : List FilePath → Selected → FilePath → Bool → Option Node → Scanned Selected
  at_source explicit_paths s path include (some node) =
      and_then (found_at path include node) (λ f. scanned (select_found s f))
  at_source explicit_paths s path include none =
      if member_path path (resolved_all explicit_paths)
      then scanned (with_diagnostics s (warning (codes "skill path does not exist") path ∷ []))
      else scanned s

  -- The loop over the sources.
  unfoldable pub discover_from : List FilePath → Selected → List Source → Scanned Selected
  discover_from explicit_paths s [] = scanned s
  discover_from explicit_paths s ((path, include) ∷ later) =
      and_then (at_source explicit_paths s path include (fs.look path))
        (λ next. discover_from explicit_paths next later)

  -- `discover_skills`
  unfoldable pub discover_skills : FilePath → List FilePath → Scanned Selected
  discover_skills cwd explicit_paths =
      discover_from explicit_paths nothing_selected (sources cwd explicit_paths)

-- `tuple(selected.values())`
unfoldable pub skills_of : Dict SkillSummary → List SkillSummary
skills_of [] = []
skills_of ((name, skill) ∷ d) = skill ∷ skills_of d

-- `SkillsService.__init__`
unfoldable pub skills_service : Dict SkillSummary → List SkillSummary → Dict SkillSummary
skills_service d [] = d
skills_service d (skill ∷ skills) = skills_service (set skill.name skill d) skills

pub record SkillContent : Type 0 where
  pub name : Text
  pub content : Text
  pub file_path : FilePath
  pub base_dir : FilePath

-- The skill's text, the KeyError, or the exception of reading the file, which is missing or unread.
pub data SkillLoad : Type 0 where
  skill_content : SkillContent → SkillLoad
  unknown_skill : Text → SkillLoad
  unread_skill : Option Content → SkillLoad

abbrev pub read_skill : SkillSummary → Option Content → SkillLoad
read_skill skill (some (readable text)) = skill_content (record {
  name = skill.name;
  content = text;
  file_path = skill.file_path;
  base_dir = skill.base_dir;
})
read_skill skill content = unread_skill content

-- `SkillsService.load`
unfoldable pub load : FileSystem → Dict SkillSummary → Text → SkillLoad
load fs d name = elim (lookup name d) [
  | none ↦ unknown_skill name
  | some skill ↦ read_skill skill (content_of (fs.look skill.file_path))
]

-- `escape(text, {'"': "&quot;", "'": "&apos;"})`
abbrev escape_markup_char : ℕ → Text
escape_markup_char c =
    if c == b'"' then codes "&quot;" else if c == b'\'' then codes "&apos;" else escape_char c

unfoldable pub escape_markup : Text → Text
escape_markup [] = []
escape_markup (c ∷ t) = escape_markup_char c ++ escape_markup t

unfoldable pub visible : List SkillSummary → List SkillSummary
visible [] = []
visible (skill ∷ skills) =
    let rest = visible skills in if skill.disable_model_invocation then rest else skill ∷ rest

unfoldable pub skill_lines : List SkillSummary → List Text
skill_lines [] = []
skill_lines (skill ∷ skills) =
    codes "  <skill>"
    ∷ (codes "    <name>" ++ escape_markup skill.name ++ codes "</name>")
    ∷ (codes "    <description>" ++ escape_markup skill.description ++ codes "</description>")
    ∷ (codes "    <location>" ++ escape_markup (path_text skill.file_path) ++ codes "</location>")
    ∷ codes "  </skill>"
    ∷ skill_lines skills

abbrev prompt_lines : List SkillSummary → List Text
prompt_lines skills =
    codes "The following skills provide specialized instructions for specific tasks."
      ∷ codes "Load a matching skill with tools.skills.load(name) before following it."
      ∷ codes "Resolve relative paths against the returned base directory."
      ∷ []
      ∷ codes "<available_skills>"
      ∷ skill_lines skills
    ++ codes "</available_skills>" ∷ []

unfoldable pub format_skills_for_prompt : List SkillSummary → Text
format_skills_for_prompt skills =
    if is_nil (visible skills) then [] else join_lines (prompt_lines (visible skills))
