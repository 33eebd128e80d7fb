-- ===== src/Tools/Skills.antt =====
-- Skill files (src/py_code_act/tools/skills.py): reading one. A skill's front matter is YAML.
pub mod Names
pub mod Scan
pub mod Discovery
use py_code_act.Prelude.{
  ℕ, zero, suc, ◌+◌, ◌-◌, ◌≤◌, ◌<◌, String, ◌≡◌, refl, sym, ap, ◌∙◌, ◌≢◌, ◌↔◌, ◌⊎◌, inl, inr, Bool,
  true, false, not, ◌&&◌, ◌||◌, Option, none, some, List, [], ◌∷◌, ◌++◌, map, append-nil,
  append_assoc, arith, ltb, leb, ◌==◌, if◌then◌else◌, Bool-cases, Option-cases, is_some, ◌>>=◌,
  Text, codes, is_nil, length, length-append, eq_text, eq_text_iff, join, join-append,
}
use py_code_act.Prelude.Int.{pos}
use py_code_act.Spaces.{strip, starts_with}
use py_code_act.Domain.Json.{Json, null, bool, int, str, obj, Fields, end, get, Conversions}
use py_code_act.Protocol.Observations.{join_lines}
use py_code_act.Files.{
  FilePath, name_of, parent_of, Content, readable, os_error, unicode_error, FileSystem,
}

pub record SkillSummary : Type 0 where
  pub name : Text
  pub description : Text
  pub file_path : FilePath
  pub base_dir : FilePath
  pub disable_model_invocation : Bool

pub record SkillDiagnostic : Type 0 where
  pub level : String
  pub message : Text
  pub path : FilePath

abbrev pub warning : Text → FilePath → SkillDiagnostic
warning message path = record { level = "warning"; message = message; path = path }

-- `yaml.safe_load`, with a mapping's keys as `str(key)`, or the text of its error.
pub data Yaml : Type 0 where
  yaml : Json → Yaml
  yaml_error : Text → Yaml

-- The library's functions.
pub record SkillLibrary : Type 0 where
  pub py : Conversions
  pub safe_load : Text → Yaml
  pub splitlines : Text → List Text
  pub fnmatch : Text → Text → Bool

-- The front matter, or the text of an exception that `_load_file` catches.
pub data Frontmatter : Type 0 where
  no_frontmatter : Frontmatter
  frontmatter : Fields → Frontmatter
  bad_frontmatter : Text → Frontmatter

abbrev is_fence : Text → Bool
is_fence line = eq_text (strip line) (codes "---")

-- The lines before the first fence.
unfoldable pub until_fence : List Text → Option (List Text)
until_fence [] = none
until_fence (line ∷ lines) =
    let rest = until_fence lines in if is_fence line then some [] else map_option line rest
  where
    map_option : Text → Option (List Text) → Option (List Text)
    map_option line none = none
    map_option line (some rest) = some (line ∷ rest)

abbrev pub mapping_of : Yaml → Frontmatter
mapping_of (yaml null) = frontmatter end
mapping_of (yaml (obj fields)) = frontmatter fields
mapping_of (yaml _) = bad_frontmatter (codes "skill frontmatter must be a mapping")
mapping_of (yaml_error error) = bad_frontmatter error

abbrev is_digit_or_lower : ℕ → Bool
is_digit_or_lower c = (leb b'a' c && leb c b'z') || (leb b'0' c && leb c b'9')

-- `char in "abcdefghijklmnopqrstuvwxyz0123456789-"`
abbrev pub is_name_char : ℕ → Bool
is_name_char c = is_digit_or_lower c || c == b'-'

unfoldable pub all_name_chars : Text → Bool
all_name_chars [] = true
all_name_chars (c ∷ t) = is_name_char c && all_name_chars t

-- `name.endswith("-")`
unfoldable pub ends_hyphen : Text → Bool
ends_hyphen [] = false
ends_hyphen (c ∷ []) = c == b'-'
ends_hyphen (c ∷ t) = ends_hyphen t

abbrev pub starts_hyphen : Text → Bool
starts_hyphen [] = false
starts_hyphen (c ∷ t) = c == b'-'

-- `"--" in name`
unfoldable pub double_hyphen : Text → Bool
double_hyphen [] = false
double_hyphen (c ∷ t) = (c == b'-' && starts_hyphen t) || double_hyphen t

abbrev pub error_if : Bool → Text → List Text → List Text
error_if true error errors = error ∷ errors
error_if false error errors = errors

-- `_validate_name`
unfoldable pub validate_name : Conversions → Text → List Text
validate_name py name =
    error_if (ltb 64 (length name))
      (codes "name exceeds 64 characters (" ++ py.to_str (int (pos (length name))) ++ codes ")")
      (error_if (is_nil name || not (all_name_chars name))
        (codes "name must contain only lowercase a-z, 0-9, and hyphens")
        (error_if (starts_hyphen name || ends_hyphen name)
          (codes "name must not start or end with a hyphen")
          (error_if (double_hyphen name) (codes "name must not contain consecutive hyphens") [])))

abbrev warnings : List Text → FilePath → List SkillDiagnostic
warnings [] path = []
warnings (error ∷ errors) path = warning error path ∷ warnings errors path

-- Only a declared skill is reported where it has no skill.
abbrev pub warn_declared : FilePath → Text → List SkillDiagnostic
warn_declared path error =
    if eq_text (name_of path) (codes "SKILL.md") then warning error path ∷ [] else []

-- A text, or the empty one for any other value.
abbrev text_value : Option Json → Text
text_value (some (str t)) = t
text_value _ = []

abbrev is_true : Option Json → Bool
is_true (some (bool true)) = true
is_true _ = false

-- What a file gives: a skill, if it has one, and diagnostics.
pub record Found : Type 0 where
  pub skills : List SkillSummary
  pub diagnostics : List SkillDiagnostic

abbrev pub found : List SkillSummary → List SkillDiagnostic → Found
found skills diagnostics = record { skills = skills; diagnostics = diagnostics }

module _ (lib : SkillLibrary) where
  -- `_parse_frontmatter`
  unfoldable pub parse_frontmatter : Text → Frontmatter
  parse_frontmatter content = elim (lib.splitlines content) [
    | [] ↦ no_frontmatter
    | first ∷ lines ↦ if not (is_fence first) then no_frontmatter else elim (until_fence lines) [
      | none ↦ bad_frontmatter (codes "unterminated YAML frontmatter")
      | some inside ↦ mapping_of (lib.safe_load (join_lines inside))
    ]
  ]

  module _ (fs : FileSystem) where
    abbrev long_description : FilePath → Text → List SkillDiagnostic
    long_description path description =
        if ltb 1024 (length description)
        then warning
            (codes "description exceeds 1024 characters ("
              ++ lib.py.to_str (int (pos (length description)))
              ++ codes ")")
            path
          ∷ []
        else []

    abbrev skill_named : FilePath → Fields → Text → Text → Found
    skill_named path fields description name =
        found
          (record {
            name = name;
            description = description;
            file_path = fs.resolve path;
            base_dir = fs.resolve (parent_of path);
            disable_model_invocation = is_true (get "disable-model-invocation" fields);
          }
            ∷ [])
          (long_description path description ++ warnings (validate_name lib.py name) path)

    abbrev pub skill_of : FilePath → Fields → Found
    skill_of path fields =
        let description = text_value (get "description" fields) in
        let raw_name = text_value (get "name" fields) in
        if is_nil (strip description)
        then found [] (warn_declared path (codes "description is required"))
        else skill_named path fields description
            (if is_nil raw_name then name_of (parent_of path) else raw_name)

    abbrev pub skill_in : FilePath → Frontmatter → Found
    skill_in path no_frontmatter = found [] []
    skill_in path (bad_frontmatter error) = found [] (warn_declared path error)
    skill_in path (frontmatter fields) = skill_of path fields

    -- `_load_file`
    unfoldable pub load_file : FilePath → Content → Found
    load_file path (readable text) = skill_in path (parse_frontmatter text)
    load_file path (os_error error) = found [] (warn_declared path error)
    load_file path (unicode_error error) = found [] (warn_declared path error)
