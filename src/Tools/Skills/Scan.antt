-- ===== src/Tools/Skills/Scan.antt =====
-- The skills of a directory (`_scan_directory` and `_ignore_patterns` in
-- src/py_code_act/tools/skills.py).
use py_code_act.Prelude.{
  Bool, true, false, not, ◌&&◌, ◌||◌, Option, none, some, List, [], ◌∷◌, ◌++◌, ltb, ◌==◌,
  if◌then◌else◌, Text, codes, is_nil, length, eq_text,
}
use py_code_act.Spaces.{strip, starts_with, drop}
use py_code_act.Files.{
  FilePath, readable, unicode_error, Node, file, directory, special, Entries, no_more, entry, find,
  FileSystem,
}
use py_code_act.Tools.Skills.{warning, SkillLibrary, Found, found, load_file}

-- A UnicodeDecodeError of an ignore file is not caught; it is here by its text.
pub data Scanned (A : Type 0) : Type 0 where
  scanned : A → Scanned A
  decode_error : Text → Scanned A

abbrev pub and_then : {A B : Type 0} → Scanned A → (A → Scanned B) → Scanned B
and_then (scanned a) f = f a
and_then (decode_error error) f = decode_error error

abbrev pub both : Found → Found → Found
both a b = found (a.skills ++ b.skills) (a.diagnostics ++ b.diagnostics)

abbrev pub and_found : Scanned Found → Scanned Found → Scanned Found
and_found first rest = and_then first (λ a. and_then rest (λ b. scanned (both a b)))

-- `stripped.removeprefix("/")`
abbrev without_slash : Text → Text
without_slash t = if starts_with (b'/' ∷ []) t then drop 1 t else t

abbrev is_pattern : Text → Bool
is_pattern t = not (is_nil t) && not (starts_with (b'#' ∷ []) t) && not (starts_with (b'!' ∷ []) t)

unfoldable pub patterns_of : List Text → List Text
patterns_of [] = []
patterns_of (line ∷ lines) =
    let rest = patterns_of lines in
    if is_pattern (strip line) then without_slash (strip line) ∷ rest else rest

abbrev pub ignore_files : List Text
ignore_files = codes ".gitignore" ∷ codes ".ignore" ∷ codes ".fdignore" ∷ []

-- `name.endswith(suffix)`
unfoldable pub ends_with : Text → Text → Bool
ends_with [] suffix = is_nil suffix
ends_with (c ∷ t) suffix = eq_text (c ∷ t) suffix || ends_with t suffix

-- `entry.suffix == ".md"`, where the name starts with no dot
abbrev pub is_markdown : Text → Bool
is_markdown name = ends_with name (codes ".md") && ltb 3 (length name)

abbrev pub is_hidden : Text → Bool
is_hidden name = starts_with (b'.' ∷ []) name || eq_text name (codes "node_modules")

-- Whether an entry's name is not after another's, by their code points.
unfoldable pub name_le : Text → Text → Bool
name_le [] b = true
name_le (x ∷ a) [] = false
name_le (x ∷ a) (y ∷ b) = ltb x y || (x == y && name_le a b)

-- The results of the entries in the order of `sorted(..., key=lambda item: item.name)`: the entries
-- of a directory have different names, and a visit reads nothing that another one writes.
unfoldable pub insert_result :
    Text → Scanned Found → List (Text × Scanned Found) → List (Text × Scanned Found)
insert_result name r [] = (name, r) ∷ []
insert_result name r ((n, q) ∷ results) =
    let rest = insert_result name r results in
    if name_le name n then (name, r) ∷ (n, q) ∷ results else (n, q) ∷ rest

unfoldable pub concat_results : List (Text × Scanned Found) → Scanned Found
concat_results [] = scanned (found [] [])
concat_results ((name, r) ∷ results) = and_found r (concat_results results)

module _ (lib : SkillLibrary) where
  abbrev patterns_in : Option Node → Scanned (List Text)
  patterns_in (some (file (readable text))) = scanned (patterns_of (lib.splitlines text))
  patterns_in (some (file (unicode_error error))) = decode_error error
  patterns_in _ = scanned []

  unfoldable pub patterns_from : List Text → Entries → Scanned (List Text)
  patterns_from [] entries = scanned []
  patterns_from (name ∷ names) entries =
      and_then (patterns_in (find name entries))
        (λ a. and_then (patterns_from names entries) (λ b. scanned (a ++ b)))

  -- `_ignore_patterns`
  abbrev pub ignore_patterns : Entries → Scanned (List Text)
  ignore_patterns = patterns_from ignore_files

  -- `_is_ignored`
  unfoldable pub is_ignored : Text → List Text → Bool
  is_ignored name [] = false
  is_ignored name (pattern ∷ patterns) =
      lib.fnmatch name pattern
      || lib.fnmatch (name ++ b'/' ∷ []) pattern
      || is_ignored name patterns

  module _ (fs : FileSystem) where
    abbrev declared_in : FilePath → List Text → Option Node → Option Found
    declared_in path patterns (some (file content)) =
        if is_ignored (codes "SKILL.md") patterns
        then none
        else some (load_file lib fs (codes "SKILL.md" ∷ path) content)
    declared_in path patterns _ = none

    -- A directory that cannot be listed is reported.
    abbrev listed : FilePath → Option Text → Scanned Found → Scanned Found
    listed path (some error) inside = scanned (found [] (warning error path ∷ []))
    listed path none inside = inside

    -- A declared skill stands for all of its directory.
    abbrev declared_or : Option Found → Scanned Found → Scanned Found
    declared_or (some skill) inside = scanned skill
    declared_or none inside = inside

    -- `visit`, where `inside` visits the entries that the patterns leave.
    abbrev pub visit_with :
        Entries → Option Text → FilePath → (List Text → List (Text × Scanned Found)) → Scanned Found
    visit_with entries error path inside = and_then (ignore_patterns entries) (λ patterns.
        declared_or (declared_in path patterns (find (codes "SKILL.md") entries))
          (listed path error (concat_results (inside patterns))))

    -- The recursion of `visit`: what an entry and what each entry of a directory gives.
    unfoldable mutual
      pub visit_entry : Node → Text → FilePath → Bool → Scanned Found
      visit_entry (directory error entries) name path include_markdown =
          visit_with entries error (name ∷ path) (visit_each entries (name ∷ path) true)
      visit_entry (file content) name path include_markdown =
          if include_markdown && is_markdown name
          then scanned (load_file lib fs (name ∷ path) content)
          else scanned (found [] [])
      visit_entry special name path include_markdown = scanned (found [] [])

      pub visit_each : Entries → FilePath → Bool → List Text → List (Text × Scanned Found)
      visit_each no_more path include_markdown patterns = []
      visit_each (entry name node entries) path include_markdown patterns =
          let here = visit_entry node name path include_markdown in
          let rest = visit_each entries path include_markdown patterns in
          if is_hidden name || is_ignored name patterns then rest else insert_result name here rest

    -- `_scan_directory`
    unfoldable pub scan_directory : Option Node → FilePath → Bool → Scanned Found
    scan_directory (some (directory error entries)) path include_root_markdown =
        visit_with entries error path (visit_each entries path include_root_markdown)
    scan_directory _ path include_root_markdown = scanned (found [] [])
