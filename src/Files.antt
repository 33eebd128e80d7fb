-- ===== src/Files.antt =====
-- Absolute paths and the files behind them, as the code that reads skills and instructions sees them.
use py_code_act.Prelude.{
  ◌≡◌, ◌↔◌, Bool, true, false, ◌&&◌, ◌||◌, Option, none, some, List, [], ◌∷◌, ◌++◌, arith,
  if◌then◌else◌, Text, eq_text, eq_text_iff,
}

-- A path by its names, the last name first; the root has none.
abbrev pub FilePath : Type 0
FilePath = List Text

unfoldable pub eq_path : FilePath → FilePath → Bool
eq_path [] [] = true
eq_path (a ∷ p) (b ∷ q) = eq_text a b && eq_path p q
eq_path _ _ = false

-- `path.name`
abbrev pub name_of : FilePath → Text
name_of [] = []
name_of (name ∷ parent) = name

-- `path.parent`
abbrev pub parent_of : FilePath → FilePath
parent_of [] = []
parent_of (name ∷ parent) = parent

-- `str(path)`
unfoldable pub path_text : FilePath → Text
path_text [] = b'/' ∷ []
path_text (name ∷ []) = b'/' ∷ name
path_text (name ∷ parent) = path_text parent ++ b'/' ∷ name

-- What reading a file as UTF-8 gives, or its exception.
pub data Content : Type 0 where
  readable : Text → Content
  os_error : Text → Content
  unicode_error : Text → Content

-- What stands at a path: a file, a directory with its entries and the OSError that listing them
-- raises, if it does, or something else. Links are followed and form no cycle.
mutual
  pub data Node : Type 0 where
    file : Content → Node
    directory : Option Text → Entries → Node
    special : Node

  pub data Entries : Type 0 where
    no_more : Entries
    entry : Text → Node → Entries → Entries

-- `find name entries` is what stands in a directory under a name.
unfoldable pub find : Text → Entries → Option Node
find name no_more = none
find name (entry n node entries) = if eq_text n name then some node else find name entries

pub record FileSystem : Type 0 where
  pub look : FilePath → Option Node
  pub resolve : FilePath → FilePath
  pub expanduser : FilePath → FilePath
  pub home : FilePath

abbrev pub is_directory : Option Node → Bool
is_directory (some (directory error entries)) = true
is_directory _ = false

abbrev pub content_of : Option Node → Option Content
content_of (some (file content)) = some content
content_of _ = none

pub eq_path_iff : (p q : FilePath) → (eq_path p q ≡ true) ↔ (p ≡ q)
unfolding eq_path
eq_path_iff [] [] = ground arith
eq_path_iff [] (b ∷ q) = ground arith
eq_path_iff (a ∷ p) [] = ground arith
eq_path_iff (a ∷ p) (b ∷ q) = ground (arith, eq_text_iff a b, eq_path_iff p q)

-- `path in paths`
unfoldable pub member_path : FilePath → List FilePath → Bool
member_path p [] = false
member_path p (q ∷ paths) = eq_path p q || member_path p paths

abbrev pub NoRepeat : List FilePath → Type 0
NoRepeat [] = Unit
NoRepeat (p ∷ paths) = (member_path p paths ≡ false) × NoRepeat paths
