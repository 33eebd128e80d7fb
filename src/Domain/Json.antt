-- ===== src/Domain/Json.antt =====
-- The JSON values that Python's `json` reads and writes, and what the code does with a mapping.
use py_code_act.Prelude.{
  String, ◌≡◌, refl, Bool, true, false, not, Option, none, some, List, [], ◌∷◌, if◌then◌else◌, Text,
  codes, is_nil, eq_text,
}
use py_code_act.Prelude.Int.{ℤ, pos, eqb_ℤ}
use text.Mathlib.Text.{◌==◌}

-- `real` is a float, by its literal; the code passes floats on and never computes with one.
mutual
  pub data Json : Type 0 where
    null : Json
    bool : Bool → Json
    int : ℤ → Json
    real : Text → Json
    str : Text → Json
    arr : Items → Json
    obj : Fields → Json

  pub data Items : Type 0 where
    nil : Items
    cons : Json → Items → Items

  -- the entries of a dict in insertion order
  pub data Fields : Type 0 where
    end : Fields
    field : String → Json → Fields → Fields

-- `value.get(key)`. Where a literal repeats a key, Python keeps the last value; `dict`s that the
-- code builds and `json.loads` returns have each key once.
abbrev pub get : String → Fields → Option Json
get k end = none
get k (field j v rest) = if j == k then some v else get k rest

-- `value.get(key, default)`
abbrev pub get_or : String → Json → Fields → Json
get_or k d fields = elim (get k fields) [ none ↦ d | some v ↦ v ]

abbrev pub from_texts : List Text → Items
from_texts [] = nil
from_texts (t ∷ ts) = cons (str t) (from_texts ts)

-- Python's `str(value)`, `int(value)` and the truth of a float, which the code applies to values of
-- unknown shape. On a string `str` is the identity, and on an integer `int` is; `none` is a
-- ValueError or TypeError.
pub record Conversions : Type 0 where
  pub to_str : Json → Text
  pub to_int : Json → Option ℤ
  pub real_truth : Text → Bool
  pub to_str_str : (t : Text) → to_str (str t) ≡ t
  pub to_int_int : (n : ℤ) → to_int (int n) ≡ some n

-- `value == literal`, where the value may be missing
abbrev pub is_text : Option Json → String → Bool
is_text (some (str t)) literal = eq_text t (codes literal)
is_text _ literal = false

-- the list under a key, if it is one; a missing key stands for `()`
abbrev pub list_or_missing : Option Json → Option Items
list_or_missing none = some nil
list_or_missing (some (arr items)) = some items
list_or_missing (some _) = none

-- `x if isinstance(x, Mapping) else None`
abbrev pub mapping : Option Json → Option Fields
mapping (some (obj fields)) = some fields
mapping _ = none

module _ (py : Conversions) where
  -- `bool(value)`
  abbrev pub truth : Json → Bool
  truth null = false
  truth (bool b) = b
  truth (int n) = not (eqb_ℤ n (pos 0))
  truth (real t) = py.real_truth t
  truth (str t) = not (is_nil t)
  truth (arr nil) = false
  truth (arr (cons v items)) = true
  truth (obj end) = false
  truth (obj (field k v fields)) = true

  -- `str(value or fallback)`
  abbrev pub text_or : Option Json → Text → Text
  text_or none fallback = fallback
  text_or (some v) fallback = if truth v then py.to_str v else fallback

  -- `str(value.get(key, default))`
  abbrev pub text_at : String → Text → Fields → Text
  text_at key default fields = py.to_str (get_or key (str default) fields)

  -- `tuple(str(line) for line in items)`
  unfoldable pub to_texts : Items → List Text
  to_texts nil = []
  to_texts (cons v items) = py.to_str v ∷ to_texts items

  pub to_texts-from_texts : (ts : List Text) → to_texts (from_texts ts) ≡ ts
  unfolding to_texts
  to_texts-from_texts [] = refl
  to_texts-from_texts (t ∷ ts) = rw (py.to_str_str, to_texts-from_texts ts)
