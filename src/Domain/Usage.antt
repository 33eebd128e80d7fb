-- ===== src/Domain/Usage.antt =====
-- Token counts (src/py_code_act/domain/usage.py).
use py_code_act.Prelude.{Option, none, some, ◌≡◌, ◌>>=◌}
use py_code_act.Prelude.Int.{ℤ, pos, ◌+ℤ◌}
use py_code_act.Domain.Json.{int, Fields, end, field, get_or, Conversions}

pub record Usage : Type 0 where
  pub input_tokens : ℤ
  pub output_tokens : ℤ
  pub reasoning_tokens : ℤ
  pub cached_input_tokens : ℤ

-- `Usage()`
abbrev pub zero_usage : Usage
zero_usage = record {
  input_tokens = pos 0;
  output_tokens = pos 0;
  reasoning_tokens = pos 0;
  cached_input_tokens = pos 0;
}

unfoldable pub total_tokens : Usage → ℤ
total_tokens u = u.input_tokens +ℤ u.output_tokens

-- `__add__`
unfoldable pub add : Usage → Usage → Usage
add u v = record {
  input_tokens = u.input_tokens +ℤ v.input_tokens;
  output_tokens = u.output_tokens +ℤ v.output_tokens;
  reasoning_tokens = u.reasoning_tokens +ℤ v.reasoning_tokens;
  cached_input_tokens = u.cached_input_tokens +ℤ v.cached_input_tokens;
}

unfoldable pub to_dict : Usage → Fields
to_dict u = field "input_tokens" (int u.input_tokens) (
    field "output_tokens" (int u.output_tokens) (
      field "reasoning_tokens" (int u.reasoning_tokens)
        (field "cached_input_tokens" (int u.cached_input_tokens) end)))

-- `value or {}`
abbrev given_or_empty : Option Fields → Fields
given_or_empty none = end
given_or_empty (some fields) = fields

module _ (py : Conversions) where
  -- `none` is the ValueError or TypeError of `int`.
  unfoldable pub from_dict : Option Fields → Option Usage
  from_dict value = do
    let fields = given_or_empty value
    a ← py.to_int (get_or "input_tokens" (int (pos 0)) fields)
    b ← py.to_int (get_or "output_tokens" (int (pos 0)) fields)
    c ← py.to_int (get_or "reasoning_tokens" (int (pos 0)) fields)
    d ← py.to_int (get_or "cached_input_tokens" (int (pos 0)) fields)
    some (record {
      input_tokens = a;
      output_tokens = b;
      reasoning_tokens = c;
      cached_input_tokens = d;
    })

  pub from_dict-to_dict : (u : Usage) → from_dict (some (to_dict u)) ≡ some u
  unfolding from_dict to_dict
  from_dict-to_dict u = simp py.to_int_int
