-- ===== src/Tools/Registry.antt =====
-- The registry of tools (src/py_code_act/tools/namespace.py) and the values that tools return
-- (`_jsonable` in src/py_code_act/tools/server.py). `S` is the state of all services.
use py_code_act.Prelude.{
  String, Bool, Option, none, some, List, [], ◌∷◌, ◌++◌, ◌==◌, if◌then◌else◌, Text, codes,
}
use py_code_act.Prelude.Int.{ℤ}
use py_code_act.Domain.Json.{
  Json, null, bool, int, real, str, arr, obj, Items, nil, cons, Fields, end, field,
}
use py_code_act.Dict.{Dict, set, lookup}
use py_code_act.Protocol.Observations.{join_lines}
use py_code_act.Observability.{member}

-- An exception, by the name of its type and its `str`.
pub record ToolError : Type 0 where
  pub kind : Text
  pub message : Text

abbrev pub error_of : String → Text → ToolError
error_of kind message = record { kind = codes kind; message = message }

-- What a method returns. Keys are given as `str(key)`; `other` is a value of another type, by its
-- type's name.
mutual
  pub data Value : Type 0 where
    none_value : Value
    bool_value : Bool → Value
    int_value : ℤ → Value
    float_value : Text → Value
    text_value : Text → Value
    path_value : Text → Value
    dataclass_value : Members → Value
    mapping_value : Members → Value
    sequence_value : Values → Value
    other_value : Text → Value

  pub data Values : Type 0 where
    no_values : Values
    and_value : Value → Values → Values

  pub data Members : Type 0 where
    no_members : Members
    and_member : String → Value → Members → Members

pub data Outcome (A : Type 0) : Type 0 where
  returned : A → Outcome A
  raised : ToolError → Outcome A

abbrev pub then_value : {A B : Type 0} → Outcome A → (A → Outcome B) → Outcome B
then_value (returned a) f = f a
then_value (raised e) f = raised e

-- `_jsonable`. `asdict` makes a dict of a dataclass, and of those inside it, as `_jsonable` would.
unfoldable mutual
  pub jsonable : Value → Outcome Json
  jsonable none_value = returned null
  jsonable (bool_value b) = returned (bool b)
  jsonable (int_value n) = returned (int n)
  jsonable (float_value t) = returned (real t)
  jsonable (text_value t) = returned (str t)
  jsonable (path_value t) = returned (str t)
  jsonable (dataclass_value members) =
      then_value (jsonable_members members) (λ fs. returned (obj fs))
  jsonable (mapping_value members) = then_value (jsonable_members members) (λ fs. returned (obj fs))
  jsonable (sequence_value values) = then_value (jsonable_values values) (λ xs. returned (arr xs))
  jsonable (other_value name) =
      raised (error_of "TypeError" (codes "tool returned a non-serializable " ++ name))

  pub jsonable_values : Values → Outcome Items
  jsonable_values no_values = returned nil
  jsonable_values (and_value v values) =
      let first = jsonable v in
      let rest = jsonable_values values in
      then_value first (λ x. then_value rest (λ xs. returned (cons x xs)))

  pub jsonable_members : Members → Outcome Fields
  jsonable_members no_members = returned end
  jsonable_members (and_member k v members) =
      let first = jsonable v in
      let rest = jsonable_members members in
      then_value first (λ x. then_value rest (λ fs. returned (field k x fs)))

-- A namespace with its service. `bind` is `inspect.signature(method).bind`: the arguments by the
-- names of their parameters, or the TypeError; `call` is the method's body on them. `getattr` finds
-- every method that a namespace lists.
pub record ToolNamespace (S : Type 0) : Type 0 where
  pub name : Text
  pub prompt : Text
  pub methods : List Text
  pub bind : Text → Items → Fields → Outcome Fields
  pub call : Text → Fields → S → S × Outcome Value

-- `dotted.split(".", 1)` into two; `none` is the ValueError where there is no dot.
unfoldable pub split_dot : Text → Option (Text × Text)
split_dot [] = none
split_dot (c ∷ t) =
    let rest = split_dot t in
    if c == b'.'
    then some ([], t)
    else elim rest [ none ↦ none | some (before, after) ↦ some (c ∷ before, after) ]

-- The `str` of a KeyError is the `repr` of its message.
abbrev pub unknown_method : (Text → Text) → Text → ToolError
unknown_method repr dotted = error_of "KeyError" (repr (codes "unknown tool method: " ++ dotted))

module _ {S : Type 0} where
  unfoldable pub registry_onto :
      Dict (ToolNamespace S) → List (ToolNamespace S) → Dict (ToolNamespace S)
  registry_onto d [] = d
  registry_onto d (n ∷ namespaces) = registry_onto (set n.name n d) namespaces

  -- `__init__`
  abbrev pub tool_registry : List (ToolNamespace S) → Dict (ToolNamespace S)
  tool_registry = registry_onto []

  -- `namespaces`
  unfoldable pub namespaces : Dict (ToolNamespace S) → List (ToolNamespace S)
  namespaces [] = []
  namespaces ((k, n) ∷ d) = n ∷ namespaces d

  abbrev prompts : List (ToolNamespace S) → List Text
  prompts [] = []
  prompts (n ∷ ns) = n.prompt ∷ prompts ns

  unfoldable pub prompt_contribution : Dict (ToolNamespace S) → Text
  prompt_contribution registry = join_lines (prompts (namespaces registry))

  module _ (repr : Text → Text) where
    abbrev pub call_bound : ToolNamespace S → Text → Outcome Fields → S → S × Outcome Value
    call_bound n method (returned arguments) s = n.call method arguments s
    call_bound n method (raised error) s = (s, raised error)

    abbrev pub invoke_in :
        Text → Option (ToolNamespace S) → Text → Items → Fields → S → S × Outcome Value
    invoke_in dotted none method args kwargs s = (s, raised (unknown_method repr dotted))
    invoke_in dotted (some n) method args kwargs s =
        if member method n.methods
        then call_bound n method (n.bind method args kwargs) s
        else (s, raised (unknown_method repr dotted))

    -- `invoke`
    unfoldable pub invoke : Dict (ToolNamespace S) → Text → Items → Fields → S → S × Outcome Value
    invoke registry dotted args kwargs s = elim (split_dot dotted) [
      | none ↦ (s, raised (unknown_method repr dotted))
      | some (namespace_name, method) ↦
          invoke_in dotted (lookup namespace_name registry) method args kwargs s
    ]
