-- ===== src/Domain/Codec/Blocks.antt =====
-- The JSON form of an assistant's blocks (src/py_code_act/domain/messages.py).
use py_code_act.Prelude.{
  ℕ, suc, ◌≡◌, refl, false, Option, none, some, List, [], ◌∷◌, if◌then◌else◌, ◌>>=◌, Text, codes,
  is_nil, eq_text,
}
use py_code_act.Domain.Json.{
  Json, null, str, obj, Items, nil, cons, Fields, end, field, get, is_text, mapping, Conversions,
  text_or, text_at,
}
use py_code_act.Domain.Messages.{AssistantBlock, text_block, reasoning_block, exec_block}

abbrev pub optional_mapping : Option Fields → Json
optional_mapping none = null
optional_mapping (some fields) = obj fields

unfoldable pub block_to_dict : AssistantBlock → Fields
block_to_dict (text_block t) = field "kind" (str (codes "text")) (field "text" (str t) end)
block_to_dict (reasoning_block t item) =
    field "kind" (str (codes "reasoning"))
      (field "text" (str t) (field "provider_item" (optional_mapping item) end))
block_to_dict (exec_block b) =
    field "kind" (str (codes "exec")) (field "id" (str b.id) (field "code" (str b.code) end))

module _ (py : Conversions) where
  -- `fresh` is what `new_id("exec")` returns here; `none` is the ValueError "unknown assistant
  -- block kind".
  unfoldable pub block_from_dict : Text → Fields → Option AssistantBlock
  block_from_dict fresh fields =
      let kind = get "kind" fields in
      if is_text kind "text"
      then some (text_block (text_at py "text" [] fields))
      else if is_text kind "reasoning"
      then some
          (reasoning_block (text_at py "text" [] fields) (mapping (get "provider_item" fields)))
      else if is_text kind "exec"
      then some (
          exec_block (record {
            code = text_at py "code" [] fields;
            id = text_or py (get "id" fields) fresh;
          }))
      else none

  -- `tuple(block_from_dict(item) for item in raw_content if isinstance(item, Mapping))`, with
  -- the ids that `new_id` returns at each place
  unfoldable pub blocks_from : (ℕ → Text) → ℕ → Items → Option (List AssistantBlock)
  blocks_from fresh n nil = some []
  blocks_from fresh n (cons (obj fields) items) = do
    block ← block_from_dict (fresh n) fields
    blocks ← blocks_from fresh (suc n) items
    some (block ∷ blocks)
  blocks_from fresh n (cons _ items) = blocks_from fresh (suc n) items

-- `[block_to_dict(block) for block in message.content]`
unfoldable pub blocks_to_items : List AssistantBlock → Items
blocks_to_items [] = nil
blocks_to_items (b ∷ blocks) = cons (obj (block_to_dict b)) (blocks_to_items blocks)

-- An execution block has an id.
abbrev pub HasId : AssistantBlock → Type 0
HasId (exec_block b) = is_nil b.id ≡ false
HasId _ = Unit

abbrev pub HaveIds : List AssistantBlock → Type 0
HaveIds [] = Unit
HaveIds (b ∷ blocks) = HasId b × HaveIds blocks

module _ (py : Conversions) where
  pub block_from_dict-block_to_dict :
      (fresh : Text) (b : AssistantBlock)
      → HasId b
      → block_from_dict py fresh (block_to_dict b) ≡ some b
  unfolding block_from_dict block_to_dict codes eq_text
  block_from_dict-block_to_dict fresh (text_block t) h = simp py.to_str_str
  block_from_dict-block_to_dict fresh (reasoning_block t none) h = simp py.to_str_str
  block_from_dict-block_to_dict fresh (reasoning_block t (some item)) h = simp py.to_str_str
  block_from_dict-block_to_dict fresh (exec_block b) h = simp (py.to_str_str, h)

  pub blocks_from-blocks_to_items :
      (fresh : ℕ → Text) (n : ℕ) (blocks : List AssistantBlock)
      → HaveIds blocks
      → blocks_from py fresh n (blocks_to_items blocks) ≡ some blocks
  unfolding blocks_from blocks_to_items
  blocks_from-blocks_to_items fresh n [] h = refl
  blocks_from-blocks_to_items fresh n (b ∷ blocks) h = rw (
    block_from_dict-block_to_dict (fresh n) b h.0,
    blocks_from-blocks_to_items fresh (suc n) blocks h.1,
  )
