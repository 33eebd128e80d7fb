-- ===== src/Dict.antt =====
-- Python's `dict` with text keys: entries in the order of their first insertion.
use py_code_act.Prelude.{
  ◌≡◌, refl, ◌∙◌, inl, inr, Bool, true, false, ◌||◌, Option, none, some, List, [], ◌∷◌, ◌++◌, arith,
  if◌then◌else◌, Bool-cases, Text, eq_text, eq_text_iff,
}

abbrev pub Dict {ℓ} : Type ℓ → Type ℓ
Dict V = List (Text × V)

pub eq_text_comm : (a b : Text) → eq_text a b ≡ eq_text b a
unfolding eq_text
eq_text_comm [] [] = refl
eq_text_comm [] (y ∷ b) = refl
eq_text_comm (x ∷ a) [] = refl
eq_text_comm (x ∷ a) (y ∷ b) = ground (arith, eq_text_comm a b)

module _ {V : Type 0} where
  -- `d[k] = v`: a key that is there keeps its place.
  unfoldable pub set : Text → V → Dict V → Dict V
  set k v [] = (k, v) ∷ []
  set k v ((j, w) ∷ d) = let rest = set k v d in if eq_text j k then (j, v) ∷ d else (j, w) ∷ rest

  -- `d[k]`; `none` is a KeyError.
  unfoldable pub lookup : Text → Dict V → Option V
  lookup k [] = none
  lookup k ((j, w) ∷ d) = if eq_text j k then some w else lookup k d

  -- `k in d`
  unfoldable pub has : Text → Dict V → Bool
  has k [] = false
  has k ((j, w) ∷ d) = eq_text j k || has k d

  -- No key occurs twice, as in every dictionary that `set` builds from `[]`.
  abbrev pub Unique : Dict V → Type 0
  Unique [] = Unit
  Unique ((k, v) ∷ d) = (has k d ≡ false) × Unique d

  has-set :
      (j k : Text) (v : V) (d : Dict V)
      → has j d ≡ false
      → eq_text k j ≡ false
      → has j (set k v d) ≡ false
  unfolding has set
  has-set j k v [] h e = ground arith
  has-set j k v ((i, w) ∷ d) h e = ground (arith, has-set j k v d)

  pub has-set_same : (k : Text) (v : V) (d : Dict V) → has k (set k v d) ≡ true
  unfolding has set
  has-set_same k v [] = rw ((eq_text_iff k k).1 refl) refl
  has-set_same k v ((j, w) ∷ d) = elim (Bool-cases (eq_text j k)) [
    | inl same ↦ rw same (rw same refl)
    | inr other ↦ rw other (rw (other, has-set_same k v d) refl)
  ]

  pub set-Unique : (k : Text) (v : V) (d : Dict V) → Unique d → Unique (set k v d)
  unfolding has set
  set-Unique k v [] u = (refl, tt)
  set-Unique k v ((j, w) ∷ d) u = elim (Bool-cases (eq_text j k)) [
    | inl same ↦ rw same (u.0, u.1)
    | inr other ↦ rw other (has-set j k v d u.0 (eq_text_comm k j ∙ other), set-Unique k v d u.1)
  ]

  pub set_new : (k : Text) (v : V) (d : Dict V) → has k d ≡ false → set k v d ≡ d ++ (k, v) ∷ []
  unfolding has set
  set_new k v [] h = refl
  set_new k v ((i, w) ∷ d) h = ground (arith, set_new k v d)

  pub has-append : (k : Text) (c d : Dict V) → has k (c ++ d) ≡ has k c || has k d
  unfolding has
  has-append k [] d = refl
  has-append k ((j, w) ∷ c) d = ground (arith, has-append k c d)

  pub has-lookup : (k : Text) (d : Dict V) → lookup k d ≡ none → has k d ≡ false
  unfolding lookup has
  has-lookup k [] e = refl
  has-lookup k ((j, w) ∷ d) e = elim (Bool-cases (eq_text j k)) [
    | inl same ↦ absurd (ground (arith, same, e))
    | inr other ↦ rw other (has-lookup k d (rw other at e))
  ]

  pub lookup-append :
      (k : Text) (d c : Dict V) (v : V) → lookup k d ≡ some v → lookup k (d ++ c) ≡ some v
  unfolding lookup
  lookup-append k [] c v e = absurd (ground (arith, e))
  lookup-append k ((j, w) ∷ d) c v e = elim (Bool-cases (eq_text j k)) [
    | inl same ↦ rw same (rw same at e)
    | inr other ↦ rw other (lookup-append k d c v (rw other at e))
  ]

  pub lookup-last :
      (k : Text) (d : Dict V) (v : V) → lookup k d ≡ none → lookup k (d ++ (k, v) ∷ []) ≡ some v
  unfolding lookup
  lookup-last k [] v e = rw ((eq_text_iff k k).1 refl) refl
  lookup-last k ((j, w) ∷ d) v e = elim (Bool-cases (eq_text j k)) [
    | inl same ↦ absurd (ground (arith, same, e))
    | inr other ↦ rw other (lookup-last k d v (rw other at e))
  ]
