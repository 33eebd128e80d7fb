-- ===== src/Prelude/Strings.antt =====
-- Python's `str` as the list of its code points.
use Prim.Native.Nat.{ℕ, suc, ◌+◌}
use Prim.Native.Char.{code}
use Prim.Native.String.{String}
use mathlib.Core.Path.{◌≡◌, refl, ap, ◌∙◌, sym}
use mathlib.Core.Logic.{◌↔◌}
use mathlib.Core.Bool.{Bool, true, false, ◌&&◌}
use mathlib.Core.List.{List, [], ◌∷◌, ◌++◌, append_assoc}
use native.Mathlib.Omega.{arith}
use py_code_act.Prelude.Tests.{◌==◌}

abbrev pub Text : Type 0
Text = List ℕ

-- A literal. It stays folded where `codes` is shut.
unfoldable pub codes : String → Text
codes String.[] = []
codes (String.◌∷◌ c s) = code c ∷ codes s

abbrev pub is_nil {ℓ} : {A : Type ℓ} → List A → Bool
is_nil [] = true
is_nil (x ∷ xs) = false

abbrev pub length {ℓ} : {A : Type ℓ} → List A → ℕ
length [] = 0
length (x ∷ xs) = suc (length xs)

pub length-append {ℓ} : {A : Type ℓ} (xs ys : List A) → length (xs ++ ys) ≡ length xs + length ys
length-append [] ys = omega arith
length-append (x ∷ xs) ys = omega (arith, length-append xs ys)

-- `==` on texts
unfoldable pub eq_text : Text → Text → Bool
eq_text [] [] = true
eq_text (x ∷ a) (y ∷ b) = x == y && eq_text a b
eq_text _ _ = false

pub eq_text_iff : (a b : Text) → (eq_text a b ≡ true) ↔ (a ≡ b)
unfolding eq_text
eq_text_iff [] [] = ground arith
eq_text_iff [] (y ∷ b) = ground arith
eq_text_iff (x ∷ a) [] = ground arith
eq_text_iff (x ∷ a) (y ∷ b) = ground (arith, eq_text_iff a b)

-- `"".join(pieces)`
unfoldable pub join : List Text → Text
join [] = []
join (x ∷ xs) = x ++ join xs

pub join-append : (a b : List Text) → join (a ++ b) ≡ join a ++ join b
unfolding join
join-append [] b = refl
join-append (x ∷ a) b = ap (◌++◌ x) (join-append a b) ∙ sym (append_assoc x (join a) (join b))
