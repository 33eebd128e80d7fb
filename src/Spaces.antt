-- ===== src/Spaces.antt =====
-- Python's white space in texts: `str.strip` and its sides.
use py_code_act.Prelude.{
  ℕ, zero, suc, ◌≡◌, refl, Bool, true, false, ◌&&◌, ◌||◌, [], ◌∷◌, ◌++◌, leb, ◌==◌, if◌then◌else◌,
  Text, is_nil,
}

-- The characters that `str.strip` removes.
abbrev pub is_space : ℕ → Bool
is_space c =
    (leb 9 c && leb c 13)
    || (leb 28 c && leb c 32)
    || c == 133
    || c == 160
    || c == 5760
    || (leb 8192 c && leb c 8202)
    || c == 8232
    || c == 8233
    || c == 8239
    || c == 8287
    || c == 12288

-- `bytes.strip` removes ASCII white space only.
abbrev pub is_ascii_space : ℕ → Bool
is_ascii_space c = (leb 9 c && leb c 13) || c == 32

unfoldable pub lstrip_by : (ℕ → Bool) → Text → Text
lstrip_by p [] = []
lstrip_by p (c ∷ t) = let rest = lstrip_by p t in if p c then rest else c ∷ t

unfoldable pub rstrip_by : (ℕ → Bool) → Text → Text
rstrip_by p [] = []
rstrip_by p (c ∷ t) = let rest = rstrip_by p t in if is_nil rest && p c then [] else c ∷ rest

abbrev pub lstrip : Text → Text
lstrip = lstrip_by is_space

abbrev pub rstrip : Text → Text
rstrip = rstrip_by is_space

abbrev pub strip : Text → Text
strip t = rstrip (lstrip t)

abbrev pub strip_bytes : Text → Text
strip_bytes t = rstrip_by is_ascii_space (lstrip_by is_ascii_space t)

-- A text that keeps its end keeps what stands before it.
pub rstrip_by-append :
    (p : ℕ → Bool) (a b : Text)
    → is_nil (rstrip_by p b) ≡ false
    → rstrip_by p (a ++ b) ≡ a ++ rstrip_by p b
unfolding rstrip_by
rstrip_by-append p [] b h = refl
rstrip_by-append p (c ∷ a) b h = rw (rstrip_by-append p a b h) (if_kept a (rstrip_by p b) h)
  where
    if_kept :
        (a r : Text)
        → is_nil r ≡ false
        → (if is_nil (a ++ r) && p c then [] else c ∷ a ++ r) ≡ c ∷ a ++ r
    if_kept [] r k = rw k refl
    if_kept (x ∷ a) r k = refl

-- `t.startswith(prefix)`
unfoldable pub starts_with : Text → Text → Bool
starts_with [] t = true
starts_with (c ∷ prefix) [] = false
starts_with (c ∷ prefix) (x ∷ t) = c == x && starts_with prefix t

-- `t[n:]`
unfoldable pub drop : ℕ → Text → Text
drop zero t = t
drop (suc n) [] = []
drop (suc n) (c ∷ t) = drop n t
