-- ===== src/Tools/Skills/Names.antt =====
-- The names that `_validate_name` accepts (src/py_code_act/tools/skills.py).
use py_code_act.Prelude.{
  ℕ, ◌≤◌, ◌≡◌, refl, ap, ◌↔◌, inl, inr, Bool, true, false, not, ◌&&◌, ◌||◌, List, [], ◌∷◌, ◌++◌,
  arith, ltb, ◌==◌, if◌then◌else◌, Bool-cases, Text, is_nil, length,
}
use py_code_act.Domain.Json.{Conversions}
use py_code_act.Tools.Skills.{
  is_digit_or_lower, all_name_chars, ends_hyphen, starts_hyphen, double_hyphen, error_if,
  validate_name,
}

abbrev pub AllLowerOrDigit : Text → Type 0
AllLowerOrDigit [] = Unit
AllLowerOrDigit (c ∷ t) = (is_digit_or_lower c ≡ true) × AllLowerOrDigit t

abbrev pub AreWords : List Text → Type 0
AreWords [] = Unit
AreWords (w ∷ words) = (is_nil w ≡ false) × AllLowerOrDigit w × AreWords words

-- Words, each behind a hyphen.
abbrev pub hyphened : List Text → Text
hyphened [] = []
hyphened (w ∷ words) = b'-' ∷ (w ++ hyphened words)

-- At most 64 characters: words of lower-case letters and digits, with one hyphen between two words.
pub record IsSkillName (name : Text) : Type 0 where
  pub short : length name ≤ 64
  pub first : Text
  pub later : List Text
  pub words : AreWords (first ∷ later)
  pub joined : name ≡ first ++ hyphened later

-- Reads a name from the left: a hyphen may stand where a word was begun.
unfoldable is_words : Bool → Text → Bool
is_words begun [] = begun
is_words begun (c ∷ t) =
    let hyphen = is_words false t in
    let letter = is_words true t in
    if c == b'-' then begun && hyphen else is_digit_or_lower c && letter

is_words-begun :
    (t : Text) → is_words true t ≡ all_name_chars t && not (ends_hyphen t) && not (double_hyphen t)
unfolding is_words all_name_chars ends_hyphen double_hyphen
is_words-begun [] = refl
is_words-begun (c ∷ []) = ground arith
is_words-begun (c ∷ d ∷ t) = ground (arith, is_words-begun (d ∷ t))

is_words-start :
    (t : Text)
    → is_words false t
      ≡ not (is_nil t)
        && not (starts_hyphen t)
        && all_name_chars t
        && not (ends_hyphen t)
        && not (double_hyphen t)
unfolding is_words all_name_chars ends_hyphen double_hyphen
is_words-start [] = refl
is_words-start (c ∷ []) = ground arith
is_words-start (c ∷ d ∷ t) = ground (arith, is_words-begun (d ∷ t))

pub record Begun (t : Text) : Type 0 where
  first : Text
  later : List Text
  letters : AllLowerOrDigit first
  words : AreWords later
  joined : t ≡ first ++ hyphened later

abbrev letter-Begun : (c : ℕ) (t : Text) → is_digit_or_lower c ≡ true → Begun t → Begun (c ∷ t)
letter-Begun c t a b = record {
  first = c ∷ b.first;
  later = b.later;
  letters = (a, b.letters);
  words = b.words;
  joined = ap (◌∷◌ c) b.joined;
}

hyphen-Begun : (c : ℕ) (t : Text) (b : Begun t) → is_nil b.first ≡ false → c ≡ b'-' → Begun (c ∷ t)
hyphen-Begun c t b n e = record {
  first = [];
  later = b.first ∷ b.later;
  letters = tt;
  words = (n, b.letters, b.words);
  joined = rw e (ap (◌∷◌ b'-') b.joined);
}

mutual
  unfolding is_words

  words-begun : (t : Text) → is_words true t ≡ true → Begun t
  words-begun [] h = record { first = []; later = []; letters = tt; words = tt; joined = refl }
  words-begun (c ∷ t) h = elim (Bool-cases (c == b'-')) [
    | inl e ↦ let (b, n) = words-start t (ground arith) in hyphen-Begun c t b n (ground arith)
    | inr e ↦ letter-Begun c t (ground arith) (words-begun t (ground arith))
  ]

  words-start : (t : Text) → is_words false t ≡ true → (b : Begun t) × (is_nil b.first ≡ false)
  words-start [] h = absurd (ground arith)
  words-start (c ∷ t) h = (letter-Begun c t (ground arith) (words-begun t (ground arith)), refl)

begun-words :
    (w : Text) (ws : List Text)
    → AllLowerOrDigit w
    → AreWords ws
    → is_words true (w ++ hyphened ws) ≡ true
unfolding is_words
begun-words [] [] a h = refl
begun-words [] ([] ∷ ws) a h = absurd (ground arith)
begun-words [] ((c ∷ w) ∷ ws) a h = ground (arith, begun-words w ws h.1.1 h.2)
begun-words (c ∷ w) ws a h = ground (arith, begun-words w ws a.1 h)

start-words :
    (w : Text) (ws : List Text) → AreWords (w ∷ ws) → is_words false (w ++ hyphened ws) ≡ true
unfolding is_words
start-words [] ws a = absurd (ground arith)
start-words (c ∷ w) ws a = ground (arith, begun-words w ws a.1.1 a.2)

cons_ne_nil : {x : Text} {xs : List Text} → ¬ (x ∷ xs ≡ [])
cons_ne_nil e = absurd (ground (arith, ap is_nil e))

errors_iff :
    (a b c d : Bool) (s t u v : Text)
    → (error_if a s (error_if b t (error_if c u (error_if d v []))) ≡ [])
      ↔ (a || b || c || d ≡ false)
errors_iff true b c d s t u v = (λ e. absurd (cons_ne_nil e), λ h. absurd (ground arith))
errors_iff false true c d s t u v = (λ e. absurd (cons_ne_nil e), λ h. absurd (ground arith))
errors_iff false false true d s t u v = (λ e. absurd (cons_ne_nil e), λ h. absurd (ground arith))
errors_iff false false false true s t u v =
    (λ e. absurd (cons_ne_nil e), λ h. absurd (ground arith))
errors_iff false false false false s t u v = (λ e. refl, λ e. refl)

no_errors_iff :
    (py : Conversions) (name : Text)
    → (validate_name py name ≡ []) ↔ ((length name ≤ 64) × (is_words false name ≡ true))
unfolding validate_name
no_errors_iff py name =
    let errors =
      errors_iff (ltb 64 (length name)) (is_nil name || not (all_name_chars name))
        (starts_hyphen name || ends_hyphen name) (double_hyphen name) _ _ _ _ in
    rw (is_words-start name)
      ((λ e. let h = errors.0 e in (ground arith, ground arith)), (λ h. errors.1 (ground arith)))

-- `_validate_name` finds no error exactly in names of at most 64 characters that are words of
-- lower-case ASCII letters and digits with one hyphen between two words.
pub validate_name_iff :
    (py : Conversions) (name : Text) → (validate_name py name ≡ []) ↔ IsSkillName name
validate_name_iff py name = (
  (λ e.
      let (short, r) = (no_errors_iff py name).0 e in
      let (b, n) = words-start name r in
      record {
        short = short;
        first = b.first;
        later = b.later;
        words = (n, b.letters, b.words);
        joined = b.joined;
      }),
  (λ s. (no_errors_iff py name).1 (s.short, rw s.joined (start-words s.first s.later s.words))),
)
