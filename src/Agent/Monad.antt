-- ===== src/Agent/Monad.antt =====
-- Methods that change the harness and may raise. What was changed before a raise stays changed.
use py_code_act.Prelude.{Bool, List, [], ◌∷◌, if◌then◌else◌}

-- `timeout_error` is a TimeoutError; `other_error` any other exception that the code lets through.
pub data Failure : Type 0 where
  timeout_error other_error : Failure

pub data Result {ℓ} (A : Type ℓ) : Type ℓ where
  ok : A → Result A
  raised : Failure → Result A

abbrev pub Action {ℓ} : Type ℓ → Type ℓ → Type ℓ
Action S A = S → Result A × S

module _ {ℓ} {S A : Type ℓ} where
  unfoldable pub pure : A → Action S A
  pure a s = (ok a, s)

  unfoldable pub raise : Failure → Action S A
  raise f s = (raised f, s)

module _ {ℓ} {S : Type ℓ} where
  unfoldable pub modify : (S → S) → Action S (Unit {ℓ})
  modify f s = (ok tt, f s)

module _ {ℓ} {S A : Type ℓ} where
  unfoldable pub gets : (S → A) → Action S A
  gets f s = (ok (f s), s)

  -- an operation of the state that returns a value
  unfoldable pub draw : (S → A × S) → Action S A
  draw f s = let (a, s') = f s in (ok a, s')

  unfoldable pub lift : Result A → Action S A
  lift r s = (r, s)

module _ {ℓ} {S A B : Type ℓ} where
  abbrev pub continue : Result A → (A → Action S B) → Action S B
  continue (ok a) f s = f a s
  continue (raised e) f s = (raised e, s)

  infixl 10 ◌>>=◌ ◌>>◌
  unfoldable pub ◌>>=◌ : Action S A → (A → Action S B) → Action S B
  (m >>= f) s = let (r, s') = m s in continue r f s'

  unfoldable pub ◌>>◌ : Action S A → Action S B → Action S B
  unfolding ◌>>=◌
  m >> k = m >>= λ _. k

-- A cleanup that raises replaces the outcome.
abbrev pub after {ℓ κ} : {A : Type ℓ} → Result A → Result (Unit {κ}) → Result A
after r (ok _) = r
after r (raised e) = raised e

module _ {ℓ} {S A : Type ℓ} where
  -- `try: body finally: cleanup`
  unfoldable pub finally : Action S A → Action S (Unit {ℓ}) → Action S A
  finally body cleanup s = let (r, s') = body s in let (c, s'') = cleanup s' in (after r c, s'')

  abbrev pub caught : Result A → Action S A → Action S A
  caught (raised timeout_error) handler s = handler s
  caught r handler s = (r, s)

  -- `try: body except TimeoutError: handler`
  unfoldable pub except_timeout : Action S A → Action S A → Action S A
  except_timeout body handler s = let (r, s') = body s in caught r handler s'

module _ {ℓ} {S A : Type ℓ} where
  -- `for x in xs: body x`
  unfoldable pub for_each : List A → (A → Action S (Unit {ℓ})) → Action S (Unit {ℓ})
  unfolding pure ◌>>=◌ ◌>>◌
  for_each [] body = pure tt
  for_each (x ∷ xs) body = body x >> for_each xs body

module _ {ℓ} {S : Type ℓ} where
  unfoldable pub when : Bool → Action S (Unit {ℓ}) → Action S (Unit {ℓ})
  when b m = if b then m else pure tt
