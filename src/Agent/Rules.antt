-- ===== src/Agent/Rules.antt =====
-- Rules that show, by the shape of an action, that it keeps a property of the state.
use py_code_act.Prelude.{Bool, true, false, List, [], ◌∷◌, if◌then◌else◌}
use py_code_act.Agent.Monad.{
  Failure, timeout_error, other_error, Result, ok, raised, Action, pure, raise, lift, gets, draw,
  modify, when, for_each, finally, except_timeout, ◌>>=◌, ◌>>◌, continue, caught,
}

-- An action keeps `P` when `P` is true of the state that it leaves, whether it returns or raises.
pub record Keeps {S A : Type 0} (P : S → Type 0) (action : Action S A) : Type 0 where
  pub at : (before : S) → P before → P (action before).1

module _ {S A : Type 0} {P : S → Type 0} where
  pub Keeps-draw : (f : S → A × S) → ((s : S) → P s → P (f s).1) → Keeps P (draw f)
  unfolding draw
  Keeps-draw f k = record { at = k }

  -- These leave the state as it is.
  pub Keeps-gets : (read : S → A) → Keeps P (gets read)
  unfolding gets draw
  Keeps-gets read = Keeps-draw (λ s. (read s, s)) (λ s p. p)

  pub Keeps-lift : (outcome : Result A) → Keeps P (lift outcome)
  unfolding lift
  Keeps-lift (ok x) = record { at = λ s p. p }
  Keeps-lift (raised e) = record { at = λ s p. p }

  pub Keeps-raise : (e : Failure) → Keeps P (raise {A = A} e)
  unfolding raise lift
  Keeps-raise e = Keeps-lift (raised e)

  pub Keeps-pure : (x : A) → Keeps P (pure x)
  unfolding pure lift
  Keeps-pure x = Keeps-lift (ok x)

  pub Keeps-if :
      (test : Bool) (yes_part no_part : Action S A)
      → Keeps P yes_part
      → Keeps P no_part
      → Keeps P (if test then yes_part else no_part)
  Keeps-if true m n km kn = km
  Keeps-if false m n km kn = kn

  pub Keeps-except_timeout :
      (m n : Action S A) → Keeps P m → Keeps P n → Keeps P (except_timeout m n)
  unfolding except_timeout
  Keeps-except_timeout m n km kn = record { at = λ s h. go (m s).0 (m s).1 (km.at s h) }
    where
      go : (r : Result A) (s : S) → P s → P (caught r n s).1
      go (ok a) s h = h
      go (raised timeout_error) s h = kn.at s h
      go (raised other_error) s h = h

module _ {S : Type 0} {P : S → Type 0} where
  pub Keeps-modify : (f : S → S) → ((s : S) → P s → P (f s)) → Keeps P (modify f)
  unfolding modify
  Keeps-modify f k = record { at = k }

  pub Keeps-when : (b : Bool) (m : Action S Unit) → Keeps P m → Keeps P (when b m)
  unfolding when
  Keeps-when b m km = Keeps-if b m (pure tt) km (Keeps-pure tt)

module _ {S A B : Type 0} {P : S → Type 0} where
  Keeps-continue :
      (r : Result A) (f : A → Action S B) (s : S)
      → ((a : A) → Keeps P (f a))
      → P s
      → P (continue r f s).1
  Keeps-continue (ok a) f s kf h = (kf a).at s h
  Keeps-continue (raised e) f s kf h = h

  pub Keeps-bind :
      (first : Action S A) (rest : A → Action S B)
      → Keeps P first
      → ((result : A) → Keeps P (rest result))
      → Keeps P (first >>= rest)
  unfolding ◌>>=◌
  Keeps-bind first rest kf kr = record {
    at = λ s p. Keeps-continue (first s).0 rest (first s).1 kr (kf.at s p);
  }

  pub Keeps-then : (m : Action S A) (k : Action S B) → Keeps P m → Keeps P k → Keeps P (m >> k)
  unfolding ◌>>◌
  Keeps-then m k km kk = Keeps-bind m (λ _. k) km (λ _. kk)

module _ {S A : Type 0} {P : S → Type 0} where
  pub Keeps-finally :
      (m : Action S A) (cleanup : Action S Unit)
      → Keeps P m
      → Keeps P cleanup
      → Keeps P (finally m cleanup)
  unfolding finally
  Keeps-finally m cleanup km kc = record { at = λ s h. kc.at (m s).1 (km.at s h) }

  pub Keeps-for_each :
      (xs : List A) (body : A → Action S Unit)
      → ((a : A) → Keeps P (body a))
      → Keeps P (for_each xs body)
  unfolding for_each
  Keeps-for_each [] body k = Keeps-pure tt
  Keeps-for_each (x ∷ xs) body k =
      Keeps-then (body x) (for_each xs body) (k x) (Keeps-for_each xs body k)

pub ruleset keeps_rules = (
  Keeps-pure, Keeps-raise, Keeps-lift, Keeps-gets, Keeps-if, Keeps-bind, Keeps-then, Keeps-when,
  Keeps-finally, Keeps-except_timeout, Keeps-for_each,
)
