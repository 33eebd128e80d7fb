-- ===== src/Agent/Triples.antt =====
-- Actions that lead from one property to another, and results that a property speaks of.
use py_code_act.Prelude.{◌≡◌, refl, Bool, true, false, if◌then◌else◌}
use py_code_act.Agent.Monad.{
  Result, ok, raised, Action, pure, finally, except_timeout, caught, timeout_error, other_error,
  ◌>>=◌, ◌>>◌, continue,
}
use py_code_act.Agent.Rules.{Keeps}

abbrev pub Post : {S A : Type 0} → (A → S → Type 0) → (S → Type 0) → Result A → S → Type 0
Post Q E (ok a) s = Q a s
Post Q E (raised e) s = E s

-- From `P`, a result of `m` has `Q`, and where `m` raises, `E` holds.
pub record Triple {S A : Type 0} (P : S → Type 0) (m : Action S A) (Q : A → S → Type 0)
    (E : S → Type 0) : Type 0 where
  pub at : (s : S) → P s → Post Q E (m s).0 (m s).1

-- From `P`, `Q` holds afterwards, whether `m` returns or raises.
pub record Leads {S A : Type 0} (P Q : S → Type 0) (m : Action S A) : Type 0 where
  pub at : (s : S) → P s → Q (m s).1

Post-keep :
    {S A : Type 0} (P E : S → Type 0) (r : Result A) (s : S)
    → (P s → E s)
    → P s
    → Post (λ _. P) E r s
Post-keep P E (ok a) s w h = h
Post-keep P E (raised e) s w h = w h

Post-relax :
    {S A : Type 0} (Q : A → S → Type 0) (E E' : S → Type 0) (r : Result A) (s : S)
    → (E s → E' s)
    → Post Q E r s
    → Post Q E' r s
Post-relax Q E E' (ok a) s w h = h
Post-relax Q E E' (raised e) s w h = w h

Post-Leads : {S A : Type 0} (Q : S → Type 0) (r : Result A) (s : S) → Post (λ _. Q) Q r s → Q s
Post-Leads Q (ok a) s h = h
Post-Leads Q (raised e) s h = h

module _ {S A B : Type 0} where
  Post-continue :
      {R : A → S → Type 0} {Q : B → S → Type 0} {E : S → Type 0} (f : A → Action S B) (r : Result A)
      (s : S)
      → ((a : A) → Triple (R a) (f a) Q E)
      → Post R E r s
      → Post Q E (continue r f s).0 (continue r f s).1
  Post-continue f (ok a) s k h = (k a).at s h
  Post-continue f (raised e) s k h = h

  Leads-continue :
      {Q : S → Type 0} (f : A → Action S B) (r : Result A) (s : S)
      → ((a : A) → Keeps Q (f a))
      → Q s
      → Q (continue r f s).1
  Leads-continue f (ok a) s k h = (k a).at s h
  Leads-continue f (raised e) s k h = h

  Leads-continue_keep :
      {P Q : S → Type 0} (f : A → Action S B) (r : Result A) (s : S)
      → ((s : S) → P s → Q s)
      → ((a : A) → Leads P Q (f a))
      → P s
      → Q (continue r f s).1
  Leads-continue_keep f (ok a) s w k h = (k a).at s h
  Leads-continue_keep f (raised e) s w k h = w s h

module _ {S A : Type 0} {P Q : S → Type 0} where
  pub Triple-both :
      {E : S → Type 0} (m : Action S A)
      → ((s : S) → Q s → E s)
      → Leads P Q m
      → Triple P m (λ _. Q) E
  Triple-both m w l = record { at = λ s h. Post-keep _ _ (m s).0 (m s).1 (w (m s).1) (l.at s h) }

  pub Leads-Keeps : (m : Action S A) → ((s : S) → P s → Q s) → Keeps P m → Leads P Q m
  Leads-Keeps m weaken k = record { at = λ s h. weaken (m s).1 (k.at s h) }

module _ {S A B : Type 0} {P : S → Type 0} {Q : B → S → Type 0} {E : S → Type 0} where
  pub Triple-bind :
      {R : A → S → Type 0} (m : Action S A) (f : A → Action S B)
      → Triple P m R E
      → ((a : A) → Triple (R a) (f a) Q E)
      → Triple P (m >>= f) Q E
  unfolding ◌>>=◌
  Triple-bind m f t k = record { at = λ s h. Post-continue f (m s).0 (m s).1 k (t.at s h) }

  -- What keeps the property may come first.
  pub Triple-bind_keep :
      (m : Action S A) (f : A → Action S B)
      → ((s : S) → P s → E s)
      → Keeps P m
      → ((a : A) → Triple P (f a) Q E)
      → Triple P (m >>= f) Q E
  Triple-bind_keep m f w t k =
      Triple-bind m f (record { at = λ s h. Post-keep _ _ (m s).0 (m s).1 (w (m s).1) (t.at s h) })
        k

  pub Triple-then_keep :
      (m : Action S A) (k : Action S B)
      → ((s : S) → P s → E s)
      → Keeps P m
      → Triple P k Q E
      → Triple P (m >> k) Q E
  unfolding ◌>>◌
  Triple-then_keep m k w t tk = Triple-bind_keep m (λ _. k) w t (λ _. tk)

  pub Triple-then :
      {R : S → Type 0} (m : Action S A) (k : Action S B)
      → Leads P R m
      → ((s : S) → R s → E s)
      → Triple R k Q E
      → Triple P (m >> k) Q E
  unfolding ◌>>◌
  Triple-then m k l w tk =
      Triple-bind m (λ _. k)
        (record { at = λ s h. Post-keep _ _ (m s).0 (m s).1 (w (m s).1) (l.at s h) }) (λ _. tk)

module _ {S A : Type 0} {P : S → Type 0} {Q : A → S → Type 0} {E : S → Type 0} where
  pub Triple-pure : (a : A) → ((s : S) → P s → Q a s) → Triple P (pure a) Q E
  unfolding pure
  Triple-pure a h = record { at = h }

  pub Triple-if :
      (b : Bool) (m n : Action S A)
      → (b ≡ true → Triple P m Q E)
      → (b ≡ false → Triple P n Q E)
      → Triple P (if b then m else n) Q E
  Triple-if true m n km kn = km refl
  Triple-if false m n km kn = kn refl

  pub Triple-weaken :
      {P' : S → Type 0} (m : Action S A) → ((s : S) → P' s → P s) → Triple P m Q E → Triple P' m Q E
  Triple-weaken m w t = record { at = λ s h. t.at s (w s h) }

  pub Triple-relax :
      {E' : S → Type 0} (m : Action S A) → ((s : S) → E s → E' s) → Triple P m Q E → Triple P m Q E'
  Triple-relax m w t = record {
    at = λ s h. Post-relax _ _ _ (m s).0 (m s).1 (w (m s).1) (t.at s h);
  }

module _ {S A : Type 0} {P Q : S → Type 0} where
  pub Leads-of_Triple : (m : Action S A) → Triple P m (λ _. Q) Q → Leads P Q m
  Leads-of_Triple m t = record { at = λ s h. Post-Leads Q (m s).0 (m s).1 (t.at s h) }

module _ {S A : Type 0} {P Q : S → Type 0} where
  pub Leads-finally :
      (m : Action S A) (cleanup : Action S Unit)
      → Leads P Q m
      → Keeps Q cleanup
      → Leads P Q (finally m cleanup)
  unfolding finally
  Leads-finally m cleanup l k = record { at = λ s h. k.at (m s).1 (l.at s h) }

  pub Leads-except_timeout :
      (m n : Action S A) → Leads P Q m → Keeps Q n → Leads P Q (except_timeout m n)
  unfolding except_timeout
  Leads-except_timeout m n l k = record { at = λ s h. go (m s).0 (m s).1 (l.at s h) }
    where
      go : (r : Result A) (s : S) → Q s → Q (caught r n s).1
      go (ok a) s h = h
      go (raised timeout_error) s h = k.at s h
      go (raised other_error) s h = h

  pub Leads-relax :
      {R : S → Type 0} (m : Action S A) → ((s : S) → Q s → R s) → Leads P Q m → Leads P R m
  Leads-relax m w l = record { at = λ s h. w (m s).1 (l.at s h) }

  pub Leads-if :
      (b : Bool) (m n : Action S A) → Leads P Q m → Leads P Q n → Leads P Q (if b then m else n)
  Leads-if true m n l k = l
  Leads-if false m n l k = k

module _ {S A B : Type 0} {P Q : S → Type 0} where
  pub Leads-bind :
      (m : Action S A) (f : A → Action S B)
      → Leads P Q m
      → ((a : A) → Keeps Q (f a))
      → Leads P Q (m >>= f)
  unfolding ◌>>=◌
  Leads-bind m f l k = record { at = λ s h. Leads-continue f (m s).0 (m s).1 k (l.at s h) }

  pub Leads-then : (m : Action S A) (k : Action S B) → Leads P Q m → Keeps Q k → Leads P Q (m >> k)
  unfolding ◌>>◌
  Leads-then m k l kk = Leads-bind m (λ _. k) l (λ _. kk)

  pub Leads-bind_keep :
      (m : Action S A) (f : A → Action S B)
      → ((s : S) → P s → Q s)
      → Keeps P m
      → ((a : A) → Leads P Q (f a))
      → Leads P Q (m >>= f)
  unfolding ◌>>=◌
  Leads-bind_keep m f w km k = record {
    at = λ s h. Leads-continue_keep f (m s).0 (m s).1 w k (km.at s h);
  }

  pub Leads-then_keep :
      (m : Action S A) (k : Action S B)
      → ((s : S) → P s → Q s)
      → Keeps P m
      → Leads P Q k
      → Leads P Q (m >> k)
  unfolding ◌>>◌
  Leads-then_keep m k w km l = Leads-bind_keep m (λ _. k) w km (λ _. l)
