-- ===== src/Agent/Runtime/Action.antt =====
-- Coroutines that change a state and may raise: what was done before a raise stays done. Their
-- postconditions, one rule for each way to build one.
use mtbank_ai_call_analytics.Prelude.{Bool, true, false, ◌≡◌, refl, Result, ok, raise}

abbrev pub Action {ℓ κ μ} : Type ℓ → Type κ → Type μ → Type (ℓ ⊔ κ ⊔ μ)
Action S E A = S → Result E A × S

module _ {S E A : Type 0} where
  unfoldable pub pure : A → Action S E A
  pure a s = (ok a, s)

  unfoldable pub throw : E → Action S E A
  throw e s = (raise e, s)

  unfoldable pub lift : Result E A → Action S E A
  lift r s = (r, s)

  unfoldable pub gets : (S → A) → Action S E A
  gets f s = (ok (f s), s)

module _ {S E : Type 0} where
  unfoldable pub modify : (S → S) → Action S E (Unit {0})
  modify f s = (ok tt, f s)

  -- `if not test: raise e`
  unfoldable pub check : Bool → E → Action S E (Unit {0})
  check true e s = (ok tt, s)
  check false e s = (raise e, s)

module _ {S E A B : Type 0} where
  abbrev resume : Result E A → (A → Action S E B) → Action S E B
  resume (ok a) f s = f a s
  resume (raise e) f s = (raise e, s)

  infixl 10 ◌>>=◌ ◌>>◌
  unfoldable pub ◌>>=◌ : Action S E A → (A → Action S E B) → Action S E B
  unfolding pure throw lift gets modify check
  ◌>>=◌ m f s = let (r, s') = m s in resume r f s'

  abbrev pub ◌>>◌ : Action S E A → Action S E B → Action S E B
  m >> n = m >>= λ _. n

-- What holds after an action that returned, or that raised.
abbrev pub Ensures : {S E A : Type 0} → (A → S → Type 0) → (S → Type 0) → Result E A × S → Type 0
Ensures Q X (ok a, s) = Q a s
Ensures Q X (raise e, s) = X s

-- From a state with `P` the action returns with `Q`, or raises with `X`.
pub record Triple {S E A : Type 0} (P : S → Type 0) (m : Action S E A) (Q : A → S → Type 0)
    (X : S → Type 0) : Type 0 where
  pub at : (s : S) → P s → Ensures Q X (m s)

module _ {S E A : Type 0} {X : S → Type 0} {Q : A → S → Type 0} where
  pub pure-Triple : (a : A) → Triple {E = E} (Q a) (pure a) Q X
  unfolding pure
  pure-Triple a = record { at = λ s h. h }

  pub throw-Triple : (e : E) → Triple X (throw e) Q X
  unfolding throw
  throw-Triple e = record { at = λ s h. h }

  pub lift-Triple :
      {P : S → Type 0} (r : Result E A)
      → ((a : A) → r ≡ ok a → (s : S) → P s → Q a s)
      → ((s : S) → P s → X s)
      → Triple P (lift r) Q X
  unfolding lift
  lift-Triple (ok a) q x = record { at = λ s h. q a refl s h }
  lift-Triple (raise e) q x = record { at = λ s h. x s h }

  pub weaken-Triple :
      {P P' : S → Type 0} {m : Action S E A}
      → Triple P m Q X
      → ((s : S) → P' s → P s)
      → Triple P' m Q X
  weaken-Triple t w = record { at = λ s h. t.at s (w s h) }

module _ {S E A : Type 0} {X : S → Type 0} where
  -- What was read is what the state holds.
  pub gets-Triple :
      {P : S → Type 0} (f : S → A) → Triple {E = E} P (gets f) (λ a s. P s × (a ≡ f s)) X
  unfolding gets
  gets-Triple f = record { at = λ s h. (h, refl) }

module _ {S E : Type 0} {X : S → Type 0} where
  pub check-Triple :
      {P : S → Type 0} {Q : Unit {0} → S → Type 0} (b : Bool) (e : E)
      → ((s : S) → b ≡ true → P s → Q tt s)
      → ((s : S) → P s → X s)
      → Triple P (check b e) Q X
  unfolding check
  check-Triple true e q x = record { at = λ s h. q s refl h }
  check-Triple false e q x = record { at = λ s h. x s h }

  pub modify-Triple :
      {P : S → Type 0} {Q : Unit {0} → S → Type 0} (f : S → S)
      → ((s : S) → P s → Q tt (f s))
      → Triple {E = E} P (modify f) Q X
  unfolding modify
  modify-Triple f q = record { at = q }

module _ {S E A B : Type 0} {X : S → Type 0} {Q : A → S → Type 0} {R : B → S → Type 0} where
  resume_rule :
      (r : Result E A) (s : S) (f : A → Action S E B)
      → Ensures Q X (r, s)
      → ((a : A) → Triple (Q a) (f a) R X)
      → Ensures R X (resume r f s)
  resume_rule (ok a) s f h t = (t a).at s h
  resume_rule (raise e) s f h t = h

  pub bind-Triple :
      {P : S → Type 0} (m : Action S E A) (f : A → Action S E B)
      → Triple P m Q X
      → ((a : A) → Triple (Q a) (f a) R X)
      → Triple P (m >>= f) R X
  unfolding ◌>>=◌
  bind-Triple m f t u = record { at = λ s h. let (r, s') = m s in resume_rule r s' f (t.at s h) u }
