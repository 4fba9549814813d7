-- ===== src/Agent/Runtime/Keeps.antt =====
-- Actions that keep a predicate whether they return or raise.
use mtbank_ai_call_analytics.Prelude.{Bool, true, false, Result, ok, raise}
use mtbank_ai_call_analytics.Agent.Runtime.Action.{
  Action, pure, throw, lift, gets, modify, check, ◌>>=◌, Ensures, Triple,
}

pub record Keeps {S E A : Type 0} (P : S → Type 0) (m : Action S E A) : Type 0 where
  pub at : (s : S) → P s → P (m s).1

module _ {S E : Type 0} {P : S → Type 0} where
  pub Keeps-modify : (f : S → S) → ((s : S) → P s → P (f s)) → Keeps P (modify {E = E} f)
  unfolding modify
  Keeps-modify f keeps = record { at = keeps }

  pub Keeps-check : (test : Bool) (e : E) → Keeps P (check test e)
  unfolding check
  Keeps-check false e = record { at = λ s p. p }
  Keeps-check true e = record { at = λ s p. p }

module _ {S E A : Type 0} {P : S → Type 0} where
  pub Keeps-gets : (read : S → A) → Keeps P (gets {E = E} read)
  unfolding gets
  Keeps-gets read = record { at = λ s p. p }

  pub Keeps-throw : (e : E) → Keeps P (throw {A = A} e)
  unfolding throw
  Keeps-throw e = record { at = λ s p. p }

  pub Keeps-pure : (a : A) → Keeps P (pure {E = E} a)
  unfolding pure
  Keeps-pure a = record { at = λ s p. p }

  pub Keeps-lift : (result : Result E A) → Keeps P (lift result)
  unfolding lift
  Keeps-lift result = record { at = λ s p. p }

module _ {S E A B : Type 0} {P : S → Type 0} where
  resume_keeps :
      (r : Result E A) (s : S) (f : A → Action S E B)
      → P s
      → ((a : A) → Keeps P (f a))
      → P ((lift r >>= f) s).1
  unfolding ◌>>=◌
  resume_keeps (ok a) s f h k = (k a).at s h
  resume_keeps (raise e) s f h k = h

  pub Keeps-bind :
      (first : Action S E A) (next : A → Action S E B)
      → Keeps P first
      → ((a : A) → Keeps P (next a))
      → Keeps P (first >>= next)
  unfolding ◌>>=◌
  Keeps-bind first next keeps keeps_next = record {
    at = λ s p. let (result, s') = first s in resume_keeps result s' next (keeps.at s p) keeps_next;
  }

module _ {S E A : Type 0} (P : S → Type 0) where
  Ensures-both : (r : Result E A) (s : S) → P s → Ensures (λ _. P) P (r, s)
  Ensures-both (ok a) s h = h
  Ensures-both (raise e) s h = h

  pub Keeps-Triple : {m : Action S E A} → Keeps P m → Triple P m (λ _. P) P
  Keeps-Triple {m} k = record { at = λ s h. let (r, s') = m s in Ensures-both r s' (k.at s h) }

pub ruleset keeps_rules = (Keeps-bind, Keeps-check, Keeps-gets, Keeps-throw, Keeps-lift, Keeps-pure)
