-- ===== src/Agent/Circuit/Trip.antt =====
-- When a breaker opens, and whom it admits afterwards.
use mtbank_ai_call_analytics.Prelude.{
  ℕ, Result, subst, suc, ◌+◌, ◌<◌, ◌≤◌, ◌≡◌, refl, true, some, List, [], ◌∷◌, map, length, arith,
  ok, raise, All, ◌++◌, append-nil, ap, ◌∙◌,
}
use mtbank_ai_call_analytics.Agent.Contracts.{AgentFailureCode, circuit_open}
use mtbank_ai_call_analytics.Agent.Circuit.Defs.{
  closed, open_, half_open, CircuitBreakerPolicy, CircuitBreaker, before_call, record_failure,
}
use mtbank_ai_call_analytics.Agent.Circuit.Invariant.{fail, run, step, IsConsistent}

module _ (p : CircuitBreakerPolicy) where
  failure_counted :
      (b : CircuitBreaker) (now : ℕ)
      → b.state ≡ closed
      → b.failure_count + 1 < p.failure_threshold
      → ((record_failure p now b).state ≡ closed)
        × ((record_failure p now b).failure_count ≡ b.failure_count + 1)
  unfolding record_failure
  failure_counted b now c h = ground arith

  failure_trips :
      (b : CircuitBreaker) (now : ℕ)
      → b.state ≡ closed
      → p.failure_threshold ≤ b.failure_count + 1
      → ((record_failure p now b).state ≡ open_) × ((record_failure p now b).opened_at ≡ some now)
  unfolding record_failure
  failure_trips b now c h = ground arith

  -- A closed breaker is still closed after failures that leave its count below the threshold, and
  -- the next failure that brings the count to the threshold opens it, stamped with its own time.
  pub failures_trip :
      (times : List ℕ) (b : CircuitBreaker) (last : ℕ)
      → b.state ≡ closed
      → b.failure_count + length times + 1 ≡ p.failure_threshold
      → ((run p b (map fail times)).state ≡ closed)
        × ((record_failure p last (run p b (map fail times))).state ≡ open_)
        × ((record_failure p last (run p b (map fail times))).opened_at ≡ some last)
  unfolding run step
  failures_trip [] b last c h =
      let tripped = failure_trips b last c (omega arith) in (c, tripped.0, tripped.1)
  failures_trip (t ∷ ts) b last c h =
      let (still, count) = failure_counted b t c (omega arith) in
      failures_trip ts (record_failure p t b) last still (omega arith)

  -- Counts an admission, and goes on with the state that it leaves.
  abbrev tally : Result AgentFailureCode (Unit {0}) × CircuitBreaker → (CircuitBreaker → ℕ) → ℕ
  tally (ok _, b) rest = suc (rest b)
  tally (raise _, b) rest = rest b

  -- How many of the callers that arrive at these times are admitted.
  pub admitted : CircuitBreaker → List ℕ → ℕ
  admitted b [] = 0
  admitted b (t ∷ ts) = tally (before_call p t b) (λ b'. admitted b' ts)

  leased_refuses :
      (b : CircuitBreaker) (now : ℕ)
      → b.state ≡ half_open
      → b.half_open_in_flight ≡ true
      → before_call p now b ≡ (raise circuit_open, b)
  unfolding before_call
  leased_refuses b now h l = ground arith

  leased_admits_none :
      (b : CircuitBreaker) (times : List ℕ)
      → b.state ≡ half_open
      → b.half_open_in_flight ≡ true
      → admitted b times ≡ 0
  unfolding admitted
  leased_admits_none b [] h l = refl
  leased_admits_none b (t ∷ ts) h l = rw (leased_refuses b t h l) (leased_admits_none b ts h l)

  early_refused :
      (b : CircuitBreaker) (opened now : ℕ)
      → b.state ≡ open_
      → b.opened_at ≡ some opened
      → now < opened + p.recovery
      → 0 < p.recovery
      → before_call p now b ≡ (raise circuit_open, b)
  unfolding before_call
  early_refused b opened now o s h r = ground arith

  late_admitted :
      (b : CircuitBreaker) (opened now : ℕ)
      → IsConsistent p b
      → b.state ≡ open_
      → b.opened_at ≡ some opened
      → opened + p.recovery ≤ now
      → before_call p now b ≡ (ok tt, record b { state = half_open; half_open_in_flight = true })
  unfolding before_call
  late_admitted b opened now v o s h = ground arith

  early_admits_none :
      (b : CircuitBreaker) (opened : ℕ) (early late : List ℕ)
      → b.state ≡ open_
      → b.opened_at ≡ some opened
      → 0 < p.recovery
      → All (λ t. t < opened + p.recovery) early
      → admitted b (early ++ late) ≡ admitted b late
  unfolding admitted
  early_admits_none b opened [] late o s r h = refl
  early_admits_none b opened (t ∷ ts) late o s r h =
      rw (early_refused b opened t o s h.0 r) (early_admits_none b opened ts late o s r h.1)

  -- An open breaker of a positive recovery time refuses all callers before that time is over, then
  -- admits exactly one, and refuses every other caller while the outcome of that one is not recorded.
  pub one_probe :
      (b : CircuitBreaker) (opened : ℕ) (early : List ℕ) (first : ℕ) (late : List ℕ)
      → IsConsistent p b
      → b.state ≡ open_
      → b.opened_at ≡ some opened
      → 0 < p.recovery
      → All (λ t. t < opened + p.recovery) early
      → opened + p.recovery ≤ first
      → (admitted b early ≡ 0) × (admitted b (early ++ first ∷ late) ≡ 1)
  unfolding admitted
  one_probe b opened early first late v o s r h l = (
    subst (λ l. admitted b l ≡ 0) (append-nil early) (early_admits_none b opened early [] o s r h),
    early_admits_none b opened early (first ∷ late) o s r h
        ∙ rw (late_admitted b opened first v o s l, admitted)
            (ap suc (
              leased_admits_none (record b { state = half_open; half_open_in_flight = true }) late
                refl refl)),
  )
