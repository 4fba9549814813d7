-- ===== src/Agent/Retry/Probe.antt =====
-- The lease of the half-open probe in `complete` of src/mtbank_ai/agent_runtime/retry.py.
use mtbank_ai_call_analytics.Prelude.{
  ℕ, suc, ◌+◌, ◌-◌, ◌≤◌, ◌<◌, ◌≡◌, refl, arith, List, [], ◌∷◌, map, Bool, true, false, not, ok,
  raise, some, All,
}
use mtbank_ai_call_analytics.Agent.Contracts.{circuit_open}
use mtbank_ai_call_analytics.Agent.Circuit.{
  CircuitBreakerPolicy, CircuitBreaker, open_, half_open, before_call,
}
use mtbank_ai_call_analytics.Agent.Circuit.Invariant.{IsConsistent, admit, run, step}
use mtbank_ai_call_analytics.Agent.Retry.Defs.{
  RetryPolicy, Attempt, Arrival, Outcome, returned, timed_out, failed, cancelled, ClientState,
  attempt_once, attempts, complete, guarded, handle_error, handle_outcome, is_retryable,
}

-- A half-open breaker whose probe is said to be under way.
abbrev pub IsLeased : CircuitBreaker → Type 0
IsLeased b = (b.state ≡ half_open) × (b.half_open_in_flight ≡ true)

-- The ends of an attempt after which `complete` leaves the breaker alone.
abbrev pub leaks : Outcome → Bool
leaks (returned r) = false
leaks timed_out = false
leaks (failed e) = not (is_retryable e.code)
leaks cancelled = true

module _ (cp : CircuitBreakerPolicy) (p : RetryPolicy) (deadline : ℕ) where
  leased-step :
      (b : CircuitBreaker) (now : ℕ) → IsLeased b → before_call cp now b ≡ (raise circuit_open, b)
  unfolding before_call
  leased-step b now h = ground arith

  leased-run : (b : CircuitBreaker) (times : List ℕ) → IsLeased b → run cp b (map admit times) ≡ b
  unfolding run step
  leased-run b [] h = refl
  leased-run b (t ∷ ts) h = rw (leased-step b t h, run, step) (leased-run b ts h)

  -- While the lease is held and nobody records an outcome, a call of `complete` does not reach the
  -- provider and leaves the client as it is.
  leased-complete :
      (world : ℕ → Attempt) (arrival : Arrival) (s : ClientState) (others : List ℕ)
      → arrival.during_wait ≡ map admit others
      → IsLeased s.breaker
      → (complete cp p deadline world arrival s).1 ≡ s
  unfolding complete guarded
  leased-complete world arrival s others w h =
      ground (arith, leased-run s.breaker others h, leased-step s.breaker arrival.admitted_at h)

  -- Calls of `complete`, one after the other.
  unfoldable pub serve : List ((ℕ → Attempt) × Arrival) → ClientState → ClientState
  serve [] s = s
  serve ((world, arrival) ∷ rest) s = serve rest (complete cp p deadline world arrival s).1

  leased-serve :
      (requests : List ((ℕ → Attempt) × Arrival)) (s : ClientState)
      → All (λ q. (others : List ℕ) × (q.1.during_wait ≡ map admit others)) requests
      → IsLeased s.breaker
      → serve requests s ≡ s
  unfolding serve
  leased-serve [] s w h = refl
  leased-serve ((world, arrival) ∷ rest) s w h =
      let (now, later) = w in
      rw (leased-complete world arrival s now.0 now.1 h) (leased-serve rest s later h)

  admitted_probe :
      (b : CircuitBreaker) (opened now : ℕ)
      → IsConsistent cp b
      → b.state ≡ open_
      → b.opened_at ≡ some opened
      → opened + cp.recovery ≤ now
      → ((before_call cp now b).0 ≡ ok tt) × IsLeased (before_call cp now b).1
  unfolding before_call
  admitted_probe b opened now v o at late = ground arith

  leaked-attempts :
      (world : ℕ → Attempt) (left : ℕ) (s : ClientState) (others : List ℕ)
      → IsLeased s.breaker
      → (world 0).now_before < deadline
      → (world 0).during_call ≡ map admit others
      → leaks (world 0).outcome ≡ true
      → (attempts cp p deadline world (suc left) 0 s).1 ≡ record s { calls = s.calls + 1 }
  unfolding attempts attempt_once handle_outcome handle_error
  leaked-attempts world left s others h early w lost = ground (arith, leased-run s.breaker others h)

  leaked-complete :
      (world : ℕ → Attempt) (arrival : Arrival) (s : ClientState) (opened left : ℕ)
      (others : List ℕ)
      → p.max_attempts ≡ suc left
      → IsConsistent cp s.breaker
      → s.breaker.state ≡ open_
      → s.breaker.opened_at ≡ some opened
      → opened + cp.recovery ≤ arrival.admitted_at
      → arrival.now < deadline
      → arrival.acquired ≡ true
      → arrival.during_wait ≡ []
      → (world 0).now_before < deadline
      → (world 0).during_call ≡ map admit others
      → leaks (world 0).outcome ≡ true
      → ((complete cp p deadline world arrival s).1.calls ≡ s.calls + 1)
        × IsLeased (complete cp p deadline world arrival s).1.breaker
  unfolding complete guarded run
  leaked-complete world arrival s opened left others m v o at late n acq w early d lost =
      let b = (before_call cp arrival.admitted_at s.breaker).1 in
      let (gate, lease) = admitted_probe s.breaker opened arrival.admitted_at v o at late in
      ground (
        arith,
        gate,
        lease,
        leaked-attempts world left (record s { breaker = b; permits = s.permits + 1 }) others lease
            early d lost,
      )

  -- The probe of an open breaker whose recovery time is over reaches the provider. If its answer is an
  -- error that may not be retried, or the task is cancelled, and the other tasks only ask for admission
  -- meanwhile, then the lease is never given back: no later call of `complete`, however late, reaches
  -- the provider or changes the client, as long as nobody else records an outcome.
  pub probe_leaks :
      (world : ℕ → Attempt) (arrival : Arrival) (s : ClientState) (opened : ℕ) (others : List ℕ)
      (requests : List ((ℕ → Attempt) × Arrival))
      → 0 < p.max_attempts
      → IsConsistent cp s.breaker
      → s.breaker.state ≡ open_
      → s.breaker.opened_at ≡ some opened
      → opened + cp.recovery ≤ arrival.admitted_at
      → arrival.now < deadline
      → arrival.acquired ≡ true
      → arrival.during_wait ≡ []
      → (world 0).now_before < deadline
      → (world 0).during_call ≡ map admit others
      → leaks (world 0).outcome ≡ true
      → All (λ q. (others : List ℕ) × (q.1.during_wait ≡ map admit others)) requests
      → let t = (complete cp p deadline world arrival s).1 in
        (t.calls ≡ s.calls + 1) × (serve requests t ≡ t)
  probe_leaks world arrival s opened others requests positive v o at late n acq w early d lost
        later =
      let (called, lease) =
        leaked-complete world arrival s opened (p.max_attempts - 1) others (omega arith) v o at late
          n acq w early d lost in
      (called, leased-serve requests (complete cp p deadline world arrival s).1 later lease)
