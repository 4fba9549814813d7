-- ===== src/Agent/Retry/Bounds.antt =====
-- What `complete` of src/mtbank_ai/agent_runtime/retry.py does to the semaphore, to the provider and to
-- the deadline.
use mtbank_ai_call_analytics.Prelude.{
  ℕ, zero, suc, ◌+◌, ◌≤◌, ◌≡◌, refl, arith, max, [], ◌∷◌, ◌++◌, all, all-append, none, ltb, leb,
  ◌&&◌, Bool, true,
}
use mtbank_ai_call_analytics.Agent.Contracts.{provider_timeout}
use mtbank_ai_call_analytics.Agent.Circuit.{CircuitBreakerPolicy, before_call, record_failure}
use mtbank_ai_call_analytics.Agent.Circuit.Invariant.{run}
use mtbank_ai_call_analytics.Agent.Retry.Defs.{
  RetryPolicy, Attempt, Arrival, ClientState, attempt_once, attempts, complete, Called, guarded,
  retry_delay, ProviderError, back_off, readmit, handle_error, handle_outcome, Outcome, returned,
  timed_out, failed, cancelled,
}
use mtbank_ai_call_analytics.Agent.Retry.Delay.{retry_delay-le_cap}

module _ (cp : CircuitBreakerPolicy) (p : RetryPolicy) (deadline : ℕ) where
  permits-attempt_once :
      (a : Attempt) (attempt : ℕ) (next : ClientState → Called) (s : ClientState)
      → ((s' : ClientState) → (next s').1.permits ≡ s'.permits)
      → (attempt_once cp p deadline a attempt next s).1.permits ≡ s.permits
  unfolding attempt_once handle_outcome handle_error readmit back_off
  permits-attempt_once a attempt next s h = grind (arith, h)

  permits-attempts :
      (world : ℕ → Attempt) (left attempt : ℕ) (s : ClientState)
      → (attempts cp p deadline world left attempt s).1.permits ≡ s.permits
  unfolding attempts
  permits-attempts world zero attempt s = refl
  permits-attempts world (suc left) attempt s =
      permits-attempt_once (world attempt) attempt _ s (permits-attempts world left (suc attempt))

  permits-guarded :
      (world : ℕ → Attempt) (arrival : Arrival) (s : ClientState)
      → (guarded cp p deadline world arrival s).1.permits ≡ s.permits
  unfolding guarded
  permits-guarded world arrival s = grind (arith, permits-attempts world p.max_attempts 0)

  -- Whatever happens, success, error, timeout or cancellation, a call of `complete` ends with as many
  -- permits in use as it found.
  pub permits-complete :
      (world : ℕ → Attempt) (arrival : Arrival) (s : ClientState)
      → (complete cp p deadline world arrival s).1.permits ≡ s.permits
  unfolding complete
  permits-complete world arrival s = grind (arith, permits-guarded world arrival)

  calls-attempt_once :
      (a : Attempt) (attempt left : ℕ) (next : ClientState → Called) (s : ClientState)
      → ((s' : ClientState) → (next s').1.calls ≤ s'.calls + left)
      → (attempt_once cp p deadline a attempt next s).1.calls ≤ s.calls + suc left
  unfolding attempt_once handle_outcome handle_error readmit back_off
  calls-attempt_once a attempt left next s h = grind (arith, h)

  calls-attempts :
      (world : ℕ → Attempt) (left attempt : ℕ) (s : ClientState)
      → (attempts cp p deadline world left attempt s).1.calls ≤ s.calls + left
  unfolding attempts
  calls-attempts world zero attempt s = omega arith
  calls-attempts world (suc left) attempt s =
      calls-attempt_once (world attempt) attempt left _ s (calls-attempts world left (suc attempt))

  calls-guarded :
      (world : ℕ → Attempt) (arrival : Arrival) (s : ClientState)
      → (guarded cp p deadline world arrival s).1.calls ≤ s.calls + p.max_attempts
  unfolding guarded
  calls-guarded world arrival s = grind (arith, calls-attempts world p.max_attempts 0)

  -- One call of `complete` calls the provider at most `max_attempts` times.
  pub calls-complete :
      (world : ℕ → Attempt) (arrival : Arrival) (s : ClientState)
      → (complete cp p deadline world arrival s).1.calls ≤ s.calls + p.max_attempts
  unfolding complete
  calls-complete world arrival s = grind (arith, calls-guarded world arrival)

  -- A delay that was slept, with the reading of the clock before it: it ends before the deadline,
  -- and is no longer than the policy allows.
  abbrev pub in_time : ℕ × ℕ → Bool
  in_time (delay, now) = ltb (now + delay) deadline && leb delay (max p.max_delay p.max_retry_after)

  -- The state with which the loop goes on after a failure.
  abbrev pub sleeping : Attempt → ℕ → ClientState → ClientState
  sleeping a delay s = record s {
    breaker = run cp s.breaker a.during_sleep;
    sleeps = s.sleeps ++ (delay, a.now_after) ∷ [];
  }

  sleeps-back_off :
      (a : Attempt) (delay : ℕ) (next : ClientState → Called) (s : ClientState)
      → delay ≤ max p.max_delay p.max_retry_after
      → all in_time s.sleeps ≡ true
      → ((s' : ClientState) → all in_time s'.sleeps ≡ true → all in_time (next s').1.sleeps ≡ true)
      → all in_time (back_off cp p deadline a delay next s).1.sleeps ≡ true
  unfolding back_off
  sleeps-back_off a delay next s small v h =
      ground
        (arith, h (sleeping a delay s), all-append in_time s.sleeps ((delay, a.now_after) ∷ []))

  sleeps-readmit :
      (a : Attempt) (attempt : ℕ) (e : ProviderError) (next : ClientState → Called)
      (s : ClientState)
      → all in_time s.sleeps ≡ true
      → ((s' : ClientState) → all in_time s'.sleeps ≡ true → all in_time (next s').1.sleeps ≡ true)
      → all in_time (readmit cp p deadline a attempt e next s).1.sleeps ≡ true
  unfolding readmit
  sleeps-readmit a attempt e next s v h =
      let b = (before_call cp a.again_at s.breaker).1 in
      let delay = retry_delay e.retry_after attempt p a.random in
      ground (
        arith,
        sleeps-back_off a delay next (record s { breaker = b })
            (retry_delay-le_cap p e.retry_after attempt a.random) v h,
      )

  sleeps-handle_error :
      (a : Attempt) (attempt : ℕ) (e : ProviderError) (next : ClientState → Called)
      (s : ClientState)
      → all in_time s.sleeps ≡ true
      → ((s' : ClientState) → all in_time s'.sleeps ≡ true → all in_time (next s').1.sleeps ≡ true)
      → all in_time (handle_error cp p deadline a attempt e next s).1.sleeps ≡ true
  unfolding handle_error
  sleeps-handle_error a attempt e next s v h = ground (
    arith,
    sleeps-readmit a attempt e next (record s { breaker = record_failure cp a.failed_at s.breaker })
        v h,
  )

  sleeps-handle_outcome :
      (o : Outcome) (a : Attempt) (attempt : ℕ) (next : ClientState → Called) (s : ClientState)
      → all in_time s.sleeps ≡ true
      → ((s' : ClientState) → all in_time s'.sleeps ≡ true → all in_time (next s').1.sleeps ≡ true)
      → all in_time (handle_outcome cp p deadline o a attempt next s).1.sleeps ≡ true
  unfolding handle_outcome
  sleeps-handle_outcome (returned r) a attempt next s v h = v
  sleeps-handle_outcome timed_out a attempt next s v h =
      sleeps-handle_error a attempt (record { code = provider_timeout; retry_after = none }) next s
        v h
  sleeps-handle_outcome (failed e) a attempt next s v h = sleeps-handle_error a attempt e next s v h
  sleeps-handle_outcome cancelled a attempt next s v h = v

  sleeps-attempt_once :
      (a : Attempt) (attempt : ℕ) (next : ClientState → Called) (s : ClientState)
      → all in_time s.sleeps ≡ true
      → ((s' : ClientState) → all in_time s'.sleeps ≡ true → all in_time (next s').1.sleeps ≡ true)
      → all in_time (attempt_once cp p deadline a attempt next s).1.sleeps ≡ true
  unfolding attempt_once
  sleeps-attempt_once a attempt next s v h = ground (
    arith,
    sleeps-handle_outcome a.outcome a attempt next
        (record s { breaker = run cp s.breaker a.during_call; calls = s.calls + 1 }) v h,
  )

  sleeps-attempts :
      (world : ℕ → Attempt) (left attempt : ℕ) (s : ClientState)
      → all in_time s.sleeps ≡ true
      → all in_time (attempts cp p deadline world left attempt s).1.sleeps ≡ true
  unfolding attempts
  sleeps-attempts world zero attempt s v = v
  sleeps-attempts world (suc left) attempt s v =
      sleeps-attempt_once (world attempt) attempt _ s v (sleeps-attempts world left (suc attempt))

  -- If the delays recorded before are in time, so are those of one call of `complete`: each delay that
  -- it sleeps ends before the deadline, counted from the reading of the clock that it was compared
  -- with, and is at most the larger of the two bounds of the policy.
  pub sleeps-complete :
      (world : ℕ → Attempt) (arrival : Arrival) (s : ClientState)
      → all in_time s.sleeps ≡ true
      → all in_time (complete cp p deadline world arrival s).1.sleeps ≡ true
  unfolding complete guarded
  sleeps-complete world arrival s v =
      let admitted = run cp s.breaker arrival.during_wait in
      let s' : ClientState = record s {
        breaker = (before_call cp arrival.admitted_at admitted).1;
        permits = s.permits + 1;
      } in
      ground (arith, sleeps-attempts world p.max_attempts 0 s' v)
