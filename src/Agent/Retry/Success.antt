-- ===== src/Agent/Retry/Success.antt =====
-- The responses of `complete` of src/mtbank_ai/agent_runtime/retry.py.
use mtbank_ai_call_analytics.Prelude.{
  ℕ, zero, suc, ◌+◌, ◌≤◌, ◌<◌, ◌≡◌, ◌≢◌, ◌⊎◌, inl, inr, arith, [], ◌∷◌, ◌++◌, Bool, true, false, ok,
  raise, none, Option, Bool-cases, eqb, eqb_iff, subst, ◌∙◌,
}
use mtbank_ai_call_analytics.Agent.Contracts.{ModelResponse}
use mtbank_ai_call_analytics.Agent.Circuit.{
  CircuitBreakerPolicy, new, before_call, record_failure, record_success,
}
use mtbank_ai_call_analytics.Agent.Circuit.Invariant.{run}
use mtbank_ai_call_analytics.Agent.Retry.Defs.{
  RetryPolicy, Attempt, Arrival, Outcome, returned, timed_out, failed, cancelled, ClientState,
  attempt_once, attempts, complete, Called, guarded, retry_delay, back_off, readmit, handle_error,
  handle_outcome, is_retryable, assertion_failed,
}

-- The outcomes after which the loop may go on.
abbrev pub may_retry : Outcome → Bool
may_retry (returned r) = false
may_retry timed_out = true
may_retry (failed e) = is_retryable e.code
may_retry cancelled = false

abbrev pub hint : Outcome → Option ℕ
hint (failed e) = e.retry_after
hint _ = none

module _ (cp : CircuitBreakerPolicy) (p : RetryPolicy) (deadline : ℕ) where
  -- The state in which the next round begins.
  abbrev pub resumed : Attempt → ℕ → ClientState → ClientState
  resumed a attempt s =
      let failed_state = record_failure cp a.failed_at (run cp s.breaker a.during_call) in
      record s {
        breaker = run cp (before_call cp a.again_at failed_state).1 a.during_sleep;
        calls = s.calls + 1;
        sleeps = s.sleeps ++ (retry_delay (hint a.outcome) attempt p a.random, a.now_after) ∷ [];
      }

  ok-attempt_once :
      (a : Attempt) (attempt : ℕ) (next : ClientState → Called) (s : ClientState)
      (r : ModelResponse) (t : ClientState)
      → attempt_once cp p deadline a attempt next s ≡ (ok r, t)
      → ((a.outcome ≡ returned r) × (t.breaker ≡ new) × (t.calls ≡ s.calls + 1))
        ⊎ ((may_retry a.outcome ≡ true)
            × (attempt + 1 < p.max_attempts)
            × (next (resumed a attempt s) ≡ (ok r, t)))
  unfolding attempt_once handle_outcome handle_error readmit back_off is_retryable record_success
      new
  ok-attempt_once a attempt next s r t h = ground arith

  -- The answer of the provider that `complete` returned, from the attempt `first` on: an earlier attempt
  -- ended in a failure that may be retried.
  pub record IsServed (world : ℕ → Attempt) (first : ℕ) (s : ClientState) (r : ModelResponse)
      (t : ClientState) : Type 0 where
    pub index : ℕ
    pub not_before : first ≤ index
    pub allowed : index < p.max_attempts
    pub answered : (world index).outcome ≡ returned r
    pub retried : (j : ℕ) → first ≤ j → j < index → may_retry (world j).outcome ≡ true
    pub healed : t.breaker ≡ new
    pub called : t.calls + first ≡ s.calls + index + 1

  retried_cons :
      (world : ℕ → Attempt) (first index : ℕ)
      → may_retry (world first).outcome ≡ true
      → ((j : ℕ) → suc first ≤ j → j < index → may_retry (world j).outcome ≡ true)
      → (j : ℕ) → first ≤ j
      → j < index
      → may_retry (world j).outcome ≡ true
  retried_cons world first index now later j lo hi = elim (Bool-cases (eqb first j)) [
    | inl same ↦ subst (λ k. may_retry (world k).outcome ≡ true) ((eqb_iff first j).0 same) now
    | inr other ↦ later j (ground arith) hi
  ]

  ok-attempts :
      (world : ℕ → Attempt) (left attempt : ℕ) (s : ClientState) (r : ModelResponse)
      (t : ClientState)
      → attempt < p.max_attempts ⊎ (left ≡ 0)
      → attempts cp p deadline world left attempt s ≡ (ok r, t)
      → IsServed world attempt s r t
  unfolding attempts
  ok-attempts world zero attempt s r t bound h = absurd (ground arith)
  ok-attempts world (suc left) attempt s r t bound h =
      elim (ok-attempt_once (world attempt) attempt _ s r t h) [
        | inl (answered, healed, called) ↦ record {
          index = attempt;
          not_before = omega arith;
          allowed = ground arith;
          answered = answered;
          retried = λ j lo hi. absurd (omega arith);
          healed = healed;
          called = omega arith;
        }
        | inr (retry, more, rest) ↦
            let later =
              ok-attempts world left (suc attempt) (resumed (world attempt) attempt s) r t
                (inl (omega arith)) rest in
            record {
              index = later.index;
              not_before = omega (arith, later.not_before);
              allowed = later.allowed;
              answered = later.answered;
              retried = retried_cons world attempt later.index retry later.retried;
              healed = later.healed;
              called = omega (arith, later.called);
            }
      ]

  -- The state in which the loop begins: other tasks may have called the breaker during the wait.
  abbrev pub entered : Arrival → ClientState → ClientState
  entered arrival s = record s {
    breaker = (before_call cp arrival.admitted_at (run cp s.breaker arrival.during_wait)).1;
    permits = s.permits + 1;
  }

  ok-complete-attempts :
      (world : ℕ → Attempt) (arrival : Arrival) (s : ClientState) (r : ModelResponse)
      (t : ClientState)
      → complete cp p deadline world arrival s ≡ (ok r, t)
      → (t' : ClientState) × (attempts cp p deadline world p.max_attempts 0 (entered arrival s)
          ≡ (ok r, t'))
        × (t.breaker ≡ t'.breaker)
        × (t.calls ≡ t'.calls)
  unfolding complete guarded
  ok-complete-attempts world arrival s r t h = (
    (attempts cp p deadline world p.max_attempts 0 (entered arrival s)).1,
    ground arith,
    ground arith,
    ground arith,
  )

  -- With at least one attempt allowed, a response that `complete` returns is the provider's answer to
  -- some attempt below `max_attempts`, all attempts before it ended in a timeout or in a failure that may
  -- be retried, the provider was called once for each, and the breaker is left as a new one.
  pub complete-IsServed :
      (world : ℕ → Attempt) (arrival : Arrival) (s : ClientState) (r : ModelResponse)
      (t : ClientState)
      → 0 < p.max_attempts
      → complete cp p deadline world arrival s ≡ (ok r, t)
      → IsServed world 0 s r t
  complete-IsServed world arrival s r t positive h =
      let (t', inner, breaker, calls) = ok-complete-attempts world arrival s r t h in
      let served =
        ok-attempts world p.max_attempts 0 (entered arrival s) r t' (inl positive) inner in
      record {
        index = served.index;
        not_before = served.not_before;
        allowed = served.allowed;
        answered = served.answered;
        retried = served.retried;
        healed = breaker ∙ served.healed;
        called = omega (arith, served.called);
      }

  asserted-attempt_once :
      (a : Attempt) (attempt : ℕ) (next : ClientState → Called) (s : ClientState)
      → (attempt_once cp p deadline a attempt next s).0 ≡ raise assertion_failed
      → (attempt + 1 < p.max_attempts) × ((next (resumed a attempt s)).0 ≡ raise assertion_failed)
  unfolding attempt_once handle_outcome handle_error readmit back_off
  asserted-attempt_once a attempt next s h = ground arith

  asserted-attempts :
      (world : ℕ → Attempt) (left attempt : ℕ) (s : ClientState)
      → attempt < p.max_attempts
      → attempt + left ≡ p.max_attempts
      → (attempts cp p deadline world left attempt s).0 ≢ raise assertion_failed
  unfolding attempts
  asserted-attempts world zero attempt s below bound h = omega arith
  asserted-attempts world (suc left) attempt s below bound h =
      let (more, rest) = asserted-attempt_once (world attempt) attempt _ s h in
      asserted-attempts world left (suc attempt) (resumed (world attempt) attempt s) (omega arith)
        (omega arith) rest

  -- With at least one attempt allowed, the loop never falls through to the assertion below it: every
  -- call of `complete` ends in a response, in an agent error, or in the cancellation of its task or
  -- another exception of the provider's client.
  pub complete-ne-assertion_failed :
      (world : ℕ → Attempt) (arrival : Arrival) (s : ClientState)
      → 0 < p.max_attempts
      → (complete cp p deadline world arrival s).0 ≢ raise assertion_failed
  unfolding complete guarded
  complete-ne-assertion_failed world arrival s positive h =
      asserted-attempts world p.max_attempts 0 (entered arrival s) positive (omega arith)
        (ground arith)
