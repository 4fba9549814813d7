-- ===== src/Agent/Retry/Recovery.antt =====
-- Failures and retries of `complete` of src/mtbank_ai/agent_runtime/retry.py.
use mtbank_ai_call_analytics.Prelude.{ℕ, zero, suc, ◌+◌, ◌<◌, ◌≡◌, arith, true, ok, ◌∙◌, ap}
use mtbank_ai_call_analytics.Agent.Contracts.{ModelResponse}
use mtbank_ai_call_analytics.Agent.Circuit.{CircuitBreakerPolicy, before_call, record_failure}
use mtbank_ai_call_analytics.Agent.Circuit.Invariant.{run}
use mtbank_ai_call_analytics.Agent.Retry.Defs.{
  RetryPolicy, Attempt, Arrival, returned, slept, ClientState, Called, attempt_once, attempts,
  complete, guarded, retry_delay, back_off, readmit, handle_error, handle_outcome, is_retryable,
}
use mtbank_ai_call_analytics.Agent.Retry.Success.{may_retry, hint, resumed, entered}

module _ (cp : CircuitBreakerPolicy) (p : RetryPolicy) (deadline : ℕ) where
  -- An attempt that fails in time, in a way that may be retried, after which the breaker still admits
  -- the caller and the delay ends before the deadline.
  pub record IsRetried (a : Attempt) (attempt : ℕ) (s : ClientState) : Type 0 where
    pub in_time : a.now_before < deadline
    pub may_retry : may_retry a.outcome ≡ true
    pub admitted :
        (before_call cp a.again_at
          (record_failure cp a.failed_at (run cp s.breaker a.during_call))).0
        ≡ ok tt
    pub delayed : a.now_after + retry_delay (hint a.outcome) attempt p a.random < deadline
    pub waited : a.now_sleep < deadline
    pub slept : a.sleep ≡ slept

  -- So many attempts that are retried, and then an answer.
  abbrev pub Recovers : (ℕ → Attempt) → ModelResponse → ℕ → ℕ → ClientState → Type 0
  Recovers world r zero attempt s =
      ((world attempt).now_before < deadline) × ((world attempt).outcome ≡ returned r)
  Recovers world r (suc failures) attempt s =
      IsRetried (world attempt) attempt s
      × Recovers world r failures (suc attempt) (resumed cp p deadline (world attempt) attempt s)

  retried-attempt_once :
      (a : Attempt) (attempt : ℕ) (next : ClientState → Called) (s : ClientState)
      → attempt + 1 < p.max_attempts
      → IsRetried a attempt s
      → attempt_once cp p deadline a attempt next s ≡ next (resumed cp p deadline a attempt s)
  unfolding attempt_once handle_outcome handle_error readmit back_off is_retryable
  retried-attempt_once a attempt next s m v = ground arith

  answered-attempt_once :
      (a : Attempt) (attempt : ℕ) (next : ClientState → Called) (s : ClientState)
      (r : ModelResponse)
      → a.now_before < deadline
      → a.outcome ≡ returned r
      → (attempt_once cp p deadline a attempt next s).0 ≡ ok r
  unfolding attempt_once handle_outcome
  answered-attempt_once a attempt next s r t e = ground arith

  recovered-attempts :
      (world : ℕ → Attempt) (r : ModelResponse) (failures left attempt : ℕ) (s : ClientState)
      → failures < left
      → attempt + left ≡ p.max_attempts
      → Recovers world r failures attempt s
      → (attempts cp p deadline world left attempt s).0 ≡ ok r
  unfolding attempts
  recovered-attempts world r failures zero attempt s f m v = absurd (omega (arith, f))
  recovered-attempts world r zero (suc left) attempt s f m v =
      answered-attempt_once (world attempt) attempt _ s r v.0 v.1
  recovered-attempts world r (suc failures) (suc left) attempt s f m v =
      ap (λ (c : Called). c.0)
        (retried-attempt_once (world attempt) attempt _ s (omega (arith, f, m)) v.0)
      ∙ recovered-attempts world r failures left (suc attempt)
          (resumed cp p deadline (world attempt) attempt s) (omega (arith, f)) (omega (arith, m))
          v.1

  -- A call that arrives in time and is admitted, and whose attempts fail fewer than `max_attempts` times,
  -- each in a way that may be retried and with a delay that ends in time, and are then answered,
  -- returns that answer.
  pub complete-returned :
      (world : ℕ → Attempt) (arrival : Arrival) (s : ClientState) (r : ModelResponse) (failures : ℕ)
      → arrival.now < deadline
      → arrival.acquired ≡ true
      → (before_call cp arrival.admitted_at (run cp s.breaker arrival.during_wait)).0 ≡ ok tt
      → failures < p.max_attempts
      → Recovers world r failures 0 (entered cp p deadline arrival s)
      → (complete cp p deadline world arrival s).0 ≡ ok r
  unfolding complete guarded
  complete-returned world arrival s r failures n a g f v =
      let served =
        recovered-attempts world r failures p.max_attempts 0 (entered cp p deadline arrival s) f
          (omega arith) v in
      ground (arith, served)
