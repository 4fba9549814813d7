-- ===== src/Agent/Retry/Defs.antt =====
-- `complete` of the resilient client. What the world decides is an argument: the clock readings, the
-- provider's answer, the random number, whether a wait is cut off, and the breaker calls that other
-- tasks make while this one waits. Times are counted in one tick; a product with a random factor is
-- rounded down to a tick, where the source rounds to a float.
use mtbank_ai_call_analytics.Prelude.{
  ℕ, zero, suc, ◌+◌, ◌-◌, ◌*◌, ◌/◌, ◌^◌, min, Bool, true, false, not, ◌&&◌, Option, none, some,
  List, [], ◌∷◌, ◌++◌, ltb, leb, if◌then◌else◌, Result, ok, raise,
}
use mtbank_ai_call_analytics.Agent.Contracts.{
  AgentFailureCode, deadline_exceeded, provider_timeout, provider_tool_use_failed,
  provider_rate_limited, provider_transport, provider_server, ModelResponse,
}
use mtbank_ai_call_analytics.Agent.Circuit.{
  CircuitBreakerPolicy, CircuitBreaker, before_call, record_success, record_failure,
}
use mtbank_ai_call_analytics.Agent.Circuit.Invariant.{BreakerCall, run}

pub record RetryPolicy : Type 0 where
  pub max_attempts : ℕ
  pub base_delay : ℕ
  pub max_delay : ℕ
  pub max_retry_after : ℕ

-- The positive fields, and `RetryPolicy.validate_bounds`.
unfoldable pub validate_bounds : RetryPolicy → Bool
validate_bounds p =
    ltb 0 p.max_attempts
    && ltb 0 p.base_delay
    && ltb 0 p.max_delay
    && ltb 0 p.max_retry_after
    && not (ltb 3 p.max_attempts)
    && not (ltb p.max_delay p.base_delay)

-- An `AgentRuntimeError`, with its `retry_after_seconds` where that is a number that is not negative.
pub record ProviderError : Type 0 where
  pub code : AgentFailureCode
  pub retry_after : Option ℕ

-- What leaves `complete` as an exception.
pub data CallError : Type 0 where
  runtime_error : ProviderError → CallError
  task_cancelled assertion_failed : CallError

abbrev pub failure_code : AgentFailureCode → CallError
failure_code c = runtime_error (record { code = c; retry_after = none })

-- How `wait_for(self._client.complete(...))` ends; `cancelled` is `CancelledError`, or any exception
-- that is neither a timeout nor an `AgentRuntimeError`.
pub data Outcome : Type 0 where
  returned : ModelResponse → Outcome
  timed_out : Outcome
  failed : ProviderError → Outcome
  cancelled : Outcome

pub data Sleep : Type 0 where
  slept cut interrupted : Sleep

-- One round of the loop, as the world answers it.
pub record Attempt : Type 0 where
  pub now_before : ℕ
  pub during_call : List BreakerCall
  pub outcome : Outcome
  pub failed_at : ℕ
  pub again_at : ℕ
  pub random : ℕ
  pub now_after : ℕ
  pub now_sleep : ℕ
  pub during_sleep : List BreakerCall
  pub sleep : Sleep

-- The wait for the semaphore, and the clock reading of the first `before_call`. A cancellation of the
-- wait itself, which takes no permit, is left out.
pub record Arrival : Type 0 where
  pub now : ℕ
  pub during_wait : List BreakerCall
  pub acquired : Bool
  pub admitted_at : ℕ

-- `permits` counts the semaphore's permits in use; `calls` counts the calls of the provider and
-- `sleeps` holds each delay with the reading before it.
pub record ClientState : Type 0 where
  pub breaker : CircuitBreaker
  pub permits : ℕ
  pub calls : ℕ
  pub sleeps : List (ℕ × ℕ)

-- `_is_retryable`
unfoldable pub is_retryable : AgentFailureCode → Bool
is_retryable provider_transport = true
is_retryable provider_timeout = true
is_retryable provider_tool_use_failed = true
is_retryable provider_rate_limited = true
is_retryable provider_server = true
is_retryable _ = false

-- `random()` in units of 2^-53; it is at least 0, so that `max(random(), 0.0)` is itself.
abbrev pub random_unit : ℕ
random_unit = 2 ^ 53

unfoldable pub backoff : RetryPolicy → ℕ → ℕ
backoff p attempt = min (p.base_delay * 2 ^ attempt) p.max_delay

unfoldable pub jittered : ℕ → ℕ → ℕ
jittered capped random = capped * (random_unit + min random random_unit) / (2 * random_unit)

-- `_retry_delay`
unfoldable pub retry_delay : Option ℕ → ℕ → RetryPolicy → ℕ → ℕ
unfolding backoff jittered
retry_delay (some retry_after) attempt p random = min retry_after p.max_retry_after
retry_delay none attempt p random = jittered (backoff p attempt) random

-- `_remaining_seconds`: `none` where it raises.
unfoldable pub remaining : ℕ → ℕ → Option ℕ
remaining deadline now = if leb deadline now then none else some (deadline - now)

abbrev pub Called : Type 0
Called = Result CallError ModelResponse × ClientState

module _ (cp : CircuitBreakerPolicy) (p : RetryPolicy) (deadline : ℕ) where
  -- The end of a sleep.
  unfoldable pub after_sleep : Sleep → (ClientState → Called) → ClientState → Called
  after_sleep slept next s = next s
  after_sleep cut next s = (raise (failure_code deadline_exceeded), s)
  after_sleep interrupted next s = (raise task_cancelled, s)

  unfoldable pub back_off : Attempt → ℕ → (ClientState → Called) → ClientState → Called
  unfolding after_sleep remaining
  back_off a delay next s = elim (remaining deadline a.now_after) [
    | none ↦ (raise (failure_code deadline_exceeded), s)
    | some left ↦
        if leb left delay
        then (raise (failure_code deadline_exceeded), s)
        else elim (remaining deadline a.now_sleep) [
          | none ↦ (raise (failure_code deadline_exceeded), s)
          | some _ ↦ after_sleep a.sleep next (record s {
            breaker = run cp s.breaker a.during_sleep;
            sleeps = s.sleeps ++ (delay, a.now_after) ∷ [];
          })
        ]
  ]

  -- The `before_call` that follows a failure that may be retried.
  unfoldable pub readmit :
      Attempt → ℕ → ProviderError → (ClientState → Called) → ClientState → Called
  readmit a attempt e next s =
      let (gate, b) = before_call cp a.again_at s.breaker in
      let s' = record s { breaker = b } in
      elim gate [
        | raise code ↦ (raise (failure_code code), s')
        | ok _ ↦ back_off a (retry_delay e.retry_after attempt p a.random) next s'
      ]

  unfoldable pub handle_error :
      Attempt → ℕ → ProviderError → (ClientState → Called) → ClientState → Called
  handle_error a attempt e next s =
      if not (is_retryable e.code)
      then (raise (runtime_error e), s)
      else let s' = record s { breaker = record_failure cp a.failed_at s.breaker } in
        if leb p.max_attempts (attempt + 1)
        then (raise (runtime_error e), s')
        else readmit a attempt e next s'

  unfoldable pub handle_outcome :
      Outcome → Attempt → ℕ → (ClientState → Called) → ClientState → Called
  handle_outcome (returned r) a attempt next s =
      (ok r, record s { breaker = record_success s.breaker })
  handle_outcome timed_out a attempt next s =
      handle_error a attempt (record { code = provider_timeout; retry_after = none }) next s
  handle_outcome (failed e) a attempt next s = handle_error a attempt e next s
  handle_outcome cancelled a attempt next s = (raise task_cancelled, s)

  -- The body of the `for` loop; `next` is the rest of the loop.
  unfoldable pub attempt_once : Attempt → ℕ → (ClientState → Called) → ClientState → Called
  unfolding remaining
  attempt_once a attempt next s = elim (remaining deadline a.now_before) [
    | none ↦ (raise (failure_code deadline_exceeded), s)
    | some _ ↦
        handle_outcome a.outcome a attempt next
          (record s { breaker = run cp s.breaker a.during_call; calls = s.calls + 1 })
  ]

  -- `for attempt in range(max_attempts)`, with the attempts left and the index of the next.
  unfoldable pub attempts : (ℕ → Attempt) → ℕ → ℕ → ClientState → Called
  attempts world zero attempt s = (raise assertion_failed, s)
  attempts world (suc left) attempt s =
      attempt_once (world attempt) attempt (λ s'. attempts world left (suc attempt) s') s

  -- The inner `try`, with the `before_call` above the loop.
  unfoldable pub guarded : (ℕ → Attempt) → Arrival → ClientState → Called
  guarded world arrival s =
      let (gate, b) = before_call cp arrival.admitted_at s.breaker in
      let s' = record s { breaker = b } in
      elim gate [
        | raise code ↦ (raise (failure_code code), s')
        | ok _ ↦ attempts world p.max_attempts 0 s'
      ]

  -- `finally: self._semaphore.release()`
  unfoldable pub release : Called → Called
  release (r, s) = (r, record s { permits = s.permits - 1 })

  unfoldable pub complete : (ℕ → Attempt) → Arrival → ClientState → Called
  unfolding release remaining
  complete world arrival s = elim (remaining deadline arrival.now) [
    | none ↦ (raise (failure_code deadline_exceeded), s)
    | some _ ↦
        let s' = record s { breaker = run cp s.breaker arrival.during_wait } in
        if arrival.acquired
        then release (guarded world arrival (record s' { permits = s'.permits + 1 }))
        else (raise (failure_code deadline_exceeded), s')
  ]
