-- ===== src/Agent/Stream/Defs.antt =====
-- `_stream` of the resilient client, over the same clocks, delays and breaker as `complete`. What a
-- consumer does between two events is part of the world: it may close the generator or be cancelled
-- after any event, and other tasks may call the breaker.
use mtbank_ai_call_analytics.Prelude.{
  ℕ, zero, suc, ◌+◌, ◌-◌, Bool, true, false, not, ◌&&◌, ◌||◌, Option, none, some, List, [], ◌∷◌,
  ◌++◌, leb, if◌then◌else◌, Result, ok, raise,
}
use mtbank_ai_call_analytics.Agent.Contracts.{
  AgentFailureCode, deadline_exceeded, malformed_provider_response, circuit_open, ModelStreamEvent,
  ModelStreamEventType, text_delta, completed,
}
use mtbank_ai_call_analytics.Agent.Circuit.{
  CircuitBreakerPolicy, CircuitBreaker, before_call, record_success, record_failure, record_aborted,
}
use mtbank_ai_call_analytics.Agent.Circuit.Invariant.{BreakerCall, run}
use mtbank_ai_call_analytics.Agent.Retry.{
  RetryPolicy, ProviderError, Sleep, slept, cut, interrupted, Arrival, CallError, runtime_error,
  task_cancelled, assertion_failed, failure_code, is_retryable, retry_delay, remaining,
}

-- An event of the provider's stream, and the breaker calls of other tasks before it arrives.
pub record Item : Type 0 where
  pub during : List BreakerCall
  pub event : ModelStreamEvent

-- How the provider's stream ends; `stopped` is `CancelledError` or `GeneratorExit`, and `crashed` any
-- other exception that is not an `AgentRuntimeError`.
pub data StreamEnd : Type 0 where
  exhausted stopped crashed : StreamEnd
  broken : ProviderError → StreamEnd

-- One round of the loop, as the world answers it.
pub record StreamAttempt : Type 0 where
  pub admitted_at : ℕ
  pub items : List Item
  pub during_end : List BreakerCall
  pub ended : StreamEnd
  pub failed_at : ℕ
  pub again_at : ℕ
  pub random : ℕ
  pub now_after : ℕ
  pub now_sleep : ℕ
  pub during_sleep : List BreakerCall
  pub sleep : Sleep

-- `opened` counts the streams of the provider that were opened, and `yielded` holds what the consumer
-- received.
pub record StreamState : Type 0 where
  pub breaker : CircuitBreaker
  pub permits : ℕ
  pub opened : ℕ
  pub yielded : List ModelStreamEvent

-- The loop leaves with the completed event, or raises.
abbrev pub Streamed : Type 0
Streamed = Result CallError ModelStreamEvent × StreamState

-- `emitted`
unfoldable pub is_emitted : List Item → Bool
is_emitted [] = false
is_emitted (i ∷ is) = true

unfoldable pub is_circuit_open : AgentFailureCode → Bool
is_circuit_open circuit_open = true
is_circuit_open _ = false

module _ (cp : CircuitBreakerPolicy) where
  unfoldable pub on_event :
      ModelStreamEventType
      → ModelStreamEvent
      → Option ModelStreamEvent × StreamState
      → Option ModelStreamEvent × StreamState
  on_event completed e (c, s) = (some e, s)
  on_event text_delta e (c, s) = (c, record s { yielded = s.yielded ++ e ∷ [] })

  -- `async for event in stream(...)`, with `completed_event` and the state.
  unfoldable pub consume :
      List Item → Option ModelStreamEvent × StreamState → Option ModelStreamEvent × StreamState
  consume [] (c, s) = (c, s)
  consume (i ∷ is) (c, s) =
      consume is
        (on_event i.event.type i.event (c, record s { breaker = run cp s.breaker i.during }))

module _ (cp : CircuitBreakerPolicy) (p : RetryPolicy) (deadline : ℕ) where
  unfoldable pub resume : Sleep → (StreamState → Streamed) → StreamState → Streamed
  resume slept next s = next s
  resume cut next s = (raise (failure_code deadline_exceeded), s)
  resume interrupted next s = (raise task_cancelled, s)

  unfoldable pub pause : StreamAttempt → ℕ → (StreamState → Streamed) → StreamState → Streamed
  unfolding resume remaining
  pause a delay next s = elim (remaining deadline a.now_after) [
    | none ↦ (raise (failure_code deadline_exceeded), s)
    | some left ↦
        if leb left delay
        then (raise (failure_code deadline_exceeded), s)
        else elim (remaining deadline a.now_sleep) [
          | none ↦ (raise (failure_code deadline_exceeded), s)
          | some _ ↦ resume a.sleep next (record s { breaker = run cp s.breaker a.during_sleep })
        ]
  ]

  -- `before_call` and `record_aborted` after a failure that may be retried.
  unfoldable pub probe_again :
      StreamAttempt → ℕ → ProviderError → (StreamState → Streamed) → StreamState → Streamed
  probe_again a attempt e next s =
      let (gate, b) = before_call cp a.again_at s.breaker in
      elim gate [
        | raise code ↦ (raise (failure_code code), record s { breaker = b })
        | ok _ ↦
            pause a (retry_delay e.retry_after attempt p a.random) next
              (record s { breaker = record_aborted b })
      ]

  -- `except AgentRuntimeError`
  unfoldable pub on_error :
      Bool
      → Bool
      → ProviderError
      → StreamAttempt
      → ℕ
      → (StreamState → Streamed)
      → StreamState
      → Streamed
  unfolding is_circuit_open
  on_error admitted emitted e a attempt next s =
      let s' =
        if admitted && not (is_circuit_open e.code)
        then record s { breaker = record_failure cp a.failed_at s.breaker }
        else s in
      if emitted || not (is_retryable e.code) || leb p.max_attempts (attempt + 1)
      then (raise (runtime_error e), s')
      else probe_again a attempt e next s'

  -- What follows the `async for`, and the handlers, after an admission.
  unfoldable pub on_end :
      StreamEnd
      → Option ModelStreamEvent
      → StreamAttempt
      → ℕ
      → (StreamState → Streamed)
      → StreamState
      → Streamed
  on_end exhausted (some e) a attempt next s =
      (ok e, record s { breaker = record_success s.breaker })
  on_end exhausted none a attempt next s =
      on_error true (is_emitted a.items)
        (record { code = malformed_provider_response; retry_after = none }) a attempt next s
  on_end stopped c a attempt next s =
      (raise task_cancelled, record s { breaker = record_aborted s.breaker })
  on_end crashed c a attempt next s = (
    raise (failure_code malformed_provider_response),
    record s { breaker = record_failure cp a.failed_at s.breaker },
  )
  on_end (broken e) c a attempt next s = on_error true (is_emitted a.items) e a attempt next s

  -- An opened stream, from its first event to its end.
  unfoldable pub read_stream : StreamAttempt → ℕ → (StreamState → Streamed) → StreamState → Streamed
  read_stream a attempt next s =
      let (c, t) = consume cp a.items (none, record s { opened = s.opened + 1 }) in
      on_end a.ended c a attempt next (record t { breaker = run cp t.breaker a.during_end })

  -- The body of the `for` loop; `next` is the rest of the loop.
  unfoldable pub stream_once : StreamAttempt → ℕ → (StreamState → Streamed) → StreamState → Streamed
  stream_once a attempt next s =
      let (gate, b) = before_call cp a.admitted_at s.breaker in
      let s' = record s { breaker = b } in
      elim gate [
        | raise code ↦
            on_error false false (record { code = code; retry_after = none }) a attempt next s'
        | ok _ ↦ read_stream a attempt next s'
      ]

  -- `for attempt in range(max_attempts)`; a loop that ends without `break` has no completed event.
  unfoldable pub stream_attempts : (ℕ → StreamAttempt) → ℕ → ℕ → StreamState → Streamed
  stream_attempts world zero attempt s = (raise assertion_failed, s)
  stream_attempts world (suc left) attempt s =
      stream_once (world attempt) attempt (λ s'. stream_attempts world left (suc attempt) s') s

  -- The `finally` block and the last `yield`.
  unfoldable pub deliver : Streamed → Result CallError (Unit {0}) × StreamState
  deliver (ok e, s) = (ok tt, record s { permits = s.permits - 1; yielded = s.yielded ++ e ∷ [] })
  deliver (raise e, s) = (raise e, record s { permits = s.permits - 1 })

  -- `callable` tells whether the client has a method `stream`.
  unfoldable pub stream :
      Bool → (ℕ → StreamAttempt) → Arrival → StreamState → Result CallError (Unit {0}) × StreamState
  unfolding deliver remaining
  stream callable world arrival s =
      if not callable
      then (raise (failure_code malformed_provider_response), s)
      else elim (remaining deadline arrival.now) [
        | none ↦ (raise (failure_code deadline_exceeded), s)
        | some _ ↦
            let s' = record s { breaker = run cp s.breaker arrival.during_wait } in
            if arrival.acquired
            then deliver
                (stream_attempts world p.max_attempts 0 (record s' { permits = s'.permits + 1 }))
            else (raise (failure_code deadline_exceeded), s')
      ]
