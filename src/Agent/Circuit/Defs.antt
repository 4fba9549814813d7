-- ===== src/Agent/Circuit/Defs.antt =====
-- The breaker's state and its methods.
use mtbank_ai_call_analytics.Prelude.{
  ℕ, ◌+◌, ◌-◌, Bool, true, false, Option, none, some, ltb, leb, if◌then◌else◌, Result, ok, raise,
}
use mtbank_ai_call_analytics.Agent.Contracts.{AgentFailureCode, circuit_open}

pub data CircuitState : Type 0 where
  closed open_ half_open : CircuitState

pub record CircuitBreakerPolicy : Type 0 where
  pub failure_threshold : ℕ
  pub recovery : ℕ

pub record CircuitBreaker : Type 0 where
  pub state : CircuitState
  pub failure_count : ℕ
  pub opened_at : Option ℕ
  pub half_open_in_flight : Bool

unfoldable pub new : CircuitBreaker
new = record { state = closed; failure_count = 0; opened_at = none; half_open_in_flight = false }

-- The test `now - opened_at < recovery` of an open breaker. The assertion before it fails on `none`,
-- which is read here as a refusal.
unfoldable pub waiting : CircuitBreakerPolicy → ℕ → Option ℕ → Bool
waiting p now none = true
waiting p now (some opened) = ltb (now - opened) p.recovery

-- The last `if` of `before_call`, at a half-open breaker.
unfoldable pub lease : CircuitBreaker → Result AgentFailureCode (Unit {0}) × CircuitBreaker
lease b =
    if b.half_open_in_flight
    then (raise circuit_open, b)
    else (ok tt, record b { half_open_in_flight = true })

unfoldable pub before_call_in :
    CircuitState
    → CircuitBreakerPolicy
    → ℕ
    → CircuitBreaker
    → Result AgentFailureCode (Unit {0}) × CircuitBreaker
unfolding lease waiting
before_call_in closed p now b = (ok tt, b)
before_call_in open_ p now b =
    if waiting p now b.opened_at
    then (raise circuit_open, b)
    else lease (record b { state = half_open })
before_call_in half_open p now b = lease b

-- The state after an error is the one that the method left.
unfoldable pub before_call :
    CircuitBreakerPolicy → ℕ → CircuitBreaker → Result AgentFailureCode (Unit {0}) × CircuitBreaker
unfolding before_call_in
before_call p now b = before_call_in b.state p now b

unfoldable pub record_success : CircuitBreaker → CircuitBreaker
record_success b = record {
  state = closed;
  failure_count = 0;
  opened_at = none;
  half_open_in_flight = false;
}

-- `_open`
unfoldable pub trip : ℕ → CircuitBreaker → CircuitBreaker
trip now b = record b { state = open_; opened_at = some now; failure_count = 0 }

unfoldable pub count_failure : CircuitBreakerPolicy → ℕ → CircuitBreaker → CircuitBreaker
unfolding trip
count_failure p now b =
    let counted = record b { failure_count = b.failure_count + 1 } in
    if leb p.failure_threshold counted.failure_count then trip now counted else counted

unfoldable pub record_failure_in :
    CircuitState → CircuitBreakerPolicy → ℕ → CircuitBreaker → CircuitBreaker
unfolding count_failure
record_failure_in half_open p now b = trip now b
record_failure_in closed p now b = count_failure p now b
record_failure_in open_ p now b = count_failure p now b

unfoldable pub record_failure : CircuitBreakerPolicy → ℕ → CircuitBreaker → CircuitBreaker
unfolding record_failure_in
record_failure p now b = record_failure_in b.state p now (record b { half_open_in_flight = false })

unfoldable pub record_aborted_in : CircuitState → CircuitBreaker → CircuitBreaker
record_aborted_in half_open b = record b { half_open_in_flight = false }
record_aborted_in closed b = b
record_aborted_in open_ b = b

unfoldable pub record_aborted : CircuitBreaker → CircuitBreaker
unfolding record_aborted_in
record_aborted b = record_aborted_in b.state b
