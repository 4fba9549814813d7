-- ===== src/Agent/Circuit/Invariant.antt =====
-- What holds of a breaker between two calls of its methods.
use mtbank_ai_call_analytics.Prelude.{ℕ, ◌<◌, ◌≡◌, true, none, List, [], ◌∷◌, is_some, arith}
use mtbank_ai_call_analytics.Agent.Circuit.Defs.{
  closed, open_, half_open, CircuitBreakerPolicy, CircuitBreaker, new, before_call, record_success,
  record_failure, record_aborted,
}

-- One call of a method, with the clock reading that it takes.
pub data BreakerCall : Type 0 where
  admit fail : ℕ → BreakerCall
  succeed abort : BreakerCall

unfoldable pub step : CircuitBreakerPolicy → CircuitBreaker → BreakerCall → CircuitBreaker
step p b (admit now) = (before_call p now b).1
step p b (fail now) = record_failure p now b
step p b succeed = record_success b
step p b abort = record_aborted b

-- Any calls, of any tasks, in the order in which the event loop runs them.
unfoldable pub run : CircuitBreakerPolicy → CircuitBreaker → List BreakerCall → CircuitBreaker
run p b [] = b
run p b (c ∷ cs) = run p (step p b c) cs

-- The assertion of `before_call` holds, a lease is held by a half-open breaker only, and the
-- failures that are counted stay below the threshold.
pub record IsConsistent (p : CircuitBreakerPolicy) (b : CircuitBreaker) : Type 0 where
  pub counted : b.failure_count < p.failure_threshold
  pub stamped_open : b.state ≡ open_ → is_some b.opened_at ≡ true
  pub stamped_half_open : b.state ≡ half_open → is_some b.opened_at ≡ true
  pub unstamped : b.state ≡ closed → b.opened_at ≡ none
  pub leased : b.half_open_in_flight ≡ true → b.state ≡ half_open

pub new-IsConsistent : (p : CircuitBreakerPolicy) → 0 < p.failure_threshold → IsConsistent p new
unfolding new
new-IsConsistent p h = ground arith

step-IsConsistent :
    (p : CircuitBreakerPolicy) (b : CircuitBreaker) (c : BreakerCall)
    → IsConsistent p b
    → IsConsistent p (step p b c)
unfolding step before_call record_failure record_success record_aborted
step-IsConsistent p b (admit now) v = ground arith
step-IsConsistent p b (fail now) v = ground arith
step-IsConsistent p b succeed v = ground arith
step-IsConsistent p b abort v = ground arith

-- A consistent breaker is consistent after any sequence of calls of its methods.
pub run-IsConsistent :
    (p : CircuitBreakerPolicy) (b : CircuitBreaker) (cs : List BreakerCall)
    → IsConsistent p b
    → IsConsistent p (run p b cs)
unfolding run
run-IsConsistent p b [] v = v
run-IsConsistent p b (c ∷ cs) v = run-IsConsistent p (step p b c) cs (step-IsConsistent p b c v)
