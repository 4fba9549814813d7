-- ===== src/Examples/Circuit.antt =====
-- The circuit breaker of src/mtbank_ai/agent_runtime/retry.py at concrete calls.
use mtbank_ai_call_analytics.Prelude.{◌≡◌, refl, false, some, [], ◌∷◌, ◌++◌, map, arith}
use mtbank_ai_call_analytics.Agent.Circuit.{
  CircuitBreakerPolicy, CircuitBreaker, closed, open_, new, record_failure,
}
use mtbank_ai_call_analytics.Agent.Circuit.Invariant.{
  admit, fail, abort, run, IsConsistent, new-IsConsistent, run-IsConsistent,
}
use mtbank_ai_call_analytics.Agent.Circuit.Trip.{admitted, one_probe, failures_trip}

abbrev policy : CircuitBreakerPolicy
policy = record { failure_threshold = 3; recovery = 30 }

abbrev tripped : CircuitBreaker
tripped = record {
  state = open_;
  failure_count = 0;
  opened_at = some 100;
  half_open_in_flight = false;
}

tripped-IsConsistent : IsConsistent policy tripped
tripped-IsConsistent = record {
  counted = omega arith;
  stamped_open = λ h. refl;
  stamped_half_open = λ h. refl;
  unstamped = λ h. ground arith;
  leased = λ h. ground arith;
}

run-IsConsistent_example :
    IsConsistent policy (run policy new (fail 1 ∷ fail 2 ∷ fail 3 ∷ admit 40 ∷ abort ∷ []))
run-IsConsistent_example =
    run-IsConsistent policy new (fail 1 ∷ fail 2 ∷ fail 3 ∷ admit 40 ∷ abort ∷ [])
      (new-IsConsistent policy (omega arith))

failures_trip_example :
    ((run policy new (map fail (1 ∷ 2 ∷ []))).state ≡ closed)
    × ((record_failure policy 7 (run policy new (map fail (1 ∷ 2 ∷ [])))).state ≡ open_)
    × ((record_failure policy 7 (run policy new (map fail (1 ∷ 2 ∷ [])))).opened_at ≡ some 7)
unfolding new
failures_trip_example = failures_trip policy (1 ∷ 2 ∷ []) new 7 refl refl

one_probe_example :
    (admitted policy tripped (101 ∷ 120 ∷ []) ≡ 0)
    × (admitted policy tripped ((101 ∷ 120 ∷ []) ++ 130 ∷ 130 ∷ 500 ∷ []) ≡ 1)
one_probe_example =
    one_probe policy tripped 100 (101 ∷ 120 ∷ []) 130 (130 ∷ 500 ∷ []) tripped-IsConsistent refl
      refl (omega arith) (omega arith, (omega arith, tt)) (omega arith)
