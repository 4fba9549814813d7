-- ===== src/Examples/Stream.antt =====
-- Streaming of src/mtbank_ai/agent_runtime/retry.py at concrete worlds.
use mtbank_ai_call_analytics.Prelude.{ℕ, zero, suc, refl, true, false, none, some, [], ◌∷◌}
use mtbank_ai_call_analytics.Agent.Contracts.{
  ModelStreamEvent, text_delta, completed, provider_authentication, provider_server,
}
use mtbank_ai_call_analytics.Agent.Circuit.{CircuitBreakerPolicy, open_, closed}
use mtbank_ai_call_analytics.Agent.Retry.{RetryPolicy, Arrival, slept}
use mtbank_ai_call_analytics.Agent.Stream.{
  Item, StreamEnd, exhausted, broken, StreamAttempt, StreamState, stream, is_circuit_open,
}
use mtbank_ai_call_analytics.Agent.Stream.Delivered.{IsDelivered, stream-IsDelivered}
use mtbank_ai_call_analytics.Agent.Stream.Lease.{Free, stream-Free}

abbrev circuit_policy : CircuitBreakerPolicy
circuit_policy = record { failure_threshold = 3; recovery = 30 }

abbrev policy : RetryPolicy
policy = record { max_attempts = 3; base_delay = 4; max_delay = 10; max_retry_after = 20 }

abbrev delta : ModelStreamEvent
delta = record { sequence = 1; type = text_delta; delta = some "a"; response = none }

abbrev last : ModelStreamEvent
last = record { sequence = 2; type = completed; delta = none; response = none }

abbrev item : ModelStreamEvent → Item
item e = record { during = []; event = e }

abbrev attempt : StreamEnd → StreamAttempt
attempt o = record {
  admitted_at = 200;
  items = [];
  during_end = [];
  ended = o;
  failed_at = 210;
  again_at = 250;
  random = 0;
  now_after = 20;
  now_sleep = 20;
  during_sleep = [];
  sleep = slept;
}

-- The provider's server fails before any event, and then answers.
abbrev world : ℕ → StreamAttempt
world zero = attempt (broken (record { code = provider_server; retry_after = none }))
world (suc _) = record (attempt exhausted) { items = item delta ∷ item last ∷ [] }

abbrev arrival : Arrival
arrival = record { now = 5; during_wait = []; acquired = true; admitted_at = 0 }

abbrev idle : StreamState
idle = record {
  breaker = record {
    state = closed;
    failure_count = 0;
    opened_at = none;
    half_open_in_flight = false;
  };
  permits = 1;
  opened = 0;
  yielded = [];
}

abbrev probing : StreamState
probing = record idle {
  breaker = record {
    state = open_;
    failure_count = 0;
    opened_at = some 100;
    half_open_in_flight = false;
  };
}

-- The probe is refused for its credentials.
abbrev refusing : ℕ → StreamAttempt
refusing _ = attempt (broken (record { code = provider_authentication; retry_after = none }))

stream-IsDelivered_example :
    IsDelivered world 3 idle (stream circuit_policy policy 100 true world arrival idle)
stream-IsDelivered_example = stream-IsDelivered circuit_policy policy 100 true world arrival idle

stream-Free_example :
    Free (stream circuit_policy policy 100 true refusing arrival probing).1.breaker
unfolding is_circuit_open
stream-Free_example =
    stream-Free circuit_policy policy 100 true refusing arrival probing (λ j. refl) refl refl
