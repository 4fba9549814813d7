-- ===== src/Examples/Retry.antt =====
-- The resilient client of src/mtbank_ai/agent_runtime/retry.py at concrete worlds.
use mtbank_ai_call_analytics.Prelude.{
  ℕ, zero, suc, ◌+◌, ◌*◌, ◌/◌, ◌^◌, ◌≤◌, ◌≡◌, ◌≢◌, refl, min, true, false, none, some, [], ◌∷◌, all,
  arith, ok, raise, List,
}
use mtbank_ai_call_analytics.Agent.Contracts.{ModelResponse, provider_authentication}
use mtbank_ai_call_analytics.Agent.Circuit.{
  CircuitBreakerPolicy, open_, closed, before_call, record_success, record_failure,
}
use mtbank_ai_call_analytics.Agent.Circuit.Invariant.{run, IsConsistent}
use mtbank_ai_call_analytics.Agent.Retry.{
  RetryPolicy, Outcome, returned, timed_out, failed, slept, Attempt, Arrival, ClientState, complete,
  retry_delay, assertion_failed, is_retryable, remaining, attempts, attempt_once, guarded,
  handle_outcome, handle_error, readmit, back_off, release, after_sleep,
}
use mtbank_ai_call_analytics.Agent.Retry.Delay.{retry_delay_bounds}
use mtbank_ai_call_analytics.Agent.Retry.Bounds.{
  permits-complete, calls-complete, sleeps-complete, in_time,
}
use mtbank_ai_call_analytics.Agent.Retry.Success.{
  IsServed, complete-IsServed, complete-ne-assertion_failed,
}
use mtbank_ai_call_analytics.Agent.Retry.Recovery.{complete-returned}
use mtbank_ai_call_analytics.Agent.Retry.Probe.{probe_leaks, serve}

abbrev circuit_policy : CircuitBreakerPolicy
circuit_policy = record { failure_threshold = 3; recovery = 30 }

abbrev policy : RetryPolicy
policy = record { max_attempts = 3; base_delay = 4; max_delay = 10; max_retry_after = 20 }

abbrev response : ModelResponse
response = record {
  model_id = "m";
  tool_calls = [];
  usage = record { input_tokens = 1; output_tokens = 1; total_tokens = 2 };
  latency_ms = 5;
  has_text_content = true;
}

abbrev attempt : Outcome → Attempt
attempt o = record {
  now_before = 10;
  during_call = [];
  outcome = o;
  failed_at = 20;
  again_at = 20;
  random = 0;
  now_after = 20;
  now_sleep = 20;
  during_sleep = [];
  sleep = slept;
}

abbrev arrival : Arrival
arrival = record { now = 5; during_wait = []; acquired = true; admitted_at = 200 }

-- The first attempt times out, and the second is answered.
abbrev world : ℕ → Attempt
world zero = attempt timed_out
world (suc _) = attempt (returned response)

-- Every attempt is refused for its credentials.
abbrev refusing : ℕ → Attempt
refusing _ = attempt (failed (record { code = provider_authentication; retry_after = none }))

abbrev idle : ClientState
idle = record {
  breaker = record {
    state = closed;
    failure_count = 0;
    opened_at = none;
    half_open_in_flight = false;
  };
  permits = 1;
  calls = 0;
  sleeps = [];
}

abbrev probing : ClientState
probing = record {
  breaker = record {
    state = open_;
    failure_count = 0;
    opened_at = some 100;
    half_open_in_flight = false;
  };
  permits = 0;
  calls = 4;
  sleeps = [];
}

abbrev served : ClientState
served = record {
  breaker = record {
    state = closed;
    failure_count = 0;
    opened_at = none;
    half_open_in_flight = false;
  };
  permits = 1;
  calls = 2;
  sleeps = (2, 20) ∷ [];
}

probing-IsConsistent : IsConsistent circuit_policy probing.breaker
probing-IsConsistent = record {
  counted = omega arith;
  stamped_open = λ h. refl;
  stamped_half_open = λ h. refl;
  unstamped = λ h. ground arith;
  leased = λ h. ground arith;
}

answers : complete circuit_policy policy 100 world arrival idle ≡ (ok response, served)
unfolding complete guarded before_call run attempts attempt_once handle_outcome handle_error
    is_retryable readmit back_off retry_delay remaining record_success record_failure release
    after_sleep
answers = refl

retry_delay_bounds_example :
    (retry_delay (some 50) 1 policy 7 ≤ policy.max_retry_after)
    × (retry_delay (some 50) 1 policy 7 ≤ 50)
    × (retry_delay none 1 policy 7 ≤ min (policy.base_delay * 2 ^ 1) policy.max_delay)
    × (min (policy.base_delay * 2 ^ 1) policy.max_delay / 2 ≤ retry_delay none 1 policy 7)
retry_delay_bounds_example = retry_delay_bounds policy 1 7 50

permits-complete_example :
    (complete circuit_policy policy 100 world arrival idle).1.permits ≡ idle.permits
permits-complete_example = permits-complete circuit_policy policy 100 world arrival idle

calls-complete_example :
    (complete circuit_policy policy 100 world arrival idle).1.calls
    ≤ idle.calls + policy.max_attempts
calls-complete_example = calls-complete circuit_policy policy 100 world arrival idle

sleeps-complete_example :
    all
      (in_time circuit_policy policy 100)
      (complete circuit_policy policy 100 world arrival idle).1.sleeps
    ≡ true
sleeps-complete_example = sleeps-complete circuit_policy policy 100 world arrival idle refl

complete-IsServed_example : IsServed circuit_policy policy 100 world 0 idle response served
complete-IsServed_example =
    complete-IsServed circuit_policy policy 100 world arrival idle response served (omega arith)
      answers

complete-ne-assertion_failed_example :
    (complete circuit_policy policy 100 refusing arrival probing).0 ≢ raise assertion_failed
complete-ne-assertion_failed_example =
    complete-ne-assertion_failed circuit_policy policy 100 refusing arrival probing (omega arith)

abbrev requests : List ((ℕ → Attempt) × Arrival)
requests = (world, arrival) ∷ (refusing, arrival) ∷ []

probe_leaks_example :
    let t = (complete circuit_policy policy 100 refusing arrival probing).1 in
    (t.calls ≡ probing.calls + 1) × (serve circuit_policy policy 100 requests t ≡ t)
unfolding is_retryable
probe_leaks_example =
    probe_leaks circuit_policy policy 100 refusing arrival probing 100 [] requests (omega arith)
      probing-IsConsistent refl refl (omega arith) (omega arith) refl refl (omega arith) refl refl
      (([], refl), (([], refl), tt))

complete-returned_example : (complete circuit_policy policy 100 world arrival idle).0 ≡ ok response
unfolding before_call run record_failure is_retryable retry_delay
complete-returned_example =
    complete-returned circuit_policy policy 100 world arrival idle response 1 (omega arith) refl
      refl (omega arith)
      (
        record {
          in_time = omega arith;
          may_retry = refl;
          admitted = refl;
          delayed = omega arith;
          waited = omega arith;
          slept = refl;
        },
        (omega arith, refl),
      )
