-- ===== src/Examples/Runtime.antt =====
-- A run of src/mtbank_ai/agent_runtime/runtime.py that looks up in its first turn and submits in its second.
use mtbank_ai_call_analytics.Prelude.{ℕ, zero, suc, true, false, [], ◌∷◌}
use mtbank_ai_call_analytics.Agent.Contracts.{AgentRunContext, ModelResponse, ModelToolCall}
use mtbank_ai_call_analytics.Agent.Tools.{produced}
use mtbank_ai_call_analytics.Agent.Runtime.{
  World, ModelAnswer, answered, task_started, task_completed, run,
}
use mtbank_ai_call_analytics.Agent.Runtime.Outcome.{IsEnded, run-IsEnded}
use mtbank_ai_call_analytics.Examples.Tools.{spec, registry, decode, lookup_call, submit_call}

abbrev response : ModelToolCall → ModelResponse
response c = record {
  model_id = "m";
  tool_calls = c ∷ [];
  usage = record { input_tokens = 10; output_tokens = 5; total_tokens = 15 };
  latency_ms = 3;
  has_text_content = false;
}

abbrev answer : ℕ → ModelAnswer
answer zero = answered (response lookup_call)
answer (suc _) = answered (response submit_call)

abbrev world : World
world = record {
  registry = registry;
  decode = decode;
  expired_at_start = false;
  expired = λ turn. false;
  complete = λ turn messages max_output_tokens. answer turn;
  handle = λ turn index v.
      produced (record { value = "{}"; encoded = "{\"data\":{}}"; size_bytes = 11 });
  read_steps = λ turn. task_started 0 ∷ task_completed 0 ∷ [];
  first_failure = λ turn. 0;
  output_valid = λ value. true;
}

abbrev context : AgentRunContext
context = record {
  run_id = 7;
  policy_version = "v1";
  created_at = 0;
  deadline_at = 1000;
  messages = [];
}

run-IsEnded_example : IsEnded world spec (run world spec context)
run-IsEnded_example = run-IsEnded world spec context
