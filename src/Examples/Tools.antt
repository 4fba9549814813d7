-- ===== src/Examples/Tools.antt =====
-- The registry and the authorizer of src/mtbank_ai/agent_runtime at a turn of two calls.
use mtbank_ai_call_analytics.Prelude.{
  ◌<◌, ◌≡◌, ◌↔◌, refl, String, true, false, Option, some, List, [], ◌∷◌, ◌++◌, map, ok, length,
  is_unique, string_eq, disjoint, contains,
}
use mtbank_ai_call_analytics.Agent.Contracts.{
  AgentSpec, AgentBudget, ModelToolCall, read_only, terminal_submit,
}
use mtbank_ai_call_analytics.Agent.Tools.{
  ToolSpec, ValidatedToolCall, validate_calls, validate_call, require_tool, authorize,
  with_arguments, validate_each, validate_ids,
}
use mtbank_ai_call_analytics.Agent.Tools.Calls.{AllValidate, validate_calls-AllValidate}
use mtbank_ai_call_analytics.Agent.Tools.Authorized.{IsAuthorized, authorize_iff}

abbrev pub budget : AgentBudget
budget = record {
  max_turns = 2;
  max_tool_calls = 4;
  max_repeated_tool_calls = 2;
  max_input_tokens = 1000;
  max_output_tokens = 500;
  max_cost_usd = 90;
  input_token_cost_usd = 1;
  output_token_cost_usd = 2;
  max_observation_bytes = 2000;
}

abbrev pub spec : AgentSpec
spec = record {
  agent_id = "classification";
  model_id = "m";
  policy_version = "v1";
  allowed_read_tools = "lookup" ∷ [];
  required_retrieval_tools = "lookup" ∷ [];
  terminal_submit_tool = "submit";
  budget = budget;
}

abbrev lookup : ToolSpec
lookup = record { name = "lookup"; side_effect = read_only }

abbrev pub submit_tool : ToolSpec
submit_tool = record { name = "submit"; side_effect = terminal_submit }

abbrev pub registry : List ToolSpec
registry = lookup ∷ submit_tool ∷ []

abbrev pub lookup_call : ModelToolCall
lookup_call = record { id = "a"; name = "lookup"; arguments_json = "{}" }

abbrev pub submit_call : ModelToolCall
submit_call = record { id = "b"; name = "submit"; arguments_json = "{}" }

abbrev pub decode : ToolSpec → String → Option String
decode s text = some text

abbrev validated : List ValidatedToolCall
validated =
    record { call = lookup_call; spec = lookup; arguments = "{}" }
    ∷ record { call = submit_call; spec = submit_tool; arguments = "{}" }
    ∷ []

calls_accepted :
    validate_calls decode registry (lookup_call ∷ submit_call ∷ []) ("c" ∷ [])
    ≡ ok (validated, "a" ∷ "b" ∷ "c" ∷ [])
unfolding validate_calls validate_ids validate_each validate_call require_tool with_arguments
    is_unique contains disjoint
calls_accepted = refl

validate_calls-AllValidate_example :
    AllValidate decode registry (lookup_call ∷ submit_call ∷ []) validated
    × (is_unique {A = String} ("a" ∷ "b" ∷ "c" ∷ []) ≡ true)
    × ("a" ∷ "b" ∷ "c" ∷ [] ≡ map (λ c. c.id) (lookup_call ∷ submit_call ∷ []) ++ "c" ∷ [])
    × (0 < length (lookup_call ∷ submit_call ∷ []))
unfolding is_unique contains
validate_calls-AllValidate_example =
    validate_calls-AllValidate decode registry (lookup_call ∷ submit_call ∷ []) ("c" ∷ [])
      ("a" ∷ "b" ∷ "c" ∷ []) validated refl calls_accepted

authorize_iff_example :
    (authorize spec ("lookup" ∷ []) validated false ≡ ok (some 1))
    ↔ ((false ≡ false) × IsAuthorized spec ("lookup" ∷ []) validated (some 1))
authorize_iff_example = authorize_iff spec ("lookup" ∷ []) validated false (some 1)
