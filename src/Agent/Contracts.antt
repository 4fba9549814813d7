-- ===== src/Agent/Contracts.antt =====
-- The contracts of the agent runtime (src/mtbank_ai/agent_runtime/contracts.py): enumerations,
-- messages, budgets and the validators that run when a value is constructed. The length limits of
-- texts are not modelled. A Decimal of the budget is a number of units of one fixed power of ten.
use mtbank_ai_call_analytics.Prelude.{
  ℕ, ◌+◌, String, Bool, true, false, not, ◌&&◌, ◌||◌, Option, List, [], ◌∷◌, leb, ltb, eqb,
  string_eq, nat_eq, contains, subset, is_unique, is_some,
}

pub data MessageRole : Type 0 where
  system user assistant tool : MessageRole

pub data ToolChoice : Type 0 where
  auto none_allowed required : ToolChoice

pub data ToolSideEffect : Type 0 where
  read_only terminal_submit : ToolSideEffect

pub data AgentFailureCode : Type 0 where
  budget_exceeded deadline_exceeded turn_limit_exceeded text_completion_rejected : AgentFailureCode
  malformed_provider_response unknown_tool duplicate_tool_call_id : AgentFailureCode
  tool_arguments_invalid tool_not_allowed tool_timeout tool_execution_failed : AgentFailureCode
  tool_loop_guard observation_too_large required_retrieval_missing : AgentFailureCode
  terminal_submit_missing terminal_submit_invalid post_terminal_tool_call : AgentFailureCode
  policy_version_mismatch model_mismatch unexpected_runtime_failure circuit_open : AgentFailureCode
  provider_authentication provider_permission provider_invalid_request : AgentFailureCode
  provider_tool_use_failed provider_rate_limited provider_timeout : AgentFailureCode
  provider_transport provider_server : AgentFailureCode

pub record ModelToolCall : Type 0 where
  pub id : String
  pub name : String
  pub arguments_json : String

pub record ModelMessage : Type 0 where
  pub role : MessageRole
  pub content : Option String
  pub tool_call_id : Option String
  pub tool_calls : List ModelToolCall

abbrev has_calls : List ModelToolCall → Bool
has_calls [] = false
has_calls (c ∷ cs) = true

-- `ModelMessage.validate_shape`: true where no branch raises.
message_shape : MessageRole → ModelMessage → Bool
message_shape system m =
    is_some m.content && not (is_some m.tool_call_id) && not (has_calls m.tool_calls)
message_shape user m =
    is_some m.content && not (is_some m.tool_call_id) && not (has_calls m.tool_calls)
message_shape tool m = is_some m.content && is_some m.tool_call_id && not (has_calls m.tool_calls)
message_shape assistant m =
    not (is_some m.tool_call_id) && (is_some m.content || has_calls m.tool_calls)

unfoldable pub validate_shape : ModelMessage → Bool
unfolding message_shape
validate_shape m = message_shape m.role m

pub record ModelUsage : Type 0 where
  pub input_tokens : ℕ
  pub output_tokens : ℕ
  pub total_tokens : ℕ

-- `ModelUsage.validate_total`
unfoldable pub validate_total : ModelUsage → Bool
validate_total u = eqb u.total_tokens (u.input_tokens + u.output_tokens)

pub record ModelResponse : Type 0 where
  pub model_id : String
  pub tool_calls : List ModelToolCall
  pub usage : ModelUsage
  pub latency_ms : ℕ
  pub has_text_content : Bool

pub data ModelStreamEventType : Type 0 where
  text_delta completed : ModelStreamEventType

pub record ModelStreamEvent : Type 0 where
  pub sequence : ℕ
  pub type : ModelStreamEventType
  pub delta : Option String
  pub response : Option ModelResponse

stream_event_shape : ModelStreamEventType → ModelStreamEvent → Bool
stream_event_shape text_delta e = is_some e.delta && not (is_some e.response)
stream_event_shape completed e = is_some e.response && not (is_some e.delta)

-- `ModelStreamEvent.validate_shape`, with its positive sequence.
unfoldable pub validate_stream_event : ModelStreamEvent → Bool
unfolding stream_event_shape
validate_stream_event e = ltb 0 e.sequence && stream_event_shape e.type e

pub record AgentBudget : Type 0 where
  pub max_turns : ℕ
  pub max_tool_calls : ℕ
  pub max_repeated_tool_calls : ℕ
  pub max_input_tokens : ℕ
  pub max_output_tokens : ℕ
  pub max_cost_usd : ℕ
  pub input_token_cost_usd : ℕ
  pub output_token_cost_usd : ℕ
  pub max_observation_bytes : ℕ

-- The `PositiveInt` fields, and `AgentBudget.validate_turn_bound`.
unfoldable pub validate_turn_bound : AgentBudget → Bool
validate_turn_bound b =
    ltb 0 b.max_turns
    && ltb 0 b.max_tool_calls
    && ltb 0 b.max_repeated_tool_calls
    && ltb 0 b.max_input_tokens
    && ltb 0 b.max_output_tokens
    && ltb 0 b.max_observation_bytes
    && leb b.max_turns 8
    && leb b.max_tool_calls 24
    && leb b.max_repeated_tool_calls 4
    && leb b.max_observation_bytes 20000

pub record AgentSpec : Type 0 where
  pub agent_id : String
  pub model_id : String
  pub policy_version : String
  pub allowed_read_tools : List String
  pub required_retrieval_tools : List String
  pub terminal_submit_tool : String
  pub budget : AgentBudget

-- `AgentSpec.validate_tools`
unfoldable pub validate_tools : AgentSpec → Bool
validate_tools s =
    is_unique s.allowed_read_tools
    && is_unique s.required_retrieval_tools
    && not (contains s.allowed_read_tools s.terminal_submit_tool)
    && subset s.required_retrieval_tools s.allowed_read_tools

-- `deadline_at` and `created_at` are counted in microseconds.
pub record AgentRunContext : Type 0 where
  pub run_id : ℕ
  pub policy_version : String
  pub created_at : ℕ
  pub deadline_at : ℕ
  pub messages : List ModelMessage

-- `AgentRunContext.validate_deadline`
unfoldable pub validate_deadline : AgentRunContext → Bool
validate_deadline c = ltb c.created_at c.deadline_at
