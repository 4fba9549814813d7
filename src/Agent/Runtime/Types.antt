-- ===== src/Agent/Runtime/Types.antt =====
-- The state of one run, and what the world decides in it.
use mtbank_ai_call_analytics.Prelude.{ℕ, String, Bool, Option, List}
use mtbank_ai_call_analytics.Agent.Contracts.{
  AgentFailureCode, ModelMessage, ModelResponse, ModelUsage,
}
use mtbank_ai_call_analytics.Agent.Tools.{ToolSpec, ValidatedToolCall, ToolOutput, HandlerOutcome}
use mtbank_ai_call_analytics.Agent.Events.Types.{LifecycleEventType}

-- How the model client answers: a response, its own deadline, an agent error, or another exception.
pub data ModelAnswer : Type 0 where
  answered : ModelResponse → ModelAnswer
  model_timeout model_crashed : ModelAnswer
  model_error : AgentFailureCode → ModelAnswer

-- What a task of a parallel read call records; the number is its place among the read calls.
pub data TaskStep : Type 0 where
  task_started task_completed task_failed : ℕ → TaskStep

-- `turn` and `index` count from 0.
pub record World : Type 0 where
  pub registry : List ToolSpec
  pub decode : ToolSpec → String → Option String
  pub expired_at_start : Bool
  pub expired : (turn : ℕ) → Bool
  pub complete : (turn : ℕ) → List ModelMessage → (max_output_tokens : ℕ) → ModelAnswer
  pub handle : (turn index : ℕ) → ValidatedToolCall → HandlerOutcome
  pub read_steps : (turn : ℕ) → List TaskStep
  pub first_failure : (turn : ℕ) → ℕ
  pub output_valid : String → Bool

-- A sanitized record of the trajectory; a local tool call identifier is its turn and its index.
pub record TrajectoryRecord : Type 0 where
  pub event_type : LifecycleEventType
  pub tool_call_id : Option (ℕ × ℕ)
  pub tool_name : Option String
  pub usage : Option ModelUsage

-- The local variables of `_run`, with the trajectory.
pub record RunState : Type 0 where
  pub messages : List ModelMessage
  pub retrieved : List String
  pub input_tokens : ℕ
  pub output_tokens : ℕ
  pub seen : List String
  pub tool_call_count : ℕ
  pub repeated : List (String × ℕ)
  pub trajectory : List TrajectoryRecord

pub record AgentOutcome : Type 0 where
  pub output : ToolOutput
  pub input_tokens : ℕ
  pub output_tokens : ℕ
  pub cost_usd : ℕ
