-- ===== src/Agent/Runtime/Steps.antt =====
-- The steps of one turn of `_run`.
use Prim.Native.String.{◌++◌ as str_append}
use mtbank_ai_call_analytics.Prelude.{
  ℕ, suc, ◌+◌, ◌*◌, String, Bool, true, false, ◌&&◌, none, some, List, [], ◌∷◌, ◌++◌, leb,
  if◌then◌else◌, ◌==◌, string_eq, is_unique, Result, ok, raise,
}
use mtbank_ai_call_analytics.Agent.Contracts.{
  AgentFailureCode, deadline_exceeded, unexpected_runtime_failure, text_completion_rejected,
  malformed_provider_response, tool_loop_guard, ModelToolCall, ModelResponse, AgentBudget,
}
use mtbank_ai_call_analytics.Agent.Tools.{ToolSpec, ValidatedToolCall, require_tool}
use mtbank_ai_call_analytics.Agent.Events.Types.{
  LifecycleEventType, model_completed, model_failed, tool_proposed, tool_validated, tool_allowed,
}
use mtbank_ai_call_analytics.Agent.Runtime.Action.{
  Action, pure, throw, gets, modify, check, ◌>>=◌, ◌>>◌,
}
use mtbank_ai_call_analytics.Agent.Runtime.Types.{
  ModelAnswer, answered, model_timeout, model_error, model_crashed, TrajectoryRecord, RunState,
}

abbrev pub Step : Type 0 → Type 0
Step A = Action RunState AgentFailureCode A

unfoldable pub append_record : TrajectoryRecord → RunState → RunState
append_record e s = record s { trajectory = s.trajectory ++ e ∷ [] }

abbrev pub event : LifecycleEventType → TrajectoryRecord
event t = record { event_type = t; tool_call_id = none; tool_name = none; usage = none }

abbrev pub tool_event : LifecycleEventType → ℕ → ℕ → String → TrajectoryRecord
tool_event t turn index name = record {
  event_type = t;
  tool_call_id = some (turn, index);
  tool_name = some name;
  usage = none;
}

-- await record(...)
unfoldable pub log : TrajectoryRecord → Step (Unit {0})
log e = modify (append_record e)

-- `function_schemas` of the declared tools; its `ValueError` ends as an unexpected failure.
unfoldable pub require_all : List ToolSpec → List String → Result AgentFailureCode (Unit {0})
require_all registry [] = ok tt
require_all registry (n ∷ ns) =
    let rest = require_all registry ns in
    elim (require_tool registry n) [ ok _ ↦ rest | raise c ↦ raise c ]

unfoldable pub function_schemas : List ToolSpec → List String → Result AgentFailureCode (Unit {0})
function_schemas registry names =
    if is_unique names then require_all registry names else raise unexpected_runtime_failure

-- `_complete_model`: what it does with the client's answer.
unfoldable pub take_answer : ModelAnswer → Step ModelResponse
take_answer (answered r) = pure r
take_answer model_timeout = log (event model_failed) >> throw deadline_exceeded
take_answer (model_error c) = log (event model_failed) >> throw c
take_answer model_crashed = throw unexpected_runtime_failure

-- `_cost`
abbrev pub cost : ℕ → ℕ → AgentBudget → ℕ
cost input_tokens output_tokens b =
    input_tokens * b.input_token_cost_usd + output_tokens * b.output_token_cost_usd

abbrev pub add_usage : ModelResponse → RunState → RunState
add_usage r s = record s {
  input_tokens = s.input_tokens + r.usage.input_tokens;
  output_tokens = s.output_tokens + r.usage.output_tokens;
}

-- The record of a completed request has the usage of this response alone.
abbrev pub completed_event : ModelResponse → TrajectoryRecord
completed_event r = record (event model_completed) { usage = some r.usage }

-- The totals, and the record.
unfoldable pub account : ModelResponse → Step (Unit {0})
account r = modify (add_usage r) >> log (completed_event r)

abbrev pub in_budget : AgentBudget → RunState → Bool
in_budget b s =
    leb s.input_tokens b.max_input_tokens
    && leb s.output_tokens b.max_output_tokens
    && leb (cost s.input_tokens s.output_tokens b) b.max_cost_usd

-- The tests on a response that calls no tool.
unfoldable pub check_content : List ModelToolCall → Bool → Step (Unit {0})
check_content (c ∷ cs) has_text = pure tt
check_content [] true = throw text_completion_rejected
check_content [] false = throw malformed_provider_response

unfoldable pub accept_calls :
    Result AgentFailureCode (List ValidatedToolCall × List String) → Step (List ValidatedToolCall)
accept_calls (ok (vs, seen)) = modify (λ s. record s { seen = seen }) >> pure vs
accept_calls (raise c) = throw c

-- `_tool_signature`
unfoldable pub tool_signature : ValidatedToolCall → String
tool_signature v = str_append v.spec.name (str_append "\n" v.arguments)

-- repeated_calls.get(signature, 0)
unfoldable pub times : String → List (String × ℕ) → ℕ
times k [] = 0
times k ((j, n) ∷ rest) = if j == k then n else times k rest

unfoldable pub set_times : String → ℕ → List (String × ℕ) → List (String × ℕ)
set_times k n [] = (k, n) ∷ []
set_times k n ((j, m) ∷ rest) = if j == k then (k, n) ∷ rest else (j, m) ∷ set_times k n rest

-- repeated_calls[signature] = repeated_calls.get(signature, 0) + 1
unfoldable pub bump : String → RunState → RunState
bump key s = record s { repeated = set_times key (times key s.repeated + 1) s.repeated }

unfoldable pub count_call : ℕ → ValidatedToolCall → Step (Unit {0})
count_call bound v = do
  modify (bump (tool_signature v))
  n ← gets (λ s. times (tool_signature v) s.repeated)
  check (leb n bound) tool_loop_guard

unfoldable pub count_calls : ℕ → List ValidatedToolCall → Step (Unit {0})
count_calls bound [] = pure tt
count_calls bound (v ∷ vs) = count_call bound v >> count_calls bound vs

-- The events of the calls of a turn, from an index on: proposed and validated, or allowed.
unfoldable pub log_proposed : ℕ → ℕ → List ValidatedToolCall → Step (Unit {0})
log_proposed turn index [] = pure tt
log_proposed turn index (v ∷ vs) = do
  log (tool_event tool_proposed turn index v.spec.name)
  log (tool_event tool_validated turn index v.spec.name)
  log_proposed turn (suc index) vs

unfoldable pub log_allowed : ℕ → ℕ → List ValidatedToolCall → Step (Unit {0})
log_allowed turn index [] = pure tt
log_allowed turn index (v ∷ vs) = do
  log (tool_event tool_allowed turn index v.spec.name)
  log_allowed turn (suc index) vs
