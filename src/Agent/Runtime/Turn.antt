-- ===== src/Agent/Runtime/Turn.antt =====
-- `_run` and `run`.
use mathlib.Core.Option
use mtbank_ai_call_analytics.Prelude.{
  ℕ, zero, suc, ◌+◌, ◌-◌, false, not, Option, none, some, List, [], ◌∷◌, ◌++◌, ltb, leb, ◌==◌,
  string_eq, subset, length, get_elem?, Result, ok, raise,
}
use mtbank_ai_call_analytics.Agent.Contracts.{
  AgentFailureCode, deadline_exceeded, budget_exceeded, model_mismatch, tool_loop_guard,
  terminal_submit_invalid, policy_version_mismatch, required_retrieval_missing,
  terminal_submit_missing, ModelMessage, ModelToolCall, ModelResponse, AgentSpec, AgentRunContext,
  assistant,
}
use mtbank_ai_call_analytics.Agent.Tools.{
  ValidatedToolCall, ToolOutput, require_tool, validate_calls, authorize, is_terminal_submit,
}
use mtbank_ai_call_analytics.Agent.Events.Types.{
  agent_started, model_requested, agent_output_rejected, run_failed,
}
use mtbank_ai_call_analytics.Agent.Runtime.Action.{
  pure, throw, lift, gets, modify, check, ◌>>=◌, ◌>>◌,
}
use mtbank_ai_call_analytics.Agent.Runtime.Types.{World, RunState, AgentOutcome}
use mtbank_ai_call_analytics.Agent.Runtime.Steps.{
  Step, append_record, log, event, function_schemas, take_answer, cost, account, in_budget,
  check_content, accept_calls, count_calls, log_proposed, log_allowed,
}
use mtbank_ai_call_analytics.Agent.Runtime.Calls.{read_calls, execute_reads, execute_terminal}

module _ (world : World) (spec : AgentSpec) where
  -- The request of one turn, up to the record of its completion.
  unfoldable pub request_model : ℕ → Step ModelResponse
  request_model turn = do
    used ← gets (λ s. s.output_tokens)
    check (ltb used spec.budget.max_output_tokens) budget_exceeded
    check (not (world.expired turn)) deadline_exceeded
    lift (
        function_schemas world.registry (spec.allowed_read_tools ++ spec.terminal_submit_tool ∷ []))
    log (event model_requested)
    messages ← gets (λ s. s.messages)
    response ← take_answer (world.complete turn messages (spec.budget.max_output_tokens - used))
    check (response.model_id == spec.model_id) model_mismatch
    account response
    pure response

  -- The request, and the tests on the budget and on the content of the response.
  unfoldable pub ask_model : ℕ → Step ModelResponse
  ask_model turn = do
    response ← request_model turn
    inside ← gets (in_budget spec.budget)
    check inside budget_exceeded
    check_content response.tool_calls response.has_text_content
    pure response

  abbrev pub assistant_message : List ModelToolCall → ModelMessage
  assistant_message calls = record {
    role = assistant;
    content = none;
    tool_call_id = none;
    tool_calls = calls;
  }

  -- The guards against loops of tool calls.
  unfoldable pub guard_calls : List ValidatedToolCall → Step (Unit {0})
  guard_calls calls = do
    modify (λ s. record s { tool_call_count = s.tool_call_count + length calls })
    inside ← gets (λ s. leb s.tool_call_count spec.budget.max_tool_calls)
    check inside tool_loop_guard
    count_calls spec.budget.max_repeated_tool_calls calls

  unfoldable pub authorize_calls : ℕ → List ValidatedToolCall → Step (Option ℕ)
  authorize_calls turn calls = do
    log_proposed turn 0 calls
    retrieved ← gets (λ s. s.retrieved)
    terminal_index ← lift (authorize spec retrieved calls false)
    log_allowed turn 0 calls
    pure terminal_index

  -- The validation and the authorization of the calls of a response.
  unfoldable pub admit_calls : ℕ → ModelResponse → Step (List ValidatedToolCall × Option ℕ)
  admit_calls turn response = do
    seen ← gets (λ s. s.seen)
    calls ← accept_calls (validate_calls world.decode world.registry response.tool_calls seen)
    guard_calls calls
    terminal_index ← authorize_calls turn calls
    modify (λ s. record s { messages = s.messages ++ assistant_message response.tool_calls ∷ [] })
    pure (calls, terminal_index)

  abbrev pub outcome_of : ToolOutput → RunState → AgentOutcome
  outcome_of output s = record {
    output = output;
    input_tokens = s.input_tokens;
    output_tokens = s.output_tokens;
    cost_usd = cost s.input_tokens s.output_tokens spec.budget;
  }

  -- The terminal call, where the turn has one.
  unfoldable pub submit : ℕ → Option (ℕ × ValidatedToolCall) → Step (Option AgentOutcome)
  submit turn none = pure none
  submit turn (some (index, v)) = do
    output ← execute_terminal world spec turn index v
    result ← gets (outcome_of output)
    pure (some result)

  unfoldable pub terminal_call : List ValidatedToolCall → Option ℕ → Option (ℕ × ValidatedToolCall)
  terminal_call calls none = none
  terminal_call calls (some i) = Option.map (λ v. (i, v)) (get_elem? calls i)

  -- The body of the loop: an outcome, or `none` where the next turn follows.
  unfoldable pub run_turn : ℕ → Step (Option AgentOutcome)
  run_turn turn = do
    response ← ask_model turn
    admitted ← admit_calls turn response
    execute_reads world spec turn (read_calls admitted.1 0 admitted.0)
    submit turn (terminal_call admitted.0 admitted.1)

  -- What follows the loop.
  unfoldable pub give_up : Step AgentOutcome
  give_up = do
    retrieved ← gets (λ s. s.retrieved)
    check (subset spec.required_retrieval_tools retrieved) required_retrieval_missing
    throw terminal_submit_missing

  -- `for turn in range(max_turns)`, with the turns left and the index of the next.
  unfoldable pub run_turns : ℕ → ℕ → Step AgentOutcome
  run_turns zero turn = give_up
  run_turns (suc left) turn = do
    result ← run_turn turn
    elim result [ some outcome ↦ pure outcome | none ↦ run_turns left (suc turn) ]

  -- `_run`
  unfoldable pub run_inner : AgentRunContext → Step AgentOutcome
  run_inner context = do
    check (context.policy_version == spec.policy_version) policy_version_mismatch
    check (not world.expired_at_start) deadline_exceeded
    terminal_spec ← lift (require_tool world.registry spec.terminal_submit_tool)
    check (is_terminal_submit terminal_spec.side_effect) terminal_submit_invalid
    log (event agent_started)
    run_turns spec.budget.max_turns 0

  abbrev pub initial : AgentRunContext → RunState
  initial context = record {
    messages = context.messages;
    retrieved = [];
    input_tokens = 0;
    output_tokens = 0;
    seen = [];
    tool_call_count = 0;
    repeated = [];
    trajectory = [];
  }

  -- The handlers of `run`: both record the rejection and the failure, and raise.
  unfoldable pub close_run :
      Result AgentFailureCode AgentOutcome × RunState
      → Result AgentFailureCode AgentOutcome × RunState
  unfolding append_record
  close_run (ok o, s) = (ok o, s)
  close_run (raise c, s) =
      (raise c, append_record (event run_failed) (append_record (event agent_output_rejected) s))

  -- `run`: the outcome or the failure, with the state that the run left.
  unfoldable pub run : AgentRunContext → Result AgentFailureCode AgentOutcome × RunState
  run context = close_run (run_inner context (initial context))
