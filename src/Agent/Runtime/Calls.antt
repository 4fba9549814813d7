-- ===== src/Agent/Runtime/Calls.antt =====
-- The execution of the authorized calls of a turn: the read calls in parallel tasks, then the terminal
-- call. The tasks record their events in any order, which is the world's choice.
use mtbank_ai_call_analytics.Prelude.{
  ℕ, suc, String, Bool, true, false, Option, none, some, List, [], ◌∷◌, ◌++◌, if◌then◌else◌,
  contains, string_eq, get_elem?, Result, ok, raise, eqb,
}
use mtbank_ai_call_analytics.Agent.Contracts.{
  AgentFailureCode, unexpected_runtime_failure, terminal_submit_invalid, ModelMessage, AgentSpec,
  tool,
}
use mtbank_ai_call_analytics.Agent.Tools.{ValidatedToolCall, ToolOutput, ExecutedToolCall, execute}
use mtbank_ai_call_analytics.Agent.Events.Types.{
  tool_started, tool_completed, tool_failed, agent_output_validated, run_completed,
}
use mtbank_ai_call_analytics.Agent.Runtime.Action.{pure, throw, modify, check, ◌>>◌}
use mtbank_ai_call_analytics.Agent.Runtime.Types.{
  World, TaskStep, task_started, task_completed, task_failed, RunState,
}
use mtbank_ai_call_analytics.Agent.Runtime.Steps.{Step, log, event, tool_event}

-- `enumerate(validated_calls)` without the terminal index.
abbrev pub is_terminal : Option ℕ → ℕ → Bool
is_terminal none k = false
is_terminal (some i) k = eqb i k

unfoldable pub read_calls : Option ℕ → ℕ → List ValidatedToolCall → List (ℕ × ValidatedToolCall)
read_calls terminal_index k [] = []
read_calls terminal_index k (v ∷ vs) =
    let rest = read_calls terminal_index (suc k) vs in
    if is_terminal terminal_index k then rest else (k, v) ∷ rest

-- The event of one step of a task; a number that names no read call records nothing.
unfoldable pub log_task :
    ℕ → (ℕ → String → Step (Unit {0})) → Option (ℕ × ValidatedToolCall) → Step (Unit {0})
log_task turn write none = pure tt
log_task turn write (some (index, v)) = write index v.spec.name

unfoldable pub log_step : ℕ → List (ℕ × ValidatedToolCall) → TaskStep → Step (Unit {0})
unfolding log_task
log_step turn calls (task_started k) =
    log_task turn (λ i n. log (tool_event tool_started turn i n)) (get_elem? calls k)
log_step turn calls (task_completed k) =
    log_task turn (λ i n. log (tool_event tool_completed turn i n)) (get_elem? calls k)
log_step turn calls (task_failed k) =
    log_task turn (λ i n. log (tool_event tool_failed turn i n)) (get_elem? calls k)

unfoldable pub log_steps : ℕ → List (ℕ × ValidatedToolCall) → List TaskStep → Step (Unit {0})
log_steps turn calls [] = pure tt
log_steps turn calls (t ∷ ts) = log_step turn calls t >> log_steps turn calls ts

module _ (world : World) (spec : AgentSpec) (turn : ℕ) where
  unfoldable pub run_handler :
      Bool → ℕ → ValidatedToolCall → Result AgentFailureCode ExecutedToolCall
  run_handler include index v =
      execute (world.handle turn index v) spec.budget.max_observation_bytes include

  -- The failures of the tasks, in the order of the calls.
  unfoldable pub failures : List (ℕ × ValidatedToolCall) → List AgentFailureCode
  failures [] = []
  failures ((index, v) ∷ rest) =
      let later = failures rest in
      elim (run_handler true index v) [ ok _ ↦ later | raise c ↦ c ∷ later ]

  -- What `gather` raises, where a task failed: the failure that came first.
  unfoldable pub gather : List AgentFailureCode → Option AgentFailureCode → Step (Unit {0})
  gather [] first = pure tt
  gather (c ∷ cs) none = throw c
  gather (c ∷ cs) (some first) = throw first

  unfoldable pub mark_retrieved : String → RunState → RunState
  mark_retrieved name s =
      if contains spec.required_retrieval_tools name
      then record s { retrieved = name ∷ s.retrieved }
      else s

  abbrev pub tool_message : ValidatedToolCall → String → ModelMessage
  tool_message v content = record {
    role = tool;
    content = some content;
    tool_call_id = some v.call.id;
    tool_calls = [];
  }

  unfoldable pub add_observation :
      ValidatedToolCall → Result AgentFailureCode ExecutedToolCall → Step (Unit {0})
  add_observation v (raise c) = throw c
  add_observation v (ok e) = elim e.observation [
    | none ↦ throw unexpected_runtime_failure
    | some content ↦ modify (λ s. record s { messages = s.messages ++ tool_message v content ∷ [] })
  ]

  -- The loop over the results of the read calls.
  unfoldable pub take_results : List (ℕ × ValidatedToolCall) → Step (Unit {0})
  take_results [] = pure tt
  take_results ((index, v) ∷ rest) = do
    modify (mark_retrieved v.spec.name)
    add_observation v (run_handler true index v)
    take_results rest

  unfoldable pub execute_reads : List (ℕ × ValidatedToolCall) → Step (Unit {0})
  execute_reads calls = do
    log_steps turn calls (world.read_steps turn)
    let failed = failures calls
    gather failed (get_elem? failed (world.first_failure turn))
    take_results calls

  -- The end of `_execute_tool`, with the result of the registry.
  unfoldable pub finish_terminal :
      ℕ → ValidatedToolCall → Result AgentFailureCode ExecutedToolCall → Step ToolOutput
  finish_terminal index v (raise c) = log (tool_event tool_failed turn index v.spec.name) >> throw c
  finish_terminal index v (ok e) = do
    log (tool_event tool_completed turn index v.spec.name)
    check (world.output_valid e.output.value) terminal_submit_invalid
    log (tool_event agent_output_validated turn index v.spec.name)
    log (event run_completed)
    pure e.output

  -- The terminal call, the validation of its output, and the end of the run.
  unfoldable pub execute_terminal : ℕ → ValidatedToolCall → Step ToolOutput
  execute_terminal index v = do
    log (tool_event tool_started turn index v.spec.name)
    finish_terminal index v (run_handler false index v)
