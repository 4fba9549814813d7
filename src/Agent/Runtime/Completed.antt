-- ===== src/Agent/Runtime/Completed.antt =====
-- The terminal call and the completion of a run, of src/mtbank_ai/agent_runtime/runtime.py.
use mtbank_ai_call_analytics.Prelude.{
  ℕ, ◌≤◌, ◌≡◌, ◌∙◌, sym, is_some, refl, true, false, some, List, [], ◌∷◌, ◌++◌, append_assoc,
  Result, ok, raise, all, arith, contains, subset, string_eq, leb→le, ◌==◌,
}
use mtbank_ai_call_analytics.Agent.Contracts.{AgentFailureCode, AgentSpec, terminal_submit_invalid}
use mtbank_ai_call_analytics.Agent.Tools.{ValidatedToolCall, ExecutedToolCall, ToolOutput}
use mtbank_ai_call_analytics.Agent.Events.Types.{
  agent_output_validated, run_completed, tool_started, tool_completed, tool_failed,
}
use mtbank_ai_call_analytics.Agent.Runtime.Action.{
  pure, modify, ◌>>=◌, Triple, bind-Triple, throw-Triple, check-Triple, weaken-Triple,
}
use mtbank_ai_call_analytics.Agent.Runtime.Types.{World, RunState, TrajectoryRecord}
use mtbank_ai_call_analytics.Agent.Runtime.Steps.{append_record, log, event, tool_event, cost}
use mtbank_ai_call_analytics.Agent.Runtime.Calls.{run_handler, finish_terminal, execute_terminal}
use mtbank_ai_call_analytics.Agent.Runtime.Safety.{
  is_safe, is_plain, spent_input, spent_output, IsSafe, spent-append, log-IsSafe,
}
use mtbank_ai_call_analytics.Agent.Runtime.Phases.{
  Anything, Ready, Stopped, stop, kept, Anything-ignores, Ready-ignores,
}

module _ (world : World) (spec : AgentSpec) where
  -- The end of a run that returned `output`: the last two records validate the output and complete the
  -- run, nothing before them completes it or starts a tool that is not declared, the output is valid,
  -- the counted tokens are those that the trajectory tells of all responses of the model, and budget,
  -- number of tool calls and required retrievals are as the specification demands.
  pub record IsCompleted (output : ToolOutput) (s : RunState) : Type 0 where
    pub before : List TrajectoryRecord
    pub validation : TrajectoryRecord
    pub validates : validation.event_type ≡ agent_output_validated
    pub safe : all (is_safe spec) before ≡ true
    pub recorded : s.trajectory ≡ before ++ validation ∷ event run_completed ∷ []
    pub valid : world.output_valid output.value ≡ true
    pub input_told : s.input_tokens ≡ spent_input s.trajectory
    pub output_told : s.output_tokens ≡ spent_output s.trajectory
    pub input_paid : s.input_tokens ≤ spec.budget.max_input_tokens
    pub output_paid : s.output_tokens ≤ spec.budget.max_output_tokens
    pub cost_paid : cost s.input_tokens s.output_tokens spec.budget ≤ spec.budget.max_cost_usd
    pub counted : s.tool_call_count ≤ spec.budget.max_tool_calls
    pub retrieved : subset spec.required_retrieval_tools s.retrieved ≡ true

  pub two_more :
      (tr : List TrajectoryRecord) (a b : TrajectoryRecord)
      → (tr ++ a ∷ []) ++ b ∷ [] ≡ tr ++ a ∷ b ∷ []
  two_more tr a b = append_assoc tr (a ∷ []) (b ∷ [])

  IsCompleted-of_Ready :
      (output : ToolOutput) (i : ℕ) (validation : TrajectoryRecord) (s : RunState)
      → validation.event_type ≡ agent_output_validated
      → is_some validation.usage ≡ false
      → world.output_valid output.value ≡ true
      → IsSafe spec (Ready spec (some i)) s
      → IsCompleted output (append_record (event run_completed) (append_record validation s))
  unfolding append_record
  IsCompleted-of_Ready output i validation s e free h v =
      let ((paid, inside), retrieved) = v.fact in
      let one = spent-append s.trajectory validation free in
      let two = spent-append (s.trajectory ++ validation ∷ []) (event run_completed) refl in
      record {
        before = s.trajectory;
        validation = validation;
        validates = e;
        safe = v.events;
        recorded = two_more s.trajectory validation (event run_completed);
        valid = h;
        input_told = v.input_told ∙ sym one.0 ∙ sym two.0;
        output_told = v.output_told ∙ sym one.1 ∙ sym two.1;
        input_paid = ground arith;
        output_paid = ground arith;
        cost_paid = ground arith;
        counted = leb→le _ _ inside;
        retrieved = retrieved refl;
      }

  module _ (turn i : ℕ) (v : ValidatedToolCall) where
    close_turn-Triple :
        (output : ToolOutput)
        → world.output_valid output.value ≡ true
        → Triple
            (IsSafe spec (Ready spec (some i)))
            (log (tool_event agent_output_validated turn i v.spec.name) >>= λ _.
              log (event run_completed) >>= λ _. pure output)
            IsCompleted
            (Stopped spec)
    unfolding ◌>>=◌ log modify pure
    close_turn-Triple output h = record {
      at = λ s w.
          IsCompleted-of_Ready output i (tool_event agent_output_validated turn i v.spec.name) s
            refl refl h w;
    }

    logged :
        (e : TrajectoryRecord)
        → is_plain spec e ≡ true
        → Triple
            (IsSafe spec (Ready spec (some i)))
            (log e)
            (λ _. IsSafe spec (Ready spec (some i)))
            (Stopped spec)
    logged e h = kept spec (log-IsSafe spec (Ready spec (some i)) (Ready-ignores spec (some i)) e h)

    finish-Triple :
        (r : Result AgentFailureCode ExecutedToolCall)
        → Triple
            (IsSafe spec (Ready spec (some i)))
            (finish_terminal world spec turn i v r)
            IsCompleted
            (Stopped spec)
    unfolding finish_terminal
    finish-Triple (raise c) =
        bind-Triple _ _
          (weaken-Triple
            (kept spec (
              log-IsSafe spec (Anything spec) (Anything-ignores spec)
                (tool_event tool_failed turn i v.spec.name) refl))
            (stop spec))
          λ _. throw-Triple c
    finish-Triple (ok e) =
        bind-Triple _ _ (logged (tool_event tool_completed turn i v.spec.name) refl) λ _.
          bind-Triple
            {Q = λ _ s.
              IsSafe spec (Ready spec (some i)) s × (world.output_valid e.output.value ≡ true)}
            _ _
            (check-Triple (world.output_valid e.output.value) terminal_submit_invalid
              (λ s h w. (w, h)) (stop spec))
            λ _. record { at = λ s w. (close_turn-Triple e.output w.1).at s w.0 }

    pub execute_terminal-Triple :
        (v.spec.name == spec.terminal_submit_tool) ≡ true
        → Triple
            (IsSafe spec (Ready spec (some i)))
            (execute_terminal world spec turn i v)
            IsCompleted
            (Stopped spec)
    unfolding execute_terminal contains
    execute_terminal-Triple named =
        bind-Triple _ _ (logged (tool_event tool_started turn i v.spec.name) (ground arith))
          λ _. finish-Triple (run_handler world spec turn false i v)
