-- ===== src/Agent/Runtime/Outcome.antt =====
-- The turns and the end of a run, of src/mtbank_ai/agent_runtime/runtime.py.
use mtbank_ai_call_analytics.Prelude.{
  ℕ, zero, suc, ◌≡◌, refl, sym, ap, subst, String, true, Option, none, some, List, [], ◌∷◌, ◌++◌,
  Result, ok, raise, all, string_eq, ◌==◌,
}
use mtbank_ai_call_analytics.Agent.Contracts.{AgentFailureCode, AgentSpec, AgentRunContext}
use mtbank_ai_call_analytics.Agent.Tools.{ValidatedToolCall}
use mtbank_ai_call_analytics.Agent.Tools.Authorized.{IsAuthorized}
use mtbank_ai_call_analytics.Agent.Events.Types.{agent_started, agent_output_rejected, run_failed}
use mtbank_ai_call_analytics.Agent.Runtime.Action.{
  Ensures, pure, ◌>>=◌, Triple, bind-Triple, pure-Triple, throw-Triple, gets-Triple, weaken-Triple,
}
use mtbank_ai_call_analytics.Agent.Runtime.Keeps.{Keeps, keeps_rules}
use mtbank_ai_call_analytics.Agent.Runtime.Types.{World, RunState, AgentOutcome, TrajectoryRecord}
use mtbank_ai_call_analytics.Agent.Runtime.Steps.{Step, append_record, log, event}
use mtbank_ai_call_analytics.Agent.Runtime.Calls.{read_calls, execute_reads}
use mtbank_ai_call_analytics.Agent.Runtime.Turn.{
  outcome_of, submit, terminal_call, run_turn, give_up, run_turns, run_inner, initial, close_run,
  run,
}
use mtbank_ai_call_analytics.Agent.Runtime.Safety.{is_safe, IsSafe, log-IsSafe}
use mtbank_ai_call_analytics.Agent.Runtime.Phases.{
  Anything, Admitted, Ready, Stopped, stop, kept, Anything-ignores,
}
use mtbank_ai_call_analytics.Agent.Runtime.Asked.{ask_model-Triple}
use mtbank_ai_call_analytics.Agent.Runtime.Allowed.{admit_calls-Triple}
use mtbank_ai_call_analytics.Agent.Runtime.Executed.{execute_reads-Triple, IsSubmit-at}
use mtbank_ai_call_analytics.Agent.Runtime.Completed.{
  IsCompleted, two_more, execute_terminal-Triple,
}

-- What a run that returned leaves: a completed run, and its outcome tells what the state holds.
abbrev pub IsFinished : World → AgentSpec → AgentOutcome → RunState → Type 0
IsFinished world spec o s =
    IsCompleted world spec o.output s × (o ≡ outcome_of world spec o.output s)

-- What one turn leaves: an outcome, or a run that goes on.
abbrev pub TurnLeaves : World → AgentSpec → Option AgentOutcome → RunState → Type 0
TurnLeaves world spec none s = Stopped spec s
TurnLeaves world spec (some o) s = IsFinished world spec o s

module _ (world : World) (spec : AgentSpec) where
  submit_call-Triple :
      (turn i : ℕ) (v : ValidatedToolCall)
      → (v.spec.name == spec.terminal_submit_tool) ≡ true
      → Triple
          (IsSafe spec (Ready spec (some i)))
          (submit world spec turn (some (i, v)))
          (TurnLeaves world spec)
          (Stopped spec)
  unfolding submit
  submit_call-Triple turn i v named =
      bind-Triple _ _ (execute_terminal-Triple world spec turn i v named) λ output.
        bind-Triple _ _ (gets-Triple (outcome_of world spec output)) λ o.
          weaken-Triple (pure-Triple (some o)) λ s h.
            let same : output ≡ o.output = ap (λ x. x.output) (sym h.1) in
            (
              subst (λ x. IsCompleted world spec x s) same h.0,
              subst (λ x. o ≡ outcome_of world spec x s) same h.1,
            )

  submit-Triple :
      (turn : ℕ) (calls : List ValidatedToolCall) (t : Option ℕ) (done : List String)
      → IsAuthorized spec done calls t
      → Triple
          (IsSafe spec (Ready spec t))
          (submit world spec turn (terminal_call world spec calls t))
          (TurnLeaves world spec)
          (Stopped spec)
  unfolding terminal_call submit
  submit-Triple turn calls none done h = weaken-Triple (pure-Triple none) (stop spec)
  submit-Triple turn calls (some i) done h =
      let (v, at, named) = IsSubmit-at spec done i calls h in
      rw at (submit_call-Triple turn i v named.named)

  Admitted-Triple :
      (turn : ℕ) (calls : List ValidatedToolCall) (t : Option ℕ)
      → Triple
          (IsSafe spec (Admitted spec (calls, t)))
          (execute_reads world spec turn (read_calls t 0 calls) >>= λ _.
            submit world spec turn (terminal_call world spec calls t))
          (TurnLeaves world spec)
          (Stopped spec)
  Admitted-Triple turn calls t = record {
    at = λ s v.
        (bind-Triple _ _ (execute_reads-Triple world spec turn t calls)
            (λ _. submit-Triple turn calls t s.retrieved v.fact.1)).at
          s v;
  }

  run_turn-Triple :
      (turn : ℕ)
      → Triple (Stopped spec) (run_turn world spec turn) (TurnLeaves world spec) (Stopped spec)
  unfolding run_turn
  run_turn-Triple turn = bind-Triple _ _ (ask_model-Triple world spec turn) λ response.
      bind-Triple _ _ (admit_calls-Triple world spec turn response)
        λ admitted. Admitted-Triple turn admitted.0 admitted.1

  give_up-Triple : Triple (Stopped spec) (give_up world spec) (IsFinished world spec) (Stopped spec)
  unfolding give_up
  give_up-Triple =
      bind-Triple {Q = λ _. Stopped spec} _ _ (kept spec (search keeps_rules))
        λ retrieved. bind-Triple _ _ (kept spec (search keeps_rules)) λ _. throw-Triple _

  turn_end-Triple :
      (result : Option AgentOutcome) (next : Step AgentOutcome)
      → Triple (Stopped spec) next (IsFinished world spec) (Stopped spec)
      → Triple
          (TurnLeaves world spec result)
          (elim result [ some outcome ↦ pure outcome | none ↦ next ])
          (IsFinished world spec)
          (Stopped spec)
  turn_end-Triple none next t = t
  turn_end-Triple (some o) next t = pure-Triple o

  run_turns-Triple :
      (left turn : ℕ)
      → Triple
          (Stopped spec)
          (run_turns world spec left turn)
          (IsFinished world spec)
          (Stopped spec)
  unfolding run_turns
  run_turns-Triple zero turn = give_up-Triple
  run_turns-Triple (suc left) turn = bind-Triple _ _ (run_turn-Triple turn) λ result.
      turn_end-Triple result (run_turns world spec left (suc turn))
        (run_turns-Triple left (suc turn))

-- A run that raised has recorded the rejection and the failure, and before them neither a completion
-- nor a start of a tool that is not declared.
pub record IsFailed (spec : AgentSpec) (s : RunState) : Type 0 where
  pub before : List TrajectoryRecord
  pub safe : all (is_safe spec) before ≡ true
  pub recorded : s.trajectory ≡ before ++ event agent_output_rejected ∷ event run_failed ∷ []

abbrev pub IsEnded : World → AgentSpec → Result AgentFailureCode AgentOutcome × RunState → Type 0
IsEnded world spec (ok o, s) = IsFinished world spec o s
IsEnded world spec (raise c, s) = IsFailed spec s

module _ (world : World) (spec : AgentSpec) where
  started : Keeps (IsSafe spec (Anything spec)) (log (event agent_started))
  started = log-IsSafe spec (Anything spec) (Anything-ignores spec) (event agent_started) refl

  run_inner-Triple :
      (context : AgentRunContext)
      → Triple (Stopped spec) (run_inner world spec context) (IsFinished world spec) (Stopped spec)
  unfolding run_inner
  run_inner-Triple context = bind-Triple _ _ (kept spec (search keeps_rules)) λ _.
      bind-Triple _ _ (kept spec (search keeps_rules)) λ _.
        bind-Triple {Q = λ _. Stopped spec} _ _ (kept spec (search keeps_rules)) λ terminal_spec.
          bind-Triple _ _ (kept spec (search keeps_rules)) λ _.
            bind-Triple _ _ (kept spec started)
              λ _. run_turns-Triple world spec spec.budget.max_turns 0

  close_run-IsEnded :
      (r : Result AgentFailureCode AgentOutcome × RunState)
      → Ensures (IsFinished world spec) (Stopped spec) r
      → IsEnded world spec (close_run world spec r)
  unfolding close_run append_record
  close_run-IsEnded (ok o, s) h = h
  close_run-IsEnded (raise c, s) h = record {
    before = s.trajectory;
    safe = h.events;
    recorded = two_more world spec s.trajectory (event agent_output_rejected) (event run_failed);
  }

  -- A run of at most `max_turns` turns, whatever the model and the tools do, returns or raises. Where it
  -- returns, its last two records validate the output and complete the run, the output is valid, the
  -- tokens of the run are those of all the responses that its trajectory records, the tokens, the cost and the number of tool calls are within the budget, every required retrieval has
  -- completed, and the outcome tells the tokens and the cost of the run. Where it raises, its last
  -- two records are the rejection and the failure. Before these two records no record completes the run,
  -- and none starts a tool but a declared one.
  pub run-IsEnded : (context : AgentRunContext) → IsEnded world spec (run world spec context)
  unfolding run
  run-IsEnded context = close_run-IsEnded _ (
      (run_inner-Triple context).at (initial world spec context)
        (record { events = refl; input_told = refl; output_told = refl; fact = tt }))
