-- ===== src/Agent/Runtime/Phases.antt =====
-- The facts between the parts of a turn, of src/mtbank_ai/agent_runtime/runtime.py.
use mtbank_ai_call_analytics.Prelude.{
  ℕ, ◌≡◌, ◌∙◌, refl, true, Option, List, subset, string_eq, leb, Result, ok, raise, is_some,
}
use mtbank_ai_call_analytics.Agent.Contracts.{AgentFailureCode, AgentSpec, ModelResponse}
use mtbank_ai_call_analytics.Agent.Tools.{ValidatedToolCall}
use mtbank_ai_call_analytics.Agent.Tools.Authorized.{IsAuthorized}
use mtbank_ai_call_analytics.Agent.Events.Types.{model_requested}
use mtbank_ai_call_analytics.Agent.Runtime.Action.{Ensures, modify, Triple}
use mtbank_ai_call_analytics.Agent.Runtime.Keeps.{Keeps, Keeps-modify, Keeps-Triple, keeps_rules}
use mtbank_ai_call_analytics.Agent.Runtime.Types.{World, ModelAnswer, RunState}
use mtbank_ai_call_analytics.Agent.Runtime.Steps.{
  Step, append_record, log, event, account, in_budget, take_answer,
}
use mtbank_ai_call_analytics.Agent.Runtime.Turn.{request_model}
use mtbank_ai_call_analytics.Agent.Runtime.Safety.{
  IsSafe, Ignores, log-IsSafe, take_answer-IsSafe, account-IsSafe,
}

module _ (spec : AgentSpec) where
  abbrev pub Anything : RunState → Type 0
  Anything s = Unit {0}

  -- The tokens and the cost are within the budget.
  abbrev pub Paid : RunState → Type 0
  Paid s = in_budget spec.budget s ≡ true

  abbrev pub Counted : RunState → Type 0
  Counted s = Paid s × (leb s.tool_call_count spec.budget.max_tool_calls ≡ true)

  -- The calls of the turn are authorized after the retrievals of the turns before.
  abbrev pub Admitted : List ValidatedToolCall × Option ℕ → RunState → Type 0
  Admitted (calls, terminal_index) s =
      Counted s × IsAuthorized spec s.retrieved calls terminal_index

  -- A terminal call comes after all required retrievals.
  abbrev pub Ready : Option ℕ → RunState → Type 0
  Ready terminal_index s =
      Counted s
      × (is_some terminal_index ≡ true → subset spec.required_retrieval_tools s.retrieved ≡ true)

  -- Left by an exception, a run has a safe trajectory.
  abbrev pub Stopped : RunState → Type 0
  Stopped = IsSafe spec Anything

  pub Anything-ignores : Ignores Anything
  Anything-ignores e s h = tt

  pub Paid-ignores : Ignores Paid
  unfolding append_record
  Paid-ignores e s h = h

  pub Counted-ignores : Ignores Counted
  unfolding append_record
  Counted-ignores e s h = h

  pub Admitted-ignores : (calls : List ValidatedToolCall × Option ℕ) → Ignores (Admitted calls)
  unfolding append_record
  Admitted-ignores (calls, t) e s h = h

  pub Ready-ignores : (t : Option ℕ) → Ignores (Ready t)
  unfolding append_record
  Ready-ignores t e s h = h

  pub stop : {F : RunState → Type 0} (s : RunState) → IsSafe spec F s → Stopped s
  stop s v = record {
    events = v.events;
    input_told = v.input_told;
    output_told = v.output_told;
    fact = tt;
  }

  relax :
      {A : Type 0} (F : RunState → Type 0) (r : Result AgentFailureCode A × RunState)
      → Ensures (λ _. IsSafe spec F) (IsSafe spec F) r
      → Ensures (λ _. IsSafe spec F) Stopped r
  relax F (ok a, s) v = v
  relax F (raise c, s) v = stop s v

  -- An action that keeps `F` may also be left by an exception.
  pub kept :
      {A : Type 0} {F : RunState → Type 0} {m : Step A}
      → Keeps (IsSafe spec F) m
      → Triple (IsSafe spec F) m (λ _. IsSafe spec F) Stopped
  kept {F} {m} k = record { at = λ s v. relax F (m s) ((Keeps-Triple (IsSafe spec F) k).at s v) }

module _ (world : World) (spec : AgentSpec) where
  pub unchanged :
      {F : RunState → Type 0} (f : RunState → RunState)
      → ((s : RunState) → (f s).trajectory ≡ s.trajectory)
      → ((s : RunState)
          → ((f s).input_tokens ≡ s.input_tokens) × ((f s).output_tokens ≡ s.output_tokens))
      → ((s : RunState) → F s → F (f s))
      → Keeps {E = AgentFailureCode} (IsSafe spec F) (modify f)
  unchanged f t u k = Keeps-modify f (λ s v. record {
    events = rw (t s) v.events;
    input_told = rw (t s) ((u s).0 ∙ v.input_told);
    output_told = rw (t s) ((u s).1 ∙ v.output_told);
    fact = k s v.fact;
  })

  requested-IsSafe : Keeps (IsSafe spec (Anything spec)) (log (event model_requested))
  requested-IsSafe = log-IsSafe spec (Anything spec) (Anything-ignores spec) _ refl

  answer-IsSafe : (a : ModelAnswer) → Keeps (IsSafe spec (Anything spec)) (take_answer a)
  answer-IsSafe = take_answer-IsSafe spec (Anything spec) (Anything-ignores spec)

  usage-IsSafe : (r : ModelResponse) → Keeps (IsSafe spec (Anything spec)) (account r)
  usage-IsSafe r = account-IsSafe spec (Anything spec) (Anything-ignores spec) r (λ s h. tt)

  pub request_model-IsSafe :
      (turn : ℕ) → Keeps (IsSafe spec (Anything spec)) (request_model world spec turn)
  unfolding request_model
  request_model-IsSafe turn =
      search (keeps_rules, requested-IsSafe, answer-IsSafe, usage-IsSafe) depth 30
