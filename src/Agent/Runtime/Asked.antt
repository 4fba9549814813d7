-- ===== src/Agent/Runtime/Asked.antt =====
-- The request of a turn and the guards against loops, of src/mtbank_ai/agent_runtime/runtime.py.
use mtbank_ai_call_analytics.Prelude.{
  ℕ, ◌+◌, String, ◌≡◌, refl, sym, Bool, true, false, ◌∙◌, List, [], ◌∷◌, leb, length, Result, ok,
  raise,
}
use mtbank_ai_call_analytics.Agent.Contracts.{
  AgentFailureCode, AgentSpec, ModelResponse, ModelToolCall, budget_exceeded, tool_loop_guard,
}
use mtbank_ai_call_analytics.Agent.Tools.{ValidatedToolCall, validate_calls}
use mtbank_ai_call_analytics.Agent.Runtime.Action.{
  modify, check, Triple, bind-Triple, gets-Triple, check-Triple,
}
use mtbank_ai_call_analytics.Agent.Runtime.Keeps.{Keeps, keeps_rules, Keeps-pure}
use mtbank_ai_call_analytics.Agent.Runtime.Types.{World, RunState}
use mtbank_ai_call_analytics.Agent.Runtime.Steps.{
  in_budget, check_content, accept_calls, count_call, count_calls, bump,
}
use mtbank_ai_call_analytics.Agent.Runtime.Turn.{ask_model, guard_calls}
use mtbank_ai_call_analytics.Agent.Runtime.Safety.{IsSafe}
use mtbank_ai_call_analytics.Agent.Runtime.Phases.{
  Anything, Paid, Counted, Stopped, stop, kept, unchanged, request_model-IsSafe,
}

module _ (world : World) (spec : AgentSpec) where
  content-IsSafe :
      (F : RunState → Type 0) (calls : List ModelToolCall) (has_text : Bool)
      → Keeps (IsSafe spec F) (check_content calls has_text)
  unfolding check_content
  content-IsSafe F (c ∷ cs) has_text = search keeps_rules
  content-IsSafe F [] true = search keeps_rules
  content-IsSafe F [] false = search keeps_rules

  -- A test whose value was just read.
  pub checked :
      {F G : RunState → Type 0} (test : RunState → Bool) (b : Bool) (c : AgentFailureCode)
      → ((s : RunState) → F s → test s ≡ true → G s)
      → Triple (λ s. IsSafe spec F s × (b ≡ test s)) (check b c) (λ _. IsSafe spec G) (Stopped spec)
  checked test b c g =
      check-Triple b c
        (λ s e v. record {
          events = v.0.events;
          input_told = v.0.input_told;
          output_told = v.0.output_told;
          fact = g s v.0.fact (sym v.1 ∙ e);
        })
        (λ s v. stop spec s v.0)

  pub ask_model-Triple :
      (turn : ℕ)
      → Triple
          (IsSafe spec (Anything spec))
          (ask_model world spec turn)
          (λ _. IsSafe spec (Paid spec))
          (Stopped spec)
  unfolding ask_model
  ask_model-Triple turn =
      bind-Triple _ _ (kept spec (request_model-IsSafe world spec turn)) λ response.
        bind-Triple _ _ (gets-Triple (in_budget spec.budget)) λ inside.
          bind-Triple _ _
            (checked {F = Anything spec} {G = Paid spec} (in_budget spec.budget) inside
              budget_exceeded (λ s _ h. h))
            λ _.
              bind-Triple _ _
                (kept spec
                  (content-IsSafe (Paid spec) response.tool_calls response.has_text_content))
                λ _. kept spec (Keeps-pure response)

  accept_calls-IsSafe :
      (r : Result AgentFailureCode (List ValidatedToolCall × List String))
      → Keeps (IsSafe spec (Paid spec)) (accept_calls r)
  unfolding accept_calls
  accept_calls-IsSafe (ok (vs, seen)) = search (
    keeps_rules,
    unchanged world spec {F = Paid spec} (λ s. record s { seen = seen }) (λ s. refl)
        (λ s. (refl, refl)) (λ s h. h),
  )
  accept_calls-IsSafe (raise c) = search keeps_rules

  pub seen-IsSafe :
      (r : ModelResponse) (seen : List String)
      → Keeps
          (IsSafe spec (Paid spec))
          (accept_calls (validate_calls world.decode world.registry r.tool_calls seen))
  seen-IsSafe r seen =
      accept_calls-IsSafe (validate_calls world.decode world.registry r.tool_calls seen)

  bump-IsSafe :
      (key : String) → Keeps {E = AgentFailureCode} (IsSafe spec (Counted spec)) (modify (bump key))
  unfolding bump
  bump-IsSafe key =
      unchanged world spec {F = Counted spec} (bump key) (λ s. refl) (λ s. (refl, refl)) (λ s h. h)

  count_call-IsSafe :
      (bound : ℕ) (v : ValidatedToolCall) → Keeps (IsSafe spec (Counted spec)) (count_call bound v)
  unfolding count_call
  count_call-IsSafe bound v = search (keeps_rules, bump-IsSafe)

  count_calls-IsSafe :
      (bound : ℕ) (vs : List ValidatedToolCall)
      → Keeps (IsSafe spec (Counted spec)) (count_calls bound vs)
  unfolding count_calls
  count_calls-IsSafe bound [] = search keeps_rules
  count_calls-IsSafe bound (v ∷ vs) =
      search (keeps_rules, count_call-IsSafe bound v, count_calls-IsSafe bound vs)

  pub guard_calls-Triple :
      (calls : List ValidatedToolCall)
      → Triple
          (IsSafe spec (Paid spec))
          (guard_calls world spec calls)
          (λ _. IsSafe spec (Counted spec))
          (Stopped spec)
  unfolding guard_calls
  guard_calls-Triple calls =
      bind-Triple _ _
        (kept spec (
          unchanged world spec {F = Paid spec}
            (λ s. record s { tool_call_count = s.tool_call_count + length calls }) (λ s. refl)
            (λ s. (refl, refl)) (λ s h. h)))
        λ _.
          bind-Triple _ _ (gets-Triple (λ s. leb s.tool_call_count spec.budget.max_tool_calls))
            λ inside.
              bind-Triple _ _
                (checked {F = Paid spec} {G = Counted spec}
                  (λ s. leb s.tool_call_count spec.budget.max_tool_calls) inside tool_loop_guard
                  (λ s p h. (p, h)))
                λ _. kept spec (count_calls-IsSafe spec.budget.max_repeated_tool_calls calls)
