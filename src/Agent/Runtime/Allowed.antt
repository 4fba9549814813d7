-- ===== src/Agent/Runtime/Allowed.antt =====
-- The validation and the authorization of the calls of a turn, of src/mtbank_ai/agent_runtime/runtime.py.
use mtbank_ai_call_analytics.Prelude.{ℕ, refl, subst, false, List, [], ◌∷◌, ◌++◌}
use mtbank_ai_call_analytics.Agent.Contracts.{AgentSpec, ModelResponse}
use mtbank_ai_call_analytics.Agent.Tools.{ValidatedToolCall, authorize}
use mtbank_ai_call_analytics.Agent.Tools.Authorized.{IsAuthorized, authorize_iff}
use mtbank_ai_call_analytics.Agent.Runtime.Action.{
  Triple, bind-Triple, pure-Triple, gets-Triple, lift-Triple,
}
use mtbank_ai_call_analytics.Agent.Runtime.Keeps.{Keeps-gets}
use mtbank_ai_call_analytics.Agent.Runtime.Types.{World}
use mtbank_ai_call_analytics.Agent.Runtime.Turn.{admit_calls, authorize_calls, assistant_message}
use mtbank_ai_call_analytics.Agent.Runtime.Safety.{IsSafe, log_proposed-IsSafe, log_allowed-IsSafe}
use mtbank_ai_call_analytics.Agent.Runtime.Phases.{
  Paid, Counted, Admitted, Stopped, stop, kept, unchanged, Counted-ignores, Admitted-ignores,
}
use mtbank_ai_call_analytics.Agent.Runtime.Asked.{seen-IsSafe, guard_calls-Triple}

module _ (world : World) (spec : AgentSpec) where
  pub authorize_calls-Triple :
      (turn : ℕ) (calls : List ValidatedToolCall)
      → Triple
          (IsSafe spec (Counted spec))
          (authorize_calls world spec turn calls)
          (λ t. IsSafe spec (Admitted spec (calls, t)))
          (Stopped spec)
  unfolding authorize_calls
  authorize_calls-Triple turn calls =
      bind-Triple _ _
        (kept spec (log_proposed-IsSafe spec (Counted spec) (Counted-ignores spec) turn 0 calls))
        λ _. bind-Triple _ _ (gets-Triple (λ s. s.retrieved)) λ retrieved.
          bind-Triple {Q = λ t. IsSafe spec (Admitted spec (calls, t))} _ _
            (lift-Triple (authorize spec retrieved calls false)
              (λ t e s v. record {
                events = v.0.events;
                input_told = v.0.input_told;
                output_told = v.0.output_told;
                fact = (
                  v.0.fact,
                  subst (λ done. IsAuthorized spec done calls t) v.1
                      ((authorize_iff spec retrieved calls false t).0 e).1,
                );
              })
              (λ s v. stop spec s v.0))
            λ t.
              bind-Triple _ _
                (kept spec (
                  log_allowed-IsSafe spec (Admitted spec (calls, t))
                    (Admitted-ignores spec (calls, t)) turn 0 calls))
                λ _. pure-Triple t

  pub admit_calls-Triple :
      (turn : ℕ) (response : ModelResponse)
      → Triple
          (IsSafe spec (Paid spec))
          (admit_calls world spec turn response)
          (λ a. IsSafe spec (Admitted spec a))
          (Stopped spec)
  unfolding admit_calls
  admit_calls-Triple turn response = bind-Triple _ _ (kept spec (Keeps-gets (λ s. s.seen))) λ seen.
      bind-Triple _ _ (kept spec (seen-IsSafe world spec response seen)) λ calls.
        bind-Triple _ _ (guard_calls-Triple world spec calls) λ _.
          bind-Triple _ _ (authorize_calls-Triple turn calls) λ t.
            bind-Triple _ _
              (kept spec (
                unchanged world spec {F = Admitted spec (calls, t)}
                  (λ s. record s {
                    messages = s.messages ++ assistant_message world spec response.tool_calls ∷ [];
                  })
                  (λ s. refl) (λ s. (refl, refl)) (λ s h. h)))
              λ _. pure-Triple (calls, t)
