-- ===== src/Agent/Runtime/Executed.antt =====
-- The execution of the read calls of a turn, of src/mtbank_ai/agent_runtime/runtime.py.
use mtbank_ai_call_analytics.Prelude.{
  ℕ, suc, ◌≡◌, refl, subst, String, true, false, Option, none, some, List, [], ◌∷◌, ◌++◌, Result,
  ok, raise, All, arith, contains, subset, string_eq, is_some, eqb, get_elem?, Bool-cases,
  Option-cases, subset_weaken, inl, inr, ◌+◌,
}
use mtbank_ai_call_analytics.Agent.Contracts.{
  AgentFailureCode, AgentSpec, unexpected_runtime_failure,
}
use mtbank_ai_call_analytics.Agent.Tools.{ValidatedToolCall, ExecutedToolCall}
use mtbank_ai_call_analytics.Agent.Tools.Authorized.{
  IsAuthorized, IsSubmit, nothing, submit, reads, reads_then,
}
use mtbank_ai_call_analytics.Agent.Runtime.Action.{modify, Triple}
use mtbank_ai_call_analytics.Agent.Runtime.Keeps.{Keeps, Keeps-throw, Keeps-bind, keeps_rules}
use mtbank_ai_call_analytics.Agent.Runtime.Types.{World, RunState}
use mtbank_ai_call_analytics.Agent.Runtime.Calls.{
  read_calls, run_handler, failures, gather, mark_retrieved, add_observation, tool_message,
  take_results, execute_reads,
}
use mtbank_ai_call_analytics.Agent.Runtime.Safety.{IsSafe, log_steps-IsSafe}
use mtbank_ai_call_analytics.Agent.Runtime.Phases.{
  Admitted, Ready, Stopped, kept, unchanged, Ready-ignores,
}

module _ (spec : AgentSpec) (done : List String) where
  abbrev AllListed : List (ℕ × ValidatedToolCall) → Type 0
  AllListed = All (λ c. contains spec.allowed_read_tools c.1.spec.name ≡ true)

  none_terminal :
      (k : ℕ) (vs : List ValidatedToolCall)
      → IsAuthorized spec done vs none
      → AllListed (read_calls none k vs)
  unfolding read_calls
  none_terminal k vs nothing = tt
  none_terminal k vs (reads v {vs = ws} r rest) = (r.listed, none_terminal (suc k) ws rest)

  some_terminal :
      (k i : ℕ) (vs : List ValidatedToolCall)
      → IsAuthorized spec done vs (some i)
      → AllListed (read_calls (some (k + i)) k vs)
  unfolding read_calls
  some_terminal k i vs (submit v s) = let here : eqb (k + 0) k ≡ true = ground arith in rw here tt
  some_terminal k i vs (reads_then v {vs = ws} j r rest) =
      let elsewhere : eqb (k + suc j) k ≡ false = ground arith in
      let shift : suc k + j ≡ k + suc j = omega arith in
      let later =
        subst (λ n. AllListed (read_calls (some n) (suc k) ws)) shift
          (some_terminal (suc k) j ws rest) in
      rw elsewhere (r.listed, later)

  pub IsSubmit-at :
      (i : ℕ) (vs : List ValidatedToolCall)
      → IsAuthorized spec done vs (some i)
      → (v : ValidatedToolCall) × (get_elem? vs i ≡ some v) × IsSubmit spec done v
  IsSubmit-at i vs (submit v s) = (v, refl, s)
  IsSubmit-at i vs (reads_then v {vs = ws} j r rest) = IsSubmit-at j ws rest

  reads_declared :
      (t : Option ℕ) (vs : List ValidatedToolCall)
      → IsAuthorized spec done vs t
      → AllListed (read_calls t 0 vs)
  reads_declared none vs h = none_terminal 0 vs h
  reads_declared (some i) vs h =
      let zero_add : 0 + i ≡ i = omega arith in
      subst (λ n. AllListed (read_calls (some n) 0 vs)) zero_add (some_terminal 0 i vs h)

  ready_of_authorized :
      (t : Option ℕ) (vs : List ValidatedToolCall)
      → IsAuthorized spec done vs t
      → is_some t ≡ true
      → subset spec.required_retrieval_tools done ≡ true
  ready_of_authorized none vs h e = cc
  ready_of_authorized (some i) vs h e = (IsSubmit-at i vs h).2.retrieved

module _ (world : World) (spec : AgentSpec) (turn : ℕ) (t : Option ℕ) where
  mark-Ready :
      (name : String) (s : RunState)
      → Ready spec t s
      → Ready spec t (mark_retrieved world spec turn name s)
  unfolding mark_retrieved
  mark-Ready name s h = elim (Bool-cases (contains spec.required_retrieval_tools name)) [
    | inl e ↦ rw e (h.0, λ o. subset_weaken spec.required_retrieval_tools s.retrieved name (h.1 o))
    | inr e ↦ rw e h
  ]

  mark-trajectory :
      (name : String) (s : RunState)
      → (mark_retrieved world spec turn name s).trajectory ≡ s.trajectory
  unfolding mark_retrieved
  mark-trajectory name s = ground arith

  mark-tokens :
      (name : String) (s : RunState)
      → ((mark_retrieved world spec turn name s).input_tokens ≡ s.input_tokens)
        × ((mark_retrieved world spec turn name s).output_tokens ≡ s.output_tokens)
  unfolding mark_retrieved
  mark-tokens name s = ground arith

  mark-IsSafe :
      (name : String)
      → Keeps {E = AgentFailureCode}
          (IsSafe spec (Ready spec t))
          (modify (mark_retrieved world spec turn name))
  mark-IsSafe name =
      unchanged world spec {F = Ready spec t} (mark_retrieved world spec turn name)
        (mark-trajectory name) (mark-tokens name) (mark-Ready name)

  message-IsSafe :
      (v : ValidatedToolCall) (content : String)
      → Keeps {E = AgentFailureCode} (IsSafe spec (Ready spec t)) (
          modify (λ s. record s {
            messages = s.messages ++ tool_message world spec turn v content ∷ [];
          }))
  message-IsSafe v content =
      unchanged world spec {F = Ready spec t} _ (λ s. refl) (λ s. (refl, refl)) (λ s h. h)

  observation-IsSafe :
      (v : ValidatedToolCall) (r : Result AgentFailureCode ExecutedToolCall)
      → Keeps (IsSafe spec (Ready spec t)) (add_observation world spec turn v r)
  unfolding add_observation
  observation-IsSafe v (raise c) = search keeps_rules
  observation-IsSafe v (ok e) = elim (Option-cases e.observation) [
    | inl n ↦ rw n (Keeps-throw unexpected_runtime_failure)
    | inr (content, h) ↦ rw h (message-IsSafe v content)
  ]

  results-IsSafe :
      (calls : List (ℕ × ValidatedToolCall))
      → Keeps (IsSafe spec (Ready spec t)) (take_results world spec turn calls)
  unfolding take_results
  results-IsSafe [] = search keeps_rules
  results-IsSafe ((index, v) ∷ rest) = search (
    keeps_rules,
    mark-IsSafe v.spec.name,
    observation-IsSafe v (run_handler world spec turn true index v),
    results-IsSafe rest,
  )

  gather-IsSafe :
      (cs : List AgentFailureCode) (first : Option AgentFailureCode)
      → Keeps (IsSafe spec (Ready spec t)) (gather world spec turn cs first)
  unfolding gather
  gather-IsSafe [] first = search keeps_rules
  gather-IsSafe (c ∷ cs) none = search keeps_rules
  gather-IsSafe (c ∷ cs) (some first) = search keeps_rules

  reads-IsSafe :
      (calls : List (ℕ × ValidatedToolCall))
      → All (λ c. contains spec.allowed_read_tools c.1.spec.name ≡ true) calls
      → Keeps (IsSafe spec (Ready spec t)) (execute_reads world spec turn calls)
  unfolding execute_reads
  reads-IsSafe calls h =
      Keeps-bind _ _
        (log_steps-IsSafe spec (Ready spec t) (Ready-ignores spec t) turn calls
          (world.read_steps turn) h)
        λ _.
          Keeps-bind _ _
            (gather-IsSafe (failures world spec turn calls)
              (get_elem? (failures world spec turn calls) (world.first_failure turn)))
            λ _. results-IsSafe calls

  pub execute_reads-Triple :
      (calls : List ValidatedToolCall)
      → Triple
          (IsSafe spec (Admitted spec (calls, t)))
          (execute_reads world spec turn (read_calls t 0 calls))
          (λ _. IsSafe spec (Ready spec t))
          (Stopped spec)
  execute_reads-Triple calls = record {
    at = λ s v.
        (kept spec (
            reads-IsSafe (read_calls t 0 calls)
              (reads_declared spec s.retrieved t calls v.fact.1))).at
          s
          (record {
            events = v.events;
            input_told = v.input_told;
            output_told = v.output_told;
            fact = (v.fact.0, ready_of_authorized spec s.retrieved t calls v.fact.1);
          });
  }
