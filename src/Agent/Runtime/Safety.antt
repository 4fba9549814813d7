-- ===== src/Agent/Runtime/Safety.antt =====
-- The records that the steps of a turn append to the trajectory, of src/mtbank_ai/agent_runtime/runtime.py.
use mtbank_ai_call_analytics.Prelude.{
  ◌+◌, ◌++◌, ◌∙◌, sym, is_some, ℕ, zero, suc, String, ◌≡◌, refl, Bool, true, false, not, ◌&&◌, ◌||◌,
  Option, none, some, List, [], ◌∷◌, all, all-append, contains, string_eq, arith, All, get_elem?,
  subst,
}
use mtbank_ai_call_analytics.Agent.Contracts.{AgentSpec, ModelUsage, ModelResponse}
use mtbank_ai_call_analytics.Agent.Tools.{ValidatedToolCall}
use mtbank_ai_call_analytics.Agent.Events.Types.{
  LifecycleEventType, run_completed, tool_started, model_failed, tool_proposed, tool_validated,
  tool_allowed, tool_completed, tool_failed,
}
use mtbank_ai_call_analytics.Agent.Runtime.Action.{modify, ◌>>=◌}
use mtbank_ai_call_analytics.Agent.Runtime.Keeps.{Keeps, Keeps-modify, keeps_rules}
use mtbank_ai_call_analytics.Agent.Runtime.Types.{
  ModelAnswer, answered, model_timeout, model_error, model_crashed, TaskStep, task_started,
  task_completed, task_failed, TrajectoryRecord, RunState,
}
use mtbank_ai_call_analytics.Agent.Runtime.Calls.{log_task, log_step, log_steps}
use mtbank_ai_call_analytics.Agent.Runtime.Steps.{
  append_record, log, add_usage, account, completed_event, event, tool_event, take_answer,
  log_proposed, log_allowed,
}

abbrev pub is_completed : LifecycleEventType → Bool
is_completed run_completed = true
is_completed _ = false

abbrev pub is_started : LifecycleEventType → Bool
is_started tool_started = true
is_started _ = false

abbrev pub named_in : List String → Option String → Bool
named_in names none = false
named_in names (some n) = contains names n

-- The record does not complete the run, and starts no tool but the declared ones.
abbrev pub is_safe : AgentSpec → TrajectoryRecord → Bool
is_safe spec e =
    not (is_completed e.event_type)
    && (not (is_started e.event_type)
        || named_in (spec.terminal_submit_tool ∷ spec.allowed_read_tools) e.tool_name)

-- The tokens that a record reports.
abbrev pub input_of : Option ModelUsage → ℕ
input_of none = 0
input_of (some u) = u.input_tokens

abbrev pub output_of : Option ModelUsage → ℕ
output_of none = 0
output_of (some u) = u.output_tokens

-- The tokens of all responses of the model, as the trajectory tells them.
abbrev pub spent_input : List TrajectoryRecord → ℕ
spent_input [] = 0
spent_input (e ∷ es) = input_of e.usage + spent_input es

abbrev pub spent_output : List TrajectoryRecord → ℕ
spent_output [] = 0
spent_output (e ∷ es) = output_of e.usage + spent_output es

spent_input-append :
    (es : List TrajectoryRecord) (e : TrajectoryRecord)
    → spent_input (es ++ e ∷ []) ≡ spent_input es + input_of e.usage
spent_input-append [] e = omega arith
spent_input-append (d ∷ es) e = omega (arith, spent_input-append es e)

spent_output-append :
    (es : List TrajectoryRecord) (e : TrajectoryRecord)
    → spent_output (es ++ e ∷ []) ≡ spent_output es + output_of e.usage
spent_output-append [] e = omega arith
spent_output-append (d ∷ es) e = omega (arith, spent_output-append es e)

-- A safe record of a step that asks no model.
abbrev pub is_plain : AgentSpec → TrajectoryRecord → Bool
is_plain spec e = is_safe spec e && not (is_some e.usage)

unused : (o : Option ModelUsage) → is_some o ≡ false → (input_of o ≡ 0) × (output_of o ≡ 0)
unused none h = (refl, refl)
unused (some u) h = cc

-- A record without usage changes no total.
pub spent-append :
    (es : List TrajectoryRecord) (e : TrajectoryRecord)
    → is_some e.usage ≡ false
    → (spent_input (es ++ e ∷ []) ≡ spent_input es)
      × (spent_output (es ++ e ∷ []) ≡ spent_output es)
spent-append es e h =
    let free = unused e.usage h in
    (
      omega (arith, spent_input-append es e, free.0),
      omega (arith, spent_output-append es e, free.1),
    )

module _ (spec : AgentSpec) where
  -- The trajectory is safe and tells the tokens that were counted, and `F` holds, a fact about the other
  -- variables of the run.
  pub record IsSafe (F : RunState → Type 0) (s : RunState) : Type 0 where
    pub events : all (is_safe spec) s.trajectory ≡ true
    pub input_told : s.input_tokens ≡ spent_input s.trajectory
    pub output_told : s.output_tokens ≡ spent_output s.trajectory
    pub fact : F s

-- `F` does not depend on the trajectory.
abbrev pub Ignores : (RunState → Type 0) → Type 0
Ignores F = (e : TrajectoryRecord) (s : RunState) → F s → F (append_record e s)

module _ (spec : AgentSpec) (F : RunState → Type 0) (ignores : Ignores F) where
  pub append-IsSafe :
      (e : TrajectoryRecord) (s : RunState)
      → is_plain spec e ≡ true
      → IsSafe spec F s
      → IsSafe spec F (append_record e s)
  unfolding append_record
  append-IsSafe e s h v =
      let free = spent-append s.trajectory e (ground arith) in
      record {
        events = ground (arith, all-append (is_safe spec) s.trajectory (e ∷ []), v.events);
        input_told = v.input_told ∙ sym free.0;
        output_told = v.output_told ∙ sym free.1;
        fact = ignores e s v.fact;
      }

  pub account-IsSafe :
      (r : ModelResponse)
      → ((s : RunState) → F s → F (add_usage r s))
      → Keeps (IsSafe spec F) (account r)
  unfolding account log append_record ◌>>=◌ modify
  account-IsSafe r keeps = record {
    at = λ s v. record {
      events =
          ground (arith, all-append (is_safe spec) s.trajectory (completed_event r ∷ []), v.events);
      input_told = omega (arith, v.input_told, spent_input-append s.trajectory (completed_event r));
      output_told =
          omega (arith, v.output_told, spent_output-append s.trajectory (completed_event r));
      fact = ignores (completed_event r) (add_usage r s) (keeps s v.fact);
    };
  }

  pub log-IsSafe : (e : TrajectoryRecord) → is_plain spec e ≡ true → Keeps (IsSafe spec F) (log e)
  unfolding log
  log-IsSafe e h = Keeps-modify (append_record e) (λ s v. append-IsSafe e s h v)

  pub take_answer-IsSafe : (a : ModelAnswer) → Keeps (IsSafe spec F) (take_answer a)
  unfolding take_answer
  take_answer-IsSafe (answered r) = search keeps_rules
  take_answer-IsSafe model_timeout = search (keeps_rules, log-IsSafe (event model_failed) refl)
  take_answer-IsSafe (model_error c) = search (keeps_rules, log-IsSafe (event model_failed) refl)
  take_answer-IsSafe model_crashed = search keeps_rules

  pub log_proposed-IsSafe :
      (turn index : ℕ) (vs : List ValidatedToolCall)
      → Keeps (IsSafe spec F) (log_proposed turn index vs)
  unfolding log_proposed
  log_proposed-IsSafe turn index [] = search keeps_rules
  log_proposed-IsSafe turn index (v ∷ vs) = search (
    keeps_rules,
    log-IsSafe (tool_event tool_proposed turn index v.spec.name) refl,
    log-IsSafe (tool_event tool_validated turn index v.spec.name) refl,
    log_proposed-IsSafe turn (suc index) vs,
  )

  pub log_allowed-IsSafe :
      (turn index : ℕ) (vs : List ValidatedToolCall)
      → Keeps (IsSafe spec F) (log_allowed turn index vs)
  unfolding log_allowed
  log_allowed-IsSafe turn index [] = search keeps_rules
  log_allowed-IsSafe turn index (v ∷ vs) = search (
    keeps_rules,
    log-IsSafe (tool_event tool_allowed turn index v.spec.name) refl,
    log_allowed-IsSafe turn (suc index) vs,
  )

  -- A read call of the turn names a declared tool.
  abbrev pub IsDeclared : ℕ × ValidatedToolCall → Type 0
  IsDeclared (i, v) = contains spec.allowed_read_tools v.spec.name ≡ true

  started_safe :
      (turn index : ℕ) (name : String)
      → contains (spec.terminal_submit_tool ∷ spec.allowed_read_tools) name ≡ true
      → is_plain spec (tool_event tool_started turn index name) ≡ true
  started_safe turn index name h = ground arith

  declared_named :
      (name : String)
      → contains spec.allowed_read_tools name ≡ true
      → contains (spec.terminal_submit_tool ∷ spec.allowed_read_tools) name ≡ true
  unfolding contains
  declared_named name h = ground arith

  IsDeclared-at :
      (calls : List (ℕ × ValidatedToolCall)) (k i : ℕ) (v : ValidatedToolCall)
      → All IsDeclared calls
      → get_elem? calls k ≡ some (i, v)
      → IsDeclared (i, v)
  IsDeclared-at [] k i v h e = absurd (ground arith)
  IsDeclared-at (c ∷ cs) zero i v h e = let same : c ≡ (i, v) = cc in subst IsDeclared same h.0
  IsDeclared-at (c ∷ cs) (suc k) i v h e = IsDeclared-at cs k i v h.1 e

  log_task-IsSafe :
      (turn : ℕ) (t : LifecycleEventType) (o : Option (ℕ × ValidatedToolCall))
      → is_completed t ≡ false
      → ((i : ℕ) (v : ValidatedToolCall) → o ≡ some (i, v) → IsDeclared (i, v))
      → Keeps (IsSafe spec F) (log_task turn (λ i n. log (tool_event t turn i n)) o)
  unfolding log_task
  log_task-IsSafe turn t none h d = search keeps_rules
  log_task-IsSafe turn t (some (i, v)) h d =
      log-IsSafe (tool_event t turn i v.spec.name)
        (ground (arith, declared_named v.spec.name (d i v refl)))

  log_step-IsSafe :
      (turn : ℕ) (calls : List (ℕ × ValidatedToolCall)) (t : TaskStep)
      → All IsDeclared calls
      → Keeps (IsSafe spec F) (log_step turn calls t)
  unfolding log_step
  log_step-IsSafe turn calls (task_started k) h =
      log_task-IsSafe turn tool_started (get_elem? calls k) refl
        (λ i v. IsDeclared-at calls k i v h)
  log_step-IsSafe turn calls (task_completed k) h =
      log_task-IsSafe turn tool_completed (get_elem? calls k) refl
        (λ i v. IsDeclared-at calls k i v h)
  log_step-IsSafe turn calls (task_failed k) h =
      log_task-IsSafe turn tool_failed (get_elem? calls k) refl (λ i v. IsDeclared-at calls k i v h)

  pub log_steps-IsSafe :
      (turn : ℕ) (calls : List (ℕ × ValidatedToolCall)) (ts : List TaskStep)
      → All IsDeclared calls
      → Keeps (IsSafe spec F) (log_steps turn calls ts)
  unfolding log_steps
  log_steps-IsSafe turn calls [] h = search keeps_rules
  log_steps-IsSafe turn calls (t ∷ ts) h =
      search (keeps_rules, log_step-IsSafe turn calls t h, log_steps-IsSafe turn calls ts h)
