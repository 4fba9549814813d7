-- ===== src/Agent/Tools/Registry.antt =====
-- `ToolRegistry` (tools.py). The JSON decoder and the argument models of pydantic are a parameter,
-- `decode`: the canonical JSON of the validated arguments, or `none` where a decoding step raises. The
-- answer of a tool's handler is an argument of `execute`.
use mtbank_ai_call_analytics.Prelude.{
  ℕ, String, Bool, true, false, ◌&&◌, Option, none, some, List, [], ◌∷◌, ◌++◌, map, ltb,
  if◌then◌else◌, ◌==◌, string_eq, is_unique, disjoint, Result, ok, raise, ◌>>=◌, ◌>>◌, require,
}
use mtbank_ai_call_analytics.Agent.Contracts.{
  ToolSideEffect, AgentFailureCode, unknown_tool, malformed_provider_response,
  duplicate_tool_call_id, tool_arguments_invalid, tool_timeout, tool_execution_failed,
  observation_too_large, ModelToolCall,
}

pub record ToolSpec : Type 0 where
  pub name : String
  pub side_effect : ToolSideEffect

pub record ValidatedToolCall : Type 0 where
  pub call : ModelToolCall
  pub spec : ToolSpec
  pub arguments : String

-- A validated output, with its JSON document for the model and the length of that in bytes.
pub record ToolOutput : Type 0 where
  pub value : String
  pub encoded : String
  pub size_bytes : ℕ

pub record ExecutedToolCall : Type 0 where
  pub output : ToolOutput
  pub observation : Option String

-- `__init__`: `none` where it raises.
unfoldable pub new_registry : List ToolSpec → Option (List ToolSpec)
new_registry specs = if is_unique (map (λ s. s.name) specs) then some specs else none

-- `require`
unfoldable pub require_tool : List ToolSpec → String → Result AgentFailureCode ToolSpec
require_tool [] name = raise unknown_tool
require_tool (s ∷ rest) name = if s.name == name then ok s else require_tool rest name

module _ (decode : ToolSpec → String → Option String) where
  unfoldable pub with_arguments :
      ModelToolCall → ToolSpec → Option String → Result AgentFailureCode ValidatedToolCall
  with_arguments c s none = raise tool_arguments_invalid
  with_arguments c s (some a) = ok (record { call = c; spec = s; arguments = a })

  -- The body of the loop of `validate_calls`.
  unfoldable pub validate_call :
      List ToolSpec → ModelToolCall → Result AgentFailureCode ValidatedToolCall
  unfolding with_arguments
  validate_call registry c = do
    s ← require_tool registry c.name
    with_arguments c s (decode s c.arguments_json)

  unfoldable pub validate_each :
      List ToolSpec → List ModelToolCall → Result AgentFailureCode (List ValidatedToolCall)
  validate_each registry [] = ok []
  validate_each registry (c ∷ cs) =
      let rest = validate_each registry cs in
      do v ← validate_call registry c; vs ← rest; ok (v ∷ vs)

  unfoldable pub validate_ids : List String → List String → Result AgentFailureCode (Unit {0})
  validate_ids ids seen = require (is_unique ids && disjoint ids seen) duplicate_tool_call_id

  -- The validated calls, and the call identifiers seen up to now. An error leaves the latter alone.
  unfoldable pub validate_calls :
      List ToolSpec
      → List ModelToolCall
      → List String
      → Result AgentFailureCode (List ValidatedToolCall × List String)
  unfolding validate_ids
  validate_calls registry [] seen = raise malformed_provider_response
  validate_calls registry (c ∷ cs) seen = do
    let ids = map (λ k. k.id) (c ∷ cs)
    validate_ids ids seen
    validated ← validate_each registry (c ∷ cs)
    ok (validated, ids ++ seen)

-- How the call of a handler ends under its timeout: with an output that its model accepts or refuses,
-- or with an exception.
pub data HandlerOutcome : Type 0 where
  produced : ToolOutput → HandlerOutcome
  invalid_output handler_timed_out handler_crashed : HandlerOutcome
  handler_failed : AgentFailureCode → HandlerOutcome

-- `serialize_untrusted_observation`
unfoldable pub observe : ToolOutput → ℕ → Result AgentFailureCode String
observe o max_bytes =
    if ltb max_bytes o.size_bytes then raise observation_too_large else ok o.encoded

-- `execute`
unfoldable pub execute : HandlerOutcome → ℕ → Bool → Result AgentFailureCode ExecutedToolCall
unfolding observe
execute handler_timed_out max_bytes include = raise tool_timeout
execute (handler_failed code) max_bytes include = raise code
execute handler_crashed max_bytes include = raise tool_execution_failed
execute invalid_output max_bytes include = raise tool_execution_failed
execute (produced o) max_bytes true = do
  content ← observe o max_bytes
  ok (record { output = o; observation = some content })
execute (produced o) max_bytes false = ok (record { output = o; observation = none })
