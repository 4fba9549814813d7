-- ===== src/Agent/Tools/Authorizer.antt =====
-- `ToolAuthorizer.authorize` (authorization.py).
use mtbank_ai_call_analytics.Prelude.{
  ℕ, suc, ◌+◌, String, Bool, true, false, ◌&&◌, Option, none, some, List, [], ◌∷◌, eqb,
  if◌then◌else◌, length, ◌==◌, string_eq, contains, subset, Result, ok, raise, ◌>>=◌, ◌>>◌, require,
}
use mtbank_ai_call_analytics.Agent.Contracts.{
  ToolSideEffect, read_only, terminal_submit, AgentFailureCode, AgentSpec, post_terminal_tool_call,
  terminal_submit_invalid, required_retrieval_missing, tool_not_allowed,
}
use mtbank_ai_call_analytics.Agent.Tools.Registry.{ValidatedToolCall}

abbrev pub is_terminal_submit : ToolSideEffect → Bool
is_terminal_submit terminal_submit = true
is_terminal_submit read_only = false

abbrev pub is_read_only : ToolSideEffect → Bool
is_read_only read_only = true
is_read_only terminal_submit = false

-- [index for index, call in enumerate(calls) if call.spec.name == name], from an index on
unfoldable pub terminal_positions : String → ℕ → List ValidatedToolCall → List ℕ
terminal_positions name k [] = []
terminal_positions name k (v ∷ vs) =
    let rest = terminal_positions name (suc k) vs in if v.spec.name == name then k ∷ rest else rest

abbrev pub is_index : Option ℕ → ℕ → Bool
is_index none k = false
is_index (some i) k = eqb k i

module _ (spec : AgentSpec) (completed : List String) where
  -- The body of the second loop.
  unfoldable pub check_call : Option ℕ → ℕ → ValidatedToolCall → Result AgentFailureCode (Unit {0})
  check_call terminal_index k v =
      if v.spec.name == spec.terminal_submit_tool
      then (do
        require (is_terminal_submit v.spec.side_effect) terminal_submit_invalid
        require (is_index terminal_index k) post_terminal_tool_call
        require (subset spec.required_retrieval_tools completed) required_retrieval_missing)
      else require (is_read_only v.spec.side_effect && contains spec.allowed_read_tools v.spec.name)
          tool_not_allowed

  unfoldable pub check_calls :
      Option ℕ → ℕ → List ValidatedToolCall → Result AgentFailureCode (Unit {0})
  unfolding check_call
  check_calls terminal_index k [] = ok tt
  check_calls terminal_index k (v ∷ vs) =
      let rest = check_calls terminal_index (suc k) vs in check_call terminal_index k v >> rest

  -- The tests on the positions of the terminal tool.
  unfoldable pub terminal_index_of :
      List ℕ → List ValidatedToolCall → Result AgentFailureCode (Option ℕ)
  terminal_index_of [] calls = ok none
  terminal_index_of (i ∷ []) calls =
      if eqb (i + 1) (length calls) then ok (some i) else raise post_terminal_tool_call
  terminal_index_of (i ∷ j ∷ rest) calls = raise post_terminal_tool_call

  unfoldable pub authorize : List ValidatedToolCall → Bool → Result AgentFailureCode (Option ℕ)
  unfolding terminal_index_of
  authorize calls true = raise post_terminal_tool_call
  authorize calls false = do
    terminal_index ← terminal_index_of (terminal_positions spec.terminal_submit_tool 0 calls) calls
    check_calls terminal_index 0 calls
    ok terminal_index
