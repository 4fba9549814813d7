-- ===== src/Agent/Tools/Calls.antt =====
-- What the registry accepts as the tool calls of one turn.
use mtbank_ai_call_analytics.Prelude.{
  ◌<◌, subst, String, ◌≡◌, sym, true, ◌&&◌, Option, some, List, [], ◌∷◌, ◌++◌, map, string_eq,
  eq_iff, is_unique, disjoint, is_unique-append, ok, >>=-eq-ok, require-eq-ok, &&-eq-true, arith,
  length,
}
use mtbank_ai_call_analytics.Agent.Contracts.{ModelToolCall, duplicate_tool_call_id}
use mtbank_ai_call_analytics.Agent.Tools.Registry.{
  ToolSpec, ValidatedToolCall, require_tool, validate_call, validate_each, validate_ids,
  validate_calls,
}

module _ (decode : ToolSpec → String → Option String) (registry : List ToolSpec) where
  -- The tool is the registered one of that name, and its decoder gave the arguments.
  pub record IsValidated (v : ValidatedToolCall) : Type 0 where
    pub named : v.spec.name ≡ v.call.name
    pub registered : require_tool registry v.call.name ≡ ok v.spec
    pub decoded : decode v.spec v.call.arguments_json ≡ some v.arguments

  -- A call that was validated, as the model sent it.
  abbrev pub Validates : ModelToolCall → ValidatedToolCall → Type 0
  Validates c v = (v.call ≡ c) × IsValidated v

  abbrev pub AllValidate : List ModelToolCall → List ValidatedToolCall → Type 0
  AllValidate [] [] = Unit {0}
  AllValidate (c ∷ cs) (v ∷ vs) = Validates c v × AllValidate cs vs
  AllValidate _ _ = ⊥

require_tool-name :
    (registry : List ToolSpec) (name : String) (s : ToolSpec)
    → require_tool registry name ≡ ok s
    → s.name ≡ name
unfolding require_tool
require_tool-name [] name s h = cc
require_tool-name (t ∷ rest) name s h =
    ground (arith, eq_iff t.name name, require_tool-name rest name s)

module _ (decode : ToolSpec → String → Option String) (registry : List ToolSpec) where
  validate_call-Validates :
      (c : ModelToolCall) (v : ValidatedToolCall)
      → validate_call decode registry c ≡ ok v
      → Validates decode registry c v
  unfolding validate_call
  validate_call-Validates c v h =
      let (s, found, rest) = >>=-eq-ok (require_tool registry c.name) _ h in
      let name = require_tool-name registry c.name s found in ground arith

  validate_each-AllValidate :
      (cs : List ModelToolCall) (vs : List ValidatedToolCall)
      → validate_each decode registry cs ≡ ok vs
      → AllValidate decode registry cs vs
  unfolding validate_each
  validate_each-AllValidate [] [] h = tt
  validate_each-AllValidate [] (v ∷ vs) h = absurd (ground arith)
  validate_each-AllValidate (c ∷ cs) vs h =
      let (v, now, rest) = >>=-eq-ok (validate_call decode registry c) _ h in
      let (ws, later, last) = >>=-eq-ok (validate_each decode registry cs) _ rest in
      let same : v ∷ ws ≡ vs = ground arith in
      subst (AllValidate decode registry (c ∷ cs)) same
        (validate_call-Validates c v now, validate_each-AllValidate cs ws later)

  -- From call identifiers that were unique up to now: if the calls of a turn are accepted, there is at
  -- least one, each is paired in order with the registered tool of its name and with the arguments that
  -- the decoder gives, and the identifiers seen afterwards, those of the turn and the old ones, are
  -- again unique.
  pub validate_calls-AllValidate :
      (cs : List ModelToolCall) (seen seen' : List String) (vs : List ValidatedToolCall)
      → is_unique seen ≡ true
      → validate_calls decode registry cs seen ≡ ok (vs, seen')
      → AllValidate decode registry cs vs
        × (is_unique seen' ≡ true)
        × (seen' ≡ map (λ c. c.id) cs ++ seen)
        × (0 < length cs)
  unfolding validate_calls
  validate_calls-AllValidate [] seen seen' vs u h = absurd (ground arith)
  validate_calls-AllValidate (c ∷ cs) seen seen' vs u h =
      let ids = map (λ k. k.id) (c ∷ cs) in
      let fresh = is_unique ids && disjoint ids seen in
      let (_, tested, rest) = >>=-eq-ok (validate_ids decode ids seen) _ h in
      let (ws, each, last) = >>=-eq-ok (validate_each decode registry (c ∷ cs)) _ rest in
      let parts =
        &&-eq-true (is_unique ids) (disjoint ids seen)
          (require-eq-ok fresh duplicate_tool_call_id tested) in
      let joined = is_unique-append ids seen parts.0 u parts.1 in
      let same : ws ≡ vs = ground arith in
      let after : ids ++ seen ≡ seen' = ground arith in
      (
        subst (AllValidate decode registry (c ∷ cs)) same
            (validate_each-AllValidate (c ∷ cs) ws each),
        subst (λ l. is_unique l ≡ true) after joined,
        sym after,
        omega arith,
      )
