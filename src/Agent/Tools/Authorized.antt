-- ===== src/Agent/Tools/Authorized.antt =====
-- Which tool calls the authorizer lets through.
use mtbank_ai_call_analytics.Prelude.{
  ℕ, zero, suc, ◌+◌, String, ◌≡◌, refl, Bool, true, false, Option, none, some, List, [], ◌∷◌,
  length, ◌==◌, string_eq, contains, subset, ok, arith, ◌>>=◌, ◌>>◌, subst, ◌↔◌,
}
use mtbank_ai_call_analytics.Agent.Contracts.{read_only, terminal_submit, AgentSpec}
use mtbank_ai_call_analytics.Agent.Tools.Registry.{ValidatedToolCall}
use mtbank_ai_call_analytics.Agent.Tools.Authorizer.{
  terminal_positions, check_call, check_calls, terminal_index_of, authorize,
}

-- A call of a declared read-only tool.
pub record IsRead (spec : AgentSpec) (v : ValidatedToolCall) : Type 0 where
  pub other : (v.spec.name == spec.terminal_submit_tool) ≡ false
  pub harmless : v.spec.side_effect ≡ read_only
  pub listed : contains spec.allowed_read_tools v.spec.name ≡ true

-- A call of the terminal tool, after all required retrievals.
pub record IsSubmit (spec : AgentSpec) (completed : List String) (v : ValidatedToolCall)
    : Type 0 where
  pub named : (v.spec.name == spec.terminal_submit_tool) ≡ true
  pub terminal : v.spec.side_effect ≡ terminal_submit
  pub retrieved : subset spec.required_retrieval_tools completed ≡ true

-- The calls of one turn that are let through, with the index of the terminal call.
pub data IsAuthorized (spec : AgentSpec) (completed : List String)
    : List ValidatedToolCall → Option ℕ → Type 0 where
  nothing : IsAuthorized spec completed [] none
  submit :
      (v : ValidatedToolCall)
      → IsSubmit spec completed v
      → IsAuthorized spec completed (v ∷ []) (some 0)
  reads :
      (v : ValidatedToolCall) {vs : List ValidatedToolCall}
      → IsRead spec v
      → IsAuthorized spec completed vs none
      → IsAuthorized spec completed (v ∷ vs) none
  reads_then :
      (v : ValidatedToolCall) {vs : List ValidatedToolCall} (i : ℕ)
      → IsRead spec v
      → IsAuthorized spec completed vs (some i)
      → IsAuthorized spec completed (v ∷ vs) (some (suc i))

module _ (spec : AgentSpec) (completed : List String) where
  abbrev name_of : String
  name_of = spec.terminal_submit_tool

  IsRead-of_check :
      (o : Option ℕ) (k : ℕ) (v : ValidatedToolCall)
      → (v.spec.name == spec.terminal_submit_tool) ≡ false
      → check_call spec completed o k v ≡ ok tt
      → IsRead spec v
  unfolding check_call
  IsRead-of_check o k v n h = record { other = n; harmless = ground arith; listed = ground arith }

  IsSubmit-of_check :
      (o : Option ℕ) (k : ℕ) (v : ValidatedToolCall)
      → (v.spec.name == spec.terminal_submit_tool) ≡ true
      → check_call spec completed o k v ≡ ok tt
      → IsSubmit spec completed v
  unfolding check_call
  IsSubmit-of_check o k v n h = record {
    named = n;
    terminal = ground arith;
    retrieved = ground arith;
  }

  check_split :
      (o : Option ℕ) (k : ℕ) (v : ValidatedToolCall) (vs : List ValidatedToolCall)
      → check_calls spec completed o k (v ∷ vs) ≡ ok tt
      → (check_call spec completed o k v ≡ ok tt)
        × (check_calls spec completed o (suc k) vs ≡ ok tt)
  unfolding check_calls
  check_split o k v vs h = ground arith

  check_join :
      (o : Option ℕ) (k : ℕ) (v : ValidatedToolCall) (vs : List ValidatedToolCall)
      → check_call spec completed o k v ≡ ok tt
      → check_calls spec completed o (suc k) vs ≡ ok tt
      → check_calls spec completed o k (v ∷ vs) ≡ ok tt
  unfolding check_calls
  check_join o k v vs h g = ground arith

  authorized_reads :
      (o : Option ℕ) (k : ℕ) (vs : List ValidatedToolCall)
      → terminal_positions name_of k vs ≡ []
      → check_calls spec completed o k vs ≡ ok tt
      → IsAuthorized spec completed vs none
  unfolding terminal_positions
  authorized_reads o k [] p h = nothing
  authorized_reads o k (v ∷ vs) p h =
      let (now, later) = check_split o k v vs h in
      reads v (IsRead-of_check o k v (ground arith) now)
        (authorized_reads o (suc k) vs (ground arith) later)

  authorized_submit :
      (o : Option ℕ) (k i : ℕ) (vs : List ValidatedToolCall)
      → terminal_positions name_of k vs ≡ (k + i) ∷ []
      → suc i ≡ length vs
      → check_calls spec completed o k vs ≡ ok tt
      → IsAuthorized spec completed vs (some i)
  unfolding terminal_positions
  authorized_submit o k i [] p e h = absurd (ground arith)
  authorized_submit o k zero (v ∷ []) p e h =
      submit v (IsSubmit-of_check o k v (ground arith) (check_split o k v [] h).0)
  authorized_submit o k zero (v ∷ w ∷ vs) p e h = absurd (omega arith)
  authorized_submit o k (suc i) (v ∷ vs) p e h =
      let (now, later) = check_split o k v vs h in
      reads_then v i (IsRead-of_check o k v (ground arith) now)
        (authorized_submit o (suc k) i vs (ground arith) (omega arith) later)

  authorize_cases :
      (calls : List ValidatedToolCall) (positions : List ℕ) (o : Option ℕ)
      → terminal_positions name_of 0 calls ≡ positions
      → (terminal_index_of spec completed positions calls >>= λ t.
          check_calls spec completed t 0 calls >> ok t)
        ≡ ok o
      → IsAuthorized spec completed calls o
  unfolding terminal_index_of
  authorize_cases calls [] o p h =
      subst (IsAuthorized spec completed calls) (ground arith)
        (authorized_reads none 0 calls p (ground arith))
  authorize_cases calls (i ∷ []) o p h =
      subst (IsAuthorized spec completed calls) (ground arith)
        (authorized_submit (some i) 0 i calls (ground arith) (ground arith) (ground arith))
  authorize_cases calls (i ∷ j ∷ rest) o p h = absurd (ground arith)

  reads_positions :
      (vs : List ValidatedToolCall) (k : ℕ)
      → IsAuthorized spec completed vs none
      → terminal_positions name_of k vs ≡ []
  unfolding terminal_positions
  reads_positions vs k nothing = refl
  reads_positions vs k (reads v {vs = ws} r rest) =
      ground (arith, r.other, reads_positions ws (suc k) rest)

  reads_check :
      (vs : List ValidatedToolCall) (o : Option ℕ) (k : ℕ)
      → IsAuthorized spec completed vs none
      → check_calls spec completed o k vs ≡ ok tt
  unfolding check_calls
  reads_check vs o k nothing = refl
  reads_check vs o k (reads v {vs = ws} r rest) =
      ground (arith, r.other, r.harmless, r.listed, reads_check ws o (suc k) rest)

  submit_positions :
      (vs : List ValidatedToolCall) (k i : ℕ)
      → IsAuthorized spec completed vs (some i)
      → (terminal_positions name_of k vs ≡ (k + i) ∷ []) × (suc i ≡ length vs)
  unfolding terminal_positions
  submit_positions vs k i (submit v s) = ground (arith, s.named)
  submit_positions vs k i (reads_then v {vs = ws} j r rest) =
      ground (arith, r.other, submit_positions ws (suc k) j rest)

  submit_check :
      (vs : List ValidatedToolCall) (k i : ℕ)
      → IsAuthorized spec completed vs (some i)
      → check_calls spec completed (some (k + i)) k vs ≡ ok tt
  unfolding check_calls
  submit_check vs k i (submit v s) = ground (arith, s.named, s.terminal, s.retrieved)
  submit_check vs k i (reads_then v {vs = ws} j r rest) =
      let later = submit_check ws (suc k) j rest in
      ground (arith, r.other, r.harmless, r.listed, later)

  authorized_accepted :
      (calls : List ValidatedToolCall) (o : Option ℕ)
      → IsAuthorized spec completed calls o
      → authorize spec completed calls false ≡ ok o
  unfolding authorize
  authorized_accepted calls none h =
      rw (reads_positions calls 0 h, reads_check calls none 0 h, terminal_index_of)
  authorized_accepted calls (some i) h =
      let (at, fits) = submit_positions calls 0 i h in
      ground (arith, at, fits, submit_check calls 0 i h)

  -- The authorizer accepts a turn, with index `o`, exactly when no terminal call was submitted before and
  -- the turn has this shape: calls of declared read-only tools, and after them at most one call of the
  -- terminal tool, which then has the terminal side effect, stands last, has index `o`, and comes when
  -- the turns before have completed all required retrievals.
  pub authorize_iff :
      (calls : List ValidatedToolCall) (submitted : Bool) (o : Option ℕ)
      → (authorize spec completed calls submitted ≡ ok o)
        ↔ ((submitted ≡ false) × IsAuthorized spec completed calls o)
  unfolding authorize
  authorize_iff calls true o = (λ h. cc, λ h. cc)
  authorize_iff calls false o = (
    λ h. (refl, authorize_cases calls (terminal_positions name_of 0 calls) o refl h),
    λ h. authorized_accepted calls o h.1,
  )
