-- ===== src/Agent/Stream/Lease.antt =====
-- The lease of the half-open probe in `_stream` of src/mtbank_ai/agent_runtime/retry.py.
use mtbank_ai_call_analytics.Prelude.{
  ℕ, zero, suc, ◌+◌, ◌≡◌, refl, arith, Option, none, some, List, [], ◌∷◌, true, false, Bool, not,
  ◌&&◌, all, raise, &&-eq-true, ◌∙◌, ◌⊎◌, inl, inr, subst, sym, ap, ok,
}
use mtbank_ai_call_analytics.Agent.Contracts.{
  ModelStreamEvent, ModelStreamEventType, text_delta, completed, AgentFailureCode, circuit_open,
}
use mtbank_ai_call_analytics.Agent.Circuit.{
  CircuitBreakerPolicy, CircuitBreaker, half_open, before_call, record_success, record_failure,
  record_aborted,
}
use mtbank_ai_call_analytics.Agent.Circuit.Invariant.{BreakerCall, run}
use mtbank_ai_call_analytics.Agent.Retry.{RetryPolicy, Arrival, ProviderError, retry_delay}
use mtbank_ai_call_analytics.Agent.Stream.Defs.{
  Item, StreamEnd, exhausted, stopped, crashed, broken, StreamAttempt, StreamState, Streamed,
  is_emitted, is_circuit_open, on_event, consume, resume, pause, probe_again, on_error, on_end,
  read_stream, stream_once, stream_attempts, deliver, stream,
}
use mtbank_ai_call_analytics.Agent.Stream.Once.{gate_cases}

abbrev no_calls : List BreakerCall → Bool
no_calls [] = true
no_calls (c ∷ cs) = false

-- The provider itself does not report an open circuit.
abbrev no_circuit_open : StreamEnd → Bool
no_circuit_open exhausted = true
no_circuit_open stopped = true
no_circuit_open crashed = true
no_circuit_open (broken e) = not (is_circuit_open e.code)

-- A round in which no other task calls the breaker, and the provider itself reports no open circuit.
abbrev pub is_alone : StreamAttempt → Bool
is_alone a =
    all (λ (i : Item). no_calls i.during) a.items
    && no_calls a.during_end
    && no_calls a.during_sleep
    && no_circuit_open a.ended

abbrev pub Free : CircuitBreaker → Type 0
Free b = b.half_open_in_flight ≡ false

-- A lease is held by a half-open breaker only.
abbrev Leased : CircuitBreaker → Type 0
Leased b = b.half_open_in_flight ≡ true → b.state ≡ half_open

module _ (cp : CircuitBreakerPolicy) where
  run_nothing : (b : CircuitBreaker) (cs : List BreakerCall) → no_calls cs ≡ true → run cp b cs ≡ b
  unfolding run
  run_nothing b [] h = refl
  run_nothing b (c ∷ cs) h = cc

  admitted_lease : (b : CircuitBreaker) (now : ℕ) → Free b → Leased (before_call cp now b).1
  unfolding before_call
  admitted_lease b now h = ground arith

  refused-Free :
      (b : CircuitBreaker) (now : ℕ) (code : AgentFailureCode)
      → Free b
      → (before_call cp now b).0 ≡ raise code
      → Free (before_call cp now b).1
  unfolding before_call
  refused-Free b now code h r = ground arith

  failed-Free : (b : CircuitBreaker) (now : ℕ) → Free (record_failure cp now b)
  unfolding record_failure
  failed-Free b now = ground arith

  aborted-Free : (b : CircuitBreaker) → Leased b → Free (record_aborted b)
  unfolding record_aborted
  aborted-Free b h = ground arith

  on_event-breaker :
      (ty : ModelStreamEventType) (e : ModelStreamEvent) (c : Option ModelStreamEvent)
      (s : StreamState)
      → (on_event cp ty e (c, s)).1.breaker ≡ s.breaker
  unfolding on_event
  on_event-breaker completed e c s = refl
  on_event-breaker text_delta e c s = refl

  consume-breaker :
      (is : List Item) (c : Option ModelStreamEvent) (s : StreamState)
      → all (λ (i : Item). no_calls i.during) is ≡ true
      → (consume cp is (c, s)).1.breaker ≡ s.breaker
  unfolding consume
  consume-breaker [] c s h = refl
  consume-breaker (i ∷ is) c s h =
      let (now, later) = &&-eq-true _ _ h in
      let s' : StreamState = record s { breaker = run cp s.breaker i.during } in
      let (c1, s1) = on_event cp i.event.type i.event (c, s') in
      consume-breaker is c1 s1 later
      ∙ on_event-breaker i.event.type i.event c s'
      ∙ run_nothing s.breaker i.during now

module _ (cp : CircuitBreakerPolicy) (p : RetryPolicy) (deadline : ℕ) where
  pause-Free :
      (a : StreamAttempt) (delay : ℕ) (next : StreamState → Streamed) (s : StreamState)
      → no_calls a.during_sleep ≡ true
      → ((s' : StreamState) → Free s'.breaker → Free (next s').1.breaker)
      → Free s.breaker
      → Free (pause cp p deadline a delay next s).1.breaker
  unfolding pause resume
  pause-Free a delay next s quiet h v =
      let s' : StreamState = record s { breaker = run cp s.breaker a.during_sleep } in
      ground (arith, run_nothing cp s.breaker a.during_sleep quiet, h s')

  probe_again-Free :
      (a : StreamAttempt) (attempt : ℕ) (e : ProviderError) (next : StreamState → Streamed)
      (s : StreamState)
      → no_calls a.during_sleep ≡ true
      → ((s' : StreamState) → Free s'.breaker → Free (next s').1.breaker)
      → Free s.breaker
      → Free (probe_again cp p deadline a attempt e next s).1.breaker
  unfolding probe_again
  probe_again-Free a attempt e next s quiet h v =
      let b = (before_call cp a.again_at s.breaker).1 in
      let aborted = aborted-Free cp b (admitted_lease cp s.breaker a.again_at v) in
      ground (
        arith,
        gate_cases cp a.again_at s.breaker,
        refused-Free cp s.breaker a.again_at circuit_open v,
        pause-Free a (retry_delay e.retry_after attempt p a.random) next
            (record s { breaker = record_aborted b }) quiet h aborted,
      )

  on_error-Free :
      (admitted emitted : Bool) (e : ProviderError) (a : StreamAttempt) (attempt : ℕ)
      (next : StreamState → Streamed) (s : StreamState)
      → no_calls a.during_sleep ≡ true
      → ((s' : StreamState) → Free s'.breaker → Free (next s').1.breaker)
      → (admitted && not (is_circuit_open e.code) ≡ true) ⊎ Free s.breaker
      → Free (on_error cp p deadline admitted emitted e a attempt next s).1.breaker
  unfolding on_error
  on_error-Free admitted emitted e a attempt next s quiet h v =
      let b = record_failure cp a.failed_at s.breaker in
      let failed = failed-Free cp s.breaker a.failed_at in
      ground (
        arith,
        failed,
        probe_again-Free a attempt e next (record s { breaker = b }) quiet h failed,
        probe_again-Free a attempt e next s quiet h,
      )

  on_end-Free :
      (o : StreamEnd) (c : Option ModelStreamEvent) (a : StreamAttempt) (attempt : ℕ)
      (next : StreamState → Streamed) (s : StreamState)
      → no_circuit_open o ≡ true
      → no_calls a.during_sleep ≡ true
      → ((s' : StreamState) → Free s'.breaker → Free (next s').1.breaker)
      → Leased s.breaker
      → Free (on_end cp p deadline o c a attempt next s).1.breaker
  unfolding on_end is_circuit_open record_success
  on_end-Free exhausted (some e) a attempt next s n quiet h v = refl
  on_end-Free exhausted none a attempt next s n quiet h v =
      on_error-Free true (is_emitted a.items) _ a attempt next s quiet h (inl refl)
  on_end-Free stopped c a attempt next s n quiet h v = aborted-Free cp s.breaker v
  on_end-Free crashed c a attempt next s n quiet h v = failed-Free cp s.breaker a.failed_at
  on_end-Free (broken e) c a attempt next s n quiet h v =
      on_error-Free true (is_emitted a.items) e a attempt next s quiet h (inl n)

  stream_once-Free :
      (a : StreamAttempt) (attempt : ℕ) (next : StreamState → Streamed) (s : StreamState)
      → is_alone a ≡ true
      → ((s' : StreamState) → Free s'.breaker → Free (next s').1.breaker)
      → Free s.breaker
      → Free (stream_once cp p deadline a attempt next s).1.breaker
  unfolding stream_once read_stream
  stream_once-Free a attempt next s alone h v =
      let b = (before_call cp a.admitted_at s.breaker).1 in
      let s' : StreamState = record s { breaker = b } in
      let s1 : StreamState = record s' { opened = s.opened + 1 } in
      let (rest, honest) = &&-eq-true _ _ alone in
      let (rest2, asleep) = &&-eq-true _ _ rest in
      let (reading, ending) = &&-eq-true _ _ rest2 in
      let (c, t) = consume cp a.items (none, s1) in
      let kept =
        run_nothing cp t.breaker a.during_end ending ∙ consume-breaker cp a.items none s1 reading in
      elim (gate_cases cp a.admitted_at s.breaker) [
        | inl g ↦
            rw (g, stream_once)
              (on_error-Free false false _ a attempt next s' asleep h
                (inr (refused-Free cp s.breaker a.admitted_at circuit_open v g)))
        | inr g ↦
            rw (g, stream_once)
              (on_end-Free a.ended c a attempt next _ honest asleep h
                (subst Leased (sym kept) (admitted_lease cp s.breaker a.admitted_at v)))
      ]

  stream_attempts-Free :
      (world : ℕ → StreamAttempt) (left first : ℕ) (s : StreamState)
      → ((j : ℕ) → is_alone (world j) ≡ true)
      → Free s.breaker
      → Free (stream_attempts cp p deadline world left first s).1.breaker
  unfolding stream_attempts
  stream_attempts-Free world zero first s alone v = v
  stream_attempts-Free world (suc left) first s alone v =
      stream_once-Free (world first) first _ s (alone first)
        (λ s' free. stream_attempts-Free world left (suc first) s' alone free) v

  deliver-breaker : (end : Streamed) → (deliver cp p deadline end).1.breaker ≡ end.1.breaker
  unfolding deliver
  deliver-breaker (ok e, s) = refl
  deliver-breaker (raise e, s) = refl

  -- Unless another task calls the breaker meanwhile, or the provider itself reports an open circuit, a
  -- call of `stream` that finds no probe under way leaves none behind, whichever way it ends: also when
  -- it is cancelled, or ends in an error that may not be retried.
  pub stream-Free :
      (callable : Bool) (world : ℕ → StreamAttempt) (arrival : Arrival) (s : StreamState)
      → ((j : ℕ) → is_alone (world j) ≡ true)
      → arrival.during_wait ≡ []
      → Free s.breaker
      → Free (stream cp p deadline callable world arrival s).1.breaker
  unfolding stream run
  stream-Free callable world arrival s alone w v =
      let b = run cp s.breaker arrival.during_wait in
      let s' : StreamState = record s { breaker = b; permits = s.permits + 1 } in
      let same : b ≡ s.breaker = ap (run cp s.breaker) w in
      let free : Free b = ap (λ (b : CircuitBreaker). b.half_open_in_flight) same ∙ v in
      let end = stream_attempts cp p deadline world p.max_attempts 0 s' in
      ground (
        arith,
        free,
        ap (λ (b : CircuitBreaker). b.half_open_in_flight) (deliver-breaker end)
            ∙ stream_attempts-Free world p.max_attempts 0 s' alone free,
      )
