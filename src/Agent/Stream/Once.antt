-- ===== src/Agent/Stream/Once.antt =====
-- The events of `_stream` of src/mtbank_ai/agent_runtime/retry.py, and the streams that they come from.
use mtbank_ai_call_analytics.Prelude.{
  subst, ℕ, ◌+◌, ◌≡◌, refl, arith, Option, none, some, List, [], ◌∷◌, ◌++◌, append-nil,
  append_assoc, ok, raise, Result, ◌∙◌, sym, ◌⊎◌, inl, inr, true, false, Bool, if◌then◌else◌, not,
  ◌&&◌,
}
use mtbank_ai_call_analytics.Agent.Contracts.{
  ModelStreamEvent, ModelStreamEventType, text_delta, completed, circuit_open,
}
use mtbank_ai_call_analytics.Agent.Circuit.{
  CircuitBreakerPolicy, CircuitBreaker, before_call, record_failure, record_aborted,
}
use mtbank_ai_call_analytics.Agent.Circuit.Invariant.{run}
use mtbank_ai_call_analytics.Agent.Retry.{
  RetryPolicy, CallError, ProviderError, retry_delay, is_retryable,
}
use mtbank_ai_call_analytics.Agent.Stream.Defs.{
  is_circuit_open, Item, StreamEnd, exhausted, stopped, crashed, broken, StreamAttempt, StreamState,
  Streamed, is_emitted, on_event, consume, resume, pause, probe_again, on_error, on_end,
  read_stream, stream_once,
}

abbrev pub text_of : ModelStreamEventType → ModelStreamEvent → List ModelStreamEvent
text_of text_delta e = e ∷ []
text_of completed e = []

-- The events of a stream that are no completion.
abbrev pub texts : List Item → List ModelStreamEvent
texts [] = []
texts (i ∷ is) = text_of i.event.type i.event ++ texts is

abbrev pub later_completion :
    ModelStreamEventType → ModelStreamEvent → Option ModelStreamEvent → Option ModelStreamEvent
later_completion completed e none = some e
later_completion completed e (some e') = some e'
later_completion text_delta e c = c

-- The last completion of a stream.
abbrev pub last_completed : List Item → Option ModelStreamEvent
last_completed [] = none
last_completed (i ∷ is) = later_completion i.event.type i.event (last_completed is)

abbrev pub or_else : Option ModelStreamEvent → Option ModelStreamEvent → Option ModelStreamEvent
or_else none d = d
or_else (some e) d = some e

or_else-none : (c : Option ModelStreamEvent) → or_else c none ≡ c
or_else-none none = refl
or_else-none (some e) = refl

pub gate_cases :
    (cp : CircuitBreakerPolicy) (now : ℕ) (b : CircuitBreaker)
    → ((before_call cp now b).0 ≡ raise circuit_open) ⊎ ((before_call cp now b).0 ≡ ok tt)
unfolding before_call
gate_cases cp now b = ground arith

module _ (cp : CircuitBreakerPolicy) where
  -- What reading these events does, from a completed event and a state, when it yields `ys` and
  -- leaves the completed event `d`.
  abbrev pub Yields :
      Option ModelStreamEvent × StreamState
      → Option ModelStreamEvent × StreamState
      → List ModelStreamEvent
      → Option ModelStreamEvent
      → Type 0
  Yields (c, s) (c', s') ys d =
      (s'.yielded ≡ s.yielded ++ ys)
      × (s'.opened ≡ s.opened)
      × (s'.permits ≡ s.permits)
      × (c' ≡ or_else d c)

  on_event-Yields :
      (ty : ModelStreamEventType) (e : ModelStreamEvent) (c : Option ModelStreamEvent)
      (s : StreamState) (end : Option ModelStreamEvent × StreamState) (ys : List ModelStreamEvent)
      (d : Option ModelStreamEvent)
      → Yields (on_event cp ty e (c, s)) end ys d
      → Yields (c, s) end (text_of ty e ++ ys) (later_completion ty e d)
  unfolding on_event
  on_event-Yields completed e c s end ys none h = h
  on_event-Yields completed e c s end ys (some d) h = h
  on_event-Yields text_delta e c s end ys d h =
      (h.0 ∙ append_assoc s.yielded (e ∷ []) ys, h.1, h.2, h.3)

  pub consume-Yields :
      (is : List Item) (c : Option ModelStreamEvent) (s : StreamState)
      → Yields (c, s) (consume cp is (c, s)) (texts is) (last_completed is)
  unfolding consume
  consume-Yields [] c s = (sym (append-nil s.yielded), refl, refl, refl)
  consume-Yields (i ∷ is) c s =
      let s' : StreamState = record s { breaker = run cp s.breaker i.during } in
      let (c1, s1) = on_event cp i.event.type i.event (c, s') in
      on_event-Yields i.event.type i.event c s' (consume cp is (c1, s1)) (texts is)
        (last_completed is) (consume-Yields is c1 s1)

module _ (cp : CircuitBreakerPolicy) (p : RetryPolicy) (deadline : ℕ) where
  abbrev pub Same : StreamState → StreamState → Type 0
  Same s t = (t.opened ≡ s.opened) × (t.yielded ≡ s.yielded) × (t.permits ≡ s.permits)

  abbrev pub is_raised : Result CallError ModelStreamEvent → Bool
  is_raised (raise e) = true
  is_raised (ok e) = false

  -- The breaker after the failure of an admitted stream, after the second admission and after the sleep.
  abbrev pub failed_breaker : Bool → ProviderError → StreamAttempt → CircuitBreaker → CircuitBreaker
  failed_breaker admitted e a b =
      if admitted && not (is_circuit_open e.code) then record_failure cp a.failed_at b else b

  abbrev pub probed_breaker : StreamAttempt → CircuitBreaker → CircuitBreaker
  probed_breaker a b = record_aborted (before_call cp a.again_at b).1

  abbrev pub slept_breaker : StreamAttempt → CircuitBreaker → CircuitBreaker
  slept_breaker a b = run cp b a.during_sleep

  pause-cases :
      (a : StreamAttempt) (delay : ℕ) (next : StreamState → Streamed) (s : StreamState)
      → let end = pause cp p deadline a delay next s in
        (Same s end.1 × (is_raised end.0 ≡ true))
        ⊎ (end ≡ next (record s { breaker = slept_breaker a s.breaker }))
  unfolding pause resume
  pause-cases a delay next s = ground arith

  probe_again-cases :
      (a : StreamAttempt) (attempt : ℕ) (e : ProviderError) (next : StreamState → Streamed)
      (s : StreamState)
      → let end = probe_again cp p deadline a attempt e next s in
        (Same s end.1 × (is_raised end.0 ≡ true))
        ⊎ (end ≡ next (record s { breaker = slept_breaker a (probed_breaker a s.breaker) }))
  unfolding probe_again
  probe_again-cases a attempt e next s =
      let s' : StreamState = record s { breaker = probed_breaker a s.breaker } in
      ground (arith, pause-cases a (retry_delay e.retry_after attempt p a.random) next s')

  -- The rule of a handler: it raises and gives nothing to the consumer, or goes on with the loop
  -- after a stream that gave no event.
  on_error-cases :
      (admitted emitted : Bool) (e : ProviderError) (a : StreamAttempt) (attempt : ℕ)
      (next : StreamState → Streamed) (s : StreamState)
      → let end = on_error cp p deadline admitted emitted e a attempt next s in
        (Same s end.1 × (is_raised end.0 ≡ true))
        ⊎ ((emitted ≡ false)
            × (end
                ≡ next (record s {
                  breaker =
                      slept_breaker a (probed_breaker a (failed_breaker admitted e a s.breaker));
                })))
  unfolding on_error
  on_error-cases admitted emitted e a attempt next s =
      let s' : StreamState = record s { breaker = failed_breaker admitted e a s.breaker } in
      ground (arith, probe_again-cases a attempt e next s')

  -- What a completed event needs: the stream is exhausted, and this is the event that was kept.
  abbrev pub Closes :
      StreamEnd → Option ModelStreamEvent → Result CallError ModelStreamEvent → Type 0
  Closes o c (raise e) = Unit
  Closes o c (ok e) = (o ≡ exhausted) × (c ≡ some e)

  Closes-raised :
      (o : StreamEnd) (c : Option ModelStreamEvent) (r : Result CallError ModelStreamEvent)
      → is_raised r ≡ true
      → Closes o c r
  Closes-raised o c (raise e) h = tt
  Closes-raised o c (ok e) h = cc

  Closes-kept :
      (o : StreamEnd) (r : Result CallError ModelStreamEvent) {c d : Option ModelStreamEvent}
      → c ≡ d
      → Closes o c r
      → Closes o d r
  Closes-kept o r q h = subst (λ (c : Option ModelStreamEvent). Closes o c r) q h

  abbrev pub Goes : Streamed → Bool → (StreamState → Streamed) → StreamState → Type 0
  Goes end emitted next s =
      (b : CircuitBreaker) × (emitted ≡ false) × (end ≡ next (record s { breaker = b }))

  on_error-Closes :
      (o : StreamEnd) (c : Option ModelStreamEvent) (admitted emitted : Bool) (e : ProviderError)
      (a : StreamAttempt) (attempt : ℕ) (next : StreamState → Streamed) (s : StreamState)
      → let end = on_error cp p deadline admitted emitted e a attempt next s in
        (Same s end.1 × Closes o c end.0) ⊎ Goes end emitted next s
  on_error-Closes o c admitted emitted e a attempt next s =
      elim (on_error-cases admitted emitted e a attempt next s) [
        | inl h ↦ inl (h.0, Closes-raised o c _ h.1)
        | inr h ↦
            inr
              (slept_breaker a (probed_breaker a (failed_breaker admitted e a s.breaker)), h.0, h.1)
      ]

  on_end-cases :
      (o : StreamEnd) (c : Option ModelStreamEvent) (a : StreamAttempt) (attempt : ℕ)
      (next : StreamState → Streamed) (s : StreamState)
      → let end = on_end cp p deadline o c a attempt next s in
        (Same s end.1 × Closes o c end.0) ⊎ Goes end (is_emitted a.items) next s
  unfolding on_end
  on_end-cases exhausted (some e) a attempt next s = inl ((refl, refl, refl), (refl, refl))
  on_end-cases exhausted none a attempt next s =
      on_error-Closes exhausted none true (is_emitted a.items) _ a attempt next s
  on_end-cases stopped c a attempt next s = inl ((refl, refl, refl), tt)
  on_end-cases crashed c a attempt next s = inl ((refl, refl, refl), tt)
  on_end-cases (broken e) c a attempt next s =
      on_error-Closes (broken e) c true (is_emitted a.items) e a attempt next s

  -- An opened stream: the round ends with its events, or the loop goes on after a silent stream.
  abbrev pub Opened : StreamAttempt → (StreamState → Streamed) → StreamState → Streamed → Type 0
  Opened a next s end =
      ((end.1.opened ≡ s.opened + 1)
        × (end.1.yielded ≡ s.yielded ++ texts a.items)
        × (end.1.permits ≡ s.permits)
        × Closes a.ended (last_completed a.items) end.0)
      ⊎ ((s' : StreamState) × (is_emitted a.items ≡ false)
          × (s'.opened ≡ s.opened + 1)
          × (s'.yielded ≡ s.yielded ++ texts a.items)
          × (s'.permits ≡ s.permits)
          × (end ≡ next s'))

  read_stream-cases :
      (a : StreamAttempt) (attempt : ℕ) (next : StreamState → Streamed) (s : StreamState)
      → Opened a next s (read_stream cp p deadline a attempt next s)
  unfolding read_stream
  read_stream-cases a attempt next s =
      let s1 : StreamState = record s { opened = s.opened + 1 } in
      let y = consume-Yields cp a.items none s1 in
      let t = (consume cp a.items (none, s1)).1 in
      let s2 : StreamState = record t { breaker = run cp t.breaker a.during_end } in
      elim (on_end-cases a.ended (consume cp a.items (none, s1)).0 a attempt next s2) [
        | inl h ↦ inl (
          h.0.0 ∙ y.1,
          h.0.1 ∙ y.0,
          h.0.2 ∙ y.2,
          Closes-kept a.ended _ (y.3 ∙ or_else-none (last_completed a.items)) h.1,
        )
        | inr h ↦ inr (record s2 { breaker = h.0 }, h.1, y.1, y.0, y.2, h.2)
      ]

  pub stream_once-cases :
      (a : StreamAttempt) (attempt : ℕ) (next : StreamState → Streamed) (s : StreamState)
      → let end = stream_once cp p deadline a attempt next s in
        (Same s end.1 × (is_raised end.0 ≡ true)) ⊎ Opened a next s end
  unfolding stream_once on_error is_retryable is_circuit_open
  stream_once-cases a attempt next s =
      let s' : StreamState = record s { breaker = (before_call cp a.admitted_at s.breaker).1 } in
      elim (gate_cases cp a.admitted_at s.breaker) [
        | inl h ↦ rw (h, stream_once) (inl ((refl, refl, refl), refl))
        | inr h ↦ rw (h, stream_once) (inr (read_stream-cases a attempt next s'))
      ]
