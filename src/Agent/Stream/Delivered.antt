-- ===== src/Agent/Stream/Delivered.antt =====
-- What a consumer of `stream` of src/mtbank_ai/agent_runtime/retry.py receives.
use mtbank_ai_call_analytics.Prelude.{
  ℕ, ◌+◌, ◌≤◌, ◌<◌, ◌≡◌, refl, arith, Option, none, some, List, [], ◌∷◌, ◌++◌, append-nil,
  append_assoc, ok, raise, Result, ◌∙◌, ap, sym, inl, inr, true, false, Bool, is_some, Option-cases,
  Bool-cases,
}
use mtbank_ai_call_analytics.Agent.Contracts.{ModelStreamEvent}
use mtbank_ai_call_analytics.Agent.Circuit.{CircuitBreakerPolicy}
use mtbank_ai_call_analytics.Agent.Circuit.Invariant.{run}
use mtbank_ai_call_analytics.Agent.Retry.{RetryPolicy, Arrival, CallError, remaining}
use mtbank_ai_call_analytics.Agent.Stream.Defs.{
  exhausted, StreamAttempt, StreamState, Streamed, is_emitted, deliver, stream,
}
use mtbank_ai_call_analytics.Agent.Stream.Once.{last_completed}
use mtbank_ai_call_analytics.Agent.Stream.Streams.{
  given_by, IsOneStream, stream_attempts-IsOneStream,
}

-- The completed event, after a run that returns.
abbrev pub completion :
    Result CallError (Unit {0}) → Option ModelStreamEvent → List ModelStreamEvent
completion (raise e) c = []
completion (ok _) none = []
completion (ok _) (some e) = e ∷ []

-- A whole run of `stream`: all streams that were opened but the last gave no event, the consumer has
-- received what the last one gave, and after a run that returns the last completion of that stream.
pub record IsDelivered (world : ℕ → StreamAttempt) (most : ℕ) (s : StreamState)
    (end : Result CallError (Unit {0}) × StreamState) : Type 0 where
  pub count : ℕ
  pub last : ℕ
  pub placed : 0 < count → last + 1 ≡ count
  pub counted : end.1.opened ≡ s.opened + count
  pub bounded : count ≤ most
  pub silent : (j : ℕ) → j + 1 < count → is_emitted (world j).items ≡ false
  pub received :
      end.1.yielded
      ≡ s.yielded
        ++ (given_by world count last ++ completion end.0 (last_completed (world last).items))
  pub restored : end.1.permits ≡ s.permits
  pub closing :
      end.0 ≡ ok tt
      → (0 < count)
        × (is_some (last_completed (world last).items) ≡ true)
        × ((world last).ended ≡ exhausted)

deliver-IsDelivered :
    (cp : CircuitBreakerPolicy) (p : RetryPolicy) (deadline : ℕ) (world : ℕ → StreamAttempt)
    (most : ℕ) (s s' : StreamState) (end : Streamed)
    → s'.opened ≡ s.opened
    → s'.yielded ≡ s.yielded
    → s'.permits ≡ s.permits + 1
    → IsOneStream world 0 most s' end
    → IsDelivered world most s (deliver cp p deadline end)
unfolding deliver
deliver-IsDelivered cp p deadline world most s s' (raise c, t) o y m v = record {
  count = v.count;
  last = v.last;
  placed = λ h. omega (arith, v.placed h);
  counted = omega (arith, o, v.counted);
  bounded = v.bounded;
  silent = λ j l. v.silent j (omega arith) (omega (arith, l));
  received =
      v.received
      ∙ ap (λ (ys : List ModelStreamEvent). ys ++ given_by world v.count v.last) y
      ∙ ap (λ (ys : List ModelStreamEvent). s.yielded ++ ys)
          (sym (append-nil (given_by world v.count v.last)));
  restored = omega (arith, m, v.restored);
  closing = λ h. cc;
}
deliver-IsDelivered cp p deadline world most s s' (ok e, t) o y m v =
    let (n, kept, done) = v.closing e refl in
    record {
      count = v.count;
      last = v.last;
      placed = λ h. omega (arith, v.placed h);
      counted = omega (arith, o, v.counted);
      bounded = v.bounded;
      silent = λ j l. v.silent j (omega arith) (omega (arith, l));
      received = rw (kept) (
          ap (λ (ys : List ModelStreamEvent). ys ++ e ∷ [])
            (v.received
              ∙ ap (λ (ys : List ModelStreamEvent). ys ++ given_by world v.count v.last) y)
          ∙ append_assoc s.yielded (given_by world v.count v.last) (e ∷ []));
      restored = omega (arith, m, v.restored);
      closing = λ h. (n, ap is_some kept, done);
    }

untouched :
    (world : ℕ → StreamAttempt) (most : ℕ) (s t : StreamState) (c : CallError)
    → t.opened ≡ s.opened
    → t.yielded ≡ s.yielded
    → t.permits ≡ s.permits
    → IsDelivered world most s (raise c, t)
untouched world most s t c o y q = record {
  count = 0;
  last = 0;
  placed = λ h. absurd (omega (arith, h));
  counted = omega (arith, o);
  bounded = omega arith;
  silent = λ j l. absurd (omega (arith, l));
  received = y ∙ sym (append-nil s.yielded);
  restored = q;
  closing = λ h. cc;
}

-- One call of `stream`, in whatever way it ends: it opens at most `max_attempts` streams of the
-- provider, and a stream that gave an event is the last; what the consumer receives are the events of
-- that one stream that are no completion, in their order, followed by its last completion if the call
-- returns, which it does only after that stream was exhausted; and the call gives its permit back.
pub stream-IsDelivered :
    (cp : CircuitBreakerPolicy) (p : RetryPolicy) (deadline : ℕ) (callable : Bool)
    (world : ℕ → StreamAttempt) (arrival : Arrival) (s : StreamState)
    → IsDelivered world p.max_attempts s (stream cp p deadline callable world arrival s)
unfolding stream
stream-IsDelivered cp p deadline false world arrival s =
    untouched world p.max_attempts s s _ refl refl refl
stream-IsDelivered cp p deadline true world arrival s =
    elim (Option-cases (remaining deadline arrival.now)) [
      | inl h ↦ rw (h) (untouched world p.max_attempts s s _ refl refl refl)
      | inr h ↦ rw (h.1) (elim (Bool-cases arrival.acquired) [
        | inl a ↦ rw (a) (
            let s' : StreamState = record s {
              breaker = run cp s.breaker arrival.during_wait;
              permits = s.permits + 1;
            } in
            deliver-IsDelivered cp p deadline world p.max_attempts s s' _ refl refl refl
              (stream_attempts-IsOneStream cp p deadline world p.max_attempts 0 s'))
        | inr a ↦ rw (a) (untouched world p.max_attempts s _ _ refl refl refl)
      ])
    ]
