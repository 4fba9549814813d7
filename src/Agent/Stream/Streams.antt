-- ===== src/Agent/Stream/Streams.antt =====
-- The streams that the rounds of `stream` of src/mtbank_ai/agent_runtime/retry.py open.
use mtbank_ai_call_analytics.Prelude.{
  ℕ, zero, suc, ◌+◌, ◌≤◌, ◌<◌, ◌≡◌, refl, arith, Option, some, List, [], ◌∷◌, ◌++◌, append-nil, ok,
  raise, Result, ◌∙◌, ap, sym, ◌⊎◌, inl, inr, true, false, subst, ◌≢◌,
}
use mtbank_ai_call_analytics.Agent.Contracts.{ModelStreamEvent}
use mtbank_ai_call_analytics.Agent.Circuit.{CircuitBreakerPolicy}
use mtbank_ai_call_analytics.Agent.Retry.{RetryPolicy, CallError}
use mtbank_ai_call_analytics.Agent.Stream.Defs.{
  Item, StreamEnd, exhausted, StreamAttempt, StreamState, Streamed, is_emitted, stream_attempts,
}
use mtbank_ai_call_analytics.Agent.Stream.Once.{
  texts, last_completed, Same, is_raised, Closes, stream_once-cases,
}

-- The events that the consumer has from `count` streams, the last of them opened by round `last`.
abbrev pub given_by : (ℕ → StreamAttempt) → ℕ → ℕ → List ModelStreamEvent
given_by world zero last = []
given_by world (suc n) last = texts (world last).items

-- Rounds of the loop from `first` on, that ended in this way: `count` streams were opened, all but
-- the last gave no event, and the consumer has received what the last one gave.
pub record IsOneStream (world : ℕ → StreamAttempt) (first left : ℕ) (s : StreamState)
    (end : Streamed) : Type 0 where
  pub count : ℕ
  pub last : ℕ
  pub placed : 0 < count → last + 1 ≡ first + count
  pub counted : end.1.opened ≡ s.opened + count
  pub bounded : count ≤ left
  pub silent : (j : ℕ) → first ≤ j → j + 1 < first + count → is_emitted (world j).items ≡ false
  pub received : end.1.yielded ≡ s.yielded ++ given_by world count last
  pub restored : end.1.permits ≡ s.permits
  pub closing :
      (e : ModelStreamEvent)
      → end.0 ≡ ok e
      → (0 < count)
        × (last_completed (world last).items ≡ some e)
        × ((world last).ended ≡ exhausted)

-- The round that opened the last of one stream more, when the first of them gave nothing.
abbrev later : ℕ → ℕ → ℕ → ℕ
later first zero last = first
later first (suc n) last = last

silent_texts : (is : List Item) → is_emitted is ≡ false → texts is ≡ []
unfolding is_emitted
silent_texts [] h = refl
silent_texts (i ∷ is) h = cc

given_later :
    (world : ℕ → StreamAttempt) (first n last : ℕ)
    → is_emitted (world first).items ≡ false
    → given_by world (suc n) (later first n last) ≡ given_by world n last
given_later world first zero last h = silent_texts (world first).items h
given_later world first (suc n) last h = refl

later_placed :
    (first n last : ℕ) → (0 < n → last + 1 ≡ suc first + n) → later first n last + 1 ≡ first + suc n
later_placed first zero last h = omega arith
later_placed first (suc n) last h = omega (arith, h (omega arith))

later_of : (first n last : ℕ) → 0 < n → later first n last ≡ last
later_of first zero last h = absurd (omega (arith, h))
later_of first (suc n) last h = refl

eqb_cases : (m n : ℕ) → (m ≡ n) ⊎ (m ≢ n)
eqb_cases m n = ground arith

module _ (cp : CircuitBreakerPolicy) (p : RetryPolicy) (deadline : ℕ) where
  raised_not_ok :
      (r : Result CallError ModelStreamEvent) (e : ModelStreamEvent)
      → is_raised cp p deadline r ≡ true
      → r ≢ ok e
  raised_not_ok (raise c) e h q = cc
  raised_not_ok (ok d) e h q = cc

  closed_by :
      (o : StreamEnd) (c : Option ModelStreamEvent) (r : Result CallError ModelStreamEvent)
      (e : ModelStreamEvent)
      → Closes cp p deadline o c r
      → r ≡ ok e
      → (c ≡ some e) × (o ≡ exhausted)
  closed_by o c r e h q =
      subst
        (λ (r : Result CallError ModelStreamEvent).
          Closes cp p deadline o c r → (c ≡ some e) × (o ≡ exhausted))
        (sym q) (λ v. (v.1, v.0)) h

  nothing_opened :
      (world : ℕ → StreamAttempt) (first left : ℕ) (s : StreamState) (end : Streamed)
      → Same cp p deadline s end.1
      → is_raised cp p deadline end.0 ≡ true
      → IsOneStream world first left s end
  nothing_opened world first left s end same r = record {
    count = 0;
    last = 0;
    placed = λ h. absurd (omega (arith, h));
    counted = omega (arith, same.0);
    bounded = omega arith;
    silent = λ j f l. absurd (omega (arith, f, l));
    received = same.1 ∙ sym (append-nil s.yielded);
    restored = same.2;
    closing = λ e h. absurd (raised_not_ok end.0 e r h);
  }

  last_opened :
      (world : ℕ → StreamAttempt) (first left : ℕ) (s : StreamState) (end : Streamed)
      → end.1.opened ≡ s.opened + 1
      → end.1.yielded ≡ s.yielded ++ texts (world first).items
      → end.1.permits ≡ s.permits
      → Closes cp p deadline (world first).ended (last_completed (world first).items) end.0
      → IsOneStream world first (suc left) s end
  last_opened world first left s end o y q c = record {
    count = 1;
    last = first;
    placed = λ h. refl;
    counted = o;
    bounded = omega arith;
    silent = λ j f l. absurd (omega (arith, f, l));
    received = y;
    restored = q;
    closing = λ e h. let (kept, done) = closed_by _ _ _ e c h in (omega arith, kept, done);
  }

  silent_from :
      (world : ℕ → StreamAttempt) (first : ℕ) (s' : StreamState) (left : ℕ) (end : Streamed)
      (v : IsOneStream world (suc first) left s' end)
      → is_emitted (world first).items ≡ false
      → (j : ℕ) → first ≤ j
      → j + 1 < first + suc v.count
      → is_emitted (world j).items ≡ false
  silent_from world first s' left end v q j f l = elim (eqb_cases first j) [
    | inl h ↦ subst (λ k. is_emitted (world k).items ≡ false) h q
    | inr h ↦ v.silent j (omega (arith, f, h)) (omega (arith, l))
  ]

  silent_opened :
      (world : ℕ → StreamAttempt) (first left : ℕ) (s s' : StreamState) (end : Streamed)
      → is_emitted (world first).items ≡ false
      → s'.opened ≡ s.opened + 1
      → s'.yielded ≡ s.yielded ++ texts (world first).items
      → s'.permits ≡ s.permits
      → IsOneStream world (suc first) left s' end
      → IsOneStream world first (suc left) s end
  silent_opened world first left s s' end q o y m v = record {
    count = suc v.count;
    last = later first v.count v.last;
    placed = λ h. later_placed first v.count v.last v.placed;
    counted = omega (arith, o, v.counted);
    bounded = omega (arith, v.bounded);
    silent = λ j f l. silent_from world first s' left end v q j f l;
    received =
        v.received
        ∙ ap (λ (ys : List ModelStreamEvent). ys ++ given_by world v.count v.last)
            (y
              ∙ ap (λ (ys : List ModelStreamEvent). s.yielded ++ ys)
                  (silent_texts (world first).items q)
              ∙ append-nil s.yielded)
        ∙ ap (λ (ys : List ModelStreamEvent). s.yielded ++ ys)
            (sym (given_later world first v.count v.last q));
    restored = v.restored ∙ m;
    closing = λ e h.
        let (n, c, o) = v.closing e h in
        (
          omega arith,
          rw (later_of first v.count v.last n) (c),
          rw (later_of first v.count v.last n) (o),
        );
  }

  pub stream_attempts-IsOneStream :
      (world : ℕ → StreamAttempt) (left first : ℕ) (s : StreamState)
      → IsOneStream world first left s (stream_attempts cp p deadline world left first s)
  unfolding stream_attempts
  stream_attempts-IsOneStream world zero first s =
      nothing_opened world first 0 s _ (refl, refl, refl) refl
  stream_attempts-IsOneStream world (suc left) first s =
      elim (stream_once-cases cp p deadline (world first) first
        (λ s'. stream_attempts cp p deadline world left (suc first) s') s) [
          | inl h ↦ nothing_opened world first (suc left) s _ h.0 h.1
          | inr (inl h) ↦ last_opened world first left s _ h.0 h.1 h.2 h.3
          | inr (inr h) ↦ silent_opened world first left s h.0 _ h.1 h.2 h.3 h.4 (
              subst (λ (end : Streamed). IsOneStream world (suc first) left h.0 end) (sym h.5)
                (stream_attempts-IsOneStream world left (suc first) h.0))
        ]
