-- ===== src/Speech/Rolling/Budget.antt =====
-- What the rolling session of services/speech/streaming.py spends on transcriptions and keeps in
-- memory.
use mtbank_ai_call_analytics.Prelude.{
  ℕ, ◌+◌, ◌≤◌, ◌≡◌, refl, ap, arith, Bool, true, false, ◌||◌, List, [], ◌∷◌, ◌++◌, length, ltb, leb,
  Result, ok, raise, if_both, if_cases,
}
use mtbank_ai_call_analytics.Speech.Rolling.Defs.{
  Limits, Session, StreamingUpdate, Failure, Transcription, Answer, commit, compare_tokens,
  stable_updates, take_answer, rolling_update, store_pcm, consume_pcm, decode, Push,
  consume_decoded, push,
}
use mtbank_ai_call_analytics.Speech.Rolling.Finishing.{
  Finish, finish_decoder, flush_ring, finish_tail, finish_open, finish, Operation, pushing,
  finishing, closing, operate, operate_all, close_updates, flush_after,
}
use mtbank_ai_call_analytics.Speech.Rolling.Ring.{trim_split}

-- The bounds of a session.
pub record IsBounded (limits : Limits) (s : Session) : Type 0 where
  pub calls : s.rolling_calls ≤ limits.max_rolling_calls
  pub audio : s.rolling_audio ≤ limits.max_rolling_audio
  pub ring : length s.speech_ring ≤ limits.rolling_window_bytes
  pub cadence : s.last_rolling_bytes ≤ s.received_pcm_bytes

abbrev Quiet : Session → Session → Type 0
Quiet s t =
    (t.rolling_calls ≡ s.rolling_calls)
    × (t.rolling_audio ≡ s.rolling_audio)
    × (t.speech_ring ≡ s.speech_ring)
    × (t.last_rolling_bytes ≡ s.last_rolling_bytes)
    × (t.received_pcm_bytes ≡ s.received_pcm_bytes)

IsBounded-Quiet :
    (limits : Limits) (s t : Session) → Quiet s t → IsBounded limits s → IsBounded limits t
IsBounded-Quiet limits s t q v = record {
  calls = omega (arith, q.0, v.calls);
  audio = omega (arith, q.1, v.audio);
  ring = omega (arith, ap length q.2, v.ring);
  cadence = omega (arith, q.3, q.4, v.cadence);
}

take_answer-Quiet :
    (limits : Limits) (answer : Transcription) (sequence : ℕ) (s : Session)
    → Quiet s (take_answer limits answer sequence s).1
unfolding take_answer stable_updates compare_tokens commit
take_answer-Quiet limits answer sequence s = ground arith

abbrev BoundedAfter : Limits → Answer → Type 0
BoundedAfter limits a = IsBounded limits a.1

take_answer-IsBounded :
    (limits : Limits) (answer : Transcription) (sequence : ℕ) (s : Session)
    → IsBounded limits s
    → IsBounded limits (take_answer limits answer sequence s).1
take_answer-IsBounded limits answer sequence s v =
    IsBounded-Quiet limits s _ (take_answer-Quiet limits answer sequence s) v

rolling_update-IsBounded :
    (limits : Limits) (answer : Transcription) (sequence : ℕ) (s : Session)
    → IsBounded limits s
    → IsBounded limits (rolling_update limits answer sequence s).1
unfolding rolling_update
rolling_update-IsBounded limits answer sequence s v =
    let s' : Session = record s {
      rolling_calls = s.rolling_calls + 1;
      rolling_audio = s.rolling_audio + length s.speech_ring;
    } in
    let spent =
      leb limits.max_rolling_calls s.rolling_calls
      || ltb limits.max_rolling_audio (s.rolling_audio + length s.speech_ring) in
    if_both (BoundedAfter limits) _ v (
      if_cases (BoundedAfter limits) spent
        (record { calls = v.calls; audio = v.audio; ring = v.ring; cadence = v.cadence })
        (λ h. take_answer-IsBounded limits answer sequence s' (record {
          calls = ground (arith, h);
          audio = ground (arith, h);
          ring = v.ring;
          cadence = v.cadence;
        })))

store_pcm-IsBounded :
    (limits : Limits) (pcm : List ℕ) (s : Session)
    → IsBounded limits s
    → IsBounded limits (store_pcm limits pcm s)
unfolding store_pcm
store_pcm-IsBounded limits pcm s v =
    let count = (trim_split limits.rolling_window_bytes (s.speech_ring ++ pcm)).2 in
    record {
      calls = v.calls;
      audio = v.audio;
      ring = omega (arith, count);
      cadence = omega (arith, v.cadence);
    }

consume_pcm-IsBounded :
    (limits : Limits) (pcm : List ℕ) (sequence : ℕ) (force : Bool) (answer : Transcription)
    (s : Session)
    → IsBounded limits s
    → IsBounded limits (consume_pcm limits pcm sequence force answer s).1
unfolding consume_pcm
consume_pcm-IsBounded limits pcm sequence force answer s v =
    let s' = store_pcm limits pcm s in
    let stored = store_pcm-IsBounded limits pcm s v in
    let s2 : Session = record s' { last_rolling_bytes = s'.received_pcm_bytes } in
    let due : IsBounded limits s2 = record {
      calls = stored.calls;
      audio = stored.audio;
      ring = stored.ring;
      cadence = omega arith;
    } in
    let last = rolling_update-IsBounded limits answer sequence s2 due in
    ground (arith, v, stored, last)

consume_decoded-IsBounded :
    (limits : Limits) (d : Result Failure (List ℕ)) (sequence : ℕ) (force : Bool)
    (answer : Transcription) (s : Session)
    → IsBounded limits s
    → IsBounded limits (consume_decoded limits d sequence force answer s).1
unfolding consume_decoded
consume_decoded-IsBounded limits (raise e) sequence force answer s v = v
consume_decoded-IsBounded limits (ok pcm) sequence force answer s v =
    consume_pcm-IsBounded limits pcm sequence force answer s v

push-IsBounded :
    (limits : Limits) (i : Push) (s : Session)
    → IsBounded limits s
    → IsBounded limits (push limits i s).1
unfolding push
push-IsBounded limits i s v =
    let s' : Session = record s {
      first_frame = false;
      last_sequence = i.sequence;
      bytes_received = s.bytes_received + length i.frame;
    } in
    let same = IsBounded-Quiet limits s s' (refl, refl, refl, refl, refl) v in
    let last =
      consume_decoded-IsBounded limits (decode s.start.codec i.frame i.decoded) i.sequence false
        i.answer s' same in
    ground (arith, v, same, last)

after_flush :
    (limits : Limits) (updates : List StreamingUpdate) (a : Answer)
    → IsBounded limits a.1
    → IsBounded limits (close_updates updates a).1
unfolding close_updates
after_flush limits updates (raise e, s) v = v
after_flush limits updates (ok us, s) v = v

flush_ring-IsBounded :
    (limits : Limits) (f : Finish) (pcm : List ℕ) (updates : List StreamingUpdate) (s : Session)
    → IsBounded limits s
    → IsBounded limits (flush_ring limits f pcm updates s).1
unfolding flush_ring
flush_ring-IsBounded limits f pcm updates s v =
    let s2 : Session = record s { last_rolling_bytes = s.received_pcm_bytes } in
    let due : IsBounded limits s2 = record {
      calls = v.calls;
      audio = v.audio;
      ring = v.ring;
      cadence = omega arith;
    } in
    if_both (BoundedAfter limits) _
      (after_flush limits updates _
        (rolling_update-IsBounded limits f.last_answer s.last_sequence s2 due))
      v

after_first :
    (limits : Limits) (f : Finish) (pcm : List ℕ) (a : Answer)
    → IsBounded limits a.1
    → IsBounded limits (flush_after limits f pcm a).1
unfolding flush_after
after_first limits f pcm (raise e, s) v = v
after_first limits f pcm (ok us, s) v = flush_ring-IsBounded limits f pcm us s v

finish_tail-IsBounded :
    (limits : Limits) (f : Finish) (d : Result Failure (List ℕ)) (s : Session)
    → IsBounded limits s
    → IsBounded limits (finish_tail limits f d s).1
unfolding finish_tail
finish_tail-IsBounded limits f (raise e) s v = v
finish_tail-IsBounded limits f (ok pcm) s v =
    after_first limits f pcm _ (consume_pcm-IsBounded limits pcm s.last_sequence true f.answer s v)

finish-IsBounded :
    (limits : Limits) (f : Finish) (s : Session)
    → IsBounded limits s
    → IsBounded limits (finish limits f s).1
unfolding finish finish_open
finish-IsBounded limits f s v =
    let t = (finish_open limits f s).1 in
    let inner : IsBounded limits t =
      if_both (BoundedAfter limits) _ v
        (finish_tail-IsBounded limits f (finish_decoder s.start.codec f.tail) s v) in
    if_both (BoundedAfter limits) _ v
      (IsBounded-Quiet limits t (record t { closed = true }) (refl, refl, refl, refl, refl) inner)

-- A session within its bounds stays within them, whatever calls of `push`, `finish` and `close` follow,
-- and however they end: it makes at most the allowed number of transcriptions, of at most the allowed
-- amount of sound, its ring is no longer than the window, and the mark of the last transcription never
-- passes the bytes received.
pub operate_all-IsBounded :
    (limits : Limits) (os : List Operation) (s : Session)
    → IsBounded limits s
    → IsBounded limits (operate_all limits os s)
unfolding operate_all operate
operate_all-IsBounded limits [] s v = v
operate_all-IsBounded limits (pushing i ∷ os) s v =
    operate_all-IsBounded limits os _ (push-IsBounded limits i s v)
operate_all-IsBounded limits (finishing f ∷ os) s v =
    operate_all-IsBounded limits os _ (finish-IsBounded limits f s v)
operate_all-IsBounded limits (closing ∷ os) s v =
    operate_all-IsBounded limits os _
      (IsBounded-Quiet limits s (record s { closed = true }) (refl, refl, refl, refl, refl) v)
