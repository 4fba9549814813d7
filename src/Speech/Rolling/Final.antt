-- ===== src/Speech/Rolling/Final.antt =====
-- The updates of the rolling session of services/speech/streaming.py.
use mtbank_ai_call_analytics.Prelude.{
  ℕ, ◌+◌, ◌≡◌, refl, sym, ap, ◌∙◌, arith, Bool, true, false, not, String, string_eq, List, [], ◌∷◌,
  ◌++◌, length, ltb, eqb, Result, ok, raise, Bool-cases, inl, inr, subst, all, all-append, ◌&&◌,
  &&-eq-true, beq_refl, if◌then◌else◌,
}
use mtbank_ai_call_analytics.Speech.Rolling.Defs.{
  Limits, Session, StreamingUpdate, Failure, Transcription, Answer, commit, compare_tokens,
  stable_updates, take_answer, rolling_update, store_pcm, consume_pcm,
}
use mtbank_ai_call_analytics.Speech.Rolling.Finishing.{
  Finish, finish_decoder, same_text, mark_final, with_final, flush_ring, finish_tail, finish_open,
  finish, is_nothing, close_updates, flush_after,
}

abbrev pub is_open : StreamingUpdate → Bool
is_open u = not u.final

-- The last of the updates, and no other, is final, and has this text.
abbrev pub closes_with : List String → List StreamingUpdate → Bool
closes_with text [] = false
closes_with text (u ∷ []) = u.final && same_text u.text text
closes_with text (u ∷ v ∷ us) = is_open u && closes_with text (v ∷ us)

same_text_refl : (ts : List String) → same_text ts ts ≡ true
unfolding same_text
same_text_refl [] = refl
same_text_refl (t ∷ ts) = ground (arith, same_text_refl ts, beq_refl t)

closes_cons :
    (text : List String) (u : StreamingUpdate) (us : List StreamingUpdate)
    → is_open u ≡ true
    → closes_with text us ≡ true
    → closes_with text (u ∷ us) ≡ true
closes_cons text u [] o h = cc
closes_cons text u (v ∷ us) o h = rw (o) h

mark_final-closes :
    (us : List StreamingUpdate) (last : StreamingUpdate)
    → all is_open us ≡ true
    → last.final ≡ true
    → closes_with last.text (mark_final us last) ≡ true
unfolding mark_final
mark_final-closes [] last h f = rw (f) (same_text_refl last.text)
mark_final-closes (u ∷ []) last h f = elim (Bool-cases (same_text u.text last.text)) [
  | inl e ↦ rw (e, e) refl
  | inr e ↦ rw (e) (ground (arith, h, f, same_text_refl last.text))
]
mark_final-closes (u ∷ v ∷ us) last h f =
    let (now, later) = &&-eq-true _ _ h in
    closes_cons last.text u (mark_final (v ∷ us) last) now (mark_final-closes (v ∷ us) last later f)

take_answer-open :
    (limits : Limits) (answer : Transcription) (sequence : ℕ) (s t : Session)
    (us : List StreamingUpdate)
    → take_answer limits answer sequence s ≡ (ok us, t)
    → all is_open us ≡ true
unfolding take_answer stable_updates compare_tokens commit
take_answer-open limits answer sequence s t us h = ground arith

rolling_update-open :
    (limits : Limits) (answer : Transcription) (sequence : ℕ) (s t : Session)
    (us : List StreamingUpdate)
    → rolling_update limits answer sequence s ≡ (ok us, t)
    → all is_open us ≡ true
unfolding rolling_update
rolling_update-open limits answer sequence s t us h =
    let s' : Session = record s {
      rolling_calls = s.rolling_calls + 1;
      rolling_audio = s.rolling_audio + length s.speech_ring;
    } in
    ground (arith, take_answer-open limits answer sequence s' t us)

consume_pcm-open :
    (limits : Limits) (pcm : List ℕ) (sequence : ℕ) (force : Bool) (answer : Transcription)
    (s t : Session) (us : List StreamingUpdate)
    → consume_pcm limits pcm sequence force answer s ≡ (ok us, t)
    → all is_open us ≡ true
unfolding consume_pcm
consume_pcm-open limits pcm sequence force answer s t us h =
    let s' = store_pcm limits pcm s in
    let s2 : Session = record s' { last_rolling_bytes = s'.received_pcm_bytes } in
    ground (arith, rolling_update-open limits answer sequence s2 t us)

-- The updates of a session that is finished with this latest text.
abbrev pub is_concluded : List String → List StreamingUpdate → Bool
is_concluded text us = if is_nothing text then all is_open us else closes_with text us

with_final-is_concluded :
    (s : Session) (us : List StreamingUpdate)
    → all is_open us ≡ true
    → is_concluded s.latest_text (with_final s us) ≡ true
unfolding with_final
with_final-is_concluded s us h = elim (Bool-cases (is_nothing s.latest_text)) [
  | inl e ↦ rw (e) h
  | inr e ↦ rw (e) (mark_final-closes us _ h refl)
]

concluded_updates :
    (s t : Session) (us vs : List StreamingUpdate)
    → all is_open us ≡ true
    → ◌≡◌ {A = Answer} (ok (with_final s us), s) (ok vs, t)
    → is_concluded t.latest_text vs ≡ true
concluded_updates s t us vs h q =
    let same : s ≡ t = ap (λ (a : Answer). a.1) q in
    let these : with_final s us ≡ vs = cc in
    subst (λ (t : Session). is_concluded t.latest_text vs ≡ true) same
      (subst (λ (vs : List StreamingUpdate). is_concluded s.latest_text vs ≡ true) these
        (with_final-is_concluded s us h))

close_updates-is_concluded :
    (before : List StreamingUpdate) (a : Answer) (us : List StreamingUpdate) (t : Session)
    → all is_open before ≡ true
    → ((vs : List StreamingUpdate) → a.0 ≡ ok vs → all is_open vs ≡ true)
    → close_updates before a ≡ (ok us, t)
    → is_concluded t.latest_text us ≡ true
unfolding close_updates
close_updates-is_concluded before (raise e, s) us t h v q = cc
close_updates-is_concluded before (ok vs, s) us t h v q =
    let all_open = all-append is_open before vs in
    let open_all : all is_open (before ++ vs) ≡ true = ground (arith, all_open, h, v vs refl) in
    concluded_updates s t (before ++ vs) us open_all q

flush_ring-is_concluded :
    (limits : Limits) (f : Finish) (pcm : List ℕ) (before us : List StreamingUpdate) (s t : Session)
    → all is_open before ≡ true
    → flush_ring limits f pcm before s ≡ (ok us, t)
    → is_concluded t.latest_text us ≡ true
unfolding flush_ring
flush_ring-is_concluded limits f pcm before us s t h q =
    let s2 : Session = record s { last_rolling_bytes = s.received_pcm_bytes } in
    let last = rolling_update limits f.last_answer s.last_sequence s2 in
    let due = eqb (length pcm) 0 && ltb s.last_rolling_bytes s.received_pcm_bytes in
    elim (Bool-cases due) [
      | inl e ↦
          close_updates-is_concluded before last us t h
            (λ vs r.
              rolling_update-open limits f.last_answer s.last_sequence s2 last.1 vs
                (ap (λ (x : Result Failure (List StreamingUpdate)). (x, last.1)) r))
            (rw (e) at q)
      | inr e ↦ concluded_updates s t before us h (rw (e) at q)
    ]

flush_after-is_concluded :
    (limits : Limits) (f : Finish) (pcm : List ℕ) (a : Answer) (us : List StreamingUpdate)
    (t : Session)
    → ((vs : List StreamingUpdate) (s : Session) → a ≡ (ok vs, s) → all is_open vs ≡ true)
    → flush_after limits f pcm a ≡ (ok us, t)
    → is_concluded t.latest_text us ≡ true
unfolding flush_after
flush_after-is_concluded limits f pcm (raise e, s) us t h q = cc
flush_after-is_concluded limits f pcm (ok vs, s) us t h q =
    flush_ring-is_concluded limits f pcm vs us s t (h vs s refl) q

finish_tail-is_concluded :
    (limits : Limits) (f : Finish) (d : Result Failure (List ℕ)) (us : List StreamingUpdate)
    (s t : Session)
    → finish_tail limits f d s ≡ (ok us, t)
    → is_concluded t.latest_text us ≡ true
unfolding finish_tail
finish_tail-is_concluded limits f (raise e) us s t q = cc
finish_tail-is_concluded limits f (ok pcm) us s t q =
    flush_after-is_concluded limits f pcm (consume_pcm limits pcm s.last_sequence true f.answer s)
      us t (λ vs v h. consume_pcm-open limits pcm s.last_sequence true f.answer s v vs h) q

finish_open-is_concluded :
    (limits : Limits) (f : Finish) (s t : Session) (us : List StreamingUpdate)
    → finish_open limits f s ≡ (ok us, t)
    → is_concluded t.latest_text us ≡ true
unfolding finish_open
finish_open-is_concluded limits f s t us q =
    ground (arith, finish_tail-is_concluded limits f (finish_decoder s.start.codec f.tail) us s t)

-- A session that was open, and whose `finish` returns, is closed; and if its transcriber has given a text,
-- then exactly the last of the returned updates is final, and it has the latest text. Without such a
-- text no update is final.
pub finish-is_concluded :
    (limits : Limits) (f : Finish) (s t : Session) (us : List StreamingUpdate)
    → s.closed ≡ false
    → finish limits f s ≡ (ok us, t)
    → (t.closed ≡ true) × (is_concluded t.latest_text us ≡ true)
unfolding finish
finish-is_concluded limits f s t us o q =
    let inner = finish_open limits f s in
    let done : Answer = (inner.0, record inner.1 { closed = true }) in
    let ended : done ≡ (ok us, t) = sym (ap (λ (b : Bool). if b then (ok [], s) else done) o) ∙ q in
    let first : inner.0 ≡ ok us = ap (λ (a : Answer). a.0) ended in
    let last : record inner.1 { closed = true } ≡ t = ap (λ (a : Answer). a.1) ended in
    let concluded =
      finish_open-is_concluded limits f s inner.1 us
        (ap (λ (x : Result Failure (List StreamingUpdate)). (x, inner.1)) first) in
    subst (λ (t : Session). (t.closed ≡ true) × (is_concluded t.latest_text us ≡ true)) last
      (refl, concluded)
