-- ===== src/Speech/Rolling/Ring.antt =====
-- The ring of the rolling session of services/speech/streaming.py, and the sound that it stands for.
use mtbank_ai_call_analytics.Prelude.{
  ℕ, zero, suc, ◌+◌, ◌-◌, ◌≤◌, ◌≡◌, refl, sym, ap, ◌∙◌, arith, min, Bool, false, List, [], ◌∷◌,
  ◌++◌, length, length-append, append_assoc, append-nil, ltb, Result, ok, raise, Bool-cases, inl,
  inr, ◌⊎◌, subst,
}
use mtbank_ai_call_analytics.Speech.Start.{StreamingCodec, StreamingStart}
use mtbank_ai_call_analytics.Speech.Rolling.Defs.{
  Limits, Session, StreamingUpdate, Failure, Transcription, Answer, drop, trim, commit,
  compare_tokens, stable_updates, take_answer, rolling_update, store_pcm, consume_pcm, decode, Push,
  consume_decoded, push,
}
use mtbank_ai_call_analytics.Speech.Rolling.Finishing.{push_all, join_calls}

drop_split :
    (n : ℕ) (xs : List ℕ)
    → n ≤ length xs
    → (front : List ℕ) × (xs ≡ front ++ drop n xs) × (length (drop n xs) + n ≡ length xs)
unfolding drop
drop_split zero xs h = ([], refl, omega arith)
drop_split (suc n) [] h = absurd (omega (arith, h))
drop_split (suc n) (x ∷ xs) h =
    let (front, split, count) = drop_split n xs (omega (arith, h)) in
    (x ∷ front, ap (λ (ys : List ℕ). x ∷ ys) split, omega (arith, count))

pub trim_split :
    (window : ℕ) (xs : List ℕ)
    → (front : List ℕ) × (xs ≡ front ++ trim window xs)
      × (length (trim window xs) ≡ min window (length xs))
unfolding trim
trim_split window xs = elim (Bool-cases (ltb window (length xs))) [
  | inl h ↦
      let (front, split, count) = drop_split (length xs - window) xs (omega arith) in
      rw (h) (front, split, ground (arith, count, h))
  | inr h ↦ rw (h) ([], refl, ground (arith, h))
]

-- The session stands for the sound `heard`: its ring holds the last bytes, as many as the window
-- allows, and its count is the number of all.
pub record IsView (window : ℕ) (heard : List ℕ) (s : Session) : Type 0 where
  pub before : List ℕ
  pub kept : heard ≡ before ++ s.speech_ring
  pub full : length s.speech_ring ≡ min window (length heard)
  pub counted : s.received_pcm_bytes ≡ length heard

abbrev pub SameRing : Session → Session → Type 0
SameRing s t =
    (t.speech_ring ≡ s.speech_ring)
    × (t.received_pcm_bytes ≡ s.received_pcm_bytes)
    × (t.start ≡ s.start)

IsView-same :
    (window : ℕ) (heard : List ℕ) (s t : Session)
    → SameRing s t
    → IsView window heard s
    → IsView window heard t
IsView-same window heard s t same v = record {
  before = v.before;
  kept = v.kept ∙ ap (λ (ring : List ℕ). v.before ++ ring) (sym same.0);
  full = ap length same.0 ∙ v.full;
  counted = same.1 ∙ v.counted;
}

store_pcm-IsView :
    (limits : Limits) (pcm heard : List ℕ) (s : Session)
    → IsView limits.rolling_window_bytes heard s
    → IsView limits.rolling_window_bytes (heard ++ pcm) (store_pcm limits pcm s)
unfolding store_pcm
store_pcm-IsView limits pcm heard s v =
    let (front, split, count) = trim_split limits.rolling_window_bytes (s.speech_ring ++ pcm) in
    let ring = trim limits.rolling_window_bytes (s.speech_ring ++ pcm) in
    let size = length-append s.speech_ring pcm in
    let total = length-append heard pcm in
    let whole = ap length v.kept ∙ length-append v.before s.speech_ring in
    record {
      before = v.before ++ front;
      kept =
          ap (λ (xs : List ℕ). xs ++ pcm) v.kept
          ∙ append_assoc v.before s.speech_ring pcm
          ∙ ap (λ (xs : List ℕ). v.before ++ xs) split
          ∙ sym (append_assoc v.before front ring);
      full = omega (arith, count, size, total, whole, v.full);
      counted = omega (arith, total, v.counted);
    }

take_answer-SameRing :
    (limits : Limits) (answer : Transcription) (sequence : ℕ) (s : Session)
    → SameRing s (take_answer limits answer sequence s).1
unfolding take_answer stable_updates compare_tokens commit
take_answer-SameRing limits answer sequence s = ground arith

rolling_update-SameRing :
    (limits : Limits) (answer : Transcription) (sequence : ℕ) (s : Session)
    → SameRing s (rolling_update limits answer sequence s).1
unfolding rolling_update
rolling_update-SameRing limits answer sequence s =
    let s' : Session = record s {
      rolling_calls = s.rolling_calls + 1;
      rolling_audio = s.rolling_audio + length s.speech_ring;
    } in
    ground (arith, take_answer-SameRing limits answer sequence s')

consume_pcm-cases :
    (limits : Limits) (pcm : List ℕ) (sequence : ℕ) (force : Bool) (answer : Transcription)
    (s : Session) (us : List StreamingUpdate) (t : Session)
    → consume_pcm limits pcm sequence force answer s ≡ (ok us, t)
    → ((length pcm ≡ 0) × (t ≡ s)) ⊎ SameRing (store_pcm limits pcm s) t
unfolding consume_pcm
consume_pcm-cases limits pcm sequence force answer s us t h =
    let s' = store_pcm limits pcm s in
    let s2 : Session = record s' { last_rolling_bytes = s'.received_pcm_bytes } in
    ground (arith, rolling_update-SameRing limits answer sequence s2)

empty_of_length : (xs : List ℕ) → length xs ≡ 0 → xs ≡ []
empty_of_length [] h = refl
empty_of_length (x ∷ xs) h = absurd (omega (arith, h))

started-store_pcm :
    (limits : Limits) (pcm : List ℕ) (s : Session) → (store_pcm limits pcm s).start ≡ s.start
unfolding store_pcm
started-store_pcm limits pcm s = refl

-- Bytes that are consumed are heard, unless they are refused.
consume_pcm-IsView :
    (limits : Limits) (pcm heard : List ℕ) (sequence : ℕ) (force : Bool) (answer : Transcription)
    (s : Session) (us : List StreamingUpdate) (t : Session)
    → consume_pcm limits pcm sequence force answer s ≡ (ok us, t)
    → IsView limits.rolling_window_bytes heard s
    → IsView limits.rolling_window_bytes (heard ++ pcm) t × (t.start ≡ s.start)
consume_pcm-IsView limits pcm heard sequence force answer s us t h v =
    elim (consume_pcm-cases limits pcm sequence force answer s us t h) [
      | inl none_heard ↦
          let (nothing, same) = none_heard in
          rw (empty_of_length pcm nothing, append-nil heard, same) (v, refl)
      | inr same ↦ (
        IsView-same limits.rolling_window_bytes (heard ++ pcm) (store_pcm limits pcm s) t same
            (store_pcm-IsView limits pcm heard s v),
        same.2 ∙ started-store_pcm limits pcm s,
      )
    ]

-- What a call of `push` brings to the ear.
abbrev pub heard_in : StreamingCodec → Push → List ℕ
heard_in codec i = elim (decode codec i.frame i.decoded) [ raise e ↦ [] | ok pcm ↦ pcm ]

decoded-cases :
    (limits : Limits) (d : Result Failure (List ℕ)) (sequence : ℕ) (answer : Transcription)
    (s : Session) (us : List StreamingUpdate) (t : Session)
    → consume_decoded limits d sequence false answer s ≡ (ok us, t)
    → (pcm : List ℕ) × (d ≡ ok pcm) × (consume_pcm limits pcm sequence false answer s ≡ (ok us, t))
unfolding consume_decoded
decoded-cases limits (raise e) sequence answer s us t h = cc
decoded-cases limits (ok pcm) sequence answer s us t h = (pcm, refl, h)

push-cases :
    (limits : Limits) (i : Push) (s : Session) (us : List StreamingUpdate) (t : Session)
    → push limits i s ≡ (ok us, t)
    → (pcm : List ℕ) × (s' : Session) × (decode s.start.codec i.frame i.decoded ≡ ok pcm)
      × SameRing s s'
      × (consume_pcm limits pcm i.sequence false i.answer s' ≡ (ok us, t))
unfolding push
push-cases limits i s us t h =
    let s' : Session = record s {
      first_frame = false;
      last_sequence = i.sequence;
      bytes_received = s.bytes_received + length i.frame;
    } in
    let d = decode s.start.codec i.frame i.decoded in
    let passed : consume_decoded limits d i.sequence false i.answer s' ≡ (ok us, t) =
      ground arith in
    let (pcm, decoded, consumed) = decoded-cases limits d i.sequence i.answer s' us t passed in
    (pcm, s', decoded, (refl, refl, refl), consumed)

abbrev pub all_heard : StreamingCodec → List Push → List ℕ
all_heard codec [] = []
all_heard codec (i ∷ is) = heard_in codec i ++ all_heard codec is

push-IsView :
    (limits : Limits) (i : Push) (heard : List ℕ) (s : Session) (us : List StreamingUpdate)
    (t : Session)
    → push limits i s ≡ (ok us, t)
    → IsView limits.rolling_window_bytes heard s
    → IsView limits.rolling_window_bytes (heard ++ heard_in s.start.codec i) t × (t.start ≡ s.start)
push-IsView limits i heard s us t h v =
    let (pcm, s', decoded, same, consumed) = push-cases limits i s us t h in
    let seen = IsView-same limits.rolling_window_bytes heard s s' same v in
    let (after, kept) =
      consume_pcm-IsView limits pcm heard i.sequence false i.answer s' us t consumed seen in
    (rw (heard_in, decoded) after, kept ∙ same.2)

join_calls-cases :
    (first rest : Answer) (us : List StreamingUpdate) (t : Session)
    → join_calls first rest ≡ (ok us, t)
    → (now : List StreamingUpdate) × (later : List StreamingUpdate) × (first ≡ (ok now, first.1))
      × (rest ≡ (ok later, t))
unfolding join_calls
join_calls-cases (raise e, s) rest us t h = cc
join_calls-cases (ok now, s) (raise e, t') us t h = cc
join_calls-cases (ok now, s) (ok later, t') us t h = (now, later, refl, cc)

-- Pushes that all return leave a session that stands for the sound heard before, followed by the
-- decoded frames in their order: its ring, which the transcriber reads, holds exactly the last bytes of
-- that sound, as many as the window allows, and its count is the number of all of them.
pub push_all-IsView :
    (limits : Limits) (is : List Push) (heard : List ℕ) (s : Session) (us : List StreamingUpdate)
    (t : Session)
    → push_all limits is s ≡ (ok us, t)
    → IsView limits.rolling_window_bytes heard s
    → IsView limits.rolling_window_bytes (heard ++ all_heard s.start.codec is) t
unfolding push_all
push_all-IsView limits [] heard s us t h v =
    let same : s ≡ t = ap (λ (a : Answer). a.1) h in
    rw (append-nil heard) (subst (IsView limits.rolling_window_bytes heard) same v)
push_all-IsView limits (i ∷ is) heard s us t h v =
    let s' = (push limits i s).1 in
    let codec = s.start.codec in
    let (now, later, first, rest) =
      join_calls-cases (push limits i s) (push_all limits is s') us t h in
    let (seen, kept) = push-IsView limits i heard s now s' first v in
    let all = push_all-IsView limits is (heard ++ heard_in codec i) s' later t rest seen in
    subst (λ (xs : List ℕ). IsView limits.rolling_window_bytes xs t)
      (append_assoc heard (heard_in codec i) (all_heard codec is))
      (subst
        (λ (start : StreamingStart).
          IsView limits.rolling_window_bytes (heard ++ heard_in codec i ++ all_heard start.codec is)
            t)
        kept all)
