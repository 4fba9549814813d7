-- ===== src/Speech/Order.antt =====
-- The order of the frames of a session of src/mtbank_ai/speech/streaming.py.
use mtbank_ai_call_analytics.Prelude.{
  ℕ, suc, ◌+◌, ◌≡◌, refl, sym, ap, subst, Bool, true, false, not, ◌||◌, Option, none, some, List,
  [], ◌∷◌, ◌++◌, eqb, length, ok, raise, arith, Bool-cases, inl, inr, if◌then◌else◌,
}
use mtbank_ai_call_analytics.Speech.Frames.{
  to_bytes, parse_streaming_binary_frame, parse_streaming_binary_frame-to_bytes,
}
use mtbank_ai_call_analytics.Speech.Session.{
  ack, finished, Incoming, Limits, Session, unavailable, Answer, receive_until, close, after_frame,
  send_frame, push, after_end, finish, new_session, Operation, pushes, finishes, closing, operate,
  operate_all,
}

-- The receiver that expects the frames numbered from 1 parses each; the newest frame comes first.
abbrev pub IsNumbered : List (List ℕ) → Type 0
IsNumbered [] = Unit {0}
IsNumbered (b ∷ rest) =
    ((f : List ℕ) × (parse_streaming_binary_frame b (suc (length rest))
        ≡ some (suc (length rest), f)))
    × IsNumbered rest

-- The number of the end message is the one after the last frame.
abbrev pub EndsAfter : List (List ℕ) → Option ℕ → Type 0
EndsAfter sent none = Unit {0}
EndsAfter sent (some n) = n ≡ suc (length sent)

abbrev pub times_closed : Bool → ℕ
times_closed true = 1
times_closed false = 0

pub record IsOrdered (s : Session) : Type 0 where
  pub numbered : IsNumbered s.sent
  pub following : s.closed ≡ false → s.next_sequence ≡ suc (length s.sent)
  pub end_last : EndsAfter s.sent s.ended
  pub closed_once : s.closes ≡ times_closed s.closed
  pub unended : s.closed ≡ false → s.ended ≡ none

if_true {ℓ} : {A : Type ℓ} (b : Bool) (x y : A) → b ≡ true → (if b then x else y) ≡ x
if_true true x y h = refl
if_true false x y h = cc

if_false {ℓ} : {A : Type ℓ} (b : Bool) (x y : A) → b ≡ false → (if b then x else y) ≡ y
if_false true x y h = cc
if_false false x y h = refl

abbrev shut : Session → Session
shut s = record s { closed = true; closes = s.closes + 1 }

shut-IsOrdered : (s : Session) → IsOrdered s → s.closed ≡ false → IsOrdered (shut s)
shut-IsOrdered s v c = record {
  numbered = v.numbered;
  following = λ h. cc;
  end_last = v.end_last;
  closed_once = let once = v.closed_once in ground arith;
  unended = λ h. cc;
}

close-IsOrdered : (s : Session) → IsOrdered s → IsOrdered (close s)
unfolding close
close-IsOrdered s v = elim (Bool-cases s.closed) [
  | inl c ↦ subst IsOrdered (sym (if_true s.closed s (shut s) c)) v
  | inr c ↦ subst IsOrdered (sym (if_false s.closed s (shut s) c)) (shut-IsOrdered s v c)
]

-- The state after a frame was sent, before its answer is known.
abbrev frame_sent : List ℕ → List Incoming → Session → Session
frame_sent bytes rest s = record s { sent = bytes ∷ s.sent; inbox = rest }

-- A frame that got no answer still counts as sent; its session is closed.
after_frame-IsOrdered :
    (answer : Answer) (s : Session) (bytes f : List ℕ) (rest : List Incoming)
    → IsOrdered s
    → s.closed ≡ false
    → parse_streaming_binary_frame bytes s.next_sequence ≡ some (s.next_sequence, f)
    → IsOrdered (after_frame answer (frame_sent bytes rest s)).1
unfolding after_frame close
after_frame-IsOrdered (ok updates) s bytes f rest v c h =
    let n = v.following c in
    record {
      numbered =
          ((f, subst (λ k. parse_streaming_binary_frame bytes k ≡ some (k, f)) n h), v.numbered);
      following = λ _. omega (arith, n);
      end_last = rw (v.unended c) tt;
      closed_once = v.closed_once;
      unended = v.unended;
    }
after_frame-IsOrdered (raise e) s bytes f rest v c h =
    let n = v.following c in
    subst IsOrdered
      (sym (if_false s.closed (frame_sent bytes rest s) (shut (frame_sent bytes rest s)) c))
      (record {
        numbered =
            ((f, subst (λ k. parse_streaming_binary_frame bytes k ≡ some (k, f)) n h), v.numbered);
        following = λ h. cc;
        end_last = rw (v.unended c) tt;
        closed_once = let once = v.closed_once in ground arith;
        unended = λ h. cc;
      })

send_frame-IsOrdered :
    (limits : Limits) (sends : Bool) (x : ℕ) (xs : List ℕ) (prefix : Option (List ℕ)) (s : Session)
    → IsOrdered s
    → s.closed ≡ false
    → to_bytes s.next_sequence ≡ prefix
    → IsOrdered (send_frame limits sends (x ∷ xs) prefix s).1
unfolding send_frame
send_frame-IsOrdered limits sends x xs none s v c h = close-IsOrdered s v
send_frame-IsOrdered limits false x xs (some prefix) s v c h = close-IsOrdered s v
send_frame-IsOrdered limits true x xs (some prefix) s v c h =
    let (answer, rest) = receive_until limits ack s.next_sequence s.inbox [] in
    after_frame-IsOrdered answer s (prefix ++ x ∷ xs) (x ∷ xs) rest v c
      (parse_streaming_binary_frame-to_bytes s.next_sequence x prefix xs h)

push-IsOrdered :
    (limits : Limits) (sends : Bool) (frame : List ℕ) (sequence : ℕ) (s : Session)
    → IsOrdered s
    → IsOrdered (push limits sends frame sequence s).1
unfolding push
push-IsOrdered limits sends [] sequence s v =
    let refused : (s.closed || not (eqb sequence s.next_sequence) || true) ≡ true = ground arith in
    subst (λ (r : Answer × Session). IsOrdered r.1) (sym (if_true _ _ _ refused)) v
push-IsOrdered limits sends (x ∷ xs) sequence s v =
    elim (Bool-cases (s.closed || not (eqb sequence s.next_sequence) || false)) [
      | inl refused ↦
          subst (λ (r : Answer × Session). IsOrdered r.1) (sym (if_true _ _ _ refused)) v
      | inr taken ↦
          let c : s.closed ≡ false = ground arith in
          let same : s.next_sequence ≡ sequence = ground arith in
          subst (λ (r : Answer × Session). IsOrdered r.1) (sym (if_false _ _ _ taken))
            (send_frame-IsOrdered limits sends x xs (to_bytes sequence) s v c (ap to_bytes same))
    ]

after_end-IsOrdered :
    (answer : Answer) (s : Session) (rest : List Incoming)
    → IsOrdered s
    → s.closed ≡ false
    → IsOrdered (after_end answer (record s { ended = some s.next_sequence; inbox = rest })).1
unfolding after_end close
after_end-IsOrdered (ok updates) s rest v c =
    subst IsOrdered (sym (if_false s.closed _ _ c)) (record {
      numbered = v.numbered;
      following = λ h. cc;
      end_last = v.following c;
      closed_once = let once = v.closed_once in ground arith;
      unended = λ h. cc;
    })
after_end-IsOrdered (raise e) s rest v c = subst IsOrdered (sym (if_false s.closed _ _ c)) (record {
  numbered = v.numbered;
  following = λ h. cc;
  end_last = v.following c;
  closed_once = let once = v.closed_once in ground arith;
  unended = λ h. cc;
})

ending-IsOrdered :
    (limits : Limits) (sends : Bool) (s : Session)
    → IsOrdered s
    → s.closed ≡ false
    → IsOrdered
        (if sends
          then (let (answer, rest) = receive_until limits finished s.next_sequence s.inbox [] in
              after_end answer (record s { ended = some s.next_sequence; inbox = rest }))
          else (raise unavailable, close s)).1
ending-IsOrdered limits false s v c = close-IsOrdered s v
ending-IsOrdered limits true s v c =
    let (answer, rest) = receive_until limits finished s.next_sequence s.inbox [] in
    after_end-IsOrdered answer s rest v c

finish-IsOrdered :
    (limits : Limits) (sends : Bool) (s : Session)
    → IsOrdered s
    → IsOrdered (finish limits sends s).1
unfolding finish
finish-IsOrdered limits sends s v = elim (Bool-cases s.closed) [
  | inl c ↦ subst (λ (r : Answer × Session). IsOrdered r.1) (sym (if_true s.closed _ _ c)) v
  | inr c ↦
      subst (λ (r : Answer × Session). IsOrdered r.1) (sym (if_false s.closed _ _ c))
        (ending-IsOrdered limits sends s v c)
]

operate-IsOrdered :
    (limits : Limits) (o : Operation) (s : Session) → IsOrdered s → IsOrdered (operate limits o s)
unfolding operate
operate-IsOrdered limits (pushes sends frame sequence) s v =
    push-IsOrdered limits sends frame sequence s v
operate-IsOrdered limits (finishes sends) s v = finish-IsOrdered limits sends s v
operate-IsOrdered limits closing s v = close-IsOrdered s v

operations-IsOrdered :
    (limits : Limits) (os : List Operation) (s : Session)
    → IsOrdered s
    → IsOrdered (operate_all limits os s)
unfolding operate_all
operations-IsOrdered limits [] s v = v
operations-IsOrdered limits (o ∷ os) s v =
    operations-IsOrdered limits os (operate limits o s) (operate-IsOrdered limits o s v)

-- Whatever the owner does with a new session and whatever the service answers: the frames that were
-- sent are numbered from 1 without a gap, so that a receiver parses each with the number that it
-- expects, the end message has the next number, and the connection is closed at most once.
pub operate_all-IsOrdered :
    (limits : Limits) (os : List Operation) (inbox : List Incoming)
    → IsOrdered (operate_all limits os (new_session inbox))
unfolding new_session
operate_all-IsOrdered limits os inbox = operations-IsOrdered limits os _ (record {
  numbered = tt;
  following = λ h. refl;
  end_last = tt;
  closed_once = refl;
  unended = λ h. refl;
})
