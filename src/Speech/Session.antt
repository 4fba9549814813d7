-- ===== src/Speech/Session.antt =====
-- `_InternalSpeechWebSocketSession`. The messages that the service will send are a queue, of which an
-- operation takes the first ones; an empty queue stands for a timeout or a lost connection. Whether a
-- send succeeds is an argument.
use Prim.Native.Char.{code}
use Prim.Native.String.{len}
use mtbank_ai_call_analytics.Prelude.{
  ℕ, ◌+◌, Bool, true, false, not, ◌&&◌, ◌||◌, Option, none, some, List, [], ◌∷◌, ◌++◌, String, ltb,
  leb, eqb, length, Result, ok, raise, if◌then◌else◌,
}
use mtbank_ai_call_analytics.Speech.Frames.{to_bytes}

pub data Terminal : Type 0 where
  ack finished : Terminal

-- A decoded `update`.
pub record StreamingUpdate : Type 0 where
  pub sequence : ℕ
  pub text : String
  pub stable_prefix : Bool
  pub final : Bool

-- A message of the service; `violation` is any other text, bytes, or JSON, also an update with a text
-- that has no UTF-8.
pub data Incoming : Type 0 where
  update : StreamingUpdate → Incoming
  terminal : Terminal → ℕ → Incoming
  violation : Incoming

pub record Limits : Type 0 where
  pub max_message_bytes : ℕ
  pub max_updates_per_operation : ℕ

-- `sent` holds the binary messages, the newest first; `ended` is the number of the end message, and
-- `closes` counts how often the connection was closed.
pub record Session : Type 0 where
  pub next_sequence : ℕ
  pub closed : Bool
  pub inbox : List Incoming
  pub sent : List (List ℕ)
  pub ended : Option ℕ
  pub closes : ℕ

pub data Failure : Type 0 where
  unavailable : Failure

abbrev pub Answer : Type 0
Answer = Result Failure (List StreamingUpdate)

-- str.isspace of one character, by its number.
unfoldable pub is_space : ℕ → Bool
is_space c =
    (leb 9 c && leb c 13)
    || (leb 28 c && leb c 32)
    || eqb c 133
    || eqb c 160
    || eqb c 5760
    || (leb 8192 c && leb c 8202)
    || eqb c 8232
    || eqb c 8233
    || eqb c 8239
    || eqb c 8287
    || eqb c 12288

-- not text.strip()
unfoldable pub is_blank : String → Bool
is_blank String.[] = true
is_blank (String.◌∷◌ c text) = is_space (code c) && is_blank text

-- `StreamingUpdate.__post_init__`, and the bound of `_receive_until`.
unfoldable pub accepts_update : Limits → StreamingUpdate → Bool
accepts_update limits u =
    ltb 0 u.sequence && not (is_blank u.text) && leb (len u.text) limits.max_message_bytes

abbrev pub same_terminal : Terminal → Terminal → Bool
same_terminal ack ack = true
same_terminal finished finished = true
same_terminal _ _ = false

-- `_receive_until`: the updates, and the messages left.
unfoldable pub receive_until :
    Limits → Terminal → ℕ → List Incoming → List StreamingUpdate → Answer × List Incoming
receive_until limits kind sequence [] updates = (raise unavailable, [])
receive_until limits kind sequence (violation ∷ rest) updates = (raise unavailable, rest)
receive_until limits kind sequence (terminal k n ∷ rest) updates =
    if same_terminal k kind && eqb n sequence then (ok updates, rest) else (raise unavailable, rest)
receive_until limits kind sequence (update u ∷ rest) updates =
    let later = receive_until limits kind sequence rest (updates ++ u ∷ []) in
    if leb limits.max_updates_per_operation (length updates)
    then (raise unavailable, rest)
    else if accepts_update limits u
    then later
    else (raise unavailable, rest)

unfoldable pub close : Session → Session
close s = if s.closed then s else record s { closed = true; closes = s.closes + 1 }

-- The answer of an operation: a failure of a frame closes the session.
unfoldable pub after_frame : Answer → Session → Answer × Session
unfolding close
after_frame (ok updates) s = (ok updates, record s { next_sequence = s.next_sequence + 1 })
after_frame (raise e) s = (raise e, close s)

abbrev pub is_empty_frame : List ℕ → Bool
is_empty_frame [] = true
is_empty_frame (_ ∷ _) = false

unfoldable pub send_frame : Limits → Bool → List ℕ → Option (List ℕ) → Session → Answer × Session
unfolding after_frame close
send_frame limits sends frame none s = (raise unavailable, close s)
send_frame limits false frame (some prefix) s = (raise unavailable, close s)
send_frame limits true frame (some prefix) s =
    let (answer, rest) = receive_until limits ack s.next_sequence s.inbox [] in
    after_frame answer (record s { sent = (prefix ++ frame) ∷ s.sent; inbox = rest })

unfoldable pub push : Limits → Bool → List ℕ → ℕ → Session → Answer × Session
unfolding send_frame
push limits sends frame sequence s =
    if s.closed || not (eqb sequence s.next_sequence) || is_empty_frame frame
    then (raise unavailable, s)
    else send_frame limits sends frame (to_bytes sequence) s

-- The end message, whose answer is awaited before the session is closed.
unfoldable pub after_end : Answer → Session → Answer × Session
unfolding close
after_end (ok updates) s = (ok updates, close (record s { next_sequence = s.next_sequence + 1 }))
after_end (raise e) s = (raise e, close s)

unfoldable pub finish : Limits → Bool → Session → Answer × Session
unfolding after_end close
finish limits sends s =
    if s.closed
    then (ok [], s)
    else if sends
    then (let (answer, rest) = receive_until limits finished s.next_sequence s.inbox [] in
        after_end answer (record s { ended = some s.next_sequence; inbox = rest }))
    else (raise unavailable, close s)

unfoldable pub new_session : List Incoming → Session
new_session inbox = record {
  next_sequence = 1;
  closed = false;
  inbox = inbox;
  sent = [];
  ended = none;
  closes = 0;
}

-- One operation of the owner of a session, with whether its send succeeds.
pub data Operation : Type 0 where
  pushes : Bool → List ℕ → ℕ → Operation
  finishes : Bool → Operation
  closing : Operation

unfoldable pub operate : Limits → Operation → Session → Session
operate limits (pushes sends frame sequence) s = (push limits sends frame sequence s).1
operate limits (finishes sends) s = (finish limits sends s).1
operate limits closing s = close s

unfoldable pub operate_all : Limits → List Operation → Session → Session
operate_all limits [] s = s
operate_all limits (o ∷ os) s = operate_all limits os (operate limits o s)
