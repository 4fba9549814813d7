-- ===== src/Speech/Rolling/Defs.antt =====
-- `RollingStreamingSession`. What leaves the repository is an argument: the clock, the answer of the
-- transcriber, and for Ogg/Opus what the validator and the FFmpeg process make of a frame. A text is
-- the tuple of its words, with its size in UTF-8; a duration is counted in bytes of PCM.
use mtbank_ai_call_analytics.Prelude.{
  ℕ, zero, suc, ◌+◌, ◌-◌, ◌*◌, ◌%◌, Bool, true, false, not, ◌&&◌, ◌||◌, String, string_eq, List, [],
  ◌∷◌, ◌++◌, ltb, leb, eqb, ◌==◌, max, length, Result, ok, raise, if◌then◌else◌,
}
use mtbank_ai_call_analytics.Speech.Start.{
  StreamingCodec, pcm_s16le, ogg_opus, StreamingStart, validate_stream_frame,
}

pub record Limits : Type 0 where
  pub max_frame_bytes : ℕ
  pub max_session_bytes : ℕ
  pub max_duration : ℕ
  pub rolling_window_bytes : ℕ
  pub rolling_step_bytes : ℕ
  pub max_rolling_calls : ℕ
  pub max_rolling_audio : ℕ
  pub pcm_energy_threshold : ℕ
  pub max_update_text_bytes : ℕ

pub record Session : Type 0 where
  pub start : StreamingStart
  pub opened_at : ℕ
  pub speech_ring : List ℕ
  pub received_pcm_bytes : ℕ
  pub last_rolling_bytes : ℕ
  pub rolling_calls : ℕ
  pub rolling_audio : ℕ
  pub rolling_exhausted : Bool
  pub last_sequence : ℕ
  pub bytes_received : ℕ
  pub first_frame : Bool
  pub previous_tokens : List String
  pub committed_tokens : List String
  pub latest_text : List String
  pub closed : Bool

pub record StreamingUpdate : Type 0 where
  pub sequence : ℕ
  pub text : List String
  pub stable_prefix : Bool
  pub final : Bool

pub data Failure : Type 0 where
  unavailable protocol_error transcriber_error : Failure

-- What `wait_for(transcribe(...))` gives: words with the size of their text, a provider error or a
-- timeout, or any other exception.
pub data Transcription : Type 0 where
  words : List String → ℕ → Transcription
  silent broken : Transcription

abbrev pub Answer : Type 0
Answer = Result Failure (List StreamingUpdate) × Session

-- `__init__`
unfoldable pub new_session : StreamingStart → ℕ → Session
new_session start now = record {
  start = start;
  opened_at = now;
  speech_ring = [];
  received_pcm_bytes = 0;
  last_rolling_bytes = 0;
  rolling_calls = 0;
  rolling_audio = 0;
  rolling_exhausted = false;
  last_sequence = 0;
  bytes_received = 0;
  first_frame = true;
  previous_tokens = [];
  committed_tokens = [];
  latest_text = [];
  closed = false;
}

-- del xs[:n]
unfoldable pub drop : ℕ → List ℕ → List ℕ
drop zero xs = xs
drop (suc n) [] = []
drop (suc n) (x ∷ xs) = drop n xs

-- The bytes that stay of a ring.
unfoldable pub trim : ℕ → List ℕ → List ℕ
trim window ring = if ltb window (length ring) then drop (length ring - window) ring else ring

-- abs(int.from_bytes(sample, "little", signed=True))
unfoldable pub magnitude : ℕ → ℕ → ℕ
magnitude half value = if ltb value half then value else 2 * half - value

-- `_has_pcm_energy`
unfoldable pub has_pcm_energy : List ℕ → ℕ → Bool
unfolding magnitude
has_pcm_energy [] threshold = false
has_pcm_energy (low ∷ []) threshold = leb threshold (magnitude 128 low)
has_pcm_energy (low ∷ high ∷ rest) threshold =
    leb threshold (magnitude 32768 (low + 256 * high)) || has_pcm_energy rest threshold

-- `_common_prefix`
unfoldable pub common_prefix : List String → List String → List String
common_prefix [] ys = []
common_prefix (x ∷ xs) [] = []
common_prefix (x ∷ xs) (y ∷ ys) = let rest = common_prefix xs ys in if x == y then x ∷ rest else []

abbrev pub update : ℕ → List String → Bool → StreamingUpdate
update sequence text stable = record {
  sequence = max 1 sequence;
  text = text;
  stable_prefix = stable;
  final = false;
}

-- The last lines of `_stable_updates`, with the common prefix.
unfoldable pub commit : List String → List String → ℕ → Session → Answer
commit stable tokens sequence s =
    let heard = record s { previous_tokens = tokens; latest_text = tokens } in
    if leb (length stable) (length s.committed_tokens)
    then (ok [], heard)
    else (ok (update sequence stable true ∷ []), record heard { committed_tokens = stable })

unfoldable pub compare_tokens : List String → List String → ℕ → Session → Answer
unfolding commit
compare_tokens [] tokens sequence s = (
  ok (update sequence tokens false ∷ []),
  record s { previous_tokens = tokens; latest_text = tokens },
)
compare_tokens (p ∷ ps) tokens sequence s = commit (common_prefix (p ∷ ps) tokens) tokens sequence s

-- `_stable_updates`
unfoldable pub stable_updates : Limits → List String → ℕ → ℕ → Session → Answer
unfolding compare_tokens
stable_updates limits [] size sequence s = (ok [], s)
stable_updates limits (t ∷ ts) size sequence s =
    if ltb limits.max_update_text_bytes size
    then (raise unavailable, s)
    else compare_tokens s.previous_tokens (t ∷ ts) sequence s

unfoldable pub take_answer : Limits → Transcription → ℕ → Session → Answer
unfolding stable_updates
take_answer limits (words tokens size) sequence s = stable_updates limits tokens size sequence s
take_answer limits silent sequence s = (ok [], s)
take_answer limits broken sequence s = (raise transcriber_error, s)

-- `_rolling_update`
unfoldable pub rolling_update : Limits → Transcription → ℕ → Session → Answer
unfolding take_answer
rolling_update limits answer sequence s =
    let size = length s.speech_ring in
    if s.rolling_exhausted
      || eqb size 0
      || not (has_pcm_energy s.speech_ring limits.pcm_energy_threshold)
    then (ok [], s)
    else if leb limits.max_rolling_calls s.rolling_calls
        || ltb limits.max_rolling_audio (s.rolling_audio + size)
    then (ok [], record s { rolling_exhausted = true })
    else take_answer limits answer sequence
        (record s { rolling_calls = s.rolling_calls + 1; rolling_audio = s.rolling_audio + size })

-- The ring and the count of `_consume_pcm`.
unfoldable pub store_pcm : Limits → List ℕ → Session → Session
store_pcm limits pcm s = record s {
  received_pcm_bytes = s.received_pcm_bytes + length pcm;
  speech_ring = trim limits.rolling_window_bytes (s.speech_ring ++ pcm);
}

-- `_consume_pcm`
unfoldable pub consume_pcm : Limits → List ℕ → ℕ → Bool → Transcription → Session → Answer
unfolding rolling_update store_pcm
consume_pcm limits pcm sequence force answer s =
    if not (eqb (length pcm % 2) 0)
    then (raise unavailable, s)
    else if eqb (length pcm) 0
    then (ok [], s)
    else let s' = store_pcm limits pcm s in
      if not force && ltb (s'.received_pcm_bytes - s'.last_rolling_bytes) limits.rolling_step_bytes
      then (ok [], s')
      else rolling_update limits answer sequence
          (record s' { last_rolling_bytes = s'.received_pcm_bytes })

-- `_decode`; `decoded` is what it gives for Ogg/Opus.
unfoldable pub decode : StreamingCodec → List ℕ → Result Failure (List ℕ) → Result Failure (List ℕ)
decode pcm_s16le frame decoded = ok frame
decode ogg_opus frame decoded = decoded

-- A call of `push`, with what the world answers.
pub record Push : Type 0 where
  pub now : ℕ
  pub frame : List ℕ
  pub sequence : ℕ
  pub decoded : Result Failure (List ℕ)
  pub answer : Transcription

-- `_ensure_within_duration`: true where it does not raise.
unfoldable pub within_duration : Limits → ℕ → Session → Bool
within_duration limits now s = leb (now - s.opened_at) limits.max_duration

unfoldable pub consume_decoded :
    Limits → Result Failure (List ℕ) → ℕ → Bool → Transcription → Session → Answer
unfolding consume_pcm
consume_decoded limits (raise e) sequence force answer s = (raise e, s)
consume_decoded limits (ok pcm) sequence force answer s =
    consume_pcm limits pcm sequence force answer s

-- `push`
unfoldable pub push : Limits → Push → Session → Answer
unfolding consume_decoded decode within_duration
push limits i s =
    if not (within_duration limits i.now s)
    then (raise unavailable, s)
    else if s.closed || not (eqb i.sequence (s.last_sequence + 1))
    then (raise unavailable, s)
    else if not (validate_stream_frame s.start i.frame s.first_frame)
    then (raise protocol_error, s)
    else let s' = record s {
      first_frame = false;
      last_sequence = i.sequence;
      bytes_received = s.bytes_received + length i.frame;
    } in
      if ltb limits.max_frame_bytes (length i.frame)
        || ltb limits.max_session_bytes s'.bytes_received
      then (raise unavailable, s')
      else consume_decoded limits (decode s.start.codec i.frame i.decoded) i.sequence false i.answer
          s'
