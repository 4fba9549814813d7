-- ===== src/Speech/Start.antt =====
-- The opening and the end of a stream in src/mtbank_ai/speech/streaming.py, and the check of a frame. A
-- decoded JSON object is a list of its members; `type(x) is int` is the constructor of a number.
use mtbank_ai_call_analytics.Prelude.{
  ℕ, ◌%◌, ◌≡◌, refl, arith, Bool, true, false, not, ◌&&◌, ◌||◌, Option, none, some, String,
  string_eq, List, [], ◌∷◌, map, eqb, ◌==◌, if◌then◌else◌, subset, contains, length, Result, ok,
  raise, ◌↔◌,
}

pub data StreamingCodec : Type 0 where
  pcm_s16le ogg_opus : StreamingCodec

pub record StreamingStart : Type 0 where
  pub codec : StreamingCodec
  pub sample_rate_hz : ℕ
  pub channels : ℕ

pub data ProtocolError : Type 0 where
  protocol_error : ProtocolError

pub data Json : Type 0 where
  number : ℕ → Json
  text : String → Json
  other_value : Json

-- payload.get(name)
unfoldable pub get : List (String × Json) → String → Option Json
get [] name = none
get ((key, value) ∷ rest) name =
    let later = get rest name in if key == name then some value else later

-- set(payload) == set(expected)
unfoldable pub has_keys : List (String × Json) → List String → Bool
has_keys payload expected =
    subset (map (λ (m : String × Json). m.0) payload) expected
    && subset expected (map (λ (m : String × Json). m.0) payload)

unfoldable pub is_text : Option Json → String → Bool
is_text (some (text t)) expected = t == expected
is_text (some (number n)) expected = false
is_text (some other_value) expected = false
is_text none expected = false

unfoldable pub is_number : Option Json → ℕ → Bool
is_number (some (number n)) expected = eqb n expected
is_number (some (text t)) expected = false
is_number (some other_value) expected = false
is_number none expected = false

unfoldable pub valid_format : StreamingCodec → ℕ → ℕ → Bool
valid_format pcm_s16le rate channels = eqb rate 16000 && eqb channels 1
valid_format ogg_opus rate channels = eqb rate 48000 && eqb channels 1

-- `StreamingStart`, with `__post_init__`.
unfoldable pub new_start : StreamingCodec → ℕ → ℕ → Result ProtocolError StreamingStart
unfolding valid_format
new_start codec rate channels =
    if valid_format codec rate channels
    then ok (record { codec = codec; sample_rate_hz = rate; channels = channels })
    else raise protocol_error

unfoldable pub codec_name : StreamingCodec → String
codec_name pcm_s16le = "pcm_s16le"
codec_name ogg_opus = "ogg_opus"

unfoldable pub codec_of : String → Option StreamingCodec
codec_of name =
    if name == "pcm_s16le"
    then some pcm_s16le
    else if name == "ogg_opus"
    then some ogg_opus
    else none

unfoldable pub start_of :
    Option Json → Option Json → Option Json → Result ProtocolError StreamingStart
unfolding codec_of
start_of (some (text name)) (some (number rate)) (some (number channels)) = elim (codec_of name) [
  | none ↦ raise protocol_error
  | some codec ↦ new_start codec rate channels
]
start_of _ _ _ = raise protocol_error

unfoldable pub parse_streaming_start : List (String × Json) → Result ProtocolError StreamingStart
unfolding has_keys is_text is_number
parse_streaming_start payload =
    if has_keys payload ("type" ∷ "sequence" ∷ "codec" ∷ "sample_rate_hz" ∷ "channels" ∷ [])
      && is_text (get payload "type") "start"
      && is_number (get payload "sequence") 0
    then start_of (get payload "codec") (get payload "sample_rate_hz") (get payload "channels")
    else raise protocol_error

-- `_start_payload`
unfoldable pub start_payload : StreamingStart → List (String × Json)
start_payload start =
    ("type", text "start")
    ∷ ("sequence", number 0)
    ∷ ("codec", text (codec_name start.codec))
    ∷ ("sample_rate_hz", number start.sample_rate_hz)
    ∷ ("channels", number start.channels)
    ∷ []

-- `parse_streaming_end`: true where it does not raise.
unfoldable pub parse_streaming_end : List (String × Json) → ℕ → Bool
parse_streaming_end payload expected_sequence =
    has_keys payload ("type" ∷ "sequence" ∷ [])
    && is_text (get payload "type") "end"
    && is_number (get payload "sequence") expected_sequence

-- frame.startswith(b"OggS")
unfoldable pub starts_with : List ℕ → List ℕ → Bool
starts_with [] frame = true
starts_with (x ∷ xs) [] = false
starts_with (x ∷ xs) (y ∷ ys) = eqb x y && starts_with xs ys

unfoldable pub validate_format : StreamingCodec → List ℕ → Bool → Bool
validate_format pcm_s16le frame first_frame = eqb (length frame % 2) 0
validate_format ogg_opus frame first_frame =
    not first_frame || starts_with (79 ∷ 103 ∷ 103 ∷ 83 ∷ []) frame

-- `validate_stream_frame`: true where it does not raise.
unfoldable pub validate_stream_frame : StreamingStart → List ℕ → Bool → Bool
validate_stream_frame start frame first_frame =
    not (eqb (length frame) 0) && validate_format start.codec frame first_frame

parsed_start :
    (codec : StreamingCodec) (rate channels : ℕ)
    → parse_streaming_start
        (start_payload (record { codec = codec; sample_rate_hz = rate; channels = channels }))
      ≡ new_start codec rate channels
unfolding parse_streaming_start start_payload get start_of has_keys is_text is_number subset
    contains codec_of codec_name
parsed_start pcm_s16le rate channels = refl
parsed_start ogg_opus rate channels = refl

-- The start message of a stream is parsed back to that stream exactly if its codec, rate and number of
-- channels are a supported format.
pub parse_streaming_start-start_payload :
    (start : StreamingStart)
    → (parse_streaming_start (start_payload start) ≡ ok start)
      ↔ (valid_format start.codec start.sample_rate_hz start.channels ≡ true)
unfolding new_start
parse_streaming_start-start_payload start =
    rw (parsed_start start.codec start.sample_rate_hz start.channels) (ground arith)
