-- ===== src/Examples/Rolling.antt =====
-- The rolling session of services/speech/streaming.py over two frames of sound.
use mtbank_ai_call_analytics.Prelude.{
  ℕ, ◌≡◌, refl, arith, true, false, string_eq, List, [], ◌∷◌, ok, ◌↔◌,
}
use mtbank_ai_call_analytics.Speech.Start.{
  StreamingStart, pcm_s16le, validate_stream_frame, validate_format, valid_format, start_payload,
  parse_streaming_start,
}
use mtbank_ai_call_analytics.Speech.Start.{parse_streaming_start-start_payload}
use mtbank_ai_call_analytics.Speech.Rolling.{
  Limits, Session, StreamingUpdate, words, Push, Finish, pushing, finishing, closing, new_session,
  drop, trim, magnitude, has_pcm_energy, common_prefix, commit, compare_tokens, stable_updates,
  take_answer, rolling_update, store_pcm, consume_pcm, decode, within_duration, consume_decoded,
  push, finish_decoder, mark_final, is_nothing, with_final, close_updates, flush_ring, flush_after,
  finish_tail, finish_open, finish, operate_all, join_calls, push_all,
}
use mtbank_ai_call_analytics.Speech.Rolling.Ring.{IsView, push_all-IsView}
use mtbank_ai_call_analytics.Speech.Rolling.Budget.{IsBounded, operate_all-IsBounded}
use mtbank_ai_call_analytics.Speech.Rolling.Final.{is_concluded, finish-is_concluded}

abbrev start : StreamingStart
start = record { codec = pcm_s16le; sample_rate_hz = 16000; channels = 1 }

abbrev limits : Limits
limits = record {
  max_frame_bytes = 8;
  max_session_bytes = 100;
  max_duration = 1000;
  rolling_window_bytes = 4;
  rolling_step_bytes = 4;
  max_rolling_calls = 1;
  max_rolling_audio = 100;
  pcm_energy_threshold = 1;
  max_update_text_bytes = 50;
}

abbrev opened : Session
opened = new_session start 10

abbrev frame : List ℕ → ℕ → Push
frame bytes sequence = record {
  now = 20;
  frame = bytes;
  sequence = sequence;
  decoded = ok [];
  answer = words ("good" ∷ "day" ∷ []) 8;
}

abbrev pushes : List Push
pushes = frame (1 ∷ 0 ∷ 2 ∷ 0 ∷ []) 1 ∷ frame (3 ∷ 0 ∷ []) 2 ∷ []

abbrev early : StreamingUpdate
early = record { sequence = 1; text = "good" ∷ "day" ∷ []; stable_prefix = false; final = false }

-- The ring has lost the first sample.
abbrev pushed : Session
pushed = record {
  start = start;
  opened_at = 10;
  speech_ring = 2 ∷ 0 ∷ 3 ∷ 0 ∷ [];
  received_pcm_bytes = 6;
  last_rolling_bytes = 4;
  rolling_calls = 1;
  rolling_audio = 4;
  rolling_exhausted = false;
  last_sequence = 2;
  bytes_received = 6;
  first_frame = false;
  previous_tokens = "good" ∷ "day" ∷ [];
  committed_tokens = [];
  latest_text = "good" ∷ "day" ∷ [];
  closed = false;
}

pushes_return : push_all limits pushes opened ≡ (ok (early ∷ []), pushed)
unfolding push_all join_calls push within_duration validate_stream_frame validate_format decode
    consume_decoded consume_pcm store_pcm trim drop rolling_update has_pcm_energy magnitude
    take_answer stable_updates compare_tokens commit common_prefix new_session
pushes_return = refl

opened-IsView : IsView 4 [] opened
unfolding new_session
opened-IsView = record { before = []; kept = refl; full = refl; counted = refl }

push_all-IsView_example : IsView 4 (1 ∷ 0 ∷ 2 ∷ 0 ∷ 3 ∷ 0 ∷ []) pushed
unfolding decode new_session
push_all-IsView_example =
    push_all-IsView limits pushes [] opened (early ∷ []) pushed pushes_return opened-IsView

abbrev ending : Finish
ending = record { now = 30; tail = ok []; answer = words [] 0; last_answer = words [] 0 }

opened-IsBounded : IsBounded limits opened
unfolding new_session
opened-IsBounded = record {
  calls = omega arith;
  audio = omega arith;
  ring = omega arith;
  cadence = omega arith;
}

operate_all-IsBounded_example : IsBounded limits (
    operate_all limits
      (pushing (frame (1 ∷ 0 ∷ 2 ∷ 0 ∷ []) 1) ∷ finishing ending ∷ closing ∷ [])
      opened)
operate_all-IsBounded_example =
    operate_all-IsBounded limits
      (pushing (frame (1 ∷ 0 ∷ 2 ∷ 0 ∷ []) 1) ∷ finishing ending ∷ closing ∷ []) opened
      opened-IsBounded

abbrev concluding : StreamingUpdate
concluding = record {
  sequence = 2;
  text = "good" ∷ "day" ∷ [];
  stable_prefix = false;
  final = true;
}

abbrev finished : Session
finished = record pushed { last_rolling_bytes = 6; rolling_exhausted = true; closed = true }

finish_returns : finish limits ending pushed ≡ (ok (concluding ∷ []), finished)
unfolding finish finish_open finish_tail within_duration finish_decoder consume_pcm flush_after
    flush_ring close_updates rolling_update has_pcm_energy magnitude with_final is_nothing
    mark_final
finish_returns = refl

finish-is_concluded_example :
    (finished.closed ≡ true) × (is_concluded finished.latest_text (concluding ∷ []) ≡ true)
finish-is_concluded_example =
    finish-is_concluded limits ending pushed finished (concluding ∷ []) refl finish_returns

parse_streaming_start-start_payload_example :
    (parse_streaming_start (start_payload start) ≡ ok start)
    ↔ (valid_format start.codec start.sample_rate_hz start.channels ≡ true)
parse_streaming_start-start_payload_example = parse_streaming_start-start_payload start
