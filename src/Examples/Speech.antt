-- ===== src/Examples/Speech.antt =====
-- The streaming session of src/mtbank_ai/speech/streaming.py at two frames and an end.
use mtbank_ai_call_analytics.Prelude.{◌≡◌, ◌↔◌, ok, refl, true, false, some, List, [], ◌∷◌, ◌++◌}
use mtbank_ai_call_analytics.Speech.Frames.{
  to_bytes, parse_streaming_binary_frame, parse_streaming_binary_frame-to_bytes,
}
use mtbank_ai_call_analytics.Speech.Session.{
  ack, finished, StreamingUpdate, Incoming, update, terminal, Limits, Operation, pushes, finishes,
  closing, operate_all, new_session, receive_until, accepts_update, is_blank, is_space,
}
use mtbank_ai_call_analytics.Speech.Order.{IsOrdered, operate_all-IsOrdered}
use mtbank_ai_call_analytics.Speech.Answers.{IsExchange, receive_until_iff}

abbrev limits : Limits
limits = record { max_message_bytes = 100; max_updates_per_operation = 4 }

abbrev hello : StreamingUpdate
hello = record { sequence = 1; text = "алло"; stable_prefix = true; final = false }

abbrev inbox : List Incoming
inbox = update hello ∷ terminal ack 1 ∷ terminal ack 2 ∷ terminal finished 3 ∷ []

abbrev operations : List Operation
operations = pushes true (7 ∷ 8 ∷ []) 1 ∷ pushes true (9 ∷ []) 2 ∷ finishes true ∷ closing ∷ []

parse_streaming_binary_frame-to_bytes_example :
    parse_streaming_binary_frame ((0 ∷ 0 ∷ 1 ∷ 2 ∷ []) ++ 7 ∷ 8 ∷ []) 258 ≡ some (258, 7 ∷ 8 ∷ [])
unfolding to_bytes
parse_streaming_binary_frame-to_bytes_example =
    parse_streaming_binary_frame-to_bytes 258 7 (0 ∷ 0 ∷ 1 ∷ 2 ∷ []) (8 ∷ []) refl

operate_all-IsOrdered_example : IsOrdered (operate_all limits operations (new_session inbox))
operate_all-IsOrdered_example = operate_all-IsOrdered limits operations inbox

abbrev left : List Incoming
left = terminal ack 2 ∷ terminal finished 3 ∷ []

receive_until_iff_example :
    (receive_until limits ack 1 inbox [] ≡ (ok (hello ∷ []), left))
    ↔ IsExchange limits ack 1 inbox left (hello ∷ [])
receive_until_iff_example = receive_until_iff limits ack 1 inbox left (hello ∷ [])

received : receive_until limits ack 1 inbox [] ≡ (ok (hello ∷ []), left)
unfolding receive_until accepts_update is_blank is_space
received = refl
