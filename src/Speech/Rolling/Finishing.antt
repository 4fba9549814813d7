-- ===== src/Speech/Rolling/Finishing.antt =====
-- The end of a rolling session, and sequences of its calls, in services/speech/streaming.py.
use mtbank_ai_call_analytics.Prelude.{
  ℕ, Bool, true, false, not, ◌&&◌, String, string_eq, List, [], ◌∷◌, ◌++◌, ltb, eqb, ◌==◌, max,
  length, Result, ok, raise, if◌then◌else◌,
}
use mtbank_ai_call_analytics.Speech.Start.{StreamingCodec, pcm_s16le, ogg_opus}
use mtbank_ai_call_analytics.Speech.Rolling.Defs.{
  Answer, Failure, Limits, Push, Session, StreamingUpdate, Transcription, consume_pcm, push,
  rolling_update, unavailable, within_duration,
}

-- A call of `finish`; `tail` is what the validator and the decoder give at the end of Ogg/Opus.
pub record Finish : Type 0 where
  pub now : ℕ
  pub tail : Result Failure (List ℕ)
  pub answer : Transcription
  pub last_answer : Transcription

-- `_finish_decoder`
unfoldable pub finish_decoder : StreamingCodec → Result Failure (List ℕ) → Result Failure (List ℕ)
finish_decoder pcm_s16le tail = ok []
finish_decoder ogg_opus tail = tail

unfoldable pub same_text : List String → List String → Bool
same_text [] [] = true
same_text (x ∷ xs) (y ∷ ys) = (x == y) && same_text xs ys
same_text [] (y ∷ ys) = false
same_text (x ∷ xs) [] = false

-- updates[-1] is made final if its text is the latest; otherwise an update is appended.
unfoldable pub mark_final : List StreamingUpdate → StreamingUpdate → List StreamingUpdate
mark_final [] last = last ∷ []
mark_final (u ∷ []) last =
    if same_text u.text last.text then record u { final = true } ∷ [] else u ∷ last ∷ []
mark_final (u ∷ v ∷ us) last = u ∷ mark_final (v ∷ us) last

unfoldable pub is_nothing : List String → Bool
is_nothing [] = true
is_nothing (t ∷ ts) = false

unfoldable pub with_final : Session → List StreamingUpdate → List StreamingUpdate
unfolding mark_final is_nothing
with_final s updates =
    if is_nothing s.latest_text
    then updates
    else mark_final updates (record {
      sequence = max 1 s.last_sequence;
      text = s.latest_text;
      stable_prefix = not (is_nothing s.committed_tokens);
      final = true;
    })

-- What `finish` returns, after the updates before and the last rolling update.
unfoldable pub close_updates : List StreamingUpdate → Answer → Answer
close_updates updates (raise e, s) = (raise e, s)
close_updates updates (ok us, s) = (ok (with_final s (updates ++ us)), s)

-- The second rolling update of `finish`, where no PCM came from the decoder.
unfoldable pub flush_ring : Limits → Finish → List ℕ → List StreamingUpdate → Session → Answer
unfolding close_updates
flush_ring limits f pcm updates s =
    if eqb (length pcm) 0 && ltb s.last_rolling_bytes s.received_pcm_bytes
    then close_updates updates (
        rolling_update limits f.last_answer s.last_sequence
          (record s { last_rolling_bytes = s.received_pcm_bytes }))
    else (ok (with_final s updates), s)

unfoldable pub flush_after : Limits → Finish → List ℕ → Answer → Answer
unfolding flush_ring
flush_after limits f pcm (raise e, s) = (raise e, s)
flush_after limits f pcm (ok us, s) = flush_ring limits f pcm us s

-- The `try` block of `finish`.
unfoldable pub finish_tail : Limits → Finish → Result Failure (List ℕ) → Session → Answer
unfolding flush_after
finish_tail limits f (raise e) s = (raise e, s)
finish_tail limits f (ok pcm) s =
    flush_after limits f pcm (consume_pcm limits pcm s.last_sequence true f.answer s)

unfoldable pub finish_open : Limits → Finish → Session → Answer
unfolding finish_tail finish_decoder
finish_open limits f s =
    if not (within_duration limits f.now s)
    then (raise unavailable, s)
    else finish_tail limits f (finish_decoder s.start.codec f.tail) s

-- `finish`, with the `close` of its `finally`.
unfoldable pub finish : Limits → Finish → Session → Answer
unfolding finish_open
finish limits f s =
    if s.closed
    then (ok [], s)
    else let (r, s') = finish_open limits f s in (r, record s' { closed = true })

-- Any calls, in the order in which they come.
pub data Operation : Type 0 where
  pushing : Push → Operation
  finishing : Finish → Operation
  closing : Operation

unfoldable pub operate : Limits → Operation → Session → Answer
operate limits (pushing i) s = push limits i s
operate limits (finishing f) s = finish limits f s
operate limits closing s = (ok [], record s { closed = true })

unfoldable pub operate_all : Limits → List Operation → Session → Session
operate_all limits [] s = s
operate_all limits (o ∷ os) s = operate_all limits os (operate limits o s).1

-- The updates of two calls, of which the second is made if the first returns.
unfoldable pub join_calls : Answer → Answer → Answer
join_calls (raise e, s) rest = (raise e, s)
join_calls (ok us, s) (raise e, t) = (raise e, t)
join_calls (ok us, s) (ok vs, t) = (ok (us ++ vs), t)

-- Calls of `push` up to the first that raises, after which the connection is closed.
unfoldable pub push_all : Limits → List Push → Session → Answer
unfolding join_calls
push_all limits [] s = (ok [], s)
push_all limits (i ∷ is) s =
    let first = push limits i s in join_calls first (push_all limits is first.1)
