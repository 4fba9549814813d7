-- ===== src/Speech/Rolling.antt =====
-- The rolling session of the speech service: services/speech/streaming.py.
mod Defs
mod Finishing
pub mod Ogg
pub mod Cuts
pub mod Pages
pub mod Feeding
pub mod Fuel
pub mod Ring
pub mod Budget
pub mod Final
pub use Defs.{Limits, Session, StreamingUpdate, Failure, Transcription, words, silent, broken, Push}
pub use Finishing.{Finish, Operation, pushing, finishing, closing}
unfoldable pub use Defs.{
  new_session, drop, trim, magnitude, has_pcm_energy, common_prefix, commit, compare_tokens,
  stable_updates, take_answer, rolling_update, store_pcm, consume_pcm, decode, within_duration,
  consume_decoded, push,
}
unfoldable pub use Finishing.{
  finish_decoder, same_text, mark_final, is_nothing, with_final, close_updates, flush_ring,
  flush_after, finish_tail, finish_open, finish, operate, operate_all, join_calls, push_all,
}
