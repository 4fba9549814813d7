-- ===== src/Agent/Stream.antt =====
-- Streaming through the resilient model client of src/mtbank_ai/agent_runtime/retry.py.
mod Defs
pub mod Once
pub mod Lease
pub mod Streams
pub mod Delivered
pub use Defs.{
  Item, StreamEnd, exhausted, stopped, crashed, broken, StreamAttempt, StreamState, Streamed,
}
unfoldable pub use Defs.{
  is_emitted, is_circuit_open, on_event, consume, resume, pause, probe_again, on_error, on_end,
  read_stream, stream_once, stream_attempts, deliver, stream,
}
