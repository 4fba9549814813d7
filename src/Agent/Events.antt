-- ===== src/Agent/Events.antt =====
-- Lifecycle events: src/mtbank_ai/agent_runtime/events.py and src/mtbank_ai/domain/events.py. SHA-256
-- over the canonical JSON of an event is a parameter, a function from the event's document to a digest.
-- Keys are folded as ASCII text. The clock reading and the success of the sink are arguments.
pub mod Types
pub mod Payload
mod Recorder
pub mod Chain
pub mod Lost
pub use Recorder.{
  LifecycleRecorder, RecordRequest, RecordError, redaction, invalid_event, sink_failed,
}
unfoldable pub use Recorder.{
  attribute, valid_attribute, redacted, hashed_document, build, accepts, append_event, new_recorder,
  record_event, record_all,
}
