-- ===== src/Agent/Events/Recorder.antt =====
-- `LifecycleRecorder` (events.py). The sequence number grows before the event is built and appended, the
-- previous digest only after it.
use mtbank_ai_call_analytics.Prelude.{
  ℕ, ◌+◌, String, Bool, Option, none, some, List, [], ◌∷◌, map, all, ◌&&◌, if◌then◌else◌, Result,
  ok, raise,
}
use mtbank_ai_call_analytics.Texts.{is_id}
use mtbank_ai_call_analytics.Agent.Events.Types.{
  LifecycleEventType, EventAttribute, Document, RunEvent, is_finite, require_unique_keys,
  validate_event,
}
use mtbank_ai_call_analytics.Agent.Events.Payload.{validate_payload, sort_payload}

pub data RecordError : Type 0 where
  redaction invalid_event sink_failed : RecordError

-- The arguments of one call of `record`, with the clock reading and whether the sink stores the event.
pub record RecordRequest : Type 0 where
  pub event_type : LifecycleEventType
  pub component : String
  pub payload : List EventAttribute
  pub occurred_at : ℕ
  pub stored : Bool

pub record LifecycleRecorder (Digest : Type 0) : Type 0 where
  pub run_id : ℕ
  pub sequence : ℕ
  pub previous_hash : Option Digest

unfoldable pub new_recorder : {Digest : Type 0} → ℕ → LifecycleRecorder Digest
new_recorder run_id = record { run_id = run_id; sequence = 0; previous_hash = none }

-- Pydantic strips an identifier by `strip`; a digest is taken by `event_hash`.
module _ {Digest : Type 0} (strip : String → String) (event_hash : Document Digest → Digest) where
  -- EventAttribute(key=key, value=value)
  unfoldable pub attribute : EventAttribute → EventAttribute
  attribute a = record a { key = strip a.key }

  unfoldable pub valid_attribute : EventAttribute → Bool
  valid_attribute a = is_id a.key && is_finite a.value

  -- `RedactedPayload` of the sorted items.
  unfoldable pub redacted : List EventAttribute → List EventAttribute
  unfolding attribute
  redacted payload = map attribute (sort_payload payload)

  -- What the digest is taken of: the component is not stripped.
  unfoldable pub hashed_document : LifecycleRecorder Digest → RecordRequest → Document Digest
  unfolding redacted
  hashed_document r q = record {
    run_id = r.run_id;
    sequence = r.sequence;
    event_type = q.event_type;
    occurred_at = q.occurred_at;
    component = q.component;
    payload = redacted q.payload;
    previous_hash = r.previous_hash;
  }

  -- The event, with the stripped component.
  unfoldable pub build : LifecycleRecorder Digest → RecordRequest → RunEvent Digest
  unfolding hashed_document
  build r q = record {
    document = record (hashed_document r q) { component = strip q.component };
    current_hash = event_hash (hashed_document r q);
  }

  -- The models accept the payload and the event.
  unfoldable pub accepts : LifecycleRecorder Digest → RecordRequest → Bool
  unfolding build redacted valid_attribute
  accepts r q =
      all valid_attribute (redacted q.payload)
      && require_unique_keys (redacted q.payload)
      && is_id (strip q.component)
      && validate_event (build r q)

  -- The steps below the new sequence number.
  unfoldable pub append_event :
      LifecycleRecorder Digest
      → RecordRequest
      → Result RecordError (RunEvent Digest) × LifecycleRecorder Digest
  unfolding build accepts
  append_event r q =
      let e = build r q in
      if accepts r q
      then if q.stored
        then (ok e, record r { previous_hash = some e.current_hash })
        else (raise sink_failed, r)
      else (raise invalid_event, r)

  unfoldable pub record_event :
      LifecycleRecorder Digest
      → RecordRequest
      → Result RecordError (RunEvent Digest) × LifecycleRecorder Digest
  record_event r q =
      if validate_payload q.payload
      then append_event (record r { sequence = r.sequence + 1 }) q
      else (raise redaction, r)

  unfoldable pub store_event :
      Result RecordError (RunEvent Digest) → List (RunEvent Digest) → List (RunEvent Digest)
  store_event (ok e) log = e ∷ log
  store_event (raise _) log = log

  -- Calls of `record` one after the other, with the events stored, the newest first.
  unfoldable pub record_all :
      LifecycleRecorder Digest
      → List (RunEvent Digest)
      → List RecordRequest
      → List (RunEvent Digest) × LifecycleRecorder Digest
  unfolding store_event
  record_all r log [] = (log, r)
  record_all r log (q ∷ rest) =
      let (result, r') = record_event r q in record_all r' (store_event result log) rest
