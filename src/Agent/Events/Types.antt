-- ===== src/Agent/Events/Types.antt =====
-- `LifecycleEventType` and the event record (src/mtbank_ai/domain/events.py).
use mtbank_ai_call_analytics.Prelude.{
  ◌||◌, ◌==◌, ℕ, String, Bool, not, ◌&&◌, Option, List, map, eqb, ltb, is_some, is_unique,
  string_eq,
}

pub data LifecycleEventType : Type 0 where
  run_started speech_started speech_completed speech_failed : LifecycleEventType
  role_resolution_started role_resolution_completed agent_started : LifecycleEventType
  model_requested model_completed model_failed : LifecycleEventType
  tool_proposed tool_validated tool_allowed : LifecycleEventType
  tool_started tool_completed tool_failed : LifecycleEventType
  agent_output_validated agent_output_rejected aggregation_completed : LifecycleEventType
  run_completed run_failed : LifecycleEventType

-- A payload value is kept as the text that `json.dumps` has for it.
pub record EventAttribute : Type 0 where
  pub key : String
  pub value : String

-- `allow_inf_nan=False` of the models.
unfoldable pub is_finite : String → Bool
is_finite value = not ((value == "NaN") || (value == "Infinity") || (value == "-Infinity"))

-- `RedactedPayload.require_unique_keys`
unfoldable pub require_unique_keys : List EventAttribute → Bool
require_unique_keys fields = is_unique (map (λ a. a.key) fields)

-- What `_event_hash` encodes.
pub record Document (Digest : Type 0) : Type 0 where
  pub run_id : ℕ
  pub sequence : ℕ
  pub event_type : LifecycleEventType
  pub occurred_at : ℕ
  pub component : String
  pub payload : List EventAttribute
  pub previous_hash : Option Digest

pub record RunEvent (Digest : Type 0) : Type 0 where
  pub document : Document Digest
  pub open document use *
  pub current_hash : Digest

-- `RunEvent.validate_event`, with the positive `sequence`.
unfoldable pub validate_event : {Digest : Type 0} → RunEvent Digest → Bool
validate_event e =
    ltb 0 e.sequence
    && not (eqb e.sequence 1 && is_some e.previous_hash)
    && not (ltb 1 e.sequence && not (is_some e.previous_hash))
