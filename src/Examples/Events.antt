-- ===== src/Examples/Events.antt =====
-- The recorder of src/mtbank_ai/agent_runtime/events.py with a hash that keeps the whole document.
use Prim.Native.Char.{code}
use mtbank_ai_call_analytics.Prelude.{
  eqb, if◌then◌else◌, raise, ℕ, ◌≡◌, refl, sym, ap, ◌∙◌, String, true, false, Option, none, some,
  List, [], ◌∷◌, length, is_unique, string_eq, contains,
}
use mtbank_ai_call_analytics.Agent.Events.{
  RecordRequest, sink_failed, new_recorder, record_event, record_all, append_event, accepts, build,
  hashed_document, redacted, attribute, valid_attribute,
}
use mtbank_ai_call_analytics.Texts.{is_id}
use mtbank_ai_call_analytics.Agent.Events.Types.{
  LifecycleEventType, run_started, agent_started, run_completed, EventAttribute, Document, RunEvent,
  is_finite, require_unique_keys, validate_event,
}
use mtbank_ai_call_analytics.Agent.Events.Payload.{validate_payload, is_redacted, sort_payload}
use mtbank_ai_call_analytics.Agent.Events.Chain.{
  IsChain, IsStored, accepted, record_all-IsChain, tip-injective,
}
use mtbank_ai_call_analytics.Agent.Events.Lost.{record_all-lost}

-- A digest that is the document itself.
data Digest : Type 0 where
  first : ℕ → ℕ → LifecycleEventType → ℕ → String → List EventAttribute → Digest
  next : ℕ → ℕ → LifecycleEventType → ℕ → String → List EventAttribute → Digest → Digest

abbrev digest_after : Document Digest → Option Digest → Digest
digest_after d none = first d.run_id d.sequence d.event_type d.occurred_at d.component d.payload
digest_after d (some h) =
    next d.run_id d.sequence d.event_type d.occurred_at d.component d.payload h

abbrev digest : Document Digest → Digest
digest d = digest_after d d.previous_hash

abbrev document_of : Digest → Document Digest
document_of (first r n t o c p) = record {
  run_id = r;
  sequence = n;
  event_type = t;
  occurred_at = o;
  component = c;
  payload = p;
  previous_hash = none;
}
document_of (next r n t o c p h) = record {
  run_id = r;
  sequence = n;
  event_type = t;
  occurred_at = o;
  component = c;
  payload = p;
  previous_hash = some h;
}

abbrev with_hash : Document Digest → Option Digest → Document Digest
with_hash d o = record d { previous_hash = o }

document_of-after :
    (d : Document Digest) (o : Option Digest) → document_of (digest_after d o) ≡ with_hash d o
document_of-after d none = refl
document_of-after d (some h) = refl

digest-injective : (d d' : Document Digest) → digest d ≡ digest d' → d ≡ d'
digest-injective d d' h =
    sym (document_of-after d d.previous_hash)
    ∙ ap document_of h
    ∙ document_of-after d' d'.previous_hash

-- Stripping of spaces at the beginning.
abbrev strip : String → String
strip String.[] = String.[]
strip (String.◌∷◌ c text) = if eqb (code c) 32 then strip text else String.◌∷◌ c text

abbrev request : LifecycleEventType → RecordRequest
request t = record {
  event_type = t;
  component = "agent";
  payload = record { key = "turns"; value = "2" } ∷ [];
  occurred_at = 5;
  stored = true;
}

abbrev refused : RecordRequest
refused = record {
  event_type = run_started;
  component = "agent";
  payload = record { key = "turns"; value = "2" } ∷ [];
  occurred_at = 5;
  stored = false;
}

abbrev document : ℕ → LifecycleEventType → Option Digest → Document Digest
document n t h = record {
  run_id = 7;
  sequence = n;
  event_type = t;
  occurred_at = 5;
  component = "agent";
  payload = [];
  previous_hash = h;
}

abbrev stored : Document Digest → RunEvent Digest
stored d = record { document = d; current_hash = digest d }

abbrev started : RunEvent Digest
started = stored (document 1 run_started none)

abbrev log : List (RunEvent Digest)
log = stored (document 2 run_completed (some started.current_hash)) ∷ started ∷ []

log-IsChain : IsChain digest 7 log
unfolding validate_event
log-IsChain = (refl, refl, refl, refl, refl, (refl, refl, refl, refl, refl, tt))

request-IsStored : (t : LifecycleEventType) → IsStored strip (request t)
unfolding is_id is_finite require_unique_keys is_unique contains
request-IsStored t = record {
  stored = refl;
  stripped = refl;
  named = refl;
  plain = ((refl, refl, refl), tt);
  unique = refl;
}

record_all-IsChain_example :
    IsChain digest 7
      (record_all strip digest
        (new_recorder 7)
        []
        (request run_started ∷ request run_completed ∷ [])).0
    × (length
          (record_all strip digest
            (new_recorder 7)
            []
            (request run_started ∷ request run_completed ∷ [])).0
        ≡ accepted (request run_started ∷ request run_completed ∷ []))
record_all-IsChain_example =
    record_all-IsChain strip digest 7 (request run_started ∷ request run_completed ∷ [])
      (request-IsStored run_started, (request-IsStored run_completed, tt))

tip-injective_example : log ≡ log
tip-injective_example = tip-injective digest 7 log log digest-injective log-IsChain log-IsChain refl

refused_first : (record_event strip digest (new_recorder 7) refused).0 ≡ raise sink_failed
unfolding record_event append_event accepts build hashed_document redacted attribute valid_attribute
    validate_payload is_redacted sort_payload require_unique_keys is_unique contains is_id is_finite
    validate_event new_recorder
refused_first = refl

record_all-lost_example :
    (record_all strip digest
      (record_event strip digest (new_recorder 7) refused).1
      []
      (request agent_started ∷ request run_completed ∷ [])).0
    ≡ []
unfolding validate_payload is_redacted
record_all-lost_example =
    record_all-lost strip digest 7 refused (request agent_started ∷ request run_completed ∷ [])
      sink_failed refl refused_first
