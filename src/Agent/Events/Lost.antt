-- ===== src/Agent/Events/Lost.antt =====
-- The recorder of src/mtbank_ai/agent_runtime/events.py after a refusal.
use mtbank_ai_call_analytics.Prelude.{
  ℕ, ◌+◌, ◌<◌, ◌≡◌, refl, true, false, none, List, [], ◌∷◌, arith, raise, String, sym, subst, ◌⊎◌,
  inl, inr, Bool-cases,
}
use mtbank_ai_call_analytics.Agent.Events.Types.{Document, RunEvent, validate_event}
use mtbank_ai_call_analytics.Agent.Events.Payload.{validate_payload}
use mtbank_ai_call_analytics.Agent.Events.Recorder.{
  RecordRequest, LifecycleRecorder, new_recorder, build, hashed_document, accepts, RecordError,
  append_event, record_event, record_all, redaction, invalid_event,
}

module _ {Digest : Type 0} (strip : String → String) (event_hash : Document Digest → Digest) where
  orphan_invalid :
      (e : RunEvent Digest)
      → 1 < e.document.sequence
      → e.document.previous_hash ≡ none
      → validate_event e ≡ false
  unfolding validate_event
  orphan_invalid e n h = ground arith

  -- The recorder has counted an event that it did not store, and knows no digest.
  record IsOrphaned (r : LifecycleRecorder Digest) : Type 0 where
    counted : 0 < r.sequence
    unlinked : r.previous_hash ≡ none

  append_orphan :
      (r : LifecycleRecorder Digest) (q : RecordRequest)
      → 1 < r.sequence
      → r.previous_hash ≡ none
      → append_event strip event_hash r q ≡ (raise invalid_event, r)
  unfolding append_event accepts
  append_orphan r q n h =
      let invalid : validate_event (build strip event_hash r q) ≡ false =
        unfold build hashed_document in orphan_invalid (build strip event_hash r q) n h in
      ground arith

  record_orphan :
      (r : LifecycleRecorder Digest) (q : RecordRequest)
      → IsOrphaned r
      → (record_event strip event_hash r q ≡ (raise redaction, r))
        ⊎ (record_event strip event_hash r q
            ≡ (raise invalid_event, record r { sequence = r.sequence + 1 }))
  unfolding record_event
  record_orphan r q v = elim (Bool-cases (validate_payload q.payload)) [
    | inl a ↦ inr (
        rw a (
          append_orphan (record r { sequence = r.sequence + 1 }) q (omega (arith, v.counted))
            v.unlinked))
    | inr b ↦ inl (rw b)
  ]

  orphan_stores_none :
      (qs : List RecordRequest) (r : LifecycleRecorder Digest) (log : List (RunEvent Digest))
      → IsOrphaned r
      → (record_all strip event_hash r log qs).0 ≡ log
  unfolding record_all
  orphan_stores_none [] r log v = refl
  orphan_stores_none (q ∷ qs) r log v = elim (record_orphan r q v) [
    | inl e ↦ rw (e, record_all) (orphan_stores_none qs r log v)
    | inr e ↦
        let r' : LifecycleRecorder Digest = record r { sequence = r.sequence + 1 } in
        rw (e, record_all)
          (orphan_stores_none qs r' log
            (record { counted = omega (arith, v.counted); unlinked = v.unlinked }))
  ]

  refused_kept :
      (r : LifecycleRecorder Digest) (q : RecordRequest) (e : RecordError)
      → (append_event strip event_hash r q).0 ≡ raise e
      → (append_event strip event_hash r q).1 ≡ r
  unfolding append_event
  refused_kept r q e h = ground arith

  first_refused :
      (run_id : ℕ) (q : RecordRequest) (e : RecordError)
      → validate_payload q.payload ≡ true
      → (record_event strip event_hash (new_recorder run_id) q).0 ≡ raise e
      → IsOrphaned (record_event strip event_hash (new_recorder run_id) q).1
  unfolding record_event new_recorder
  first_refused run_id q e a h =
      let counted : LifecycleRecorder Digest = record {
        run_id = run_id;
        sequence = 1;
        previous_hash = none;
      } in
      let refused : (append_event strip event_hash counted q).0 ≡ raise e = rw (a) at h in
      rw (a) (
        subst IsOrphaned (sym (refused_kept counted q e refused))
          (record { counted = omega arith; unlinked = refl }))

  -- If the very first event of a run with a redacted payload is refused, whether by the sink or by the
  -- models that check its keys, values and component, the recorder stores no event ever after: it has
  -- counted the refused event and knows no digest, so every later event fails its own validation.
  pub record_all-lost :
      (run_id : ℕ) (q : RecordRequest) (qs : List RecordRequest) (e : RecordError)
      → validate_payload q.payload ≡ true
      → (record_event strip event_hash (new_recorder run_id) q).0 ≡ raise e
      → (record_all strip event_hash
          (record_event strip event_hash (new_recorder run_id) q).1
          []
          qs).0
        ≡ []
  record_all-lost run_id q qs e a h =
      orphan_stores_none qs (record_event strip event_hash (new_recorder run_id) q).1 []
        (first_refused run_id q e a h)
