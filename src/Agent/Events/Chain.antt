-- ===== src/Agent/Events/Chain.antt =====
-- Logs of stored events and their digests, for the recorder of src/mtbank_ai/agent_runtime/events.py.
use mathlib.Core.Path.{ap₂}
use mtbank_ai_call_analytics.Prelude.{
  ℕ, suc, ◌+◌, ◌≡◌, refl, ap, sym, ◌∙◌, true, false, Option, none, some, List, [], ◌∷◌, length, All,
  String, map, all, arith, ok, raise, if◌then◌else◌, Bool-cases, inl, inr,
}
use mtbank_ai_call_analytics.Texts.{is_id}
use mtbank_ai_call_analytics.Agent.Events.Types.{
  EventAttribute, Document, RunEvent, is_finite, require_unique_keys, validate_event,
}
use mtbank_ai_call_analytics.Agent.Events.Payload.{
  validate_payload, sort_payload, unique-sort, All-sort,
}
use mtbank_ai_call_analytics.Agent.Events.Recorder.{
  RecordRequest, LifecycleRecorder, new_recorder, attribute, valid_attribute, redacted,
  hashed_document, accepts, build, append_event, record_event, record_all, redaction,
}

module _ {Digest : Type 0} where
  -- The digest of the newest event.
  abbrev pub tip : List (RunEvent Digest) → Option Digest
  tip [] = none
  tip (e ∷ _) = some e.current_hash

  -- A log, newest event first: each event carries the digest of the one before it, its own digest, and
  -- the number of its place.
  abbrev pub IsChain :
      (event_hash : Document Digest → Digest) → (run_id : ℕ) → List (RunEvent Digest) → Type 0
  IsChain event_hash run_id [] = Unit {0}
  IsChain event_hash run_id (e ∷ log) =
      (e.document.previous_hash ≡ tip log)
      × (e.current_hash ≡ event_hash e.document)
      × (e.document.run_id ≡ run_id)
      × (e.document.sequence ≡ suc (length log))
      × (validate_event e ≡ true)
      × IsChain event_hash run_id log

abbrev pub accepted : List RecordRequest → ℕ
accepted [] = 0
accepted (q ∷ qs) = let rest = accepted qs in if validate_payload q.payload then suc rest else rest

-- A key that is an identifier without white space around it, and a value that JSON has.
abbrev pub IsPlain : (String → String) → EventAttribute → Type 0
IsPlain strip a = (strip a.key ≡ a.key) × (is_id a.key ≡ true) × (is_finite a.value ≡ true)

-- A request that no model refuses and that the sink stores: its component is an identifier without
-- white space around it, its payload a mapping of such identifiers.
pub record IsStored (strip : String → String) (q : RecordRequest) : Type 0 where
  pub stored : q.stored ≡ true
  pub stripped : strip q.component ≡ q.component
  pub named : is_id q.component ≡ true
  pub plain : All (IsPlain strip) q.payload
  pub unique : require_unique_keys q.payload ≡ true

module _ {Digest : Type 0} (strip : String → String) (event_hash : Document Digest → Digest) where
  attributes_same :
      (l : List EventAttribute)
      → All (IsPlain strip) l
      → (map (attribute strip event_hash) l ≡ l) × (all (valid_attribute strip event_hash) l ≡ true)
  unfolding attribute valid_attribute
  attributes_same [] h = (refl, refl)
  attributes_same (a ∷ rest) h =
      let (same, valid) = attributes_same rest h.1 in
      let (key, id, finite) = h.0 in
      ((λ i. record a { key = key i } ∷ same i), ground (arith, valid))

  redacted_same :
      (l : List EventAttribute)
      → All (IsPlain strip) l
      → require_unique_keys l ≡ true
      → (all (valid_attribute strip event_hash) (redacted strip event_hash l) ≡ true)
        × (require_unique_keys (redacted strip event_hash l) ≡ true)
  unfolding redacted
  redacted_same l h u =
      let (same, valid) = attributes_same (sort_payload l) (All-sort (IsPlain strip) l h) in
      (rw (same) valid, rw (same) (unique-sort l u))

  record InStep (r : LifecycleRecorder Digest) (log : List (RunEvent Digest)) : Type 0 where
    count : r.sequence ≡ length log
    linked : r.previous_hash ≡ tip log
    chain : IsChain event_hash r.run_id log

  next : LifecycleRecorder Digest → RecordRequest → RunEvent Digest
  next r q = build strip event_hash (record r { sequence = r.sequence + 1 }) q

  valid_first :
      (e : RunEvent Digest)
      → e.document.sequence ≡ 1
      → e.document.previous_hash ≡ none
      → validate_event e ≡ true
  unfolding validate_event
  valid_first e n h = ground arith

  valid_later :
      (e : RunEvent Digest) (n : ℕ) (d : Digest)
      → e.document.sequence ≡ suc (suc n)
      → e.document.previous_hash ≡ some d
      → validate_event e ≡ true
  unfolding validate_event
  valid_later e n d m h = ground arith

  valid_next :
      (r : LifecycleRecorder Digest) (q : RecordRequest) (log : List (RunEvent Digest))
      → InStep r log
      → validate_event (next r q) ≡ true
  unfolding next build hashed_document
  valid_next r q [] v = valid_first (next r q) (omega (arith, v.count)) v.linked
  valid_next r q (e ∷ log) v =
      valid_later (next r q) (length log) e.current_hash (omega (arith, v.count)) v.linked

  accepted_next :
      (r : LifecycleRecorder Digest) (q : RecordRequest) (log : List (RunEvent Digest))
      → InStep r log
      → IsStored strip q
      → accepts strip event_hash (record r { sequence = r.sequence + 1 }) q ≡ true
  unfolding accepts next
  accepted_next r q log v s =
      let (valid, unique) = redacted_same q.payload s.plain s.unique in
      let id : is_id (strip q.component) ≡ true = rw (s.stripped) s.named in
      let event : validate_event (next r q) ≡ true = valid_next r q log v in
      rw (valid, unique, id, event) refl

  record_stored :
      (r : LifecycleRecorder Digest) (q : RecordRequest) (log : List (RunEvent Digest))
      → InStep r log
      → IsStored strip q
      → validate_payload q.payload ≡ true
      → record_event strip event_hash r q ≡ (
        ok (next r q),
        record r { sequence = r.sequence + 1; previous_hash = some (next r q).current_hash },
      )
  unfolding record_event append_event next
  record_stored r q log v s a =
      let r' = record r { sequence = r.sequence + 1 } in
      let accepted : accepts strip event_hash r' q ≡ true = accepted_next r q log v s in
      rw (a, accepted, s.stored)

  next-InStep :
      (r : LifecycleRecorder Digest) (q : RecordRequest) (log : List (RunEvent Digest))
      → InStep r log
      → strip q.component ≡ q.component
      → InStep
          (record r { sequence = r.sequence + 1; previous_hash = some (next r q).current_hash })
          (next r q ∷ log)
  unfolding next build hashed_document
  next-InStep r q log v same = record {
    count = omega (arith, v.count);
    linked = refl;
    chain = (
      v.linked,
      (λ i.
          event_hash
            (record (hashed_document strip event_hash (record r { sequence = r.sequence + 1 }) q) {
              component = sym same i;
            })),
      refl,
      omega (arith, v.count),
      valid_next r q log v,
      v.chain,
    );
  }

  record_refused :
      (r : LifecycleRecorder Digest) (q : RecordRequest)
      → validate_payload q.payload ≡ false
      → record_event strip event_hash r q ≡ (raise redaction, r)
  unfolding record_event
  record_refused r q h = rw h

  run_id-record_all :
      (qs : List RecordRequest) (r : LifecycleRecorder Digest) (log : List (RunEvent Digest))
      → InStep r log
      → All (IsStored strip) qs
      → IsChain event_hash r.run_id (record_all strip event_hash r log qs).0
        × (length (record_all strip event_hash r log qs).0 ≡ length log + accepted qs)
  unfolding record_all
  run_id-record_all [] r log v s = (v.chain, omega arith)
  run_id-record_all (q ∷ qs) r log v s = elim (Bool-cases (validate_payload q.payload)) [
    | inl a ↦
        let r' : LifecycleRecorder Digest = record r {
          sequence = r.sequence + 1;
          previous_hash = some (next r q).current_hash;
        } in
        let rest =
          run_id-record_all qs r' (next r q ∷ log) (next-InStep r q log v s.0.stripped) s.1 in
        rw (record_stored r q log v s.0 a, record_all, a) (rest.0, omega (arith, rest.1))
    | inr b ↦
        let rest = run_id-record_all qs r log v s.1 in rw (record_refused r q b, record_all, b) rest
  ]

  -- If the sink stores every event, and each request has a component and different keys that are
  -- identifiers of at most 256 characters without white space around them, and no value that JSON
  -- lacks: a new recorder stores exactly one event for each request with a redacted payload, and the
  -- stored events are a hash chain of its run, numbered from 1 without a gap.
  pub record_all-IsChain :
      (run_id : ℕ) (qs : List RecordRequest)
      → All (IsStored strip) qs
      → IsChain event_hash run_id (record_all strip event_hash (new_recorder run_id) [] qs).0
        × (length (record_all strip event_hash (new_recorder run_id) [] qs).0 ≡ accepted qs)
  unfolding new_recorder
  record_all-IsChain run_id qs s =
      let start : LifecycleRecorder Digest = record {
        run_id = run_id;
        sequence = 0;
        previous_hash = none;
      } in
      let both =
        run_id-record_all qs start [] (record { count = refl; linked = refl; chain = tt }) s in
      (both.0, omega (arith, both.1))

module _ {Digest : Type 0} (event_hash : Document Digest → Digest) where
  same_event :
      (e f : RunEvent Digest)
      → ((d d' : Document Digest) → event_hash d ≡ event_hash d' → d ≡ d')
      → e.current_hash ≡ event_hash e.document
      → f.current_hash ≡ event_hash f.document
      → e.current_hash ≡ f.current_hash
      → e ≡ f
  same_event e f inj he hf h =
      λ i. record { document = inj e.document f.document (sym he ∙ h ∙ hf) i; current_hash = h i }

  -- Where no two documents share a digest, two chains of one run that end in the same digest are the
  -- same events: no event can be changed, dropped, added or moved without changing the newest digest.
  pub tip-injective :
      (run_id : ℕ) (log log' : List (RunEvent Digest))
      → ((d d' : Document Digest) → event_hash d ≡ event_hash d' → d ≡ d')
      → IsChain event_hash run_id log
      → IsChain event_hash run_id log'
      → tip log ≡ tip log'
      → log ≡ log'
  tip-injective run_id [] [] inj c c' t = refl
  tip-injective run_id [] (f ∷ log') inj c c' t = cc
  tip-injective run_id (e ∷ log) [] inj c c' t = cc
  tip-injective run_id (e ∷ log) (f ∷ log') inj c c' t =
      let same = same_event e f inj c.1 c'.1 (cc t) in
      let before = sym c.0 ∙ ap (λ (x : RunEvent Digest). x.document.previous_hash) same ∙ c'.0 in
      ap₂ (λ x l. x ∷ l) same (tip-injective run_id log log' inj c.5 c'.5 before)
