-- ===== src/Speech/Roles/Evidence.antt =====
-- The evidence of the assignments that src/mtbank_ai/speech/roles.py makes.
use mtbank_ai_call_analytics.Prelude.{
  ℕ, ◌≡◌, refl, sym, ap, arith, Bool, true, some, String, string_eq, nat_eq, List, [], ◌∷◌, ◌++◌,
  map, ◌==◌, All, select, contains, subset, subset_both, beq_refl, subst, Option-cases, Bool-cases,
  inl, inr,
}
use mtbank_ai_call_analytics.Speech.Roles.Defs.{
  add_segment, group_segments, candidate_of, mapping_of, put_assignment, by_metadata,
  assign_metadata, candidate_by_id,
}
use mtbank_ai_call_analytics.Speech.Roles.Types.{
  DiarizedSegment, SpeakerRoleMapping, RoleResolutionCandidate, RoleAssignment,
}

-- The ids of the segments of a speaker.
abbrev pub ids_of : List DiarizedSegment → String → List ℕ
ids_of segments speaker =
    map (λ (s : DiarizedSegment). s.id)
      (select (λ (s : DiarizedSegment). s.original_speaker_id == speaker) segments)

abbrev ids : List DiarizedSegment → List ℕ
ids segments = map (λ (s : DiarizedSegment). s.id) segments

abbrev AllKnown : List DiarizedSegment → List DiarizedSegment → Type 0
AllKnown all_segments ss =
    All (λ (s : DiarizedSegment). contains (ids_of all_segments s.original_speaker_id) s.id ≡ true)
      ss

contains-ids_of :
    (x : DiarizedSegment) (xs : List DiarizedSegment) (speaker : String) (id : ℕ)
    → contains (ids_of xs speaker) id ≡ true
    → contains (ids_of (x ∷ xs) speaker) id ≡ true
unfolding contains
contains-ids_of x xs speaker id h = ground (arith, h)

AllKnown-cons :
    (x : DiarizedSegment) (xs ss : List DiarizedSegment) → AllKnown xs ss → AllKnown (x ∷ xs) ss
AllKnown-cons x xs [] h = tt
AllKnown-cons x xs (s ∷ ss) h =
    (contains-ids_of x xs s.original_speaker_id s.id h.0, AllKnown-cons x xs ss h.1)

pub AllKnown-self : (segments : List DiarizedSegment) → AllKnown segments segments
unfolding contains
AllKnown-self [] = tt
AllKnown-self (s ∷ segments) = (
  ground (arith, beq_refl s.original_speaker_id, beq_refl s.id),
  AllKnown-cons s segments segments (AllKnown-self segments),
)

module _ (segments : List DiarizedSegment) where
  -- The evidence belongs to the speaker.
  abbrev pub Supports : String → List ℕ → Type 0
  Supports speaker evidence = subset evidence (ids_of segments speaker) ≡ true

  abbrev pub Sourced : List (String × List DiarizedSegment) → Type 0
  Sourced g = All (λ (e : String × List DiarizedSegment). Supports e.0 (ids e.1)) g

  abbrev Known : DiarizedSegment → Type 0
  Known s = contains (ids_of segments s.original_speaker_id) s.id ≡ true

  ids-snoc :
      (ss : List DiarizedSegment) (s : DiarizedSegment) → ids (ss ++ s ∷ []) ≡ ids ss ++ s.id ∷ []
  ids-snoc [] s = refl
  ids-snoc (x ∷ ss) s = ap (λ (xs : List ℕ). x.id ∷ xs) (ids-snoc ss s)

  Supports-snoc :
      (speaker : String) (ss : List DiarizedSegment) (s : DiarizedSegment)
      → speaker ≡ s.original_speaker_id
      → Known s
      → Supports speaker (ids ss)
      → Supports speaker (ids (ss ++ s ∷ []))
  unfolding subset
  Supports-snoc speaker ss s own known h = rw (ids-snoc ss s) (
      subset_both (ids ss) (s.id ∷ []) (ids_of segments speaker) h (
        ground (
          arith,
          subst (λ (k : String). contains (ids_of segments k) s.id ≡ true) (sym own) known,
        )))

  add_segment-Sourced :
      (g : List (String × List DiarizedSegment)) (s : DiarizedSegment)
      → Known s
      → Sourced g
      → Sourced (add_segment g s)
  unfolding add_segment subset
  add_segment-Sourced [] s known h = (Supports-snoc s.original_speaker_id [] s refl known refl, tt)
  add_segment-Sourced ((k, ss) ∷ g) s known h = elim (Bool-cases (k == s.original_speaker_id)) [
    | inl e ↦
        rw (e)
          (Supports-snoc k ss s ((string_eq.beq_iff k s.original_speaker_id).0 e) known h.0, h.1)
    | inr e ↦ rw (e) (h.0, add_segment-Sourced g s known h.1)
  ]

  pub group_segments-Sourced :
      (g : List (String × List DiarizedSegment)) (ss : List DiarizedSegment)
      → All Known ss
      → Sourced g
      → Sourced (group_segments g ss)
  unfolding group_segments
  group_segments-Sourced g [] known h = h
  group_segments-Sourced g (s ∷ ss) known h =
      group_segments-Sourced (add_segment g s) ss known.1 (add_segment-Sourced g s known.0 h)

  abbrev pub Backed : List RoleResolutionCandidate → Type 0
  Backed cs =
      All (λ (c : RoleResolutionCandidate). Supports c.original_speaker_id c.evidence_segment_ids)
        cs

  pub candidates-Backed :
      (g : List (String × List DiarizedSegment)) → Sourced g → Backed (map candidate_of g)
  unfolding candidate_of
  candidates-Backed [] h = tt
  candidates-Backed (e ∷ g) h = (h.0, candidates-Backed g h.1)

  pub select-Backed :
      (p : RoleResolutionCandidate → Bool) (cs : List RoleResolutionCandidate)
      → Backed cs
      → Backed (select p cs)
  select-Backed p [] h = tt
  select-Backed p (c ∷ cs) h = elim (Bool-cases (p c)) [
    | inl e ↦ rw (e) (h.0, select-Backed p cs h.1)
    | inr e ↦ rw (e) (select-Backed p cs h.1)
  ]

  pub candidate_by_id-Supports :
      (cs : List RoleResolutionCandidate) (speaker : String) (c : RoleResolutionCandidate)
      → Backed cs
      → candidate_by_id cs speaker ≡ some c
      → Supports speaker c.evidence_segment_ids
  unfolding candidate_by_id
  candidate_by_id-Supports [] speaker c h q = cc
  candidate_by_id-Supports (b ∷ cs) speaker c h q = ground (
    arith,
    h.0,
    candidate_by_id-Supports cs speaker c h.1,
    string_eq.beq_iff b.original_speaker_id speaker,
  )

  -- Each assignment is backed by segments of the speaker under which it is kept.
  abbrev pub Grounded : List (String × RoleAssignment) → Type 0
  Grounded d = All (λ (e : String × RoleAssignment). Supports e.0 e.1.evidence_segment_ids) d

  pub put_assignment-Grounded :
      (d : List (String × RoleAssignment)) (speaker : String) (a : RoleAssignment)
      → Supports speaker a.evidence_segment_ids
      → Grounded d
      → Grounded (put_assignment d speaker a)
  unfolding put_assignment
  put_assignment-Grounded [] speaker a own h = (own, tt)
  put_assignment-Grounded ((k, v) ∷ d) speaker a own h = elim (Bool-cases (k == speaker)) [
    | inl e ↦ rw (e) (
      subst (λ (k : String). Supports k a.evidence_segment_ids)
          (sym ((string_eq.beq_iff k speaker).0 e)) own,
      h.1,
    )
    | inr e ↦ rw (e) (h.0, put_assignment-Grounded d speaker a own h.1)
  ]

  pub assign_metadata-Grounded :
      (mappings : List SpeakerRoleMapping) (cs : List RoleResolutionCandidate)
      (d : List (String × RoleAssignment))
      → Backed cs
      → Grounded d
      → Grounded (assign_metadata mappings cs d)
  unfolding assign_metadata by_metadata
  assign_metadata-Grounded mappings [] d b h = h
  assign_metadata-Grounded mappings (c ∷ cs) d b h =
      elim (Option-cases (mapping_of mappings c.original_speaker_id)) [
        | inl e ↦ rw (e) (assign_metadata-Grounded mappings cs d b.1 h)
        | inr e ↦ rw (e.1) (
            assign_metadata-Grounded mappings cs
              (put_assignment d c.original_speaker_id (by_metadata c e.0)) b.1
              (put_assignment-Grounded d c.original_speaker_id (by_metadata c e.0) b.0 h))
      ]
