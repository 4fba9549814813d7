-- ===== src/Speech/Roles/Resolved.antt =====
-- The evidence of the roles that `resolve_roles` of src/mtbank_ai/speech/roles.py returns.
use mtbank_ai_call_analytics.Prelude.{
  ℕ, ◌≡◌, sym, arith, true, Option, none, some, String, string_eq, nat_eq, List, [], ◌∷◌, map, All,
  subset, subset_trans, Result, ok, ◌>>=◌, subst, Option-cases, inl, inr, >>=-eq-ok, ◌⊎◌,
}
use mtbank_ai_call_analytics.Speech.Roles.Defs.{
  group_segments, candidate_of, candidates_of, put_assignment, get_assignment, assign_metadata,
  unresolved_of, candidate_by_id, validate_resolver_output, by_agent, assign_roles, take_decision,
  ordered_assignments, conclude, resolve_roles,
}
use mtbank_ai_call_analytics.Speech.Roles.Types.{
  DiarizedSegment, SpeakerRoleMapping, RoleResolutionCandidate, ResolvedRole,
  RoleResolutionDecision, RoleAssignment, RoleResolution, RoleError, RoleAgentProvenance,
}
use mtbank_ai_call_analytics.Speech.Roles.Grouping.{
  Keyed, get_assignment-Keyed, assign_metadata-Keyed, take_decision-Keyed, conclude-parts,
}
use mtbank_ai_call_analytics.Speech.Roles.Evidence.{
  ids_of, Supports, Backed, Grounded, AllKnown-self, group_segments-Sourced, candidates-Backed,
  select-Backed, candidate_by_id-Supports, put_assignment-Grounded, assign_metadata-Grounded,
}

-- One round of the loop over a decision.
assign_roles-step :
    (unresolved : List RoleResolutionCandidate) (r : ResolvedRole) (roles : List ResolvedRole)
    (d e : List (String × RoleAssignment))
    → assign_roles unresolved (r ∷ roles) d ≡ ok e
    → (c : RoleResolutionCandidate) × (candidate_by_id unresolved r.original_speaker_id ≡ some c)
      × (subset r.evidence_segment_ids c.evidence_segment_ids ≡ true)
      × (assign_roles unresolved roles (put_assignment d r.original_speaker_id (by_agent r)) ≡ ok e)
unfolding assign_roles
assign_roles-step unresolved r roles d e q =
    elim (Option-cases (candidate_by_id unresolved r.original_speaker_id)) [
      | inl n ↦ absurd (ground (arith, n))
      | inr c ↦ (c.0, c.1, ground (arith, c.1), ground (arith, c.1))
    ]

module _ (segments : List DiarizedSegment) where
  assign_roles-Grounded :
      (unresolved : List RoleResolutionCandidate) (roles : List ResolvedRole)
      (d e : List (String × RoleAssignment))
      → Backed segments unresolved
      → Grounded segments d
      → assign_roles unresolved roles d ≡ ok e
      → Grounded segments e
  unfolding assign_roles by_agent
  assign_roles-Grounded unresolved [] d e b h q =
      let same : d ≡ e = cc in subst (Grounded segments) same h
  assign_roles-Grounded unresolved (r ∷ roles) d e b h q =
      let d' = put_assignment d r.original_speaker_id (by_agent r) in
      let (c, found, own, rest) = assign_roles-step unresolved r roles d e q in
      let supported =
        candidate_by_id-Supports segments unresolved r.original_speaker_id c b found in
      let evidence : Supports segments r.original_speaker_id r.evidence_segment_ids =
        subset_trans r.evidence_segment_ids c.evidence_segment_ids
          (ids_of segments r.original_speaker_id) own supported in
      assign_roles-Grounded unresolved roles d' e b
        (put_assignment-Grounded segments d r.original_speaker_id (by_agent r) evidence h) rest

  take_decision-Grounded :
      (unresolved : List RoleResolutionCandidate) (decision : RoleResolutionDecision)
      (d e : List (String × RoleAssignment))
      → Backed segments unresolved
      → Grounded segments d
      → take_decision unresolved decision d ≡ ok e
      → Grounded segments e
  unfolding take_decision validate_resolver_output
  take_decision-Grounded unresolved decision d e b h q =
      let rest : assign_roles unresolved decision.roles d ≡ ok e = ground arith in
      assign_roles-Grounded unresolved decision.roles d e b h rest

  get_assignment-Supports :
      (d : List (String × RoleAssignment)) (speaker : String) (a : RoleAssignment)
      → Grounded segments d
      → get_assignment d speaker ≡ some a
      → Supports segments speaker a.evidence_segment_ids
  unfolding get_assignment
  get_assignment-Supports [] speaker a h q = cc
  get_assignment-Supports ((k, v) ∷ d) speaker a h q =
      ground (arith, h.0, get_assignment-Supports d speaker a h.1, string_eq.beq_iff k speaker)

  -- Each assignment of a resolution is backed by segments of its own speaker.
  abbrev pub AllSupported : List RoleAssignment → Type 0
  AllSupported =
      All (λ (a : RoleAssignment). Supports segments a.original_speaker_id a.evidence_segment_ids)

  ordered_assignments-AllSupported :
      (d : List (String × RoleAssignment)) (cs : List RoleResolutionCandidate)
      → Keyed d
      → Grounded segments d
      → AllSupported (ordered_assignments d cs)
  unfolding ordered_assignments
  ordered_assignments-AllSupported d [] k h = tt
  ordered_assignments-AllSupported d (c ∷ cs) k h =
      elim (Option-cases (get_assignment d c.original_speaker_id)) [
        | inl n ↦ rw (n, ordered_assignments) (ordered_assignments-AllSupported d cs k h)
        | inr a ↦
            rw (a.1, ordered_assignments)
              (
                subst (λ (k : String). Supports segments k a.0.evidence_segment_ids)
                    (sym (get_assignment-Keyed d c.original_speaker_id a.0 k a.1))
                    (get_assignment-Supports d c.original_speaker_id a.0 h a.1),
                ordered_assignments-AllSupported d cs k h,
              )
      ]

  conclude-AllSupported :
      (threshold : ℕ) (cs : List RoleResolutionCandidate) (d : List (String × RoleAssignment))
      (provenance : Option RoleAgentProvenance) (r : RoleResolution)
      → Keyed d
      → Grounded segments d
      → conclude threshold cs d provenance ≡ ok r
      → AllSupported r.assignments
  conclude-AllSupported threshold cs d provenance r k h q =
      let assigned = (conclude-parts threshold cs d provenance r q).1 in
      subst AllSupported (sym assigned) (ordered_assignments-AllSupported d cs k h)

-- In a resolution that is returned, each assignment names as its evidence only segments in which its own
-- speaker speaks; whatever the resolver decides.
pub resolve_roles-AllSupported :
    (segments : List DiarizedSegment) (mappings : List SpeakerRoleMapping)
    (resolver : Option (List RoleResolutionCandidate → RoleResolutionDecision)) (threshold : ℕ)
    (r : RoleResolution)
    → resolve_roles segments mappings resolver threshold ≡ ok r
    → AllSupported segments r.assignments
unfolding resolve_roles candidates_of unresolved_of
resolve_roles-AllSupported segments mappings none threshold r h =
    let cs = map candidate_of (group_segments [] segments) in
    let backed =
      candidates-Backed segments (group_segments [] segments)
        (group_segments-Sourced segments [] segments (AllKnown-self segments) tt) in
    let d = assign_metadata mappings cs [] in
    let ended : conclude threshold cs d none ≡ ok r = ground arith in
    conclude-AllSupported segments threshold cs d none r (assign_metadata-Keyed mappings cs [] tt)
      (assign_metadata-Grounded segments mappings cs [] backed tt) ended
resolve_roles-AllSupported segments mappings (some resolve) threshold r h =
    let cs = map candidate_of (group_segments [] segments) in
    let backed =
      candidates-Backed segments (group_segments [] segments)
        (group_segments-Sourced segments [] segments (AllKnown-self segments) tt) in
    let d = assign_metadata mappings cs [] in
    let keyed = assign_metadata-Keyed mappings cs [] tt in
    let grounded = assign_metadata-Grounded segments mappings cs [] backed tt in
    let unresolved = unresolved_of mappings cs in
    let decided : Result RoleError (List (String × RoleAssignment)) =
      take_decision unresolved (resolve unresolved) d in
    let next : List (String × RoleAssignment) → Result RoleError RoleResolution =
      λ e. conclude threshold cs e (resolve unresolved).agent_provenance in
    let ended : ((conclude threshold cs d none ≡ ok r) ⊎ ((decided >>= next) ≡ ok r)) =
      ground arith in
    elim ended [
      | inl simple ↦ conclude-AllSupported segments threshold cs d none r keyed grounded simple
      | inr asked ↦
          let (e, taken, finished) = >>=-eq-ok decided next asked in
          conclude-AllSupported segments threshold cs e (resolve unresolved).agent_provenance r
            (take_decision-Keyed unresolved (resolve unresolved) d e keyed taken)
            (take_decision-Grounded segments unresolved (resolve unresolved) d e
              (select-Backed segments _ cs backed) grounded taken)
            finished
    ]
