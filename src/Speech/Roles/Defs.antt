-- ===== src/Speech/Roles/Defs.antt =====
-- `resolve_roles`, with the types of src/mtbank_ai/speech/contracts.py and
-- src/mtbank_ai/domain/transcript.py that it uses. The resolver is an argument: what it decides on the
-- unresolved candidates. A dict is the list of its entries in the order of insertion.
use mtbank_ai_call_analytics.Prelude.{
  ℕ, Bool, true, false, not, ◌&&◌, ◌||◌, Option, none, some, is_some, String, string_eq, nat_eq,
  List, [], ◌∷◌, ◌++◌, map, length, max, ltb, eqb, ◌==◌, all, any, select, subset, is_unique,
  Result, ok, raise, ◌>>=◌, ◌>>◌, require, if◌then◌else◌,
}
use mtbank_ai_call_analytics.Analysis.Models.{SpeakerRole, operator, client, is_evidence}
use mtbank_ai_call_analytics.Speech.Roles.Types.{
  DiarizedSegment, ResolvedRole, RoleAgentProvenance, RoleAssignment, RoleError, RoleResolution,
  RoleResolutionCandidate, RoleResolutionDecision, RoleResolutionSource, SpeakerRoleMapping, agent,
  metadata, role_resolution_required, validation_error, value_error,
}

-- grouped.setdefault(speaker, []).append(segment)
unfoldable pub add_segment :
    List (String × List DiarizedSegment) → DiarizedSegment → List (String × List DiarizedSegment)
add_segment [] s = (s.original_speaker_id, s ∷ []) ∷ []
add_segment ((speaker, segments) ∷ rest) s =
    let later = add_segment rest s in
    if speaker == s.original_speaker_id
    then (speaker, segments ++ s ∷ []) ∷ rest
    else (speaker, segments) ∷ later

unfoldable pub group_segments :
    List (String × List DiarizedSegment)
    → List DiarizedSegment
    → List (String × List DiarizedSegment)
group_segments grouped [] = grouped
group_segments grouped (s ∷ segments) = group_segments (add_segment grouped s) segments

-- The maximum of the confidences that are given.
unfoldable pub best_confidence : List DiarizedSegment → Option ℕ
best_confidence [] = none
best_confidence (s ∷ segments) = elim s.speaker_confidence [
  | none ↦ best_confidence segments
  | some c ↦ elim (best_confidence segments) [ none ↦ some c | some d ↦ some (max c d) ]
]

unfoldable pub candidate_of : String × List DiarizedSegment → RoleResolutionCandidate
unfolding best_confidence
candidate_of (speaker, segments) = record {
  original_speaker_id = speaker;
  evidence_segment_ids = map (λ (s : DiarizedSegment). s.id) segments;
  evidence_segments = map (λ (s : DiarizedSegment). (s.id, s.text)) segments;
  speaker_confidence = best_confidence segments;
}

-- `_candidates`, with the validator of a candidate.
unfoldable pub candidates_of :
    List DiarizedSegment → Result RoleError (List RoleResolutionCandidate)
candidates_of segments =
    let candidates = map candidate_of (group_segments [] segments) in
    require (all (λ (c : RoleResolutionCandidate). is_evidence c.evidence_segment_ids) candidates)
      validation_error
    >> ok candidates

-- {mapping.original_speaker_id: mapping ...}.get(speaker): the last one counts.
unfoldable pub mapping_of : List SpeakerRoleMapping → String → Option SpeakerRoleMapping
mapping_of [] speaker = none
mapping_of (m ∷ mappings) speaker = elim (mapping_of mappings speaker) [
  | some later ↦ some later
  | none ↦ if m.original_speaker_id == speaker then some m else none
]

-- assignments[speaker] = assignment
unfoldable pub put_assignment :
    List (String × RoleAssignment) → String → RoleAssignment → List (String × RoleAssignment)
put_assignment [] speaker a = (speaker, a) ∷ []
put_assignment ((key, value) ∷ rest) speaker a =
    let later = put_assignment rest speaker a in
    if key == speaker then (key, a) ∷ rest else (key, value) ∷ later

unfoldable pub get_assignment : List (String × RoleAssignment) → String → Option RoleAssignment
get_assignment [] speaker = none
get_assignment ((key, value) ∷ rest) speaker =
    let later = get_assignment rest speaker in if key == speaker then some value else later

unfoldable pub by_metadata : RoleResolutionCandidate → SpeakerRoleMapping → RoleAssignment
by_metadata c m = record {
  original_speaker_id = c.original_speaker_id;
  role = m.role;
  confidence = m.confidence;
  evidence_segment_ids = c.evidence_segment_ids;
  source = metadata;
  resolution_evidence = m.evidence;
}

-- The assignments by metadata. `RoleAssignment` accepts the evidence of a candidate.
unfoldable pub assign_metadata :
    List SpeakerRoleMapping
    → List RoleResolutionCandidate
    → List (String × RoleAssignment)
    → List (String × RoleAssignment)
unfolding by_metadata
assign_metadata mappings [] d = d
assign_metadata mappings (c ∷ candidates) d =
    assign_metadata mappings candidates (elim (mapping_of mappings c.original_speaker_id) [
      | none ↦ d
      | some m ↦ put_assignment d c.original_speaker_id (by_metadata c m)
    ])

unfoldable pub unresolved_of :
    List SpeakerRoleMapping → List RoleResolutionCandidate → List RoleResolutionCandidate
unresolved_of mappings candidates =
    select
      (λ (c : RoleResolutionCandidate). not (is_some (mapping_of mappings c.original_speaker_id)))
      candidates

-- The candidates of `candidates_by_id`; their speakers differ.
unfoldable pub candidate_by_id :
    List RoleResolutionCandidate → String → Option RoleResolutionCandidate
candidate_by_id [] speaker = none
candidate_by_id (c ∷ candidates) speaker =
    let later = candidate_by_id candidates speaker in
    if c.original_speaker_id == speaker then some c else later

-- `_validate_resolver_output`
unfoldable pub validate_resolver_output :
    List RoleResolutionCandidate → List ResolvedRole → Result RoleError (Unit {0})
validate_resolver_output candidates roles =
    let resolved = map (λ (r : ResolvedRole). r.original_speaker_id) roles in
    let known = map (λ (c : RoleResolutionCandidate). c.original_speaker_id) candidates in
    require (is_unique resolved) value_error >> require (subset resolved known) value_error

unfoldable pub by_agent : ResolvedRole → RoleAssignment
by_agent r = record {
  original_speaker_id = r.original_speaker_id;
  role = r.role;
  confidence = r.confidence;
  evidence_segment_ids = r.evidence_segment_ids;
  source = agent;
  resolution_evidence = r.evidence;
}

-- The loop over the decision's roles, with `_assignment_evidence_segment_ids`. A role that is decided on
-- has a candidate, by the check before.
unfoldable pub assign_roles :
    List RoleResolutionCandidate
    → List ResolvedRole
    → List (String × RoleAssignment)
    → Result RoleError (List (String × RoleAssignment))
unfolding by_agent
assign_roles unresolved [] d = ok d
assign_roles unresolved (r ∷ roles) d = elim (candidate_by_id unresolved r.original_speaker_id) [
  | none ↦ raise value_error
  | some c ↦
      require (ltb 0 (length r.evidence_segment_ids)) value_error
      >> (require (subset r.evidence_segment_ids c.evidence_segment_ids) value_error
          >> assign_roles unresolved roles (put_assignment d r.original_speaker_id (by_agent r)))
]

unfoldable pub take_decision :
    List RoleResolutionCandidate
    → RoleResolutionDecision
    → List (String × RoleAssignment)
    → Result RoleError (List (String × RoleAssignment))
take_decision unresolved decision d =
    validate_resolver_output unresolved decision.roles
    >> (require (eqb (length decision.roles) 0 || is_some decision.agent_provenance) value_error
        >> assign_roles unresolved decision.roles d)

unfoldable pub is_operator : SpeakerRole → Bool
is_operator operator = true
is_operator client = false

-- {a.role for a in assignments} == {OPERATOR, CLIENT}
unfoldable pub both_roles : List RoleAssignment → Bool
both_roles assignments =
    any (λ (a : RoleAssignment). is_operator a.role) assignments
    && any (λ (a : RoleAssignment). not (is_operator a.role)) assignments

unfoldable pub is_agent : RoleResolutionSource → Bool
is_agent agent = true
is_agent metadata = false

-- `RoleResolution`, with `require_unique_speakers`.
unfoldable pub validate_resolution : RoleResolution → Bool
validate_resolution r =
    ltb 0 (length r.assignments)
    && is_unique (map (λ (a : RoleAssignment). a.original_speaker_id) r.assignments)
    && (any (λ (a : RoleAssignment). is_agent a.source) r.assignments
        || not (is_some r.agent_provenance))
    && (not (any (λ (a : RoleAssignment). is_agent a.source) r.assignments)
        || is_some r.agent_provenance)
    && (not (eqb (length r.assignments) 2) || both_roles r.assignments)

-- tuple(assignments[candidate.original_speaker_id] for candidate in candidates)
unfoldable pub ordered_assignments :
    List (String × RoleAssignment) → List RoleResolutionCandidate → List RoleAssignment
ordered_assignments d [] = []
ordered_assignments d (c ∷ candidates) =
    let rest = ordered_assignments d candidates in
    elim (get_assignment d c.original_speaker_id) [ none ↦ rest | some a ↦ a ∷ rest ]

unfoldable pub missing_of :
    List (String × RoleAssignment) → List RoleResolutionCandidate → List RoleResolutionCandidate
missing_of d candidates =
    select (λ (c : RoleResolutionCandidate). not (is_some (get_assignment d c.original_speaker_id)))
      candidates

-- The end of `resolve_roles`, from the assignments on.
unfoldable pub conclude :
    ℕ
    → List RoleResolutionCandidate
    → List (String × RoleAssignment)
    → Option RoleAgentProvenance
    → Result RoleError RoleResolution
conclude threshold candidates d provenance =
    let ordered = ordered_assignments d candidates in
    let resolution : RoleResolution = record {
      assignments = ordered;
      needs_review = any (λ (a : RoleAssignment). ltb a.confidence threshold) ordered;
      agent_provenance = provenance;
    } in
    require (eqb (length (missing_of d candidates)) 0)
      (role_resolution_required (missing_of d candidates))
    >> (require
          (not (eqb (length d) 2) || both_roles (map (λ (e : String × RoleAssignment). e.1) d))
          (role_resolution_required candidates)
        >> (require (validate_resolution resolution) validation_error >> ok resolution))

-- `resolve_roles`
unfoldable pub resolve_roles :
    List DiarizedSegment
    → List SpeakerRoleMapping
    → Option (List RoleResolutionCandidate → RoleResolutionDecision)
    → ℕ
    → Result RoleError RoleResolution
unfolding take_decision
resolve_roles segments mappings resolver threshold = candidates_of segments >>= λ candidates.
    let d = assign_metadata mappings candidates [] in
    let unresolved = unresolved_of mappings candidates in
    elim resolver [
      | none ↦ conclude threshold candidates d none
      | some resolve ↦
          if eqb (length unresolved) 0
          then conclude threshold candidates d none
          else take_decision unresolved (resolve unresolved) d >>= λ e.
              conclude threshold candidates e (resolve unresolved).agent_provenance
    ]
