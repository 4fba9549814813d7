-- ===== src/Speech/Roles/Grouping.antt =====
-- The speakers of a call, and the assignments that src/mtbank_ai/speech/roles.py makes to them.
use mtbank_ai_call_analytics.Prelude.{
  ℕ, ◌≡◌, refl, sym, ap, ◌∙◌, arith, true, false, Option, none, some, String, string_eq, nat_eq,
  List, [], ◌∷◌, ◌++◌, map, length, ◌==◌, All, contains, is_unique, is_unique-append, disjoint,
  Result, ok, ◌>>=◌, if◌then◌else◌, subst, Option-cases, Bool-cases, inl, inr, >>=-eq-ok, ◌⊎◌,
}
use mtbank_ai_call_analytics.Speech.Roles.Defs.{
  add_segment, group_segments, candidate_of, candidates_of, mapping_of, put_assignment,
  get_assignment, by_metadata, assign_metadata, unresolved_of, validate_resolver_output, by_agent,
  assign_roles, take_decision, ordered_assignments, missing_of, conclude, resolve_roles,
  validate_resolution,
}
use mtbank_ai_call_analytics.Speech.Roles.Types.{
  DiarizedSegment, SpeakerRoleMapping, RoleResolutionCandidate, ResolvedRole,
  RoleResolutionDecision, RoleAssignment, RoleResolution, RoleError, RoleAgentProvenance,
}

-- The speakers of the segments, each once, in the order in which they first speak.
abbrev pub add_speaker : List String → String → List String
add_speaker speakers s = if contains speakers s then speakers else speakers ++ s ∷ []

abbrev pub speakers_from : List String → List DiarizedSegment → List String
speakers_from speakers [] = speakers
speakers_from speakers (s ∷ segments) =
    speakers_from (add_speaker speakers s.original_speaker_id) segments

abbrev keys : List (String × List DiarizedSegment) → List String
keys g = map (λ (e : String × List DiarizedSegment). e.0) g

keys-add_segment :
    (g : List (String × List DiarizedSegment)) (s : DiarizedSegment)
    → keys (add_segment g s) ≡ add_speaker (keys g) s.original_speaker_id
unfolding add_segment contains
keys-add_segment [] s = refl
keys-add_segment ((k, ss) ∷ g) s = ground (
  arith,
  keys-add_segment g s,
  string_eq.beq_iff s.original_speaker_id k,
  string_eq.beq_iff k s.original_speaker_id,
)

keys-group_segments :
    (g : List (String × List DiarizedSegment)) (segments : List DiarizedSegment)
    → keys (group_segments g segments) ≡ speakers_from (keys g) segments
unfolding group_segments
keys-group_segments g [] = refl
keys-group_segments g (s ∷ segments) =
    keys-group_segments (add_segment g s) segments
    ∙ ap (λ (ks : List String). speakers_from ks segments) (keys-add_segment g s)

disjoint-single :
    (xs : List String) (x : String) → contains xs x ≡ false → disjoint xs (x ∷ []) ≡ true
unfolding disjoint contains
disjoint-single [] x h = refl
disjoint-single (y ∷ xs) x h =
    ground (arith, disjoint-single xs x, string_eq.beq_iff x y, string_eq.beq_iff y x)

is_unique-add_speaker :
    (speakers : List String) (s : String)
    → is_unique speakers ≡ true
    → is_unique (add_speaker speakers s) ≡ true
unfolding is_unique contains
is_unique-add_speaker speakers s u = elim (Bool-cases (contains speakers s)) [
  | inl h ↦ rw (h) u
  | inr h ↦ rw (h) (is_unique-append speakers (s ∷ []) u refl (disjoint-single speakers s h))
]

is_unique-speakers_from :
    (speakers : List String) (segments : List DiarizedSegment)
    → is_unique speakers ≡ true
    → is_unique (speakers_from speakers segments) ≡ true
is_unique-speakers_from speakers [] u = u
is_unique-speakers_from speakers (s ∷ segments) u =
    is_unique-speakers_from (add_speaker speakers s.original_speaker_id) segments
      (is_unique-add_speaker speakers s.original_speaker_id u)

speaker-candidates :
    (g : List (String × List DiarizedSegment))
    → map (λ (c : RoleResolutionCandidate). c.original_speaker_id) (map candidate_of g) ≡ keys g
unfolding candidate_of
speaker-candidates [] = refl
speaker-candidates ((k, ss) ∷ g) = ap (λ (ks : List String). k ∷ ks) (speaker-candidates g)

-- Each assignment is kept under its own speaker.
abbrev pub Keyed : List (String × RoleAssignment) → Type 0
Keyed d = All (λ (e : String × RoleAssignment). e.1.original_speaker_id ≡ e.0) d

put_assignment-Keyed :
    (d : List (String × RoleAssignment)) (speaker : String) (a : RoleAssignment)
    → a.original_speaker_id ≡ speaker
    → Keyed d
    → Keyed (put_assignment d speaker a)
unfolding put_assignment
put_assignment-Keyed [] speaker a own h = (own, tt)
put_assignment-Keyed ((k, v) ∷ d) speaker a own h = elim (Bool-cases (k == speaker)) [
  | inl e ↦ rw (e) (own ∙ sym ((string_eq.beq_iff k speaker).0 e), h.1)
  | inr e ↦ rw (e) (h.0, put_assignment-Keyed d speaker a own h.1)
]

pub get_assignment-Keyed :
    (d : List (String × RoleAssignment)) (speaker : String) (a : RoleAssignment)
    → Keyed d
    → get_assignment d speaker ≡ some a
    → a.original_speaker_id ≡ speaker
unfolding get_assignment
get_assignment-Keyed [] speaker a h q = cc
get_assignment-Keyed ((k, v) ∷ d) speaker a h q =
    ground (arith, h.0, get_assignment-Keyed d speaker a h.1, string_eq.beq_iff k speaker)

pub assign_metadata-Keyed :
    (mappings : List SpeakerRoleMapping) (candidates : List RoleResolutionCandidate)
    (d : List (String × RoleAssignment))
    → Keyed d
    → Keyed (assign_metadata mappings candidates d)
unfolding assign_metadata by_metadata
assign_metadata-Keyed mappings [] d h = h
assign_metadata-Keyed mappings (c ∷ candidates) d h =
    elim (Option-cases (mapping_of mappings c.original_speaker_id)) [
      | inl e ↦ rw (e) (assign_metadata-Keyed mappings candidates d h)
      | inr e ↦ rw (e.1) (
          assign_metadata-Keyed mappings candidates
            (put_assignment d c.original_speaker_id (by_metadata c e.0))
            (put_assignment-Keyed d c.original_speaker_id (by_metadata c e.0) refl h))
    ]

assign_roles-Keyed :
    (unresolved : List RoleResolutionCandidate) (roles : List ResolvedRole)
    (d e : List (String × RoleAssignment))
    → Keyed d
    → assign_roles unresolved roles d ≡ ok e
    → Keyed e
unfolding assign_roles by_agent
assign_roles-Keyed unresolved [] d e h q = let same : d ≡ e = cc in subst Keyed same h
assign_roles-Keyed unresolved (r ∷ roles) d e h q =
    let d' = put_assignment d r.original_speaker_id (by_agent r) in
    let put = put_assignment-Keyed d r.original_speaker_id (by_agent r) refl h in
    let rest : assign_roles unresolved roles d' ≡ ok e = ground arith in
    assign_roles-Keyed unresolved roles d' e put rest

pub take_decision-Keyed :
    (unresolved : List RoleResolutionCandidate) (decision : RoleResolutionDecision)
    (d e : List (String × RoleAssignment))
    → Keyed d
    → take_decision unresolved decision d ≡ ok e
    → Keyed e
unfolding take_decision validate_resolver_output
take_decision-Keyed unresolved decision d e h q =
    let rest : assign_roles unresolved decision.roles d ≡ ok e = ground arith in
    assign_roles-Keyed unresolved decision.roles d e h rest

speaker-ordered_assignments :
    (d : List (String × RoleAssignment)) (candidates : List RoleResolutionCandidate)
    → Keyed d
    → length (missing_of d candidates) ≡ 0
    → map (λ (a : RoleAssignment). a.original_speaker_id) (ordered_assignments d candidates)
      ≡ map (λ (c : RoleResolutionCandidate). c.original_speaker_id) candidates
unfolding ordered_assignments missing_of
speaker-ordered_assignments d [] h m = refl
speaker-ordered_assignments d (c ∷ candidates) h m =
    elim (Option-cases (get_assignment d c.original_speaker_id)) [
      | inl n ↦ (let bad = rw (n) at m in absurd (omega (arith, bad)))
      | inr a ↦
          let later = rw (a.1) at m in
          let own = get_assignment-Keyed d c.original_speaker_id a.0 h a.1 in
          rw (a.1, ordered_assignments)
            (rw (own) (
              ap (λ (ks : List String). c.original_speaker_id ∷ ks)
                (speaker-ordered_assignments d candidates h later)))
    ]

-- What an accepted resolution says of the segments: each of their speakers, once, in the order in which
-- they first speak.
abbrev pub Covers : List DiarizedSegment → RoleResolution → Type 0
Covers segments r =
    map (λ (a : RoleAssignment). a.original_speaker_id) r.assignments ≡ speakers_from [] segments

pub conclude-parts :
    (threshold : ℕ) (candidates : List RoleResolutionCandidate) (d : List (String × RoleAssignment))
    (provenance : Option RoleAgentProvenance) (r : RoleResolution)
    → conclude threshold candidates d provenance ≡ ok r
    → (length (missing_of d candidates) ≡ 0)
      × (r.assignments ≡ ordered_assignments d candidates)
      × (validate_resolution r ≡ true)
unfolding conclude
conclude-parts threshold candidates d provenance r h = ground arith

conclude-Covers :
    (threshold : ℕ) (segments : List DiarizedSegment) (d : List (String × RoleAssignment))
    (provenance : Option RoleAgentProvenance) (r : RoleResolution)
    → Keyed d
    → conclude threshold (map candidate_of (group_segments [] segments)) d provenance ≡ ok r
    → Covers segments r
conclude-Covers threshold segments d provenance r h q =
    let g = group_segments [] segments in
    let (found, assigned, valid) = conclude-parts threshold (map candidate_of g) d provenance r q in
    ap
      (λ (assignments : List RoleAssignment).
        map (λ (a : RoleAssignment). a.original_speaker_id) assignments)
      assigned
    ∙ speaker-ordered_assignments d (map candidate_of g) h found
    ∙ speaker-candidates g
    ∙ keys-group_segments [] segments

-- A resolution that is returned assigns a role to each speaker of the segments, once, in the order in
-- which the speakers first speak, and to nobody else; whatever the resolver decides.
pub resolve_roles-Covers :
    (segments : List DiarizedSegment) (mappings : List SpeakerRoleMapping)
    (resolver : Option (List RoleResolutionCandidate → RoleResolutionDecision)) (threshold : ℕ)
    (r : RoleResolution)
    → resolve_roles segments mappings resolver threshold ≡ ok r
    → Covers segments r × (is_unique (speakers_from [] segments) ≡ true)
unfolding resolve_roles candidates_of is_unique
resolve_roles-Covers segments mappings none threshold r h =
    let cs = map candidate_of (group_segments [] segments) in
    let d = assign_metadata mappings cs [] in
    let ended : conclude threshold cs d none ≡ ok r = ground arith in
    (
      conclude-Covers threshold segments d none r (assign_metadata-Keyed mappings cs [] tt) ended,
      is_unique-speakers_from [] segments refl,
    )
resolve_roles-Covers segments mappings (some resolve) threshold r h =
    let cs = map candidate_of (group_segments [] segments) in
    let d = assign_metadata mappings cs [] in
    let keyed = assign_metadata-Keyed mappings cs [] tt in
    let unresolved = unresolved_of mappings cs in
    let decided : Result RoleError (List (String × RoleAssignment)) =
      take_decision unresolved (resolve unresolved) d in
    let next : List (String × RoleAssignment) → Result RoleError RoleResolution =
      λ e. conclude threshold cs e (resolve unresolved).agent_provenance in
    let ended : ((conclude threshold cs d none ≡ ok r) ⊎ ((decided >>= next) ≡ ok r)) =
      ground arith in
    (
      elim ended [
        | inl simple ↦ conclude-Covers threshold segments d none r keyed simple
        | inr asked ↦
            let (e, taken, finished) = >>=-eq-ok decided next asked in
            conclude-Covers threshold segments e (resolve unresolved).agent_provenance r
              (take_decision-Keyed unresolved (resolve unresolved) d e keyed taken) finished
      ],
      is_unique-speakers_from [] segments refl,
    )
