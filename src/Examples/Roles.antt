-- ===== src/Examples/Roles.antt =====
-- The roles of src/mtbank_ai/speech/roles.py for two speakers, of whom metadata know one.
use mtbank_ai_call_analytics.Prelude.{
  ℕ, ◌≡◌, refl, true, none, some, String, string_eq, nat_eq, List, [], ◌∷◌, ok, is_unique, contains,
  subset,
}
use mtbank_ai_call_analytics.Analysis.Models.{operator, client, is_evidence}
use mtbank_ai_call_analytics.Speech.Roles.{
  metadata, agent, RoleAgentProvenance, DiarizedSegment, SpeakerRoleMapping,
  RoleResolutionCandidate, RoleResolutionDecision, RoleResolution, add_segment, group_segments,
  best_confidence, candidate_of, candidates_of, mapping_of, put_assignment, get_assignment,
  by_metadata, assign_metadata, unresolved_of, candidate_by_id, validate_resolver_output, by_agent,
  assign_roles, take_decision, is_operator, both_roles, is_agent, validate_resolution,
  ordered_assignments, missing_of, conclude, resolve_roles,
}
use mtbank_ai_call_analytics.Speech.Roles.Grouping.{Covers, speakers_from, resolve_roles-Covers}
use mtbank_ai_call_analytics.Speech.Roles.Resolved.{AllSupported, resolve_roles-AllSupported}

abbrev segment : ℕ → String → DiarizedSegment
segment id speaker = record {
  id = id;
  original_speaker_id = speaker;
  speaker_confidence = none;
  text = "t";
}

abbrev segments : List DiarizedSegment
segments = segment 1 "B" ∷ segment 2 "A" ∷ segment 3 "B" ∷ []

abbrev mappings : List SpeakerRoleMapping
mappings =
    (record { original_speaker_id = "A"; role = client; confidence = 10; evidence = "m" }) ∷ []

abbrev provenance : RoleAgentProvenance
provenance = record {
  policy_id = "p";
  version = "1";
  owner = "o";
  effective_date = "2026-01-01";
  sha256 = "h";
}

-- The agent names the second segment of the other speaker.
abbrev decide : List RoleResolutionCandidate → RoleResolutionDecision
decide _ = record {
  roles =
      (record {
        original_speaker_id = "B";
        role = operator;
        confidence = 5;
        evidence = "e";
        evidence_segment_ids = 3 ∷ [];
      })
      ∷ [];
  agent_provenance = some provenance;
}

abbrev resolution : RoleResolution
resolution = record {
  assignments =
      (record {
        original_speaker_id = "B";
        role = operator;
        confidence = 5;
        evidence_segment_ids = 3 ∷ [];
        source = agent;
        resolution_evidence = "e";
      })
      ∷ (record {
        original_speaker_id = "A";
        role = client;
        confidence = 10;
        evidence_segment_ids = 2 ∷ [];
        source = metadata;
        resolution_evidence = "m";
      })
      ∷ [];
  needs_review = true;
  agent_provenance = some provenance;
}

resolved : resolve_roles segments mappings (some decide) 7 ≡ ok resolution
unfolding resolve_roles candidates_of group_segments add_segment candidate_of best_confidence
    is_evidence assign_metadata mapping_of put_assignment by_metadata unresolved_of take_decision
    validate_resolver_output assign_roles candidate_by_id by_agent conclude missing_of
    get_assignment ordered_assignments both_roles is_operator validate_resolution is_agent is_unique
    contains subset
resolved = refl

resolve_roles-Covers_example :
    Covers segments resolution × (is_unique (speakers_from [] segments) ≡ true)
resolve_roles-Covers_example =
    resolve_roles-Covers segments mappings (some decide) 7 resolution resolved

resolve_roles-AllSupported_example : AllSupported segments resolution.assignments
resolve_roles-AllSupported_example =
    resolve_roles-AllSupported segments mappings (some decide) 7 resolution resolved
