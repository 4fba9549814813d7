-- ===== src/Speech/Roles/Types.antt =====
-- The types of the resolution of roles, in src/mtbank_ai/speech/contracts.py and
-- src/mtbank_ai/domain/transcript.py.
use mtbank_ai_call_analytics.Prelude.{ℕ, Bool, Option, String, string_eq, nat_eq, List}
use mtbank_ai_call_analytics.Analysis.Models.{SpeakerRole}

pub data RoleResolutionSource : Type 0 where
  metadata agent : RoleResolutionSource

pub record RoleAgentProvenance : Type 0 where
  pub policy_id : String
  pub version : String
  pub owner : String
  pub effective_date : String
  pub sha256 : String

pub record DiarizedSegment : Type 0 where
  pub id : ℕ
  pub original_speaker_id : String
  pub speaker_confidence : Option ℕ
  pub text : String

pub record SpeakerRoleMapping : Type 0 where
  pub original_speaker_id : String
  pub role : SpeakerRole
  pub confidence : ℕ
  pub evidence : String

pub record RoleResolutionCandidate : Type 0 where
  pub original_speaker_id : String
  pub evidence_segment_ids : List ℕ
  pub evidence_segments : List (ℕ × String)
  pub speaker_confidence : Option ℕ

pub record ResolvedRole : Type 0 where
  pub original_speaker_id : String
  pub role : SpeakerRole
  pub confidence : ℕ
  pub evidence : String
  pub evidence_segment_ids : List ℕ

pub record RoleResolutionDecision : Type 0 where
  pub roles : List ResolvedRole
  pub agent_provenance : Option RoleAgentProvenance

pub record RoleAssignment : Type 0 where
  pub original_speaker_id : String
  pub role : SpeakerRole
  pub confidence : ℕ
  pub evidence_segment_ids : List ℕ
  pub source : RoleResolutionSource
  pub resolution_evidence : String

pub record RoleResolution : Type 0 where
  pub assignments : List RoleAssignment
  pub needs_review : Bool
  pub agent_provenance : Option RoleAgentProvenance

pub data RoleError : Type 0 where
  role_resolution_required : List RoleResolutionCandidate → RoleError
  value_error validation_error : RoleError
