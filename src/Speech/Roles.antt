-- ===== src/Speech/Roles.antt =====
-- The resolution of roles: src/mtbank_ai/speech/roles.py.
mod Defs
mod Types
pub mod Grouping
pub mod Evidence
pub mod Resolved
pub use Types.{
  RoleResolutionSource, metadata, agent, RoleAgentProvenance, DiarizedSegment, SpeakerRoleMapping,
  RoleResolutionCandidate, ResolvedRole, RoleResolutionDecision, RoleAssignment, RoleResolution,
  RoleError,
}
unfoldable pub use Defs.{
  add_segment, group_segments, best_confidence, candidate_of, candidates_of, mapping_of,
  put_assignment, get_assignment, by_metadata, assign_metadata, unresolved_of, candidate_by_id,
  validate_resolver_output, by_agent, assign_roles, take_decision, is_operator, both_roles,
  is_agent, validate_resolution, ordered_assignments, missing_of, conclude, resolve_roles,
}
