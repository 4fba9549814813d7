-- ===== src/Analysis/Trends.antt =====
-- The trends over sanitized analyses: src/mtbank_ai/trends.py.
mod Defs
pub mod Reports
pub mod Answers
pub mod Stored
pub use Defs.{
  TrendsSettings, TrendRequest, TrendSubmission, AgentAnswer, TrendRepository, TrendPreflight,
  TrendAnalysis, IsDivision, TrendError, validation_error,
}
unfoldable pub use Defs.{
  validate_settings, validate_window, new_repository, add_record, add_all, created_of, in_window,
  list_sanitized, same_ids, has_topic, require_exact_supporting_ids, validate_aggregate,
  validate_analysis, aggregate_of, construct_aggregate, preflight_of, preflight, analysis_of,
  finalize, conclude, analyze,
}
