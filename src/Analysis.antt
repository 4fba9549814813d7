-- ===== src/Analysis.antt =====
-- The analysis of a transcript: the policies, and the fan-in of the agents' results, from
-- src/mtbank_ai/policies/loader.py, src/mtbank_ai/domain and src/mtbank_ai/workflow/aggregation.py.
pub mod Policies
pub mod Models
pub mod Aggregate
pub mod Scores
pub mod Valid
pub mod FanIn
pub mod Trends
