-- ===== src/Api.antt =====
-- The HTTP API: src/mtbank_ai/api/.
pub mod BodyLimits
