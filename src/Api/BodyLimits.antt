-- ===== src/Api/BodyLimits.antt =====
-- The body limits of src/mtbank_ai/api/body_limits.py.
mod Defs
pub mod Bounds
pub use Defs.{
  Message, http_request, other_message, Sent, response_start, response_body, Scope,
  BodyLimitMiddleware, App, receiving, sending, returning, crashing, propagating, End, returned,
  crashed, exceeded, stuck, Run,
}
unfoldable pub use Defs.{
  new_middleware, limit_for_content_type, body_of, bodies, limited_receive, run_limited, run_plain,
  send_payload_too_large, catch_exceeded, is_too_long, is_guarded, call,
}
