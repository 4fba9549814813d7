-- ===== src/Examples/Api.antt =====
-- The body limits of src/mtbank_ai/api/body_limits.py, before an application that reads two messages.
use mtbank_ai_call_analytics.Prelude.{
  ◌≤◌, ◌≡◌, ◌≢◌, refl, arith, true, none, some, string_eq, List, [], ◌∷◌, length, contains,
}
use mtbank_ai_call_analytics.Api.BodyLimits.{
  Message, http_request, response_start, Scope, BodyLimitMiddleware, App, receiving, sending,
  returning, propagating, exceeded, bodies, body_of, limit_for_content_type, run_plain, is_too_long,
  is_guarded, call,
}
use mtbank_ai_call_analytics.Api.BodyLimits.Bounds.{bounded-call, transparent-call}

abbrev middleware : BodyLimitMiddleware
middleware = record {
  max_json_bytes = 4;
  max_multipart_bytes = 100;
  paths = "/analyze" ∷ "/analyze/" ∷ [];
}

abbrev scope : Scope
scope = record {
  is_http = true;
  path = "/analyze";
  media_type = "application/json";
  content_length = none;
}

-- The application lets the exception of a receive through.
abbrev reader : App
reader = receiving (λ first. elim first [
  | none ↦ propagating
  | some m ↦ receiving (λ second. elim second [
    | none ↦ propagating
    | some m' ↦ sending (response_start 200) returning
  ])
])

abbrev small_body : List Message
small_body = http_request (1 ∷ 2 ∷ []) ∷ http_request (3 ∷ 4 ∷ []) ∷ []

abbrev large_body : List Message
large_body = http_request (1 ∷ 2 ∷ []) ∷ http_request (3 ∷ 4 ∷ 5 ∷ []) ∷ []

bounded-call_example :
    (length (bodies (call middleware [] scope reader large_body).received)
      ≤ limit_for_content_type middleware scope.media_type)
    × ((call middleware [] scope reader large_body).ended ≢ exceeded)
unfolding is_guarded contains
bounded-call_example = bounded-call middleware [] scope reader large_body refl

transparent-call_example : call middleware [] scope reader small_body ≡ run_plain reader small_body
unfolding is_too_long limit_for_content_type bodies body_of run_plain
transparent-call_example =
    transparent-call middleware [] scope reader small_body refl (omega arith) (λ h. cc)
