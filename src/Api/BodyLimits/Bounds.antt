-- ===== src/Api/BodyLimits/Bounds.antt =====
-- What the body limits of src/mtbank_ai/api/body_limits.py let through.
use mtbank_ai_call_analytics.Prelude.{
  ℕ, ◌+◌, ◌≤◌, ◌≡◌, refl, arith, true, false, some, string_eq, List, [], ◌∷◌, length, length-append,
  ltb, max, ap, ◌≢◌, Bool-cases, inl, inr,
}
use mtbank_ai_call_analytics.Api.BodyLimits.Defs.{
  Message, http_request, other_message, Scope, BodyLimitMiddleware, limit_for_content_type, App,
  receiving, sending, returning, crashing, propagating, End, returned, crashed, exceeded, stuck,
  Run, body_of, bodies, limited_receive, note, run_limited, run_plain, send_payload_too_large,
  catch_exceeded, is_too_long, is_guarded, call,
}

-- What was received, together with what was counted before, stays within the limit.
received-run_limited :
    (limit : ℕ) (app : App) (ms : List Message) (n : ℕ)
    → n + length (bodies (run_limited limit app ms n).received) ≤ max n limit
unfolding run_limited limited_receive bodies body_of
received-run_limited limit returning ms n = ground arith
received-run_limited limit crashing ms n = ground arith
received-run_limited limit propagating ms n = ground arith
received-run_limited limit (sending s app) ms n = received-run_limited limit app ms n
received-run_limited limit (receiving next) [] n = ground arith
received-run_limited limit (receiving next) (other_message ∷ ms) n =
    received-run_limited limit (next (some other_message)) ms n
received-run_limited limit (receiving next) (http_request body ∷ ms) n =
    let message = (limited_receive limit n (http_request body)).0 in
    let rest = run_limited limit (next message) ms (n + length body) in
    ground (
      arith,
      received-run_limited limit (next message) ms (n + length body),
      length-append body (bodies rest.received),
    )

bodies-catch_exceeded :
    (e : End) (payload : List ℕ) (r : Run) → (catch_exceeded e payload r).received ≡ r.received
unfolding catch_exceeded send_payload_too_large
bodies-catch_exceeded exceeded payload r = refl
bodies-catch_exceeded returned payload r = refl
bodies-catch_exceeded crashed payload r = refl
bodies-catch_exceeded stuck payload r = refl

ended-catch_exceeded :
    (e : End) (payload : List ℕ) (r : Run)
    → r.ended ≡ e
    → (catch_exceeded e payload r).ended ≢ exceeded
unfolding catch_exceeded send_payload_too_large
ended-catch_exceeded exceeded payload r q h = cc
ended-catch_exceeded returned payload r q h = cc
ended-catch_exceeded crashed payload r q h = cc
ended-catch_exceeded stuck payload r q h = cc

-- On a guarded path, the bodies that the application receives have together no more bytes than the
-- limit of the request's media type, whatever the application does with the exception; and the
-- exception does not leave the middleware.
pub bounded-call :
    (m : BodyLimitMiddleware) (payload : List ℕ) (scope : Scope) (app : App) (ms : List Message)
    → is_guarded m scope ≡ true
    → (length (bodies (call m payload scope app ms).received)
        ≤ limit_for_content_type m scope.media_type)
      × ((call m payload scope app ms).ended ≢ exceeded)
unfolding call bodies send_payload_too_large
bounded-call m payload scope app ms g =
    let limit = limit_for_content_type m scope.media_type in
    let r = run_limited limit app ms 0 in
    let kept =
      ap (λ (ms : List Message). length (bodies ms)) (bodies-catch_exceeded r.ended payload r) in
    let few : length (bodies r.received) ≤ limit =
      omega (arith, received-run_limited limit app ms 0) in
    let inside = ended-catch_exceeded r.ended payload r refl in
    elim (Bool-cases (is_too_long scope.content_length limit)) [
      | inl h ↦ rw (g, h) (omega arith, λ q. cc)
      | inr h ↦ rw (g, h) (omega (arith, kept, few), inside)
    ]

plain-run_limited :
    (limit : ℕ) (app : App) (ms : List Message) (n : ℕ)
    → n + length (bodies ms) ≤ limit
    → run_limited limit app ms n ≡ run_plain app ms
unfolding run_limited run_plain limited_receive bodies body_of
plain-run_limited limit returning ms n h = refl
plain-run_limited limit crashing ms n h = refl
plain-run_limited limit propagating ms n h = refl
plain-run_limited limit (sending s app) ms n h =
    ap (λ (r : Run). record r { sent = s ∷ r.sent }) (plain-run_limited limit app ms n h)
plain-run_limited limit (receiving next) [] n h = refl
plain-run_limited limit (receiving next) (other_message ∷ ms) n h =
    ap (note (some other_message)) (plain-run_limited limit (next (some other_message)) ms n h)
plain-run_limited limit (receiving next) (http_request body ∷ ms) n h =
    let split = length-append body (bodies ms) in
    let small : ltb limit (n + length body) ≡ false = ground (arith, h, split) in
    rw (small) (
      ap (note (some (http_request body))) (
        plain-run_limited limit (next (some (http_request body))) ms (n + length body)
          (omega (arith, h, split))))

plain-catch_exceeded :
    (e : End) (payload : List ℕ) (r : Run) → e ≢ exceeded → catch_exceeded e payload r ≡ r
unfolding catch_exceeded
plain-catch_exceeded exceeded payload r h = absurd (h refl)
plain-catch_exceeded returned payload r h = refl
plain-catch_exceeded crashed payload r h = refl
plain-catch_exceeded stuck payload r h = refl

-- A request whose content length, where it is given, and whose bodies together are within the limit of
-- its media type is served as if there were no middleware, on any path, by an application that does
-- not raise the middleware's own exception.
pub transparent-call :
    (m : BodyLimitMiddleware) (payload : List ℕ) (scope : Scope) (app : App) (ms : List Message)
    → is_too_long scope.content_length (limit_for_content_type m scope.media_type) ≡ false
    → length (bodies ms) ≤ limit_for_content_type m scope.media_type
    → (run_plain app ms).ended ≢ exceeded
    → call m payload scope app ms ≡ run_plain app ms
unfolding call
transparent-call m payload scope app ms short small calm =
    let limit = limit_for_content_type m scope.media_type in
    let same = plain-run_limited limit app ms 0 (omega (arith, small)) in
    elim (Bool-cases (is_guarded m scope)) [
      | inl h ↦ rw (h, short, same) (plain-catch_exceeded (run_plain app ms).ended payload _ calm)
      | inr h ↦ rw (h) refl
    ]
