-- ===== src/Api/BodyLimits/Defs.antt =====
-- The body limits of src/mtbank_ai/api/body_limits.py. The application is a coroutine that asks for
-- messages: a resumption that receives, sends, returns or raises; it may catch the exception that a
-- receive raises. The media type is read from the
-- header before (`Headers` and the text functions are the libraries'), and so is the number in the
-- content length, where it is one; a negative number, which is over no limit, is read as none.
use mtbank_ai_call_analytics.Prelude.{
  ℕ, ◌+◌, Bool, false, not, ◌&&◌, Option, none, some, String, string_eq, List, [], ◌∷◌, ◌++◌,
  length, ltb, ◌==◌, if◌then◌else◌, contains,
}

-- A message that the server gives to the application.
pub data Message : Type 0 where
  http_request : List ℕ → Message
  other_message : Message

-- What is sent to the server.
pub data Sent : Type 0 where
  response_start : ℕ → Sent
  response_body : List ℕ → Sent

-- `media_type` is the content type without its parameters, stripped and in lower case.
pub record Scope : Type 0 where
  pub is_http : Bool
  pub path : String
  pub media_type : String
  pub content_length : Option ℕ

pub record BodyLimitMiddleware : Type 0 where
  pub max_json_bytes : ℕ
  pub max_multipart_bytes : ℕ
  pub paths : List String

-- `__init__`
unfoldable pub new_middleware : ℕ → ℕ → ℕ → List String → BodyLimitMiddleware
new_middleware max_json_bytes max_upload_bytes multipart_reserve_bytes paths = record {
  max_json_bytes = max_json_bytes;
  max_multipart_bytes = max_upload_bytes + multipart_reserve_bytes;
  paths = paths;
}

-- `_limit_for_content_type`
unfoldable pub limit_for_content_type : BodyLimitMiddleware → String → ℕ
limit_for_content_type m media_type =
    if media_type == "multipart/form-data" then m.max_multipart_bytes else m.max_json_bytes

-- The application, between two of its awaits; a receive continues with a message, or with `none` where
-- it raises `_BodyLimitExceeded`.
pub data App : Type 0 where
  receiving : (Option Message → App) → App
  sending : Sent → App → App
  returning crashing propagating : App

-- How a call of the application ends; `exceeded` is `_BodyLimitExceeded`, and `stuck` waits for a
-- message that does not come.
pub data End : Type 0 where
  returned crashed exceeded stuck : End

-- What a call leaves behind: its end, the messages that the application received, and what it sent.
pub record Run : Type 0 where
  pub ended : End
  pub received : List Message
  pub sent : List Sent

unfoldable pub body_of : Message → List ℕ
body_of (http_request body) = body
body_of other_message = []

-- The bodies that were handed over.
unfoldable pub bodies : List Message → List ℕ
unfolding body_of
bodies [] = []
bodies (m ∷ ms) = body_of m ++ bodies ms

abbrev ended_with : End → Run
ended_with e = record { ended = e; received = []; sent = [] }

-- `limited_receive`: what it returns, `none` where it raises, and the bytes counted after it.
unfoldable pub limited_receive : ℕ → ℕ → Message → Option Message × ℕ
limited_receive limit received_bytes (http_request body) =
    let total = received_bytes + length body in
    ((if ltb limit total then none else some (http_request body)), total)
limited_receive limit received_bytes other_message = (some other_message, received_bytes)

abbrev pub note : Option Message → Run → Run
note none r = r
note (some m) r = record r { received = m ∷ r.received }

-- `self.app(scope, limited_receive, send)`, with the messages that the server gives.
unfoldable pub run_limited : ℕ → App → List Message → ℕ → Run
run_limited limit returning ms n = ended_with returned
run_limited limit crashing ms n = ended_with crashed
run_limited limit propagating ms n = ended_with exceeded
run_limited limit (sending s app) ms n =
    let rest = run_limited limit app ms n in record rest { sent = s ∷ rest.sent }
run_limited limit (receiving next) [] n = ended_with stuck
run_limited limit (receiving next) (m ∷ ms) n =
    let (message, total) = limited_receive limit n m in
    note message (run_limited limit (next message) ms total)

-- `self.app(scope, receive, send)`
unfoldable pub run_plain : App → List Message → Run
run_plain returning ms = ended_with returned
run_plain crashing ms = ended_with crashed
run_plain propagating ms = ended_with exceeded
run_plain (sending s app) ms = let rest = run_plain app ms in record rest { sent = s ∷ rest.sent }
run_plain (receiving next) [] = ended_with stuck
run_plain (receiving next) (m ∷ ms) = note (some m) (run_plain (next (some m)) ms)

-- `_send_payload_too_large`, after what was sent before; the body is the error's JSON text.
unfoldable pub send_payload_too_large : List ℕ → Run → Run
send_payload_too_large payload r = record r {
  ended = returned;
  sent = r.sent ++ response_start 413 ∷ response_body payload ∷ [];
}

unfoldable pub catch_exceeded : End → List ℕ → Run → Run
unfolding send_payload_too_large
catch_exceeded exceeded payload r = send_payload_too_large payload r
catch_exceeded returned payload r = r
catch_exceeded crashed payload r = r
catch_exceeded stuck payload r = r

unfoldable pub is_too_long : Option ℕ → ℕ → Bool
is_too_long none limit = false
is_too_long (some content_length) limit = ltb limit content_length

unfoldable pub is_guarded : BodyLimitMiddleware → Scope → Bool
is_guarded m scope = scope.is_http && contains m.paths scope.path

-- `__call__`
unfoldable pub call : BodyLimitMiddleware → List ℕ → Scope → App → List Message → Run
unfolding is_guarded
call m payload scope app ms =
    if not (is_guarded m scope)
    then run_plain app ms
    else let limit = limit_for_content_type m scope.media_type in
      if is_too_long scope.content_length limit
      then send_payload_too_large payload (ended_with returned)
      else let r = run_limited limit app ms 0 in catch_exceeded r.ended payload r
