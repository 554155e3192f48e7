-- ===== src/Serve/Handle.antt =====
-- lib/src/adapters/http-serve.adapter.ts, `handleRequest`, `route` and `sendResult`: one request.
-- The CORS headers that every response carries are left out. `writeHead` of Node.js is a parameter: it
-- gives the message of the error that it throws on a status or header that it refuses. What `sendText`
-- and the answer to a preflight pass to it, a fixed status and two valid headers, is never refused.
use nest_graph_inspector.Prelude.{
  ℕ, String, true, false, Option, none, some, List, [], ◌∷◌, find, if◌then◌else◌, get_or,
}
use nest_graph_inspector.Serve.{
  OutHeaders, text, Request, Body, undefined, null, buffer, string, object, unserializable,
  Response, Returned, response, value, thrown, RawReturned, ended, raw_thrown, Authorization,
  allowed, denied, authorize_thrown, Route, Routes, plain_route, candidates, request_headers_match,
  is_cors_preflight_request, normalize_response, spread,
}

-- what reaches the client: `writeHead` and `end`
pub record Sent : Type 0 where
  pub status_code : ℕ
  pub headers : OutHeaders
  pub body : String

pub data Call : Type 0 where
  callback_of raw_callback_of : Route → Call

-- How a request ends: with a response, by its raw callback, with the connection destroyed, or not at
-- all, when the handler's promise is rejected.
pub data Reply : Type 0 where
  sent : Sent → Reply
  raw destroyed rejected : Reply

pub record Outcome : Type 0 where
  pub calls : List Call
  pub reply : Reply

-- a body's text and content type, or the message of the error thrown
pub data Serialized : Type 0 where
  body_text : String → String → Serialized
  failed : String → Serialized

-- `serializeBody`
unfoldable pub serialize_body : Body → Option String → Serialized
serialize_body undefined type = body_text "" (get_or type "text/plain; charset=utf-8")
serialize_body null type = body_text "" (get_or type "text/plain; charset=utf-8")
serialize_body (buffer s) type = body_text s (get_or type "application/octet-stream")
serialize_body (string s) type = body_text s (get_or type "text/plain; charset=utf-8")
serialize_body (object s) type = body_text s (get_or type "application/json; charset=utf-8")
serialize_body (unserializable message) type = failed message

-- `sendText`
abbrev pub send_text : ℕ → String → Sent
send_text status body = record {
  status_code = status;
  headers = ("content-type", text "text/plain; charset=utf-8") ∷ [];
  body = body;
}

abbrev pub plain_response : Body → Response
plain_response body = record {
  status_code = none;
  content_type = none;
  headers = none;
  body = body;
}

-- what `sendResult` does: it sends, or throws before anything is sent
pub data SendResult : Type 0 where
  sent_as : Sent → SendResult
  send_thrown : String → SendResult

abbrev pub sent_unless : Sent → Option String → SendResult
sent_unless s none = sent_as s
sent_unless s (some message) = send_thrown message

-- the `catch` of `handleRequest` around `sendResult`
abbrev pub caught : SendResult → Reply
caught (sent_as s) = sent s
caught (send_thrown message) = sent (send_text 500 message)

-- `sendResult` outside the `try`
abbrev pub uncaught : SendResult → Reply
uncaught (sent_as s) = sent s
uncaught (send_thrown message) = rejected

abbrev pub after_raw : RawReturned → Reply
after_raw ended = raw
after_raw (raw_thrown true message) = destroyed
after_raw (raw_thrown false message) = sent (send_text 500 message)

-- `route.authorize?.(req)`, which a preflight request is not asked for
abbrev pub ask : Option (Request → Authorization) → Request → Authorization
ask none req = allowed
ask (some f) req = f req

abbrev pub authorization_of : Route → Request → Authorization
authorization_of route req =
    if is_cors_preflight_request req then allowed else ask route.authorize req

module _ (parse_path : String → Option String) where
  -- `route`, once the URL's path is known
  unfoldable pub route_at : Routes → Request → String → Option Route
  route_at routes req path =
      find (λ r. request_headers_match r.request_headers req)
        (candidates routes (get_or req.method "GET") path)

module _ (write_head : ℕ → OutHeaders → Option String) where
  -- `res.writeHead(...)` and `res.end(body)`
  abbrev pub write : Response → Serialized → SendResult
  write r (failed message) = send_thrown message
  write r (body_text body type) =
      let status = get_or r.status_code 200 in
      let headers = spread (get_or r.headers []) (("content-type", text type) ∷ []) in
      sent_unless (record { status_code = status; headers = headers; body = body })
        (write_head status headers)

  -- `sendResult`
  unfoldable pub send_result : Route → Response → SendResult
  unfolding serialize_body normalize_response spread
  send_result route result =
      let r = normalize_response route result in write r (serialize_body r.body r.content_type)

  abbrev pub after_callback : Route → Returned → Reply
  after_callback route (thrown message) = sent (send_text 500 message)
  after_callback route (response r) = caught (send_result route r)
  after_callback route (value body) = caught (send_result route (plain_response body))

  -- the body of the `try`
  unfoldable pub run_route :
      Route → Request → Option (Request → RawReturned) → Option (Request → Returned) → Outcome
  run_route route req (some f) _ = record {
    calls = raw_callback_of route ∷ [];
    reply = after_raw (f req);
  }
  run_route route req none (some f) = record {
    calls = callback_of route ∷ [];
    reply = after_callback route (f req);
  }
  run_route route req none none = record {
    calls = [];
    reply = caught (send_result route (plain_response undefined));
  }

  abbrev pub run_authorized : Route → Request → Authorization → Outcome
  run_authorized route req (denied r) = record {
    calls = [];
    reply = uncaught (send_result (plain_route route.type route.path) r);
  }
  run_authorized route req authorize_thrown = record { calls = []; reply = rejected }
  run_authorized route req allowed = run_route route req route.raw_callback route.callback

  abbrev pub run_found : Request → Option Route → Outcome
  run_found req none = record {
    calls = [];
    reply =
        if is_cors_preflight_request req
        then sent (record { status_code = 204; headers = []; body = "" })
        else sent (send_text 404 "Not Found");
  }
  run_found req (some route) = run_authorized route req (authorization_of route req)

  module _ (parse_path : String → Option String) where
    abbrev pub handle_at : Routes → Request → Option String → Outcome
    handle_at routes req none = record { calls = []; reply = rejected }
    handle_at routes req (some path) = run_found req (route_at parse_path routes req path)

    -- `handleRequest`
    unfoldable pub handle_request : Routes → Request → Outcome
    handle_request routes req = handle_at routes req (parse_path (get_or req.url "/"))
