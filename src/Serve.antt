-- ===== src/Serve.antt =====
-- lib/src/adapters/http-serve.adapter.ts: the routes of a server, and what a request is answered.
-- Parameters are what the runtime supplies: the URL class (`parse_path` for the path of a request's
-- URL, `none` when the constructor throws), the callbacks and what they return. A callback is a
-- function of the request here, and what it was asked to do is listed in `calls`. The sockets, and
-- `content-length`, which the runtime computes from the body, are not modelled.
pub mod Handle
pub mod Registry
pub mod Origins
pub mod Candidates
pub mod Wildcards
pub mod Access
pub mod Rejected
mod Tests
use Prim.Native.String
use Prim.Native.Char.{char}
use mathlib.Core.Option
use nest_graph_inspector.Prelude.{
  ℕ, ◌+◌, String, ◌==◌, Bool, true, false, not, ◌&&◌, ◌||◌, Option, none, some, List, [], ◌∷◌, ◌++◌,
  map, all, find, any, if◌then◌else◌, get_or, head?, strip_prefix, is_some, eqb,
}
use nest_graph_inspector.Prelude.Maps.{get, set, delete}
use nest_graph_inspector.Prelude.Texts.{upper, lower}

-- a value of `OutgoingHttpHeaders`; a number is the text that `String` makes of it
pub data OutHeader : Type 0 where
  text numeric : String → OutHeader
  values : List String → OutHeader

abbrev pub OutHeaders : Type 0
OutHeaders = List (String × OutHeader)

-- a value of `IncomingHttpHeaders`
pub data InHeader : Type 0 where
  one : String → InHeader
  many : List String → InHeader

pub record Request : Type 0 where
  pub method : Option String
  pub url : Option String
  pub headers : List (String × InHeader)

-- A body. An object is the text that `JSON.stringify` makes of it, or the message of the error that
-- comes of trying.
pub data Body : Type 0 where
  undefined null : Body
  buffer string object unserializable : String → Body

-- `HttpServeResponse`
pub record Response : Type 0 where
  pub status_code : Option ℕ
  pub content_type : Option String
  pub headers : Option OutHeaders
  pub body : Body

-- what a callback comes to: an object with a field of a response, another value, or a thrown
-- error's message
pub data Returned : Type 0 where
  response : Response → Returned
  value : Body → Returned
  thrown : String → Returned

-- what a raw callback comes to: it ends, or throws before or after it sent its headers
pub data RawReturned : Type 0 where
  ended : RawReturned
  raw_thrown : (headers_sent : Bool) → String → RawReturned

pub data Authorization : Type 0 where
  allowed : Authorization
  denied : Response → Authorization
  authorize_thrown : Authorization

-- `HttpServeRoute`
pub record Route : Type 0 where
  pub type : String
  pub path : String
  pub callback : Option (Request → Returned)
  pub raw_callback : Option (Request → RawReturned)
  pub request_headers : Option OutHeaders
  pub response_headers : Option OutHeaders
  pub content_type : Option String
  pub status_code : Option ℕ
  pub authorize : Option (Request → Authorization)

abbrev pub Routes : Type 0
Routes = List (String × List Route)

-- `routeKey`
unfoldable pub route_key : String → String → String
route_key method path = String.◌++◌ (upper method) (String.◌++◌ " " path)

-- `normalizePath`
unfoldable pub normalize_path : String → String
normalize_path path =
    if path == "*" || is_some (strip_prefix "/" path) then path else String.◌++◌ "/" path

-- `options.authorize && !route.authorize ? { ...route, authorize: options.authorize } : route`
unfoldable pub with_authorize : Option (Request → Authorization) → Route → Route
with_authorize none route = route
with_authorize (some f) route = record route { authorize = some (get_or route.authorize f) }

-- the loop of `register`
unfoldable pub add_routes : Option (Request → Authorization) → List Route → Routes → Routes
unfolding with_authorize
add_routes authorize [] routes = routes
add_routes authorize (r ∷ rs) routes =
    let key = route_key r.type (normalize_path r.path) in
    add_routes authorize rs
      (set key (get_or (get key routes) [] ++ with_authorize authorize r ∷ []) routes)

-- `get` and `all` of the adapter, with default options
abbrev pub plain_route : String → String → Route
plain_route type path = record {
  type = type;
  path = path;
  callback = none;
  raw_callback = none;
  request_headers = none;
  response_headers = none;
  content_type = none;
  status_code = none;
  authorize = none;
}

abbrev pub join_comma : List String → String
join_comma [] = ""
join_comma (x ∷ []) = x
join_comma (x ∷ y ∷ xs) = String.◌++◌ x (String.◌++◌ "," (join_comma (y ∷ xs)))

-- `headerValue`
abbrev pub header_text : Option InHeader → String
header_text none = ""
header_text (some (one s)) = s
header_text (some (many xs)) = join_comma xs

abbrev pub expected_text : OutHeader → String
expected_text (text s) = s
expected_text (numeric s) = s
expected_text (values xs) = join_comma xs

-- `requestHeadersMatch`
unfoldable pub request_headers_match : Option OutHeaders → Request → Bool
request_headers_match none req = true
request_headers_match (some expected) req =
    all (λ e. expected_text e.1 == header_text (get (lower e.0) req.headers)) expected

-- `routePath.endsWith("/*")` and `routePath.slice(0, -1).slice(0, -1)`: what is before the slash
unfoldable pub wildcard_base : String → Option String
wildcard_base String.[] = none
wildcard_base (String.◌∷◌ c s) =
    let rest = wildcard_base s in
    if String.◌∷◌ c s == "/*" then some "" else Option.map (String.◌∷◌ c) rest

-- `path === prefix.slice(0, -1) || path.startsWith(prefix)`
abbrev pub is_under : String → String → Bool
is_under base path = path == base || is_some (strip_prefix (String.◌++◌ base "/") path)

abbrev pub covers_wildcard : Option String → String → Bool
covers_wildcard none path = false
covers_wildcard (some base) path = is_under base path

abbrev pub is_candidate_path : Option String → String → Bool
is_candidate_path none path = false
is_candidate_path (some route_path) path = covers_wildcard (wildcard_base route_path) path

-- `wildcardPathCandidates`
unfoldable pub wildcard_path_candidates : Routes → String → String → List Route
unfolding wildcard_base
wildcard_path_candidates [] method path = []
wildcard_path_candidates ((key, group) ∷ rest) method path =
    let more = wildcard_path_candidates rest method path in
    if is_candidate_path (strip_prefix (String.◌++◌ (upper method) " ") key) path
    then group ++ more
    else more

abbrev pub group_of : Routes → String → String → List Route
group_of routes method path = get_or (get (route_key method path) routes) []

-- `candidates` in `route`
unfoldable pub candidates : Routes → String → String → List Route
candidates routes method path =
    group_of routes method path
    ++ (wildcard_path_candidates routes method path
        ++ (group_of routes method "*"
            ++ (group_of routes "*" path
                ++ (wildcard_path_candidates routes "*" path ++ group_of routes "*" "*"))))

-- `isCorsPreflightRequest`
abbrev pub is_text : Option InHeader → Bool
is_text (some (one _)) = true
is_text _ = false

abbrev pub is_options : Option String → Bool
is_options none = false
is_options (some method) = method == "OPTIONS"

unfoldable pub is_cors_preflight_request : Request → Bool
is_cors_preflight_request req =
    is_options req.method
    && is_text (get "origin" req.headers)
    && is_text (get "access-control-request-method" req.headers)

-- `contentTypeHeader`
abbrev pub content_type_value : Option OutHeader → Option String
content_type_value none = none
content_type_value (some (text s)) = some s
content_type_value (some (numeric s)) = some s
content_type_value (some (values xs)) = head? xs

abbrev pub or_else : {A : Type 0} → Option A → Option A → Option A
or_else none b = b
or_else (some a) b = some a

unfoldable pub content_type_header : Option OutHeaders → Option String
content_type_header none = none
content_type_header (some headers) =
    content_type_value (or_else (get "content-type" headers) (get "Content-Type" headers))

-- `{ ...a, ...b }`
unfoldable pub spread : OutHeaders → OutHeaders → OutHeaders
spread a [] = a
spread a ((k, v) ∷ b) = spread (set k v a) b

-- `normalizeResponse` of a result that is a response; a field of it that is undefined is an absent one
-- here
unfoldable pub normalize_response : Route → Response → Response
unfolding content_type_header spread
normalize_response route result = record {
  status_code = or_else result.status_code route.status_code;
  content_type = or_else result.content_type (
      or_else (content_type_header result.headers)
        (or_else route.content_type (content_type_header route.response_headers)));
  headers = some (spread (get_or route.response_headers []) (get_or result.headers []));
  body = result.body;
}
