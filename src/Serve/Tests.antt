-- ===== src/Serve/Tests.antt =====
-- lib/src/adapters/http-serve.adapter.ts: a server with one guarded route.
use Prim.Native.String
use nest_graph_inspector.Prelude.{
  String, In, false, ◌≡◌, refl, Option, none, some, [], ◌∷◌, All, ◌↔◌,
}
use nest_graph_inspector.Prelude.Maps.{get, set}
use nest_graph_inspector.Serve.{
  Request, Route, value, string, Authorization, denied, Routes, add_routes,
}
use nest_graph_inspector.Prelude.Texts.{strip_prefix}
use nest_graph_inspector.Serve.Registry.{
  UrlClass, Options, Servers, normalize_origin, register, serve, resolve_dynamic_port,
}
use nest_graph_inspector.Serve.Origins.{
  IsFiled, start, next, registers, serves, resolves, Reached-IsFiled,
}
use nest_graph_inspector.Serve.Handle.{handle_request, rejected, route_at, ask}
use nest_graph_inspector.Serve.Rejected.{Stops, handle_request-rejected_iff}
use nest_graph_inspector.Serve.{OutHeaders, is_cors_preflight_request}
use nest_graph_inspector.Prelude.{ℕ, ltb, none, ◌⊎◌, if◌then◌else◌, false}
use nest_graph_inspector.Serve.{wildcard_path_candidates}
use nest_graph_inspector.Serve.Wildcards.{IsWildcardMatch, wildcard_path_candidates_iff}
use nest_graph_inspector.Serve.Access.{IsPermitted, handle_request-IsPermitted}

abbrev route : String → Route
route path = record {
  type = "get";
  path = path;
  callback = some (λ _. value (string "graph"));
  raw_callback = none;
  request_headers = none;
  response_headers = none;
  content_type = none;
  status_code = none;
  authorize = none;
}

abbrev deny : Request → Authorization
deny _ =
    denied
      (record { status_code = some 401; content_type = none; headers = none; body = string "no" })

abbrev request : Request
request = record { method = some "GET"; url = some "/graph"; headers = [] }

-- a URL as its text before the port, and its port
abbrev toy : UrlClass (String × String)
toy = record {
  parse = λ s. some (s, "");
  protocol = λ _. "http:";
  port = λ u. u.1;
  origin = λ u. String.◌++◌ u.0 (String.◌++◌ ":" u.1);
  set_hostname = λ host u. (host, u.1);
  set_port = λ port u. (u.0, port);
}

abbrev options : Options
options = record { origin = none; host = none; port = some "0"; authorize = some deny }

abbrev filed : Servers (String × String)
filed =
    (
      "http://localhost:0",
      record {
        origin_url = ("http://localhost", "0");
        routes = add_routes (some deny) (route "/graph" ∷ []) [];
        listening = false;
      },
    )
    ∷ []

registered : register toy options (route "/graph" ∷ []) [] ≡ some ("http://localhost:0", filed)
unfolding register normalize_origin get set strip_prefix
registered = refl

normalized : normalize_origin toy options ≡ some ("http://localhost", "0")
unfolding normalize_origin strip_prefix
normalized = refl

Reached-IsFiled_example :
    IsFiled toy (resolve_dynamic_port toy "http://localhost:0" "8080" (serve toy filed))
Reached-IsFiled_example =
    Reached-IsFiled toy (resolve_dynamic_port toy "http://localhost:0" "8080" (serve toy filed)) (
      next
        (next (next start (registers options (route "/graph" ∷ []) "http://localhost:0" registered))
          serves)
        (resolves "http://localhost:0" "8080"))

abbrev guarded_route : Route
guarded_route = record (route "/graph") { authorize = some deny }

abbrev table : Routes
table = ("GET /graph", guarded_route ∷ []) ∷ []

-- `writeHead` refuses a status above 999
abbrev write_head : ℕ → OutHeaders → Option String
write_head status headers = if ltb 999 status then some "RangeError" else none

handle_request-IsPermitted_example :
    All
      (IsPermitted deny request)
      (handle_request write_head some
        (add_routes (some deny) (route "/graph" ∷ []) [])
        request).calls
handle_request-IsPermitted_example =
    handle_request-IsPermitted write_head deny request some (route "/graph" ∷ []) (refl, tt)

handle_request-rejected_iff_example :
    ((handle_request write_head some table request).reply ≡ rejected) ↔ (
      (◌≡◌ {A = Option String} (some "/graph") none)
      ⊎ ((path : String) × (r : Route) × (some "/graph" ≡ some path)
          × (route_at some table request path ≡ some r)
          × (is_cors_preflight_request request ≡ false)
          × Stops write_head r (ask r.authorize request)))
handle_request-rejected_iff_example = handle_request-rejected_iff write_head request some table

wildcard_path_candidates_iff_example :
    In
      (route "/mcp/*")
      (wildcard_path_candidates (("GET /mcp/*", route "/mcp/*" ∷ []) ∷ table) "get" "/mcp/a")
    ↔ IsWildcardMatch (("GET /mcp/*", route "/mcp/*" ∷ []) ∷ table) "get" "/mcp/a" (route "/mcp/*")
wildcard_path_candidates_iff_example =
    wildcard_path_candidates_iff "get" "/mcp/a" (route "/mcp/*")
      (("GET /mcp/*", route "/mcp/*" ∷ []) ∷ table)
