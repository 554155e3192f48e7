-- ===== src/Serve/Registry.antt =====
-- lib/src/adapters/http-serve.adapter.ts, `register`, `close`, `serverState`, `resolveDynamicPort` and
-- `normalizeOrigin`: the servers by origin. The URL class is a parameter. `none` is a thrown error.
use Prim.Native.String
use nest_graph_inspector.Prelude.{
  String, ◌==◌, Bool, true, false, ◌||◌, Option, none, some, List, [], ◌∷◌, if◌then◌else◌, get_or,
  is_some,
}
use nest_graph_inspector.Prelude.Maps.{get, set, delete}
use nest_graph_inspector.Prelude.Texts.{strip_prefix}
use nest_graph_inspector.Serve.{Request, Authorization, Route, Routes, add_routes}

-- what is used of the URL class: `parse` is the constructor, the setters return the URL after them
pub record UrlClass (U : Type 0) : Type 0 where
  pub parse : String → Option U
  pub protocol : U → String
  pub port : U → String
  pub origin : U → String
  pub set_hostname : String → U → U
  pub set_port : String → U → U

-- `HttpServeOptions`; the port is the text that `String` makes of it
pub record Options : Type 0 where
  pub origin : Option String
  pub host : Option String
  pub port : Option String
  pub authorize : Option (Request → Authorization)

-- `HttpServerState`; `listening` says that `serveState` has made its server
pub record ServerState (U : Type 0) : Type 0 where
  pub origin_url : U
  pub routes : Routes
  pub listening : Bool

abbrev pub Servers : Type 0 → Type 0
Servers U = List (String × ServerState U)

abbrev pub with_scheme : String → String
with_scheme origin =
    if is_some (strip_prefix "http://" origin) || is_some (strip_prefix "https://" origin)
    then origin
    else String.◌++◌ "http://" origin

module _ {U : Type 0} (C : UrlClass U) where
  abbrev pub set_host : Option String → U → U
  set_host none u = u
  set_host (some host) u = if host == "" then u else C.set_hostname host u

  abbrev pub set_port_option : Option String → U → U
  set_port_option none u = u
  set_port_option (some port) u = C.set_port port u

  abbrev pub default_port : U → U
  default_port u = if C.port u == "" then C.set_port "80" u else u

  abbrev pub http_only : Options → Option U → Option U
  http_only options none = none
  http_only options (some u) =
      if C.protocol u == "http:"
      then some (default_port (set_port_option options.port (set_host options.host u)))
      else none

  -- `normalizeOrigin`
  unfoldable pub normalize_origin : Options → Option U
  normalize_origin options =
      http_only options (C.parse (with_scheme (get_or options.origin "http://localhost")))

  -- `serverState`: the state that is there, or a new one
  abbrev pub server_state : U → Option (ServerState U) → ServerState U
  server_state u none = record { origin_url = u; routes = []; listening = false }
  server_state u (some state) = state

  abbrev pub register_at : Options → List Route → Servers U → Option U → Option (String × Servers U)
  register_at options routes servers none = none
  register_at options routes servers (some u) =
      let state = server_state u (get (C.origin u) servers) in
      some (
        C.origin state.origin_url,
        set (C.origin u)
            (record state { routes = add_routes options.authorize routes state.routes }) servers,
      )

  -- `register`: the origin returned, and the servers after it
  unfoldable pub register : Options → List Route → Servers U → Option (String × Servers U)
  register options routes servers = register_at options routes servers (normalize_origin options)

  abbrev pub close_at : Servers U → Option U → Option (Servers U)
  close_at servers none = none
  close_at servers (some u) = some (delete (C.origin u) servers)

  abbrev pub origin_only : String → Options
  origin_only origin = record { origin = some origin; host = none; port = none; authorize = none }

  -- `close`
  unfoldable pub close : Option String → Servers U → Option (Servers U)
  close none servers = some []
  close (some origin) servers =
      if origin == "" then some [] else close_at servers (normalize_origin (origin_only origin))

  abbrev pub listen_all : Servers U → Servers U
  listen_all [] = []
  listen_all ((k, state) ∷ rest) = (k, record state { listening = true }) ∷ listen_all rest

  -- `serve`, up to the sockets: every state has a server
  unfoldable pub serve : Servers U → Servers U
  serve = listen_all

  -- The state that is filed under `origin` is changed where it is: the assignment to its URL's port is
  -- seen in the map before the old origin is deleted and the new one is set.
  abbrev pub resolve_state : String → String → Servers U → Option (ServerState U) → Servers U
  resolve_state origin assigned servers none = servers
  resolve_state origin assigned servers (some state) =
      if C.port state.origin_url == "0"
      then (let url = C.set_port assigned state.origin_url in
          let changed = record state { origin_url = url } in
          set (C.origin url) changed
            (delete (C.origin state.origin_url) (set origin changed servers)))
      else servers

  -- `resolveDynamicPort` of the state filed under an origin, when its server was assigned a port; the
  -- server of a state that was closed has no address
  unfoldable pub resolve_dynamic_port : String → String → Servers U → Servers U
  resolve_dynamic_port origin assigned servers =
      resolve_state origin assigned servers (get origin servers)
