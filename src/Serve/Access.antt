-- ===== src/Serve/Access.antt =====
-- lib/src/adapters/http-serve.adapter.ts, `register` and `handleRequest`: no callback runs without
-- permission.
use Prim.Native.String
use nest_graph_inspector.Prelude.Texts.{upper}
use nest_graph_inspector.Prelude.{
  ℕ, strip_prefix, String, ◌==◌, Bool, true, false, ◌≡◌, refl, subst, Option, none, some, List, [],
  ◌∷◌, ◌++◌, ◌⊎◌, inl, inr, All, find, arith, if◌then◌else◌, get_or, Bool-cases,
}
use nest_graph_inspector.Prelude.Maps.{get, set}
use nest_graph_inspector.Serve.{
  OutHeaders, Request, Returned, RawReturned, Authorization, allowed, denied, authorize_thrown,
  Route, Routes, with_authorize, add_routes, route_key, normalize_path, wildcard_path_candidates,
  is_candidate_path, group_of, candidates, is_cors_preflight_request, request_headers_match,
}
use nest_graph_inspector.Serve.Handle.{
  Call, callback_of, raw_callback_of, run_found, run_authorized, run_route, authorization_of,
  route_at, handle_at, handle_request,
}

module _ (P : Route → Type 0) where
  -- every route of a table
  abbrev pub AllRoutes : Routes → Type 0
  AllRoutes = All (λ e. All P e.1)

  All-append : (xs ys : List Route) → All P xs → All P ys → All P (xs ++ ys)
  All-append [] ys _ h = h
  All-append (x ∷ xs) ys (p, ps) h = (p, All-append xs ys ps h)

  All-get : (k : String) (t : Routes) → AllRoutes t → All P (get_or (get k t) [])
  unfolding get
  All-get k [] _ = tt
  All-get k ((j, g) ∷ t) (p, ps) = elim (Bool-cases (j == k)) [
    | inl same ↦ rw same p
    | inr other ↦ rw other (All-get k t ps)
  ]

  AllRoutes-set :
      (k : String) (g : List Route) (t : Routes) → All P g → AllRoutes t → AllRoutes (set k g t)
  unfolding set
  AllRoutes-set k g [] p _ = (p, tt)
  AllRoutes-set k g ((j, h) ∷ t) p (q, qs) = elim (Bool-cases (j == k)) [
    | inl same ↦ rw same (p, qs)
    | inr other ↦ rw other (q, AllRoutes-set k g t p qs)
  ]

  pub AllRoutes-add_routes :
      (f : Option (Request → Authorization)) (rs : List Route) (t : Routes)
      → All (λ r. P (with_authorize f r)) rs
      → AllRoutes t
      → AllRoutes (add_routes f rs t)
  unfolding add_routes
  AllRoutes-add_routes f [] t _ h = h
  AllRoutes-add_routes f (r ∷ rs) t (p, ps) h =
      let key = route_key r.type (normalize_path r.path) in
      AllRoutes-add_routes f rs _ ps (
        AllRoutes-set key _ t
          (All-append (get_or (get key t) []) (with_authorize f r ∷ []) (All-get key t h) (p, tt))
          h)

  if_All : (b : Bool) (xs ys : List Route) → All P xs → All P ys → All P (if b then xs else ys)
  if_All true xs ys h k = h
  if_All false xs ys h k = k

  All-wildcard :
      (t : Routes) (method path : String)
      → AllRoutes t
      → All P (wildcard_path_candidates t method path)
  unfolding wildcard_path_candidates
  All-wildcard [] method path _ = tt
  All-wildcard ((key, g) ∷ t) method path (p, ps) =
      if_All (is_candidate_path (strip_prefix (String.◌++◌ (upper method) " ") key) path) _ _
        (All-append g _ p (All-wildcard t method path ps)) (All-wildcard t method path ps)

  All-candidates :
      (t : Routes) (method path : String) → AllRoutes t → All P (candidates t method path)
  unfolding candidates
  All-candidates t method path h =
      let at : (m q : String) → All P (group_of t m q) = λ m q. All-get (route_key m q) t h in
      All-append _ _ (at method path) (
        All-append _ _ (All-wildcard t method path h) (
          All-append _ _ (at method "*") (
            All-append _ _ (at "*" path)
              (All-append _ _ (All-wildcard t "*" path h) (at "*" "*")))))

  some_inj : (x r : Route) → some x ≡ some r → x ≡ r
  some_inj x r e = cc

  pick :
      (b : Bool) (x : Route) (rest : Option Route) (r : Route)
      → P x
      → (rest ≡ some r → P r)
      → (if b then some x else rest) ≡ some r
      → P r
  pick true x rest r p h e = subst P (some_inj x r e) p
  pick false x rest r p h e = h e

  All-find : (f : Route → Bool) (xs : List Route) (r : Route) → All P xs → find f xs ≡ some r → P r
  All-find f [] r _ e = cc
  All-find f (x ∷ xs) r (p, ps) e = pick (f x) x (find f xs) r p (All-find f xs r ps) e

  route_at-AllRoutes :
      (parse_path : String → Option String) (t : Routes) (req : Request) (path : String) (r : Route)
      → AllRoutes t
      → route_at parse_path t req path ≡ some r
      → P r
  unfolding route_at
  route_at-AllRoutes parse_path t req path r h e =
      All-find (λ x. request_headers_match x.request_headers req)
        (candidates t (get_or req.method "GET") path) r
        (All-candidates t (get_or req.method "GET") path h) e

-- what a call that is made has behind it
abbrev pub IsPermitted : (Request → Authorization) → Request → Call → Type 0
IsPermitted f req (callback_of r) = (is_cors_preflight_request req ≡ true) ⊎ (f req ≡ allowed)
IsPermitted f req (raw_callback_of r) = (is_cors_preflight_request req ≡ true) ⊎ (f req ≡ allowed)

module _ (write_head : ℕ → OutHeaders → Option String) (f : Request → Authorization)
    (req : Request) where
  run_route-IsPermitted :
      (r : Route) (a : Option (Request → RawReturned)) (b : Option (Request → Returned))
      → (is_cors_preflight_request req ≡ true) ⊎ (f req ≡ allowed)
      → All (IsPermitted f req) (run_route write_head r req a b).calls
  unfolding run_route
  run_route-IsPermitted r (some _) b h = (h, tt)
  run_route-IsPermitted r none (some _) h = (h, tt)
  run_route-IsPermitted r none none h = tt

  run_authorized-IsPermitted :
      (r : Route) (a : Authorization)
      → (a ≡ allowed → (is_cors_preflight_request req ≡ true) ⊎ (f req ≡ allowed))
      → All (IsPermitted f req) (run_authorized write_head r req a).calls
  run_authorized-IsPermitted r (denied _) h = tt
  run_authorized-IsPermitted r authorize_thrown h = tt
  run_authorized-IsPermitted r allowed h =
      run_route-IsPermitted r r.raw_callback r.callback (h refl)

  authorized :
      (r : Route)
      → r.authorize ≡ some f
      → authorization_of r req ≡ allowed
      → (is_cors_preflight_request req ≡ true) ⊎ (f req ≡ allowed)
  authorized r e h = elim (Bool-cases (is_cors_preflight_request req)) [
    | inl preflight ↦ inl preflight
    | inr other ↦ inr (ground (arith, e, h, other))
  ]

  run_found-IsPermitted :
      (o : Option Route)
      → ((r : Route) → o ≡ some r → r.authorize ≡ some f)
      → All (IsPermitted f req) (run_found write_head req o).calls
  run_found-IsPermitted none h = tt
  run_found-IsPermitted (some r) h =
      run_authorized-IsPermitted r (authorization_of r req) (authorized r (h r refl))

  with_authorize-some :
      (rs : List Route)
      → All (λ r. r.authorize ≡ none) rs
      → All (λ r. (with_authorize (some f) r).authorize ≡ some f) rs
  unfolding with_authorize
  with_authorize-some [] _ = tt
  with_authorize-some (r ∷ rs) (p, ps) = (rw p refl, with_authorize-some rs ps)

  handle_at-IsPermitted :
      (parse_path : String → Option String) (t : Routes)
      → AllRoutes (λ r. r.authorize ≡ some f) t
      → (o : Option String)
      → All (IsPermitted f req) (handle_at write_head parse_path t req o).calls
  handle_at-IsPermitted parse_path t guarded none = tt
  handle_at-IsPermitted parse_path t guarded (some path) =
      run_found-IsPermitted (route_at parse_path t req path)
        (λ r h. route_at-AllRoutes (λ x. x.authorize ≡ some f) parse_path t req path r guarded h)

  -- A server's routes are registered with an `authorize` of the registration and none of their own.
  -- Then whatever the request, a callback or raw callback runs only if `authorize` allows the request
  -- or the request is a CORS preflight.
  pub handle_request-IsPermitted :
      (parse_path : String → Option String) (rs : List Route)
      → All (λ r. r.authorize ≡ none) rs
      → All
          (IsPermitted f req)
          (handle_request write_head parse_path (add_routes (some f) rs []) req).calls
  unfolding handle_request
  handle_request-IsPermitted parse_path rs bare =
      let table = add_routes (some f) rs [] in
      let guarded =
        AllRoutes-add_routes (λ r. r.authorize ≡ some f) (some f) rs []
          (with_authorize-some rs bare) tt in
      handle_at-IsPermitted parse_path table guarded (parse_path (get_or req.url "/"))
