-- ===== src/Serve/Origins.antt =====
-- lib/src/adapters/http-serve.adapter.ts: each server is filed under its own origin.
use nest_graph_inspector.Prelude.{
  String, ◌==◌, ◌≡◌, ◌≢◌, refl, sym, ap, ◌∙◌, subst, Option, none, some, List, [], ◌∷◌, inl, inr,
  arith, eq_iff, eq_refl, if◌then◌else◌, Bool-cases,
}
use nest_graph_inspector.Prelude.Maps.{
  get, set, delete, keys, get-set, get-delete, IsDistinct-keys-set, IsDistinct-keys-delete,
}
use nest_graph_inspector.Prelude.Sets.{IsDistinct}
use nest_graph_inspector.Serve.{Route, add_routes}
use nest_graph_inspector.Serve.Registry.{
  UrlClass, Options, ServerState, Servers, normalize_origin, register, register_at, server_state,
  close, close_at, origin_only, serve, listen_all, resolve_dynamic_port, resolve_state,
}

module _ {U : Type 0} (C : UrlClass U) where
  -- A state is found under the origin of its own URL, and nowhere else.
  pub record IsFiled (servers : Servers U) : Type 0 where
    pub own :
        (k : String) (state : ServerState U)
        → get k servers ≡ some state
        → C.origin state.origin_url ≡ k
    pub distinct : IsDistinct (keys servers)

  -- one call on the adapter, where it does not throw
  pub data Step : Servers U → Servers U → Type 0 where
    registers :
        {s t : Servers U} (options : Options) (routes : List Route) (origin : String)
        → register C options routes s ≡ some (origin, t)
        → Step s t
    closes : {s t : Servers U} (origin : Option String) → close C origin s ≡ some t → Step s t
    serves : {s : Servers U} → Step s (serve C s)
    resolves :
        {s : Servers U} (origin port : String) → Step s (resolve_dynamic_port C origin port s)

  -- the states that calls lead to from an adapter with no server
  pub data Reached : Servers U → Type 0 where
    start : Reached []
    next : {s t : Servers U} → Reached s → Step s t → Reached t

  IsFiled-set :
      (servers : Servers U) (state : ServerState U)
      → IsFiled servers
      → IsFiled (set (C.origin state.origin_url) state servers)
  IsFiled-set servers state h = record {
    own = λ k found e. ground (
      arith,
      get-set (C.origin state.origin_url) k state servers,
      eq_iff (C.origin state.origin_url) k,
      h.own k found,
      e,
    );
    distinct = IsDistinct-keys-set (C.origin state.origin_url) state servers h.distinct;
  }

  IsFiled-delete : (k : String) (servers : Servers U) → IsFiled servers → IsFiled (delete k servers)
  IsFiled-delete k servers h = record {
    own = λ j found e. ground (arith, get-delete k j servers, h.own j found, e);
    distinct = IsDistinct-keys-delete k servers h.distinct;
  }

  IsFiled-nil : IsFiled []
  unfolding get
  IsFiled-nil = record { own = λ k state e. cc; distinct = tt }

  server_state-origin :
      (u : U) (servers : Servers U)
      → IsFiled servers
      → (o : Option (ServerState U)) → get (C.origin u) servers ≡ o
      → C.origin (server_state C u o).origin_url ≡ C.origin u
  server_state-origin u servers h none e = refl
  server_state-origin u servers h (some state) e = h.own (C.origin u) state e

  register_at-IsFiled :
      (options : Options) (routes : List Route) (s t : Servers U) (o : Option U) (origin : String)
      → IsFiled s
      → register_at C options routes s o ≡ some (origin, t)
      → IsFiled t
  register_at-IsFiled options routes s t none origin h e = cc
  register_at-IsFiled options routes s t (some u) origin h e =
      let state = server_state C u (get (C.origin u) s) in
      let filled = record state { routes = add_routes options.authorize routes state.routes } in
      let same = server_state-origin u s h (get (C.origin u) s) refl in
      let made : set (C.origin u) filled s ≡ t = cc in
      subst IsFiled made (subst (λ k. IsFiled (set k filled s)) same (IsFiled-set s filled h))

  close_at-IsFiled :
      (s t : Servers U) (o : Option U) → IsFiled s → close_at C s o ≡ some t → IsFiled t
  close_at-IsFiled s t none h e = cc
  close_at-IsFiled s t (some u) h e =
      let made : delete (C.origin u) s ≡ t = cc in
      subst IsFiled made (IsFiled-delete (C.origin u) s h)

  close-IsFiled :
      (s t : Servers U) (o : Option String) → IsFiled s → close C o s ≡ some t → IsFiled t
  unfolding close
  close-IsFiled s t none h e = let made : [] ≡ t = cc in subst IsFiled made IsFiled-nil
  close-IsFiled s t (some origin) h e = elim (Bool-cases (origin == "")) [
    | inl empty ↦ let made : [] ≡ t = ground (arith, empty, e) in subst IsFiled made IsFiled-nil
    | inr named ↦
        close_at-IsFiled s t (normalize_origin C (origin_only C origin)) h
          (ground (arith, named, e))
  ]

  -- what is changed where it is filed and deleted there
  IsFiled-moved :
      (k : String) (changed : ServerState U) (servers : Servers U)
      → IsFiled servers
      → IsFiled (delete k (set k changed servers))
  IsFiled-moved k changed servers h = record {
    own = λ j found e. ground (
      arith,
      get-delete k j (set k changed servers),
      get-set k j changed servers,
      h.own j found,
      e,
    );
    distinct =
        IsDistinct-keys-delete k (set k changed servers)
          (IsDistinct-keys-set k changed servers h.distinct);
  }

  resolve_state-IsFiled :
      (origin port : String) (s : Servers U) (o : Option (ServerState U))
      → get origin s ≡ o
      → IsFiled s
      → IsFiled (resolve_state C origin port s o)
  resolve_state-IsFiled origin port s none found h = h
  resolve_state-IsFiled origin port s (some state) found h =
      let changed = record state { origin_url = C.set_port port state.origin_url } in
      elim (Bool-cases (C.port state.origin_url == "0")) [
        | inl dynamic ↦
            rw (dynamic, h.own origin state found)
              (IsFiled-set (delete origin (set origin changed s)) changed
                (IsFiled-moved origin changed s h))
        | inr fixed ↦ rw fixed h
      ]

  keys-listen_all : (s : Servers U) → keys (listen_all C s) ≡ keys s
  keys-listen_all [] = refl
  keys-listen_all ((k, state) ∷ s) = ap (◌∷◌ k) (keys-listen_all s)

  listen_all-own :
      (k : String) (state : ServerState U) (s : Servers U)
      → get k (listen_all C s) ≡ some state
      → (before : ServerState U) × (get k s ≡ some before) × (before.origin_url ≡ state.origin_url)
  unfolding get
  listen_all-own k state [] e = cc
  listen_all-own k state ((j, before) ∷ s) e = elim (Bool-cases (j == k)) [
    | inl same ↦ rw same (before, refl, ground (arith, same, e))
    | inr other ↦ rw other (listen_all-own k state s (ground (arith, other, e)))
  ]

  serve-IsFiled : (s : Servers U) → IsFiled s → IsFiled (serve C s)
  unfolding serve
  serve-IsFiled s h = record {
    own = λ k state e.
        let (before, found, same) = listen_all-own k state s e in
        ap C.origin (sym same) ∙ h.own k before found;
    distinct = rw (keys-listen_all s) h.distinct;
  }

  Step-IsFiled : {s t : Servers U} → Step s t → IsFiled s → IsFiled t
  unfolding register resolve_dynamic_port
  Step-IsFiled (registers {s} {t} options routes origin e) h =
      register_at-IsFiled options routes s t (normalize_origin C options) origin h e
  Step-IsFiled (closes {s} {t} o e) h = close-IsFiled s t o h e
  Step-IsFiled (serves {s}) h = serve-IsFiled s h
  Step-IsFiled (resolves {s} origin port) h =
      resolve_state-IsFiled origin port s (get origin s) refl h

  -- Whatever calls of `register`, `close` and `serve` and whatever ports assigned by the system, in
  -- whatever order, lead to a state of the adapter: each server is filed under the origin of its URL,
  -- and no origin is there twice.
  pub Reached-IsFiled : (s : Servers U) → Reached s → IsFiled s
  Reached-IsFiled s start = IsFiled-nil
  Reached-IsFiled s (next r step) = Step-IsFiled step (Reached-IsFiled _ r)

  -- A registration that does not throw adds its routes to the server of its origin, which it makes if
  -- there is none, and leaves the servers of other origins as they are.
  pub register_lem :
      (options : Options) (routes : List Route) (s t : Servers U) (u : U) (origin : String)
      → normalize_origin C options ≡ some u
      → register C options routes s ≡ some (origin, t)
      → let before = server_state C u (get (C.origin u) s) in
        (get (C.origin u) t
          ≡ some (record before { routes = add_routes options.authorize routes before.routes }))
        × ((k : String) → k ≢ C.origin u → get k t ≡ get k s)
  unfolding register
  register_lem options routes s t u origin named e =
      let before = server_state C u (get (C.origin u) s) in
      let filled = record before { routes = add_routes options.authorize routes before.routes } in
      let at : register_at C options routes s (some u) ≡ some (origin, t) =
        ap (register_at C options routes s) (sym named) ∙ e in
      let made : set (C.origin u) filled s ≡ t = cc in
      (
        ap (get (C.origin u)) (sym made)
            ∙ get-set (C.origin u) (C.origin u) filled s
            ∙ ap (λ b. if b then some filled else get (C.origin u) s) (eq_refl (C.origin u)),
        λ k ne.
            ap (get k) (sym made)
            ∙ get-set (C.origin u) k filled s
            ∙ ground (arith, eq_iff (C.origin u) k, ne),
      )
