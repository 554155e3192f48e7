-- ===== src/Builder/Injections.antt =====
-- lib/src/graph-output.builder.ts, `findDependencyCycles`: the edges are what providers and controllers
-- inject.
use Prim.Native.String
use nest_graph_inspector.Prelude.{
  ℕ, String, Bool, true, false, ◌≡◌, refl, sym, ap, ◌∙◌, ◌↔◌, ◌⊎◌, inl, inr, List, [], ◌∷◌, ◌++◌,
  map, arith, In, In-append_left, In-append_right, subst, eq_iff, or_cases, ◌==◌,
}
use nest_graph_inspector.Prelude.Maps.{keys, set, has-keys-set}
use nest_graph_inspector.Prelude.Sets.{has}
use nest_graph_inspector.Prelude.Members.{In-append_iff, In-map, In-map_cases, has_iff}
use nest_graph_inspector.Graph.{Adj, Edge, Reach, one, more}
use nest_graph_inspector.Cycles.Acyclic.{find_cycles-nil_iff}
use nest_graph_inspector.Builder.{
  DependencyRef, GraphOutputInjectable, GraphOutputModule, GraphModules, dependency_node_key,
}
use nest_graph_inspector.Builder.Dependencies.{
  collect_nodes-filled, dependency_graph-IsLinked, dependency_graph-filled,
}
use nest_graph_inspector.Builder.Output.{
  Kind, provider, controller, DependencyNode, Nodes, set_nodes, collect_nodes, target_key,
  dependency_candidates, dependency_graph, dependency_cycles,
}

-- A module has a provider or controller, and the two names joined by a colon are the key.
pub record Member (modules : GraphModules) (key : String) : Type 0 where
  pub name : String
  pub owner : GraphOutputModule
  pub item : GraphOutputInjectable
  pub entry : In (name, owner) modules
  pub place : In item owner.providers ⊎ In item owner.controllers
  pub named : key ≡ String.◌++◌ name (String.◌++◌ ":" item.name)

-- A provider or controller names the second key in a dependency, by the module that provides it and by
-- its token.
pub record Uses (modules : GraphModules) (u v : String) : Type 0 where
  pub user : Member modules u
  pub dependency : DependencyRef
  pub injected : In dependency user.item.dependencies
  pub target : v ≡ String.◌++◌ dependency.provided_by (String.◌++◌ ":" dependency.token)

-- A provider or controller injects another one, or itself.
abbrev pub Injects : GraphModules → String → String → Type 0
Injects modules u v = Uses modules u v × Member modules v

-- A chain of injections.
pub data InjectionChain (modules : GraphModules) (u : String) : String → Type 0 where
  step : {v : String} → Injects modules u v → InjectionChain modules u v
  chain :
      {v w : String} → InjectionChain modules u v → Injects modules v w → InjectionChain modules u w

Member-later :
    (e : String × GraphOutputModule) (rest : GraphModules) (k : String)
    → Member rest k
    → Member (e ∷ rest) k
Member-later e rest k h = record {
  name = h.name;
  owner = h.owner;
  item = h.item;
  entry = inr h.entry;
  place = h.place;
  named = h.named;
}

-- the key is one of a module's items
abbrev IsItem : String → List GraphOutputInjectable → String → Type 0
IsItem m is k = (i : GraphOutputInjectable) × In i is × (k ≡ dependency_node_key m i.name)

set_nodes-has :
    (kind : Kind) (m : String) (is : List GraphOutputInjectable) (nodes : Nodes) (k : String)
    → (has k (keys (set_nodes kind m is nodes)) ≡ true)
      ↔ (IsItem m is k ⊎ (has k (keys nodes) ≡ true))
unfolding set_nodes
set_nodes-has kind m [] nodes k =
    (λ h. inr h, λ h. elim h [ inl (i, at, e) ↦ absurd at | inr h ↦ h ])
set_nodes-has kind m (i ∷ is) nodes k =
    let key = dependency_node_key m i.name in
    let node : DependencyNode = record { kind = kind; module_name = m; name = i.name } in
    let rest = set_nodes-has kind m is (set key node nodes) k in
    let step = has-keys-set key k node nodes in
    (
      λ h. elim (rest.0 h) [
        | inl (j, at, e) ↦ inl (j, inr at, e)
        | inr old ↦ elim (or_cases (key == k) (has k (keys nodes)) (sym step ∙ old)) [
          | inl same ↦ inl (i, inl refl, sym ((eq_iff key k).0 same))
          | inr before ↦ inr before
        ]
      ],
      λ h. rest.1 (elim h [
        | inl (j, inl e, named) ↦
            let same =
              (eq_iff key k).1 (ap (λ x. dependency_node_key m x.name) (sym e) ∙ sym named) in
            inr (step ∙ ground (arith, same))
        | inl (j, inr at, named) ↦ inl (j, at, named)
        | inr old ↦ inr (step ∙ ground (arith, old))
      ]),
    )

member_of :
    (name : String) (m : GraphOutputModule) (rest : GraphModules) (i : GraphOutputInjectable)
    (k : String)
    → In i m.providers ⊎ In i m.controllers
    → k ≡ dependency_node_key name i.name
    → Member ((name, m) ∷ rest) k
unfolding dependency_node_key
member_of name m rest i k at e = record {
  name = name;
  owner = m;
  item = i;
  entry = inl refl;
  place = at;
  named = e;
}

Member-cases :
    (name : String) (m : GraphOutputModule) (rest : GraphModules) (k : String)
    (h : Member ((name, m) ∷ rest) k)
    → In (h.name, h.owner) rest
      ⊎ ((In h.item m.providers ⊎ In h.item m.controllers)
          × (k ≡ dependency_node_key name h.item.name))
unfolding dependency_node_key
Member-cases name m rest k h = elim (h.entry) [
  | inl e ↦ inr (
    subst (λ x. In h.item x.providers ⊎ In h.item x.controllers) (ap (λ p. p.1) e) h.place,
    h.named ∙ ap (λ p. String.◌++◌ p.0 (String.◌++◌ ":" h.item.name)) e,
  )
  | inr at ↦ inl at
]

Member-rest :
    (modules rest : GraphModules) (k : String) (h : Member modules k)
    → In (h.name, h.owner) rest
    → Member rest k
Member-rest modules rest k h at = record {
  name = h.name;
  owner = h.owner;
  item = h.item;
  entry = at;
  place = h.place;
  named = h.named;
}

-- The nodes are the providers and controllers.
collect_nodes-has :
    (modules : GraphModules) (nodes : Nodes) (k : String)
    → (has k (keys (collect_nodes modules nodes)) ≡ true)
      ↔ (Member modules k ⊎ (has k (keys nodes) ≡ true))
unfolding collect_nodes dependency_node_key
collect_nodes-has [] nodes k = (λ h. inr h, λ h. elim h [ inl m ↦ absurd m.entry | inr h ↦ h ])
collect_nodes-has ((name, m) ∷ rest) nodes k =
    let some_nodes = set_nodes provider name m.providers nodes in
    let both = set_nodes controller name m.controllers some_nodes in
    let later = collect_nodes-has rest both k in
    let first = set_nodes-has provider name m.providers nodes k in
    let second = set_nodes-has controller name m.controllers some_nodes k in
    (
      λ h. elim (later.0 h) [
        | inl old ↦ inl (Member-later (name, m) rest k old)
        | inr h ↦ elim (second.0 h) [
          | inl (i, at, e) ↦ inl (member_of name m rest i k (inr at) e)
          | inr h ↦ elim (first.0 h) [
            | inl (i, at, e) ↦ inl (member_of name m rest i k (inl at) e)
            | inr old ↦ inr old
          ]
        ]
      ],
      λ h. later.1 (elim h [
        | inr old ↦ inr (second.1 (inr (first.1 (inr old))))
        | inl k_member ↦ elim (Member-cases name m rest k k_member) [
          | inl old ↦ inl (Member-rest ((name, m) ∷ rest) rest k k_member old)
          | inr (inl at, e) ↦ inr (second.1 (inr (first.1 (inl (k_member.item, at, e)))))
          | inr (inr at, e) ↦ inr (second.1 (inl (k_member.item, at, e)))
        ]
      ]),
    )

-- what `addDependencyEdges` is called with for a list of items
abbrev entry_of : String → GraphOutputInjectable → String × List String
entry_of name i = (dependency_node_key name i.name, map target_key i.dependencies)

module _ (u v : String) where
  abbrev Named : List GraphOutputInjectable → String → Type 0
  Named is name =
      (i : GraphOutputInjectable) × In i is
      × (u ≡ dependency_node_key name i.name)
      × ((d : DependencyRef) × In d i.dependencies × (v ≡ target_key d))

  -- an entry for the first key lists the second one
  abbrev Listed : List (String × List String) → Type 0
  Listed es = (cs : List String) × In (u, cs) es × (has v cs ≡ true)

  Listed-append :
      (es fs : List (String × List String)) → Listed (es ++ fs) ↔ (Listed es ⊎ Listed fs)
  Listed-append es fs = (
    λ (cs, at, h). elim ((In-append_iff (u, cs) es fs).0 at) [
      | inl at ↦ inl (cs, at, h)
      | inr at ↦ inr (cs, at, h)
    ],
    λ h. elim h [
      | inl (cs, at, h) ↦ (cs, In-append_left (u, cs) es fs at, h)
      | inr (cs, at, h) ↦ (cs, In-append_right (u, cs) es fs at, h)
    ],
  )

  Listed-map :
      (is : List GraphOutputInjectable) (name : String)
      → Listed (map (entry_of name) is) ↔ Named is name
  Listed-map is name = (
    λ (cs, at, h).
        let (i, in_is, e) = In-map_cases (entry_of name) (u, cs) is at in
        let listed : has v (map target_key i.dependencies) ≡ true =
          subst (λ x. has v x ≡ true) (ap (λ p. p.1) e) h in
        let (d, in_deps, named) =
          In-map_cases target_key v i.dependencies ((has_iff v _).0 listed) in
        (i, in_is, ap (λ p. p.0) e, (d, in_deps, named)),
    λ (i, in_is, named, (d, in_deps, target)). (
      map target_key i.dependencies,
      subst (λ x. In (x, map target_key i.dependencies) (map (entry_of name) is)) (sym named)
          (In-map (entry_of name) i is in_is),
      (has_iff v _).1 (
          subst (λ x. In x (map target_key i.dependencies)) (sym target)
            (In-map target_key d i.dependencies in_deps)),
    ),
  )

  Uses-later :
      (e : String × GraphOutputModule) (rest : GraphModules) → Uses rest u v → Uses (e ∷ rest) u v
  unfolding Member-later
  Uses-later e rest h = record {
    user = Member-later e rest u h.user;
    dependency = h.dependency;
    injected = h.injected;
    target = h.target;
  }

  named_target :
      (name : String) (m : GraphOutputModule) (rest : GraphModules) (i : GraphOutputInjectable)
      (d : DependencyRef)
      → In i m.providers ⊎ In i m.controllers
      → u ≡ dependency_node_key name i.name
      → In d i.dependencies
      → v ≡ target_key d
      → Uses ((name, m) ∷ rest) u v
  unfolding dependency_node_key
  named_target name m rest i d at named in_deps target = record {
    user = record { name = name; owner = m; item = i; entry = inl refl; place = at; named = named };
    dependency = d;
    injected = in_deps;
    target = target;
  }

  -- The entries are the dependencies.
  Listed-dependency_candidates :
      (modules : GraphModules) → Listed (dependency_candidates modules) ↔ Uses modules u v
  unfolding dependency_candidates dependency_node_key Member-rest
  Listed-dependency_candidates [] = (λ (cs, at, h). absurd at, λ h. absurd h.user.entry)
  Listed-dependency_candidates ((name, m) ∷ rest) =
      let ps = map (entry_of name) m.providers in
      let cs = map (entry_of name) m.controllers in
      let others = dependency_candidates rest in
      let outer = Listed-append ps (cs ++ others) in
      let inner = Listed-append cs others in
      (
        λ h. elim (outer.0 h) [
          | inl h ↦
              let (i, at, named, (d, deps, target)) = (Listed-map m.providers name).0 h in
              named_target name m rest i d (inl at) named deps target
          | inr h ↦ elim (inner.0 h) [
            | inl h ↦
                let (i, at, named, (d, deps, target)) = (Listed-map m.controllers name).0 h in
                named_target name m rest i d (inr at) named deps target
            | inr h ↦ Uses-later (name, m) rest ((Listed-dependency_candidates rest).0 h)
          ]
        ],
        λ h. elim (Member-cases name m rest u h.user) [
          | inl old ↦
              let mine = Member-rest ((name, m) ∷ rest) rest u h.user old in
              outer.1 (
                inr (
                  inner.1 (
                    inr (
                      (Listed-dependency_candidates rest).1 (record {
                        user = mine;
                        dependency = h.dependency;
                        injected = h.injected;
                        target = h.target;
                      })))))
          | inr (inl at, named) ↦ outer.1 (
              inl (
                (Listed-map m.providers name).1
                  (h.user.item, at, named, (h.dependency, h.injected, h.target))))
          | inr (inr at, named) ↦ outer.1 (
              inr (
                inner.1 (
                  inl (
                    (Listed-map m.controllers name).1
                      (h.user.item, at, named, (h.dependency, h.injected, h.target))))))
        ],
      )

false-ne-true : false ≡ true → ⊥
false-ne-true h = cc

-- The edges of the dependency graph are the injections.
pub dependency_graph-Adj_iff :
    (modules : GraphModules) (u v : String)
    → Adj (dependency_graph modules) u v ↔ Injects modules u v
dependency_graph-Adj_iff modules u v =
    let linked = dependency_graph-IsLinked modules in
    let node = λ (k : String). collect_nodes-has modules [] k in
    (
      λ a.
          let (c, _, target) = (linked.edges_iff u v).0 a in
          (
            (Listed-dependency_candidates u v modules).0 (c.candidates, c.entry, c.listed),
            elim ((node v).0 target) [ inl m ↦ m | inr h ↦ cc ],
          ),
      λ (uses, known).
          let (cs, at, listed) = (Listed-dependency_candidates u v modules).1 uses in
          (linked.edges_iff u v).1 (
            record { candidates = cs; entry = at; listed = listed },
            (node u).1 (inl uses.user),
            (node v).1 (inl known),
          ),
    )

module _ (modules : GraphModules) where
  Injects-Edge : {u v : String} → Injects modules u v → Edge (dependency_graph modules) u v
  Injects-Edge {u} {v} i = (
    (dependency_graph-Adj_iff modules u v).1 i,
    λ e. false-ne-true (
        sym (collect_nodes-filled modules [] refl)
        ∙ (collect_nodes-has modules [] "").1 (inl (subst (Member modules) e i.1))),
  )

  InjectionChain-Reach :
      {u v : String} → InjectionChain modules u v → Reach (dependency_graph modules) u v
  InjectionChain-Reach (step i) = one (Injects-Edge i)
  InjectionChain-Reach (chain c i) = more (InjectionChain-Reach c) (Injects-Edge i)

  Reach-InjectionChain :
      {u v : String} → Reach (dependency_graph modules) u v → InjectionChain modules u v
  Reach-InjectionChain {u} (one {v} e) = step ((dependency_graph-Adj_iff modules u v).0 e.0)
  Reach-InjectionChain (more {v} {w} r e) =
      chain (Reach-InjectionChain r) ((dependency_graph-Adj_iff modules v w).0 e.0)

-- No cycle of providers and controllers is reported exactly when none of them injects itself through a
-- chain of dependencies, each naming a provider or controller of the graph by its module and its token.
pub dependency_cycles-nil_iff :
    (le : String → String → Bool) (modules : GraphModules) (next_id : ℕ)
    → ((dependency_cycles le modules next_id).cycles ≡ [])
      ↔ ((u : String) → ¬ InjectionChain modules u u)
unfolding dependency_cycles
dependency_cycles-nil_iff le modules next_id =
    let (to, from) =
      find_cycles-nil_iff le (dependency_graph modules) next_id
        (dependency_graph-IsLinked modules).distinct (dependency_graph-filled modules) in
    (
      λ e u c. to e u (InjectionChain-Reach modules c),
      λ h. from (λ u r. h u (Reach-InjectionChain modules r)),
    )
