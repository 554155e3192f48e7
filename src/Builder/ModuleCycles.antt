-- ===== src/Builder/ModuleCycles.antt =====
-- lib/src/graph-output.builder.ts, `findModuleCycles`: the cycles of imports.
use nest_graph_inspector.Prelude.{
  ℕ, String, Bool, true, false, ◌≡◌, refl, ap, ◌∙◌, ◌↔◌, inl, inr, List, [], ◌∷◌, arith, In, subst,
  eq_iff,
}
use nest_graph_inspector.Prelude.Maps.{keys}
use nest_graph_inspector.Prelude.Sets.{has}
use nest_graph_inspector.Graph.{Adj, Edge, Reach, one, more}
use nest_graph_inspector.Cycles.Acyclic.{find_cycles-nil_iff}
use nest_graph_inspector.Builder.{
  GraphOutputModule, GraphModules, module_imports, module_graph, find_module_cycles,
}
use nest_graph_inspector.Builder.Link.{IsLinked, add_all_edges-IsLinked}

-- One module of the graph imports another one of it.
pub record Imports (modules : GraphModules) (u v : String) : Type 0 where
  pub importer : GraphOutputModule
  pub entry : In (u, importer) modules
  pub listed : has v importer.imports ≡ true
  pub known : has v (keys modules) ≡ true

-- A chain of imports.
pub data ImportChain (modules : GraphModules) (u : String) : String → Type 0 where
  step : {v : String} → Imports modules u v → ImportChain modules u v
  chain : {v w : String} → ImportChain modules u v → Imports modules v w → ImportChain modules u w

pub module_graph-IsLinked :
    (modules : GraphModules)
    → IsLinked (keys modules) (module_imports modules) (module_graph modules)
unfolding module_graph
module_graph-IsLinked modules = add_all_edges-IsLinked (keys modules) (module_imports modules)

In-module_imports :
    (modules : GraphModules) (u : String) (cs : List String)
    → In (u, cs) (module_imports modules)
    → (m : GraphOutputModule) × In (u, m) modules × (cs ≡ m.imports)
In-module_imports [] u cs i = absurd i
In-module_imports ((k, m) ∷ rest) u cs (inl e) =
    (m, inl (ap (λ x. (x, m)) (ap (λ p. p.0) e)), ap (λ p. p.1) e)
In-module_imports ((k, m) ∷ rest) u cs (inr i) =
    let (m', j, e) = In-module_imports rest u cs i in (m', inr j, e)

module_imports-In :
    (modules : GraphModules) (u : String) (m : GraphOutputModule)
    → In (u, m) modules
    → In (u, m.imports) (module_imports modules) × (has u (keys modules) ≡ true)
module_imports-In [] u m i = absurd i
module_imports-In ((k, n) ∷ rest) u m (inl e) =
    let same : u ≡ k = ap (λ p. p.0) e in
    let import_list : m.imports ≡ n.imports = ap (λ p. p.1.imports) e in
    (inl (rw (same, import_list) refl), ground (arith, eq_iff k u, same))
module_imports-In ((k, n) ∷ rest) u m (inr i) =
    let (j, h) = module_imports-In rest u m i in (inr j, ground arith)

-- The edges of the module graph are the imports, of modules that the graph has.
pub module_graph-Adj_iff :
    (modules : GraphModules) (u v : String) → Adj (module_graph modules) u v ↔ Imports modules u v
module_graph-Adj_iff modules u v =
    let linked = module_graph-IsLinked modules in
    (
      λ a.
          let (c, node, target) = (linked.edges_iff u v).0 a in
          let (m, i, e) = In-module_imports modules u c.candidates c.entry in
          record { importer = m; entry = i; listed = rw (← e) c.listed; known = target },
      λ i.
          let (j, node) = module_imports-In modules u i.importer i.entry in
          (linked.edges_iff u v).1 (
            record { candidates = i.importer.imports; entry = j; listed = i.listed },
            node,
            i.known,
          ),
    )

-- A walk in the module graph is a chain of imports.
module _ (modules : GraphModules) (filled : has "" (keys modules) ≡ false) where
  Imports-Edge : {u v : String} → Imports modules u v → Edge (module_graph modules) u v
  Imports-Edge {u} {v} i = (
    (module_graph-Adj_iff modules u v).1 i,
    λ e. cc (subst (λ x. has x (keys modules) ≡ true) e i.known),
  )

  ImportChain-Reach : {u v : String} → ImportChain modules u v → Reach (module_graph modules) u v
  ImportChain-Reach (step i) = one (Imports-Edge i)
  ImportChain-Reach (chain c i) = more (ImportChain-Reach c) (Imports-Edge i)

  Reach-ImportChain : {u v : String} → Reach (module_graph modules) u v → ImportChain modules u v
  Reach-ImportChain {u} (one {v} e) = step ((module_graph-Adj_iff modules u v).0 e.0)
  Reach-ImportChain (more {v} {w} r e) =
      chain (Reach-ImportChain r) ((module_graph-Adj_iff modules v w).0 e.0)

-- The module cycles that are reported are none exactly when no module imports itself through a chain
-- of imports among the graph's modules. No module's name is empty.
pub find_module_cycles-nil_iff :
    (le : String → String → Bool) (modules : GraphModules) (next_id : ℕ)
    → has "" (keys modules) ≡ false
    → ((find_module_cycles le modules next_id).cycles ≡ [])
      ↔ ((u : String) → ¬ ImportChain modules u u)
unfolding find_module_cycles
find_module_cycles-nil_iff le modules next_id filled =
    let linked = module_graph-IsLinked modules in
    let (to, from) =
      find_cycles-nil_iff le (module_graph modules) next_id linked.distinct
        (linked.nodes_iff "" ∙ filled) in
    (
      λ e u c. to e u (ImportChain-Reach modules filled c),
      λ h. from (λ u r. h u (Reach-ImportChain modules filled r)),
    )
