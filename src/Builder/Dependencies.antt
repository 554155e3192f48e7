-- ===== src/Builder/Dependencies.antt =====
-- lib/src/graph-output.builder.ts, `findDependencyCycles` and `findGraphCycles`: the cycles among
-- providers and controllers, and how the reported cycles are numbered and shared out.
use nest_graph_inspector.Prelude.{
  ℕ, zero, suc, ◌+◌, String, Bool, true, false, ◌≡◌, refl, sym, ap, ◌∙◌, ◌⊎◌, inl, inr, List, [],
  ◌∷◌, ◌++◌, map, arith, All, eq_iff, length, length-map, length-append, filter, Option-cases,
}
use mathlib.Core.List.{Perm, perm_middle, perm-append_left_iff}
use mathlib.Core.List.Perm
use native.Mathlib.Nat.{zero-add}
use mathlib.Core.Path.{ap₂}
use nest_graph_inspector.Prelude.Maps.{get, set, keys, has-keys-set, is_some-get}
use nest_graph_inspector.Prelude.Sets.{has}
use nest_graph_inspector.Cycles.{Cycle}
use nest_graph_inspector.Cycles.Sound.{
  IsValid, IsCycle, find_cycles-IsValid, targets_has, count_from,
}
use nest_graph_inspector.Builder.{
  GraphOutputInjectable, GraphModules, dependency_node_key, find_module_cycles, module_graph,
}
use nest_graph_inspector.Builder.Keys.{node_key-ne-empty}
use nest_graph_inspector.Builder.Link.{IsLinked, add_all_edges-IsLinked}
use nest_graph_inspector.Builder.ModuleCycles.{module_graph-IsLinked}
use nest_graph_inspector.Builder.Output.{
  Kind, provider, controller, DependencyNode, Nodes, set_nodes, collect_nodes,
  dependency_candidates, dependency_graph, has_kind, kind_is, dependency_cycles, find_graph_cycles,
  ProviderCycle, GraphOutputCycles, to_provider_cycle,
}

set_nodes-filled :
    (kind : Kind) (m : String) (is : List GraphOutputInjectable) (nodes : Nodes)
    → has "" (keys nodes) ≡ false
    → has "" (keys (set_nodes kind m is nodes)) ≡ false
unfolding set_nodes
set_nodes-filled kind m [] nodes h = h
set_nodes-filled kind m (i ∷ is) nodes h =
    let key = dependency_node_key m i.name in
    let node : DependencyNode = record { kind = kind; module_name = m; name = i.name } in
    set_nodes-filled kind m is (set key node nodes)
      (ground (arith, has-keys-set key "" node nodes, eq_iff key "", node_key-ne-empty m i.name))

pub collect_nodes-filled :
    (modules : GraphModules) (nodes : Nodes)
    → has "" (keys nodes) ≡ false
    → has "" (keys (collect_nodes modules nodes)) ≡ false
unfolding collect_nodes
collect_nodes-filled [] nodes h = h
collect_nodes-filled ((name, m) ∷ rest) nodes h = collect_nodes-filled rest _ (
    set_nodes-filled controller name m.controllers _
      (set_nodes-filled provider name m.providers nodes h))

pub dependency_graph-IsLinked :
    (modules : GraphModules)
    → IsLinked
        (keys (collect_nodes modules []))
        (dependency_candidates modules)
        (dependency_graph modules)
unfolding dependency_graph
dependency_graph-IsLinked modules =
    add_all_edges-IsLinked (keys (collect_nodes modules [])) (dependency_candidates modules)

pub dependency_graph-filled :
    (modules : GraphModules) → has "" (keys (dependency_graph modules)) ≡ false
dependency_graph-filled modules =
    (dependency_graph-IsLinked modules).nodes_iff "" ∙ collect_nodes-filled modules [] refl

-- The cycles found in the dependency graph are closed paths along its edges, called direct exactly if
-- the first edge is a loop or has an edge back; no two of them have the same canonical key; and their
-- ids count up from the given one. No condition on the modules is needed.
pub dependency_cycles-IsValid :
    (le : String → String → Bool) (modules : GraphModules) (next_id : ℕ)
    → IsValid le (dependency_graph modules) next_id (dependency_cycles le modules next_id)
unfolding dependency_cycles
dependency_cycles-IsValid le modules next_id =
    find_cycles-IsValid le (dependency_graph modules) next_id
      (dependency_graph-IsLinked modules).distinct (dependency_graph-filled modules)

-- Every cycle starts at a node, which is a provider or a controller.
kind_cases :
    (node : DependencyNode)
    → (kind_is node.kind provider ≡ true) × (kind_is node.kind controller ≡ false)
      ⊎ (kind_is node.kind provider ≡ false) × (kind_is node.kind controller ≡ true)
kind_cases node = ground arith

has_kind-cases :
    (nodes : Nodes) (c : Cycle)
    → has c.from (keys nodes) ≡ true
    → (has_kind provider nodes c ≡ true) × (has_kind controller nodes c ≡ false)
      ⊎ (has_kind provider nodes c ≡ false) × (has_kind controller nodes c ≡ true)
has_kind-cases nodes c h = elim (Option-cases (get c.from nodes)) [
  | inl missing ↦ cc (is_some-get c.from nodes, missing, h)
  | inr (node, found) ↦ rw found (kind_cases node)
]

split_length :
    (nodes : Nodes) (cs : List Cycle)
    → All (λ c. has c.from (keys nodes) ≡ true) cs
    → length (filter (has_kind provider nodes) cs) + length (filter (has_kind controller nodes) cs)
      ≡ length cs
split_length nodes [] h = omega arith
split_length nodes (c ∷ cs) (h, hs) =
    ground (arith, has_kind-cases nodes c h, split_length nodes cs hs)

-- A list shared out by kind, and the ids of the shares.
split_perm :
    (nodes : Nodes) (cs : List Cycle)
    → All (λ c. has c.from (keys nodes) ≡ true) cs
    → Perm
        (map (λ c. c.id) (filter (has_kind provider nodes) cs)
          ++ map (λ c. c.id) (filter (has_kind controller nodes) cs))
        (map (λ c. c.id) cs)
split_perm nodes [] h = Perm.refl []
split_perm nodes (c ∷ cs) (h, hs) = elim (has_kind-cases nodes c h) [
  | inl (p, n) ↦ rw (p, n) (Perm.cons c.id (split_perm nodes cs hs))
  | inr (n, p) ↦
      rw (n, p)
        (Perm.trans
          (perm_middle (map (λ d. d.id) (filter (has_kind provider nodes) cs))
            (map (λ d. d.id) (filter (has_kind controller nodes) cs)))
          (Perm.cons c.id (split_perm nodes cs hs)))
]

count_from-append :
    (start m n : ℕ) → count_from start m ++ count_from (m + start) n ≡ count_from start (m + n)
count_from-append start zero n = simp zero-add
count_from-append start (suc m) n =
    let e : suc m + start ≡ m + suc start = omega arith in
    let s : suc m + n ≡ suc (m + n) = omega arith in
    rw (e, s) (ap (◌∷◌ start) (count_from-append (suc start) m n))

map-to_provider_cycle-id :
    (nodes : Nodes) (cs : List Cycle)
    → map (λ c. c.id) (map (to_provider_cycle nodes) cs) ≡ map (λ c. c.id) cs
unfolding to_provider_cycle
map-to_provider_cycle-id nodes [] = refl
map-to_provider_cycle-id nodes (c ∷ cs) = ap (◌∷◌ c.id) (map-to_provider_cycle-id nodes cs)

sources_known :
    (modules : GraphModules) (cs : List Cycle)
    → All (IsCycle (dependency_graph modules)) cs
    → All (λ c. has c.from (keys (collect_nodes modules [])) ≡ true) cs
sources_known modules [] h = tt
sources_known modules (c ∷ cs) (h, hs) = (
  sym ((dependency_graph-IsLinked modules).nodes_iff c.from)
      ∙ targets_has (dependency_graph modules) c.from c.to h.edge,
  sources_known modules cs hs,
)

-- The ids of all the cycles in an output.
abbrev pub all_ids : GraphOutputCycles → List ℕ
all_ids out =
    map (λ c. c.id) out.modules
    ++ (map (λ c. c.id) out.providers ++ map (λ c. c.id) out.controllers)

length-all_ids :
    (nodes : Nodes) (ms ds : List Cycle)
    → All (λ c. has c.from (keys nodes) ≡ true) ds
    → length (
        all_ids (record {
          modules = ms;
          providers = map (to_provider_cycle nodes) (filter (has_kind provider nodes) ds);
          controllers = filter (has_kind controller nodes) ds;
        }))
      ≡ length ms + length ds
length-all_ids nodes ms ds h =
    let ps = filter (has_kind provider nodes) ds in
    let cs = filter (has_kind controller nodes) ds in
    let provider_ids = map (λ c. c.id) (map (to_provider_cycle nodes) ps) in
    let controller_ids = map (λ (c : Cycle). c.id) cs in
    omega (
      arith,
      length-append (map (λ (c : Cycle). c.id) ms) (provider_ids ++ controller_ids),
      length-append provider_ids controller_ids,
      length-map (λ (c : Cycle). c.id) ms,
      length-map (λ (c : ProviderCycle). c.id) (map (to_provider_cycle nodes) ps),
      length-map (to_provider_cycle nodes) ps,
      length-map (λ (c : Cycle). c.id) cs,
      split_length nodes ds h,
    )

-- The cycles of modules, providers and controllers are numbered together, from 1 and without gaps:
-- each number from 1 to the number of cycles is the id of exactly one of them. No module's name is
-- empty.
pub find_graph_cycles-ids :
    (le : String → String → Bool) (modules : GraphModules)
    → has "" (keys modules) ≡ false
    → let out = find_graph_cycles le modules in
      Perm (all_ids out) (count_from 1 (length (all_ids out)))
unfolding find_graph_cycles find_module_cycles
find_graph_cycles-ids le modules filled =
    let linked = module_graph-IsLinked modules in
    let first =
      find_cycles-IsValid le (module_graph modules) 1 linked.distinct
        (linked.nodes_iff "" ∙ filled) in
    let found = find_module_cycles le modules 1 in
    let second = dependency_cycles-IsValid le modules found.next_id in
    let ds = (dependency_cycles le modules found.next_id).cycles in
    let nodes = collect_nodes modules [] in
    let known = sources_known modules ds second.sound in
    let ids : map (λ c. c.id) found.cycles ++ map (λ c. c.id) ds
        ≡ count_from 1 (length found.cycles + length ds) =
      ap₂ ◌++◌ first.numbered (second.numbered ∙ ap (λ n. count_from n (length ds)) first.next)
      ∙ count_from-append 1 (length found.cycles) (length ds) in
    rw (length-all_ids nodes found.cycles ds known, ← ids, map-to_provider_cycle-id)
      ((perm-append_left_iff (map (λ c. c.id) found.cycles)).1 (split_perm nodes ds known))
