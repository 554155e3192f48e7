-- ===== src/Builder/Output.antt =====
-- lib/src/graph-output.builder.ts: `findDependencyCycles`, `findGraphCycles`, `enrichModuleMap` and
-- `createModuleMapFromTree`, and lib/src/types/graph-output.type.ts, the records of cycles.
use nest_graph_inspector.Prelude.{
  ℕ, String, Bool, true, false, Option, none, some, List, [], ◌∷◌, ◌++◌, map, filter,
}
use nest_graph_inspector.Prelude.Maps.{get, set, keys}
use nest_graph_inspector.Graph.{Graph, create_graph}
use nest_graph_inspector.Cycles.{CycleType, Cycle, Search, find_cycles}
use nest_graph_inspector.Builder.{
  Injectable, Modules, ModuleTree, tree, flatten_module_tree, split_colon, dependency_node_key,
  DependencyRef, enrich_dependency, DirectRunMethod, GraphOutputInjectable, GraphOutputModule,
  GraphModules, add_all_edges, find_module_cycles,
}

pub data Kind : Type 0 where
  provider controller : Kind

-- `DependencyNode`, without the key that it is filed under
pub record DependencyNode : Type 0 where
  pub kind : Kind
  pub module_name : String
  pub name : String

abbrev pub Nodes : Type 0
Nodes = List (String × DependencyNode)

-- `for (const provider of moduleData.providers)` and the loop over the controllers: `nodes.set(...)`
unfoldable pub set_nodes : Kind → String → List GraphOutputInjectable → Nodes → Nodes
set_nodes kind module_name [] nodes = nodes
set_nodes kind module_name (i ∷ is) nodes = set_nodes kind module_name is (
    set (dependency_node_key module_name i.name)
      (record { kind = kind; module_name = module_name; name = i.name }) nodes)

unfoldable pub collect_nodes : GraphModules → Nodes → Nodes
unfolding set_nodes
collect_nodes [] nodes = nodes
collect_nodes ((name, m) ∷ rest) nodes =
    collect_nodes rest
      (set_nodes controller name m.controllers (set_nodes provider name m.providers nodes))

-- the key of the node that a dependency names
abbrev pub target_key : DependencyRef → String
target_key d = dependency_node_key d.provided_by d.token

-- what `addDependencyEdges` is called with, in turn
unfoldable pub dependency_candidates : GraphModules → List (String × List String)
dependency_candidates [] = []
dependency_candidates ((name, m) ∷ rest) =
    map (λ i. (dependency_node_key name i.name, map target_key i.dependencies)) m.providers
    ++ (map (λ i. (dependency_node_key name i.name, map target_key i.dependencies)) m.controllers
        ++ dependency_candidates rest)

-- the graph of `findDependencyCycles`
unfoldable pub dependency_graph : GraphModules → Graph
unfolding collect_nodes dependency_candidates add_all_edges
dependency_graph modules =
    let nodes = collect_nodes modules [] in
    add_all_edges (create_graph (keys nodes)) (dependency_candidates modules) (keys nodes)

pub record PathItem : Type 0 where
  pub module_name : String
  pub provider_name : String

-- `toProviderCyclePathItem`
unfoldable pub to_path_item : Nodes → String → PathItem
to_path_item nodes key = elim (get key nodes) [
  | some node ↦ record { module_name = node.module_name; provider_name = node.name }
  | none ↦ elim (split_colon key) [
    | none ↦ record { module_name = ""; provider_name = key }
    | some p ↦ record { module_name = p.0; provider_name = p.1 }
  ]
]

-- `GraphOutputProviderCycle`
pub record ProviderCycle : Type 0 where
  pub id : ℕ
  pub from : String
  pub to : String
  pub type : CycleType
  pub path : List PathItem

-- `toProviderCycle`
unfoldable pub to_provider_cycle : Nodes → Cycle → ProviderCycle
to_provider_cycle nodes c = record {
  id = c.id;
  from = c.from;
  to = c.to;
  type = c.type;
  path = map (to_path_item nodes) c.path;
}

-- `nodes.get(cycle.from)?.kind === kind`
abbrev pub kind_is : Kind → Kind → Bool
kind_is provider provider = true
kind_is controller controller = true
kind_is _ _ = false

abbrev pub found_kind_is : Kind → Option DependencyNode → Bool
found_kind_is kind none = false
found_kind_is kind (some node) = kind_is node.kind kind

abbrev pub has_kind : Kind → Nodes → Cycle → Bool
has_kind kind nodes c = found_kind_is kind (get c.from nodes)

-- `GraphOutputCycles`
pub record GraphOutputCycles : Type 0 where
  pub modules : List Cycle
  pub providers : List ProviderCycle
  pub controllers : List Cycle

pub record GraphOutput : Type 0 where
  pub version : String
  pub root : String
  pub modules : GraphModules
  pub cycles : GraphOutputCycles

module _ (locale_le : String → String → Bool) where
  -- the cycles that `findDependencyCycles` splits by kind
  unfoldable pub dependency_cycles : GraphModules → ℕ → Search
  dependency_cycles modules next_id = find_cycles locale_le (dependency_graph modules) next_id

  -- `findGraphCycles`
  unfoldable pub find_graph_cycles : GraphModules → GraphOutputCycles
  unfolding dependency_cycles
  find_graph_cycles modules =
      let module_cycles = find_module_cycles locale_le modules 1 in
      let cycles = (dependency_cycles modules module_cycles.next_id).cycles in
      let nodes = collect_nodes modules [] in
      record {
        modules = module_cycles.cycles;
        providers = map (to_provider_cycle nodes) (filter (has_kind provider nodes) cycles);
        controllers = filter (has_kind controller nodes) cycles;
      }

  module _ (direct_run : Kind → String → String → Option (List DirectRunMethod)) where
    unfoldable pub enrich_injectable : Kind → String → Injectable → GraphOutputInjectable
    enrich_injectable kind module_name i = record {
      name = i.name;
      jsdoc = i.jsdoc;
      dependencies = map (λ d. enrich_dependency d module_name) i.dependencies;
      direct_run = direct_run kind i.name module_name;
    }

    unfoldable pub enrich_module : String × Modules → String × GraphOutputModule
    unfolding enrich_injectable
    enrich_module (name, m) = (
      name,
      record {
        jsdoc = m.jsdoc;
        imports = m.imports;
        exports = m.exports;
        providers = map (enrich_injectable provider name) m.providers;
        controllers = map (enrich_injectable controller name) m.controllers;
      },
    )

    -- `enrichModuleMap(createModuleMapFromTree(tree))`, which `getGraphOutput` caches
    unfoldable pub graph_output : ModuleTree → GraphOutput
    unfolding enrich_module find_graph_cycles
    graph_output (tree node children) =
        let modules = map enrich_module (flatten_module_tree (tree node children)) in
        record {
          version = "3";
          root = node.name;
          modules = modules;
          cycles = find_graph_cycles modules;
        }
