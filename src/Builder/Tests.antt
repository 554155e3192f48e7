-- ===== src/Builder/Tests.antt =====
-- lib/src/graph-output.builder.ts: two modules that import each other, with a provider each.
use nest_graph_inspector.Prelude.{
  ℕ, String, ◌≡◌, refl, none, List, [], ◌∷◌, ◌↔◌, length, find, ◌==◌,
}
use mathlib.Core.List.{Perm}
use mathlib.Core.Option
use nest_graph_inspector.Prelude.Maps.{get, keys}
use nest_graph_inspector.Prelude.Sets.{IsDistinct}
use nest_graph_inspector.Cycles.Sound.{count_from}
use nest_graph_inspector.Prelude.Order.{text_le}
use nest_graph_inspector.Builder.{
  Modules, Node, ModuleTree, tree, nil, cons, DependencyRef, GraphModules, GraphOutputModule,
  GraphOutputInjectable, flatten_module_tree, find_module_cycles, visit,
}
use nest_graph_inspector.Builder.Flatten.{flatten_module_tree_lem, preorder}
use nest_graph_inspector.Builder.ModuleCycles.{ImportChain, find_module_cycles-nil_iff}
use nest_graph_inspector.Builder.Injections.{InjectionChain, dependency_cycles-nil_iff}
use nest_graph_inspector.Builder.Output.{dependency_cycles, find_graph_cycles}
use nest_graph_inspector.Builder.Dependencies.{find_graph_cycles-ids, all_ids}

abbrev service : String → List DependencyRef → GraphOutputInjectable
service name dependencies = record {
  name = name;
  jsdoc = none;
  dependencies = dependencies;
  direct_run = none;
}

abbrev module_of : List String → List GraphOutputInjectable → GraphOutputModule
module_of imports providers = record {
  jsdoc = none;
  imports = imports;
  exports = [];
  providers = providers;
  controllers = [];
}

abbrev ref : String → String → DependencyRef
ref m t = record { provided_by_type = "module"; provided_by = m; token = t }

abbrev modules : GraphModules
modules =
    ("A", module_of ("B" ∷ []) (service "S" (ref "B" "T" ∷ []) ∷ []))
    ∷ ("B", module_of ("A" ∷ []) (service "T" (ref "A" "S" ∷ []) ∷ []))
    ∷ []

abbrev plain : List String → Modules
plain imports = record {
  jsdoc = none;
  imports = imports;
  exports = [];
  providers = [];
  controllers = [];
}

abbrev node : String → List String → ℕ → Node
node name imports id = record {
  name = name;
  modules = plain imports;
  provider_instances = ("S", id) ∷ [];
  controller_instances = [];
}

-- two modules named B, with different imports
abbrev sample : ModuleTree
sample =
    tree (node "A" ("B" ∷ []) 1)
      (cons (tree (node "B" [] 2) nil) (cons (tree (node "B" ("C" ∷ []) 3) nil) nil))

flatten_test : flatten_module_tree sample ≡ ("A", plain ("B" ∷ [])) ∷ ("B", plain []) ∷ []
unfolding flatten_module_tree visit
flatten_test = refl

flatten_module_tree_lem_example :
    (get "B" (flatten_module_tree sample)
      ≡ Option.map (λ n. n.modules) (find (λ n. n.name == "B") (preorder sample)))
    × IsDistinct (keys (flatten_module_tree sample))
flatten_module_tree_lem_example = flatten_module_tree_lem sample "B"

find_module_cycles-nil_iff_example :
    ((find_module_cycles text_le modules 1).cycles ≡ [])
    ↔ ((u : String) → ¬ ImportChain modules u u)
find_module_cycles-nil_iff_example = find_module_cycles-nil_iff text_le modules 1 refl

dependency_cycles-nil_iff_example :
    ((dependency_cycles text_le modules 2).cycles ≡ [])
    ↔ ((u : String) → ¬ InjectionChain modules u u)
dependency_cycles-nil_iff_example = dependency_cycles-nil_iff text_le modules 2

find_graph_cycles-ids_example :
    let out = find_graph_cycles text_le modules in
    Perm (all_ids out) (count_from 1 (length (all_ids out)))
find_graph_cycles-ids_example = find_graph_cycles-ids text_le modules refl
