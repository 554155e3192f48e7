-- ===== src/Builder.antt =====
-- lib/src/graph-output.builder.ts: from the module tree that the discovery returns to the graph output.
-- lib/src/types/graph-output.type.ts and module.type.ts: the records.
-- What the runtime container knows of an instance is a parameter: `direct_run` for the Direct Run
-- metadata of a provider or controller, read by reflection and from TypeScript sources.
pub mod Keys
pub mod Flatten
pub mod Link
pub mod Output
pub mod TypeCode
pub mod TypeBounds
pub mod ModuleCycles
pub mod Dependencies
pub mod Injections
mod TypeTests
mod Tests
use Prim.Native.String
use Prim.Native.Char.{code}
use mathlib.Core.Option
use nest_graph_inspector.Prelude.{
  ℕ, zero, suc, ◌+◌, String, ◌==◌, Bool, true, false, Option, none, some, List, [], ◌∷◌, ◌++◌, map,
  eqb, if◌then◌else◌, filter,
}
use nest_graph_inspector.Prelude.Maps.{get, set, keys}
use nest_graph_inspector.Prelude.Sets.{has, add}
use nest_graph_inspector.Graph.{Graph, create_graph}
use nest_graph_inspector.Cycles.{CycleType, Cycle, find_cycles, Search}

-- `ModuleProvider` and `ModuleController`, whose fields are the same
pub record Injectable : Type 0 where
  pub name : String
  pub jsdoc : Option String
  pub dependencies : List String

-- `Modules`
pub record Modules : Type 0 where
  pub jsdoc : Option String
  pub imports : List String
  pub exports : List String
  pub providers : List Injectable
  pub controllers : List Injectable

-- `ModuleTree` without the container's own references; an instance is its identity.
pub record Node : Type 0 where
  pub name : String
  pub modules : Modules
  pub provider_instances : List (String × ℕ)
  pub controller_instances : List (String × ℕ)

mutual
  pub data ModuleTree : Type 0 where
    tree : Node → Children → ModuleTree

  pub data Children : Type 0 where
    nil : Children
    cons : ModuleTree → Children → Children

-- an assignment behind `if (!modules[name])` or `if (!map.has(name))`
abbrev pub set_first : {V : Type 0} → String → V → List (String × V) → List (String × V)
set_first k v m = if has k (keys m) then m else m ++ (k, v) ∷ []

-- `visit` of `flattenModuleTree`, and of `getDirectRunInstanceIndex`, which differ in what they read
-- from a node
unfoldable mutual
  pub visit : {V : Type 0} → (Node → V) → ModuleTree → List (String × V) → List (String × V)
  visit f (tree node children) m = visit_all f children (set_first node.name (f node) m)

  pub visit_all : {V : Type 0} → (Node → V) → Children → List (String × V) → List (String × V)
  visit_all f nil m = m
  visit_all f (cons t ts) m = visit_all f ts (visit f t m)

-- `flattenModuleTree`
unfoldable pub flatten_module_tree : ModuleTree → List (String × Modules)
unfolding visit
flatten_module_tree t = visit (λ node. node.modules) t []

-- the two maps of `getDirectRunInstanceIndex`
pub record InstanceIndex : Type 0 where
  pub providers : List (String × List (String × ℕ))
  pub controllers : List (String × List (String × ℕ))

unfoldable pub instance_index : ModuleTree → InstanceIndex
unfolding visit
instance_index t = record {
  providers = visit (λ node. node.provider_instances) t [];
  controllers = visit (λ node. node.controller_instances) t [];
}

-- `findDirectRunProviderInstance`
unfoldable pub find_provider_instance : ModuleTree → String → String → Option ℕ
unfolding instance_index
find_provider_instance t module_name provider_name =
    Option.bind (get module_name (instance_index t).providers) (get provider_name)

-- `indexOf(":")`, with the texts before and after the colon
unfoldable pub split_colon : String → Option (String × String)
split_colon String.[] = none
split_colon (String.◌∷◌ c s) =
    if eqb (code c) b':'
    then some ("", s)
    else Option.map (λ p. (String.◌∷◌ c p.0, p.1)) (split_colon s)

-- `dependencyNodeKey`
unfoldable pub dependency_node_key : String → String → String
dependency_node_key module_name name = String.◌++◌ module_name (String.◌++◌ ":" name)

pub record DependencyRef : Type 0 where
  pub provided_by_type : String
  pub provided_by : String
  pub token : String

-- `enrichDependency`
unfoldable pub enrich_dependency : String → String → DependencyRef
unfolding split_colon
enrich_dependency dependency current_module = elim (split_colon dependency) [
  | none ↦ record { provided_by_type = "module"; provided_by = current_module; token = dependency }
  | some p ↦ record { provided_by_type = "module"; provided_by = p.0; token = p.1 }
]

pub record DirectRunMethod : Type 0 where
  pub name : String
  pub parameter_types : String

-- `GraphOutputProvider` and `GraphOutputController`
pub record GraphOutputInjectable : Type 0 where
  pub name : String
  pub jsdoc : Option String
  pub dependencies : List DependencyRef
  pub direct_run : Option (List DirectRunMethod)

pub record GraphOutputModule : Type 0 where
  pub jsdoc : Option String
  pub imports : List String
  pub exports : List String
  pub providers : List GraphOutputInjectable
  pub controllers : List GraphOutputInjectable

-- the edges that a source may have: those of its candidates that are nodes
unfoldable pub add_edges : Graph → String → List String → List String → Graph
add_edges g source [] nodes = g
add_edges g source (target ∷ candidates) nodes = elim (get source g) [
  | none ↦ g
  | some ts ↦
      add_edges (if has target nodes then set source (add target ts) g else g) source candidates
        nodes
]

unfoldable pub add_all_edges : Graph → List (String × List String) → List String → Graph
add_all_edges g [] nodes = g
add_all_edges g ((source, candidates) ∷ rest) nodes =
    add_all_edges (add_edges g source candidates nodes) rest nodes

abbrev pub GraphModules : Type 0
GraphModules = List (String × GraphOutputModule)

abbrev pub module_imports : GraphModules → List (String × List String)
module_imports = map (λ e. (e.0, e.1.imports))

-- the graph of `findModuleCycles`
unfoldable pub module_graph : GraphModules → Graph
unfolding add_all_edges add_edges
module_graph modules =
    add_all_edges (create_graph (keys modules)) (module_imports modules) (keys modules)

module _ (locale_le : String → String → Bool) where
  -- `findModuleCycles`
  unfoldable pub find_module_cycles : GraphModules → ℕ → Search
  find_module_cycles modules next_id = find_cycles locale_le (module_graph modules) next_id
