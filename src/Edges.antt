-- ===== src/Edges.antt =====
-- site/app/utils/graph-viewer-edges.ts: how the viewer draws an edge. An id's kind is its prefix, and a
-- dependency that a collapsed module hides is redrawn onto the module's node.
pub mod Redraw
pub mod Circular
mod Tests
use Prim.Native.String
use nest_graph_inspector.Prelude.{
  ℕ, String, ◌==◌, Bool, true, false, not, ◌&&◌, ◌||◌, Option, none, some, List, [], ◌∷◌, ◌++◌,
  if◌then◌else◌, strip_prefix, is_some, get_or, eqb,
}
use nest_graph_inspector.Prelude.Maps.{get}

-- `EdgeRelationship`
pub data Relationship : Type 0 where
  module_edge provider_edge controller_edge circular_edge : Relationship

abbrev pub has_prefix : String → String → Bool
has_prefix prefix s = is_some (strip_prefix prefix s)

-- `isControllerEdge`
unfoldable pub is_controller_edge : String → String → Bool
is_controller_edge source target =
    has_prefix "controller-" source || has_prefix "controller-" target

-- the relationship of an edge that is neither circular nor names one
abbrev pub relationship_of_ends : String → String → Relationship
relationship_of_ends source target =
    if has_prefix "module-" source && has_prefix "module-" target
    then module_edge
    else (if is_controller_edge source target then controller_edge else provider_edge)

-- `resolveEdgeRelationship`
unfoldable pub resolve_edge_relationship :
    String → String → Bool → Option Relationship → Relationship
unfolding is_controller_edge
resolve_edge_relationship source target true named = circular_edge
resolve_edge_relationship source target false (some r) = r
resolve_edge_relationship source target false none = relationship_of_ends source target

abbrev pub is_controller_relationship : Option Relationship → Bool
is_controller_relationship (some controller_edge) = true
is_controller_relationship _ = false

-- `isEdgeNormallyVisible`
unfoldable pub is_edge_normally_visible : String → String → Bool → Bool → Option Relationship → Bool
unfolding is_controller_edge
is_edge_normally_visible source target normally show_controller_lines named =
    let line = is_controller_relationship named || is_controller_edge source target in
    normally && (not line || show_controller_lines)

-- `EDGE_COLOR_BY_RELATIONSHIP`, and the kinds' names in a class
abbrev pub relationship_name : Relationship → String
relationship_name module_edge = "module"
relationship_name provider_edge = "provider"
relationship_name controller_edge = "controller"
relationship_name circular_edge = "circular"

abbrev pub get_edge_color : Relationship → String
get_edge_color module_edge = "var(--mg-edge-module, #38bdf8)"
get_edge_color provider_edge = "var(--mg-edge-provider, #34d399)"
get_edge_color controller_edge = "var(--mg-edge-controller, #c084fc)"
get_edge_color circular_edge = "var(--mg-edge-circular, #facc15)"

abbrev pub get_edge_relation_class : Relationship → String
get_edge_relation_class r = String.◌++◌ "edge-relation--" (relationship_name r)

-- `RedirectedDependencyEdge`
pub record RedirectedEdge : Type 0 where
  pub source : String
  pub target : String
  pub relationship : Relationship
  pub key : String
  pub id : String
  pub is_between_modules : Bool
  pub item_edge_key : String

-- `DependencyEdgePlacement`
pub data Placement : Type 0 where
  hidden : Placement
  direct : (is_inside_module : Bool) → Placement
  redirected : RedirectedEdge → Placement

-- the arguments of `placeDependencyEdge`
pub record Dependency : Type 0 where
  pub source : String
  pub target : String
  pub source_module : String
  pub target_module : String
  pub is_source_module_collapsed : Bool
  pub is_target_module_collapsed : Bool

abbrev pub arrow : String → String → String
arrow a b = String.◌++◌ a (String.◌++◌ "->" b)

abbrev pub drawn : Bool → String → String → String
drawn collapsed module_name item = if collapsed then String.◌++◌ "module-" module_name else item

abbrev pub dependent_kind : String → Relationship
dependent_kind target = if has_prefix "controller-" target then controller_edge else provider_edge

unfoldable pub redirect : Dependency → RedirectedEdge
redirect d =
    let source = drawn d.is_source_module_collapsed d.source_module d.source in
    let target = drawn d.is_target_module_collapsed d.target_module d.target in
    let kind = dependent_kind d.target in
    let between = d.is_source_module_collapsed && d.is_target_module_collapsed in
    record {
      source = source;
      target = target;
      relationship = kind;
      key = String.◌++◌ (arrow source target) (String.◌++◌ ":" (relationship_name kind));
      id =
          String.◌++◌ (if between then "e-agg-dep-" else "e-dep-")
            (String.◌++◌ (arrow source target) (String.◌++◌ "-" (relationship_name kind)));
      is_between_modules = between;
      item_edge_key = arrow d.source d.target;
    }

-- `placeDependencyEdge`
unfoldable pub place_dependency_edge : Dependency → Placement
unfolding redirect
place_dependency_edge d =
    if d.source_module == d.target_module
    then (if d.is_target_module_collapsed then hidden else direct true)
    else (if not d.is_source_module_collapsed && not d.is_target_module_collapsed
        then direct false
        else redirected (redirect d))

module _ {V : Type 0} (id_of : V → ℕ) where
  -- `infoById.set(info.id, info)`, a map from numbers in the order of insertion
  unfoldable pub set_info : V → List V → List V
  set_info v [] = v ∷ []
  set_info v (w ∷ ws) =
      let rest = set_info v ws in if eqb (id_of w) (id_of v) then v ∷ ws else w ∷ rest

  unfoldable pub set_infos : List V → List V → List V
  set_infos [] ws = ws
  set_infos (v ∷ vs) ws = set_infos vs (set_info v ws)

  -- the loops of `collectCircularEdgeInfo`
  unfoldable pub collect_from : List (String × List V) → List String → List V → List V
  collect_from edges [] ws = ws
  collect_from edges (k ∷ ks) ws = collect_from edges ks (set_infos (get_or (get k edges) []) ws)

  -- `collectCircularEdgeInfo`
  unfoldable pub collect_circular_edge_info : List String → List (String × List V) → List V
  unfolding collect_from
  collect_circular_edge_info keys edges = collect_from edges keys []
