-- ===== src/Edges/Redraw.antt =====
-- site/app/utils/graph-viewer-edges.ts, `placeDependencyEdge`: what a collapsed module hides.
use Prim.Native.String
use text.Mathlib.TextLemmas.{cons-append}
use nest_graph_inspector.Prelude.{
  String, ◌==◌, Bool, true, false, not, ◌&&◌, ◌||◌, ◌≡◌, refl, none, some, arith,
}
use nest_graph_inspector.Prelude.Texts.{strip_prefix}
use nest_graph_inspector.Edges.{
  Dependency, Placement, hidden, direct, place_dependency_edge, redirect, is_edge_normally_visible,
  is_controller_relationship, is_controller_edge, has_prefix, dependent_kind, drawn,
}

-- one module is collapsed or not, whichever end names it
abbrev pub IsConsistent : Dependency → Type 0
IsConsistent d =
    d.source_module == d.target_module ≡ true
    → d.is_source_module_collapsed ≡ d.is_target_module_collapsed

abbrev pub is_direct : Placement → Bool
is_direct (direct _) = true
is_direct _ = false

abbrev pub is_hidden : Placement → Bool
is_hidden hidden = true
is_hidden _ = false

module_no_controller : (m : String) → has_prefix "controller-" (String.◌++◌ "module-" m) ≡ false
unfolding strip_prefix
module_no_controller m = rw (cons-append _ _ m) refl

drawn-controller :
    (collapsed : Bool) (m item : String)
    → has_prefix "controller-" item ≡ false
    → has_prefix "controller-" (drawn collapsed m item) ≡ false
drawn-controller true m item h = module_no_controller m
drawn-controller false m item h = h

-- the kind of a dependent, or its drawn id, says that it is a controller exactly if its id does
dependent_is_controller :
    (collapsed : Bool) (m item : String)
    → (is_controller_relationship (some (dependent_kind item))
        || has_prefix "controller-" (drawn collapsed m item))
      ≡ has_prefix "controller-" item
dependent_is_controller true m item = rw (module_no_controller m) (ground arith)
dependent_is_controller false m item = ground arith

module _ (d : Dependency) where
  -- With one answer for one module, a dependency is drawn between its own items exactly if neither of
  -- their modules is collapsed, and not drawn exactly if both are in one collapsed module.
  pub place_dependency_edge_lem :
      IsConsistent d
      → (is_direct (place_dependency_edge d)
          ≡ (not d.is_source_module_collapsed && not d.is_target_module_collapsed))
        × (is_hidden (place_dependency_edge d)
            ≡ (d.source_module == d.target_module && d.is_target_module_collapsed))
  unfolding place_dependency_edge
  place_dependency_edge_lem same = (ground (arith, same), ground (arith, same))

  -- A redrawn dependency whose source is no controller obeys the toggles as its own edge would,
  -- whichever of its ends are redrawn.
  pub redirect-is_edge_normally_visible :
      (normally show : Bool)
      → has_prefix "controller-" d.source ≡ false
      → is_edge_normally_visible
          (redirect d).source
          (redirect d).target
          normally
          show
          (some (redirect d).relationship)
        ≡ is_edge_normally_visible d.source d.target normally show none
  unfolding redirect is_edge_normally_visible is_controller_edge
  redirect-is_edge_normally_visible normally show source =
      rw (drawn-controller d.is_source_module_collapsed d.source_module d.source source, source)
        (rw (dependent_is_controller d.is_target_module_collapsed d.target_module d.target) refl)
