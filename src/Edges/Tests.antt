-- ===== src/Edges/Tests.antt =====
-- site/app/utils/graph-viewer-edges.ts: a dependency into a collapsed module.
use nest_graph_inspector.Prelude.{ℕ, String, true, false, ◌≡◌, refl, none, some, List, [], ◌∷◌, any}
use nest_graph_inspector.Prelude.Maps.{get}
use nest_graph_inspector.Prelude.Texts.{strip_prefix}
use nest_graph_inspector.Edges.{
  Dependency, redirect, set_info, set_infos, is_edge_normally_visible, collect_circular_edge_info,
  has_prefix,
}
use nest_graph_inspector.Edges.Redraw.{redirect-is_edge_normally_visible}
use nest_graph_inspector.Edges.Circular.{
  has_id, has_id_under, DistinctIds, collect_circular_edge_info_lem,
}

abbrev sample : Dependency
sample = record {
  source = "provider-A-S";
  target = "controller-B-C";
  source_module = "A";
  target_module = "B";
  is_source_module_collapsed = true;
  is_target_module_collapsed = true;
}

abbrev edges : List (String × List ℕ)
edges = ("a->b", 1 ∷ 2 ∷ []) ∷ ("b->a", 2 ∷ 3 ∷ []) ∷ []

key_test : (redirect sample).key ≡ "module-A->module-B:controller"
unfolding redirect strip_prefix
key_test = refl

collect_test : collect_circular_edge_info (λ n. n) ("a->b" ∷ "b->a" ∷ []) edges ≡ 1 ∷ 2 ∷ 3 ∷ []
unfolding collect_circular_edge_info get set_infos set_info
collect_test = refl

source_test : has_prefix "controller-" "provider-A-S" ≡ false
unfolding strip_prefix
source_test = refl

redirect-is_edge_normally_visible_example :
    is_edge_normally_visible
      (redirect sample).source
      (redirect sample).target
      true
      false
      (some (redirect sample).relationship)
    ≡ is_edge_normally_visible "provider-A-S" "controller-B-C" true false none
redirect-is_edge_normally_visible_example =
    redirect-is_edge_normally_visible sample true false source_test

collect_circular_edge_info_lem_example :
    (has_id (λ n. n) 2 (collect_circular_edge_info (λ n. n) ("a->b" ∷ "b->a" ∷ []) edges)
      ≡ any (has_id_under (λ n. n) edges 2) ("a->b" ∷ "b->a" ∷ []))
    × DistinctIds (λ n. n) (collect_circular_edge_info (λ n. n) ("a->b" ∷ "b->a" ∷ []) edges)
collect_circular_edge_info_lem_example =
    collect_circular_edge_info_lem (λ n. n) edges ("a->b" ∷ "b->a" ∷ []) 2
