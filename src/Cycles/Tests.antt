-- ===== src/Cycles/Tests.antt =====
-- lib/src/graph-output.builder.ts, the searches for cycles on a graph of three keys. The comparison by
-- locale is JavaScript's own order of texts here.
use nest_graph_inspector.Prelude.{String, true, false, ◌≡◌, refl, ◌≢◌, [], ◌∷◌, ◌↔◌, inr, eq_iff}
use nest_graph_inspector.Prelude.{In}
use nest_graph_inspector.Prelude.Maps.{get, keys}
use nest_graph_inspector.Prelude.Order.{text_le, text_le-IsPreorder, text_le-TellsApart}
use nest_graph_inspector.Prelude.Sets.{has, IsDistinct}
use nest_graph_inspector.Graph.{
  Graph, Adj, Reach, one, more, targets, find_reachable_keys, find_path,
}
use nest_graph_inspector.Graph.Reachable.{find_reachable_keys_iff}
use nest_graph_inspector.Graph.Paths.{IsPath, find_path-IsPath}
use nest_graph_inspector.Cycles.{Cycle, find_cycles, canonical_cycle_key, cycle_path}
use nest_graph_inspector.Cycles.Canonical.{canonical_cycle_key-rotate}
use nest_graph_inspector.Cycles.Sound.{find_cycles-IsValid, IsValid}
use nest_graph_inspector.Cycles.Complete.{find_cycles_complete}
use nest_graph_inspector.Cycles.Acyclic.{find_cycles-nil_iff}

-- a and b import each other, and c imports a
abbrev pair : Graph
pair = ("a", "b" ∷ []) ∷ ("b", "a" ∷ []) ∷ ("c", "a" ∷ []) ∷ []

pair-IsDistinct : IsDistinct (keys pair)
pair-IsDistinct = (refl, (refl, (refl, tt)))

false-ne-true : false ≡ true → ⊥
false-ne-true h = cc

a-ne-empty : ◌≢◌ {A = String} "a" ""
a-ne-empty e = false-ne-true ((eq_iff "a" "").1 e)

b-ne-empty : ◌≢◌ {A = String} "b" ""
b-ne-empty e = false-ne-true ((eq_iff "b" "").1 e)

c-ne-empty : ◌≢◌ {A = String} "c" ""
c-ne-empty e = false-ne-true ((eq_iff "c" "").1 e)

Adj-c-a : Adj pair "c" "a"
unfolding targets get
Adj-c-a = refl

Adj-a-b : Adj pair "a" "b"
unfolding targets get
Adj-a-b = refl

Adj-b-a : Adj pair "b" "a"
unfolding targets get
Adj-b-a = refl

c-reaches-b : Reach pair "c" "b"
c-reaches-b = more (one (Adj-c-a, a-ne-empty)) (Adj-a-b, b-ne-empty)

b-reaches-a : Reach pair "b" "a"
b-reaches-a = one (Adj-b-a, a-ne-empty)

find_path_test : find_path pair "c" "b" ≡ "c" ∷ "a" ∷ "b" ∷ []
unfolding find_path targets get
find_path_test = refl

find_reachable_keys_iff_example :
    (has "b" (find_reachable_keys pair "c") ≡ true) ↔ Reach pair "c" "b"
find_reachable_keys_iff_example = find_reachable_keys_iff pair "c" "b"

find_path-IsPath_example : IsPath pair "c" "b" (find_path pair "c" "b")
find_path-IsPath_example = find_path-IsPath pair "c" "b" c-ne-empty c-reaches-b

canonical_cycle_key-rotate_example :
    canonical_cycle_key text_le ("a" ∷ "b" ∷ "c" ∷ "a" ∷ [])
    ≡ canonical_cycle_key text_le ("b" ∷ "c" ∷ "a" ∷ "b" ∷ [])
canonical_cycle_key-rotate_example =
    canonical_cycle_key-rotate text_le text_le-IsPreorder ("a" ∷ []) ("b" ∷ "c" ∷ []) "a" "b"
      (text_le-TellsApart _)

find_cycles-IsValid_example : IsValid text_le pair 4 (find_cycles text_le pair 4)
find_cycles-IsValid_example = find_cycles-IsValid text_le pair 4 pair-IsDistinct refl

find_cycles_complete_example :
    (c : Cycle) × In c (find_cycles text_le pair 4).cycles
    × (canonical_cycle_key text_le c.path ≡ canonical_cycle_key text_le (cycle_path pair "a" "b"))
find_cycles_complete_example =
    find_cycles_complete text_le pair 4 "a" "b" pair-IsDistinct refl Adj-a-b (inr b-reaches-a)

find_cycles-nil_iff_example :
    ((find_cycles text_le pair 4).cycles ≡ []) ↔ ((u : String) → ¬ Reach pair u u)
find_cycles-nil_iff_example = find_cycles-nil_iff text_le pair 4 pair-IsDistinct refl
