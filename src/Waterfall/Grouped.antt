-- ===== src/Waterfall/Grouped.antt =====
-- site/app/utils/trace-waterfall.ts, `buildSpanHierarchy`: whose spans the roots and the children are.
use nest_graph_inspector.Prelude.{
  String, ◌==◌, true, false, ◌||◌, ◌≡◌, refl, inl, inr, List, [], ◌∷◌, ◌++◌, arith, eq_iff, eq_refl,
  Bool-cases, or_cases,
}
use nest_graph_inspector.Prelude.Maps.{set, get-set}
use nest_graph_inspector.Prelude.Sets.{has}
use nest_graph_inspector.Recorder.{Span}
use nest_graph_inspector.Waterfall.{ids_of, children_of, Groups, group, has_parent, parent_of}

ids_of-append :
    (u : String) (xs ys : List Span)
    → has u (ids_of (xs ++ ys)) ≡ (has u (ids_of xs) || has u (ids_of ys))
ids_of-append u [] ys = refl
ids_of-append u (x ∷ xs) ys = ground (arith, ids_of-append u xs ys)

-- roots and children are spans of a list
pub record IsFrom (ids : List String) (g : Groups) : Type 0 where
  pub roots : (u : String) → has u (ids_of g.roots) ≡ true → has u ids ≡ true
  pub children :
      (k u : String) → has u (ids_of (children_of g.children k)) ≡ true → has u ids ≡ true

IsFrom-root :
    (ids : List String) (g : Groups) (s : Span)
    → IsFrom ids g
    → has s.span_id ids ≡ true
    → IsFrom ids (record g { roots = g.roots ++ s ∷ [] })
IsFrom-root ids g s h at = record {
  roots = λ u m.
      elim (or_cases (has u (ids_of g.roots)) (s.span_id == u || false)
        (rw (ids_of-append u g.roots (s ∷ [])) at m)) [
          | inl old ↦ h.roots u old
          | inr same ↦ ground (arith, eq_iff s.span_id u)
        ];
  children = h.children;
}

IsFrom-child :
    (ids : List String) (g : Groups) (s : Span) (p : String)
    → IsFrom ids g
    → has s.span_id ids ≡ true
    → IsFrom ids (record g { children = set p (children_of g.children p ++ s ∷ []) g.children })
IsFrom-child ids g s p h at = record {
  roots = h.roots;
  children = λ k u m. elim (Bool-cases (p == k)) [
    | inl same ↦
        let new : has u (ids_of (children_of g.children p ++ s ∷ [])) ≡ true =
          rw (get-set p k (children_of g.children p ++ s ∷ []) g.children, same) at m in
        elim (or_cases (has u (ids_of (children_of g.children p))) (s.span_id == u || false)
          (rw (ids_of-append u (children_of g.children p) (s ∷ [])) at new)) [
            | inl old ↦ h.children p u old
            | inr mine ↦ ground (arith, eq_iff s.span_id u)
          ]
    | inr other ↦
        h.children k u
          (rw (get-set p k (children_of g.children p ++ s ∷ []) g.children, other) at m)
  ];
}

pub group-IsFrom :
    (ids span_ids : List String) (spans : List Span) (g : Groups)
    → ((u : String) → has u (ids_of spans) ≡ true → has u ids ≡ true)
    → IsFrom ids g
    → IsFrom ids (group span_ids spans g)
unfolding group
group-IsFrom ids span_ids [] g p h = h
group-IsFrom ids span_ids (s ∷ spans) g p h =
    let mine = p s.span_id (ground (arith, eq_refl s.span_id)) in
    let later = λ (u : String) (m : has u (ids_of spans) ≡ true). p u (ground arith) in
    elim (Bool-cases (has_parent span_ids s.parent_span_id s.span_id)) [
      | inl child ↦
          rw child
            (group-IsFrom ids span_ids spans _ later (IsFrom-child ids g s (parent_of s) h mine))
      | inr root ↦ rw root (group-IsFrom ids span_ids spans _ later (IsFrom-root ids g s h mine))
    ]
