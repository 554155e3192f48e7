-- ===== src/Waterfall/Shown.antt =====
-- site/app/utils/trace-waterfall.ts, `buildSpanHierarchy`: which spans have a row.
use nest_graph_inspector.Prelude.{
  ℕ, ◌+◌, String, Bool, true, false, ◌≡◌, refl, ◌∙◌, inl, inr, List, [], ◌++◌, arith, length,
  or_cases,
}
use nest_graph_inspector.Prelude.Maps.{get}
use nest_graph_inspector.Prelude.Sets.{has, IsDistinct}
use nest_graph_inspector.Prelude.Members.{
  same_answer, has_iff, In-map, In-map_cases, In-sort_by_iff,
}
use nest_graph_inspector.Prelude.Sort.{sort_by}
use nest_graph_inspector.Recorder.{Span, RuntimeTrace}
use nest_graph_inspector.Waterfall.{
  ids_of, group, visits, child_count, hierarchy, build_span_hierarchy, compare_spans,
}
use nest_graph_inspector.Waterfall.Visits.{
  row_ids, visit_ids, visit_ids-append, visit_ids-visits, remaining-nil, IsOpen-append,
  IsOpen-visits, visit_all-IsShown, visit_all-visits, visit_all-from,
}
use nest_graph_inspector.Waterfall.Grouped.{group-IsFrom}

hierarchy-shown :
    (trace_start : ℕ) (spans : List Span)
    → IsDistinct (row_ids (hierarchy trace_start [] spans))
      × ((u : String) → has u (row_ids (hierarchy trace_start [] spans)) ≡ has u (ids_of spans))
unfolding hierarchy get
hierarchy-shown trace_start spans =
    let ids = ids_of spans in
    let g = group ids spans (record { children = []; roots = [] }) in
    let from =
      group-IsFrom ids ids spans (record { children = []; roots = [] }) (λ u m. m)
        (record { roots = λ u m. cc; children = λ k u m. cc }) in
    let first = visits 0 false g.roots in
    let calls = first ++ visits 0 false spans in
    let fuel = length calls + child_count g.children in
    let shown =
      visit_all-IsShown trace_start g.children fuel calls [] []
        (IsOpen-append first (visits 0 false spans) (IsOpen-visits 0 false g.roots refl)
          (IsOpen-visits 0 false spans refl))
        (record { distinct = tt; shown = λ u. refl }) in
    let called = λ (u : String) (m : has u (visit_ids calls) ≡ true).
      elim (or_cases (has u (visit_ids first)) (has u (visit_ids (visits 0 false spans)))
          (rw (visit_ids-append u first (visits 0 false spans)) at m))
        as (λ x. has u ids ≡ true) [
          | inl root ↦ from.roots u (rw (visit_ids-visits u 0 false g.roots) at root)
          | inr own ↦ rw (visit_ids-visits u 0 false spans) at own
        ] in
    (
      shown.distinct,
      λ u.
          shown.shown u
          ∙ same_answer _ _
              (visit_all-from trace_start g.children [] ids from.children fuel calls [] [] called
                (λ u m. cc) u)
              (λ m.
                visit_all-visits trace_start g.children [] u fuel calls [] []
                  (omega (arith, remaining-nil g.children))
                  (ground (
                    arith,
                    visit_ids-append u first (visits 0 false spans),
                    visit_ids-visits u 0 false spans,
                  ))),
    )

has-sort_by :
    (le : Span → Span → Bool) (spans : List Span) (u : String)
    → has u (ids_of (sort_by le spans)) ≡ has u (ids_of spans)
has-sort_by le spans u =
    same_answer _ _
      (λ m.
        let (s, at, e) =
          In-map_cases (λ s. s.span_id) u (sort_by le spans)
            ((has_iff u (ids_of (sort_by le spans))).0 m) in
        (has_iff u (ids_of spans)).1
          (rw e (In-map (λ s. s.span_id) s spans ((In-sort_by_iff le s spans).0 at))))
      (λ m.
        let (s, at, e) = In-map_cases (λ s. s.span_id) u spans ((has_iff u (ids_of spans)).0 m) in
        (has_iff u (ids_of (sort_by le spans))).1
          (rw e (In-map (λ s. s.span_id) s (sort_by le spans) ((In-sort_by_iff le s spans).1 at))))

-- With nothing collapsed every span id of the trace has a row, none has two, and there is no other
-- row, whatever parents the spans name: a missing one, or one in a cycle.
pub build_span_hierarchy-shown :
    (trace : RuntimeTrace)
    → IsDistinct (row_ids (build_span_hierarchy trace []))
      × ((u : String)
          → has u (row_ids (build_span_hierarchy trace [])) ≡ has u (ids_of trace.spans))
unfolding build_span_hierarchy
build_span_hierarchy-shown trace =
    let (distinct, shown) = hierarchy-shown trace.started_at (sort_by compare_spans trace.spans) in
    (distinct, λ u. shown u ∙ has-sort_by compare_spans trace.spans u)
