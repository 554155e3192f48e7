-- ===== src/Waterfall/Tests.antt =====
-- site/app/utils/trace-waterfall.ts: a trace with a root, a child, a grandchild, a span whose parent is
-- missing and two spans that are each other's parents.
use nest_graph_inspector.Prelude.{
  ℕ, String, Bool, true, false, ◌≡◌, refl, Option, none, some, List, [], ◌∷◌,
}
use nest_graph_inspector.Prelude.Maps.{get, set}
use nest_graph_inspector.Prelude.Sets.{has, IsDistinct}
use nest_graph_inspector.Prelude.Sort.{sort_by, insert_by}
use nest_graph_inspector.Recorder.Values.{undefined, flag}
use nest_graph_inspector.Recorder.{Span, RuntimeTrace, success}
use nest_graph_inspector.Waterfall.{
  WaterfallRow, ids_of, build_span_hierarchy, span_label, resolve_span_status, warning_color,
}
use nest_graph_inspector.Waterfall.Visits.{row_ids}
use nest_graph_inspector.Waterfall.Shown.{build_span_hierarchy-shown}

abbrev span : String → Option String → ℕ → ℕ → Span
span id parent order started = record {
  span_id = id;
  parent_span_id = parent;
  run_id = "r1";
  order = order;
  name = "n";
  module_name = none;
  class_name = some "Repo";
  method_name = some "load";
  resource = none;
  started_at = started;
  ended_at = started;
  duration_ms = 0;
  status = success;
  error_name = none;
  error_message = none;
  args = undefined;
  result = undefined;
  metadata = ("awaited", flag false) ∷ [];
}

abbrev trace : RuntimeTrace
trace = record {
  trace_id = "t1";
  run_id = "r1";
  entrypoint = record { module_name = none; class_name = none; method_name = "load" };
  started_at = 100;
  ended_at = 200;
  total_duration_ms = 100;
  status = success;
  total_spans = 6;
  failed_span_id = none;
  spans =
      span "root" none 0 100
      ∷ span "leaf" (some "child") 1 120
      ∷ span "child" (some "root") 2 110
      ∷ span "lost" (some "gone") 3 130
      ∷ span "a" (some "b") 4 140
      ∷ span "b" (some "a") 5 150
      ∷ [];
}

abbrev shape : List WaterfallRow → List (String × ℕ × Bool)
shape [] = []
shape (r ∷ rows) = (r.span.span_id, r.depth, r.is_collapsed) ∷ shape rows

trace-rows :
    shape (build_span_hierarchy trace [])
    ≡ ("root", 0, false)
      ∷ ("child", 1, false)
      ∷ ("leaf", 2, false)
      ∷ ("lost", 0, false)
      ∷ ("a", 0, false)
      ∷ ("b", 1, false)
      ∷ []
unfolding build_span_hierarchy sort_by insert_by set get
trace-rows = refl

collapsed_rows :
    shape (build_span_hierarchy trace ("child" ∷ "leaf" ∷ []))
    ≡ ("root", 0, false)
      ∷ ("child", 1, true)
      ∷ ("lost", 0, false)
      ∷ ("a", 0, false)
      ∷ ("b", 1, false)
      ∷ []
unfolding build_span_hierarchy sort_by insert_by set get
collapsed_rows = refl

badges :
    (span_label (span "x" none 1 1) ≡ "Repo.load()")
    × (resolve_span_status (span "x" none 1 1) ≡ (("Not awaited", warning_color), true))
unfolding span_label resolve_span_status get
badges = (refl, refl)

build_span_hierarchy-shown_example :
    IsDistinct (row_ids (build_span_hierarchy trace []))
    × ((u : String) → has u (row_ids (build_span_hierarchy trace [])) ≡ has u (ids_of trace.spans))
build_span_hierarchy-shown_example = build_span_hierarchy-shown trace
