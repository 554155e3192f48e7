-- ===== src/Waterfall.antt =====
-- site/app/utils/trace-waterfall.ts: the rows of a trace's waterfall, and how spans and traces ended.
-- A time is the number of milliseconds that `timeOf` reads. The percentages of a bar, the ruler's ticks
-- and `formatDuration` compute with floating-point numbers, and are left out.
--
-- `visit` is a depth-first walk. The model keeps the calls that are still to come on a list: a call's
-- children stand before the calls that follow it.
mod Visits
mod Grouped
pub mod Shown
mod Tests
use Prim.Native.String
use nest_graph_inspector.Prelude.{
  ℕ, zero, suc, ◌+◌, ◌-◌, String, ◌==◌, Bool, true, false, not, ◌&&◌, ◌||◌, Option, none, some,
  List, [], ◌∷◌, ◌++◌, map, any, length, get_or, if◌then◌else◌, eqb, leb, ltb,
}
use nest_graph_inspector.Prelude.Maps.{get, set, keys}
use nest_graph_inspector.Prelude.Sets.{has}
use nest_graph_inspector.Prelude.Sort.{sort_by}
use nest_graph_inspector.Recorder.Values.{MetaValue, flag, meta_text, Metadata}
use nest_graph_inspector.Recorder.{
  Span, SpanStatus, success, error, cancelled, partial, unknown, RuntimeTrace,
}
use nest_graph_inspector.Builder.{GraphOutputModule, GraphOutputInjectable, GraphModules}

-- `WaterfallRow`, without the percentages
pub record WaterfallRow : Type 0 where
  pub span : Span
  pub depth : ℕ
  pub has_children : Bool
  pub is_collapsed : Bool
  pub offset_ms : ℕ

-- `compareSpans(a, b) <= 0`
unfoldable pub compare_spans : Span → Span → Bool
compare_spans a b =
    if eqb a.started_at b.started_at then leb a.order b.order else ltb a.started_at b.started_at

abbrev pub ids_of : List Span → List String
ids_of spans = map (λ s. s.span_id) spans

-- `parentId && parentId !== span.spanId && spanIds.has(parentId)`
abbrev pub has_parent : List String → Option String → String → Bool
has_parent span_ids none id = false
has_parent span_ids (some parent) id =
    not (parent == "") && not (parent == id) && has parent span_ids

-- `childrenByParentId` and `roots`
pub record Groups : Type 0 where
  pub children : List (String × List Span)
  pub roots : List Span

abbrev pub children_of : List (String × List Span) → String → List Span
children_of children id = get_or (get id children) []

abbrev pub parent_of : Span → String
parent_of s = get_or s.parent_span_id ""

unfoldable pub group : List String → List Span → Groups → Groups
group span_ids [] g = g
group span_ids (s ∷ spans) g = group span_ids spans (
    if has_parent span_ids s.parent_span_id s.span_id
    then record g {
      children = set (parent_of s) (children_of g.children (parent_of s) ++ s ∷ []) g.children;
    }
    else record g { roots = g.roots ++ s ∷ [] })

-- a call of `visit` that is still to come
pub record Visit : Type 0 where
  pub span : Span
  pub depth : ℕ
  pub hidden : Bool

abbrev pub visits : ℕ → Bool → List Span → List Visit
visits depth hidden spans = map (λ s. record { span = s; depth = depth; hidden = hidden }) spans

abbrev pub is_empty : List Span → Bool
is_empty [] = true
is_empty _ = false

abbrev pub new_row : ℕ → List Span → Bool → Visit → WaterfallRow
new_row trace_start children collapsed v = record {
  span = v.span;
  depth = v.depth;
  has_children = not (is_empty children);
  is_collapsed = collapsed;
  offset_ms = v.span.started_at - trace_start;
}

-- the calls of `visit`, with `visited` and `rows`, on fuel
unfoldable pub visit_all :
    ℕ
    → List String
    → List (String × List Span)
    → ℕ
    → List Visit
    → List String
    → List WaterfallRow
    → List String × List WaterfallRow
visit_all trace_start collapsed_ids children zero pending visited rows = (visited, rows)
visit_all trace_start collapsed_ids children (suc fuel) [] visited rows = (visited, rows)
visit_all trace_start collapsed_ids children (suc fuel) (v ∷ pending) visited rows =
    let skip = has v.span.span_id visited in
    let below = children_of children v.span.span_id in
    let collapsed = not (is_empty below) && has v.span.span_id collapsed_ids in
    visit_all trace_start collapsed_ids children fuel
      (if skip then pending else visits (suc v.depth) (v.hidden || collapsed) below ++ pending)
      (if skip then visited else visited ++ v.span.span_id ∷ [])
      (if skip || v.hidden then rows else rows ++ new_row trace_start below collapsed v ∷ [])

-- the calls that `visit` may come to make for children
unfoldable pub child_count : List (String × List Span) → ℕ
child_count [] = 0
child_count ((_, spans) ∷ rest) = length spans + child_count rest

-- `buildSpanHierarchy` on the sorted spans
unfoldable pub hierarchy : ℕ → List String → List Span → List WaterfallRow
unfolding group visit_all child_count
hierarchy trace_start collapsed_ids spans =
    let g = group (ids_of spans) spans (record { children = []; roots = [] }) in
    let calls = visits 0 false g.roots ++ visits 0 false spans in
    (visit_all trace_start collapsed_ids g.children (length calls + child_count g.children) calls []
      []).1

-- `buildSpanHierarchy`
unfoldable pub build_span_hierarchy : RuntimeTrace → List String → List WaterfallRow
unfolding hierarchy compare_spans
build_span_hierarchy trace collapsed_ids =
    hierarchy trace.started_at collapsed_ids (sort_by compare_spans trace.spans)

pub data SpanKind : Type 0 where
  of_controller of_provider of_unknown : SpanKind

abbrev recorded_kind : Option MetaValue → Option SpanKind
recorded_kind (some (meta_text t)) =
    if t == "controller"
    then some of_controller
    else if t == "provider"
    then some of_provider
    else none
recorded_kind _ = none

abbrev names_class : List GraphOutputInjectable → String → Bool
names_class items name = any (λ i. i.name == name) items

abbrev kind_in : Bool → Bool → SpanKind
kind_in true true = of_unknown
kind_in false false = of_unknown
kind_in true false = of_provider
kind_in false true = of_controller

abbrev kind_of_class : Option GraphOutputModule → Option String → SpanKind
kind_of_class (some m) (some name) =
    if name == ""
    then of_unknown
    else kind_in (names_class m.providers name) (names_class m.controllers name)
kind_of_class _ _ = of_unknown

abbrev module_of : Option GraphModules → Option String → Option GraphOutputModule
module_of (some modules) (some name) = if name == "" then none else get name modules
module_of _ _ = none

-- `resolveSpanKind`
unfoldable pub resolve_span_kind : Span → Option GraphModules → SpanKind
resolve_span_kind span modules =
    get_or (recorded_kind (get "type" span.metadata))
      (kind_of_class (module_of modules span.module_name) span.class_name)

abbrev pub is_false : Option MetaValue → Bool
is_false (some (flag b)) = not b
is_false _ = false

-- `isNotAwaitedSpan`
unfoldable pub is_not_awaited_span : Metadata → Bool
is_not_awaited_span metadata = is_false (get "awaited" metadata)

pub data Color : Type 0 where
  success_color error_color warning_color neutral_color : Color

-- a badge's label and colour
abbrev pub status_badge : SpanStatus → Bool → String × Color
status_badge error not_awaited = ("Error", error_color)
status_badge _ true = ("Not awaited", warning_color)
status_badge partial false = ("Partial", neutral_color)
status_badge cancelled false = ("Cancelled", neutral_color)
status_badge success false = ("Success", success_color)
status_badge unknown false = ("Unknown", neutral_color)

-- `resolveSpanStatus`
unfoldable pub resolve_span_status : Span → (String × Color) × Bool
unfolding is_not_awaited_span
resolve_span_status span = (
  status_badge span.status (is_not_awaited_span span.metadata),
  is_not_awaited_span span.metadata,
)

abbrev pub trace_badge : SpanStatus → Bool → String × Color
trace_badge error not_awaited = ("Fail", error_color)
trace_badge _ true = ("Not awaited", warning_color)
trace_badge partial false = ("Partial", neutral_color)
trace_badge _ false = ("Success", success_color)

-- `resolveTraceStatus`
unfoldable pub resolve_trace_status : RuntimeTrace → String × Color
unfolding is_not_awaited_span
resolve_trace_status trace =
    trace_badge trace.status (any (λ s. is_not_awaited_span s.metadata) trace.spans)

abbrev label_of_method : Option String → Option String → String → String
label_of_method (some method) class_name name =
    if method == ""
    then name
    else String.◌++◌ (get_or class_name name) (String.◌++◌ "." (String.◌++◌ method "()"))
label_of_method none class_name name = name

-- `spanLabel`
unfoldable pub span_label : Span → String
span_label span = label_of_method span.method_name span.class_name span.name
