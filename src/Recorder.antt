-- ===== src/Recorder.antt =====
-- lib/src/runtime-trace.recorder.ts: the recorder of Direct Run traces, whose records
-- are in Types.
--
-- Ids and times are arguments: `randomUUID()` and `Date.now()` are given by the caller, and a time stays
-- a number of milliseconds where the source writes it as an ISO text. A promise is the id of its span.
-- What AsyncLocalStorage holds is an argument too, and `await` splits `finishTrace` in two: `mark`
-- before the wait and `complete` after it.
pub mod Values
pub mod Types
pub mod Persist
pub mod Spans
pub mod Run
pub mod Resumes
pub mod Linked
pub mod Keeps
pub mod Steps
mod Tests
use nest_graph_inspector.Prelude.{
  ℕ, zero, suc, ◌+◌, ◌-◌, String, ◌==◌, Bool, true, false, not, ◌&&◌, ◌||◌, Option, none, some,
  List, [], ◌∷◌, ◌++◌, map, filter, length, find, get_or, last?, if◌then◌else◌, leb, ltb,
}
use nest_graph_inspector.Prelude.Maps.{get, set, delete, keys}
use nest_graph_inspector.Prelude.Sort.{sort_by}
use nest_graph_inspector.Recorder.Values.{
  Value, null_value, MetaValue, flag, Metadata, merge, is_truthy, resolve_error_name,
  resolve_error_message, error_result,
}
pub use nest_graph_inspector.Recorder.Types.{
  SpanStatus, success, error, cancelled, partial, unknown, Handle, SpanInput, Span, Entrypoint,
  RuntimeTrace, Recorder, max_completed_traces, empty, Outcome, returned, threw, status_of,
  error_name_of, error_message_of,
}

-- `spans = this.activeSpans.get(traceId) || []`
abbrev pub spans_of : Recorder → String → List Span
spans_of r trace_id = get_or (get trace_id r.active_spans) []

-- `getCompletedTrace`
unfoldable pub get_completed_trace : Recorder → String → Option RuntimeTrace
get_completed_trace r trace_id = get trace_id r.completed_traces

abbrev values : List (String × RuntimeTrace) → List RuntimeTrace
values [] = []
values ((_, t) ∷ m) = t ∷ values m

-- `getCompletedTraces`
abbrev pub get_completed_traces : Recorder → List RuntimeTrace
get_completed_traces r = values r.completed_traces

-- what `runWithContext` does before it calls back
unfoldable pub run_with_context : Handle → Recorder → Recorder
run_with_context handle r = record r {
  active_spans = set handle.trace_id [] r.active_spans;
  pending_spans = set handle.trace_id [] r.pending_spans;
}

abbrev pub same_text : Option String → String → Bool
same_text none b = false
same_text (some a) b = a == b

-- `isRootSpan`
unfoldable pub is_root_span : Handle → SpanInput → Bool
is_root_span handle span =
    same_text span.module_name handle.module_name
    && same_text span.class_name handle.provider_name
    && same_text span.method_name handle.method_name

-- `trackPendingSpan`, up to the `finally`
unfoldable pub track_pending_span : String → String → Recorder → Recorder
track_pending_span trace_id promise r = elim (get trace_id r.pending_spans) [
  | none ↦ r
  | some promises ↦ record r {
    pending_spans = set trace_id (promises ++ promise ∷ []) r.pending_spans;
  }
]

-- the `finally` of `trackPendingSpan`: `promises.delete(promise)`
unfoldable pub drop_pending_span : String → String → Recorder → Recorder
drop_pending_span trace_id promise r = elim (get trace_id r.pending_spans) [
  | none ↦ r
  | some promises ↦ record r {
    pending_spans = set trace_id (filter (λ p. not (p == promise)) promises) r.pending_spans;
  }
]

abbrev pub not_awaited : Span → Span
not_awaited s = record s { metadata = set "awaited" (flag false) s.metadata }

abbrev pub is_partial : SpanStatus → Bool
is_partial partial = true
is_partial _ = false

abbrev mark_span : Span → Span
mark_span s = if is_partial s.status && is_truthy (get "async" s.metadata) then not_awaited s else s

-- `markPendingSpansNotAwaited`; a trace without spans has none to change
unfoldable pub mark_pending_spans_not_awaited : String → Recorder → Recorder
mark_pending_spans_not_awaited trace_id r = elim (get trace_id r.active_spans) [
  | none ↦ r
  | some spans ↦ record r { active_spans = set trace_id (map mark_span spans) r.active_spans }
]

-- the `while` loop of `persistCompletedTrace`, on fuel
unfoldable pub drop_oldest : ℕ → List (String × RuntimeTrace) → List (String × RuntimeTrace)
drop_oldest zero traces = traces
drop_oldest (suc fuel) [] = []
drop_oldest (suc fuel) ((oldest, t) ∷ traces) =
    let rest = drop_oldest fuel (delete oldest ((oldest, t) ∷ traces)) in
    if leb (length ((oldest, t) ∷ traces)) max_completed_traces || oldest == ""
    then (oldest, t) ∷ traces
    else rest

-- `persistCompletedTrace`
unfoldable pub persist_completed_trace : RuntimeTrace → Recorder → Recorder
unfolding drop_oldest
persist_completed_trace trace r =
    let traces = set trace.trace_id trace r.completed_traces in
    record r { completed_traces = drop_oldest (length traces) traces }

-- `buildFallbackTrace`
unfoldable pub build_fallback_trace : String → String → ℕ → RuntimeTrace
build_fallback_trace trace_id run_id now = record {
  trace_id = trace_id;
  run_id = run_id;
  entrypoint = record { module_name = none; class_name = none; method_name = "unknown" };
  started_at = now;
  ended_at = now;
  total_duration_ms = 0;
  status = partial;
  total_spans = 0;
  failed_span_id = none;
  spans = [];
}

abbrev pub is_error : SpanStatus → Bool
is_error error = true
is_error _ = false

-- `failedSpan?.spanId`
abbrev pub id_of : Option Span → Option String
id_of none = none
id_of (some s) = some s.span_id

abbrev pub order_le : Span → Span → Bool
order_le a b = leb a.order b.order

-- the assignments to the first span of the id
unfoldable pub update_first : String → (Span → Span) → List Span → List Span
update_first span_id f [] = []
update_first span_id f (s ∷ spans) =
    let rest = update_first span_id f spans in
    if s.span_id == span_id then f s ∷ spans else s ∷ rest

module _ (preview_value : Value → Value) where
  abbrev pub result_of : Outcome → Value
  result_of (returned v) = preview_value v
  result_of (threw e) = error_result e

  -- what `pushSpan` pushes; for a promise the status is `partial` and the result undefined
  abbrev pub new_span :
      Handle
      → SpanInput
      → String
      → Option String
      → ℕ
      → ℕ
      → ℕ
      → SpanStatus
      → Outcome
      → Metadata
      → Span
  new_span handle input span_id parent order started now status outcome metadata = record {
    span_id = span_id;
    parent_span_id = parent;
    run_id = handle.run_id;
    order = order;
    name = input.name;
    module_name = input.module_name;
    class_name = input.class_name;
    method_name = input.method_name;
    resource = input.resource;
    started_at = started;
    ended_at = now;
    duration_ms = now - started;
    status = status;
    error_name = error_name_of outcome;
    error_message = error_message_of outcome;
    args = input.args;
    result = result_of outcome;
    metadata = merge input.metadata metadata;
  }

  -- `pushSpan`
  unfoldable pub push_span :
      Handle
      → SpanInput
      → String
      → Option String
      → ℕ
      → ℕ
      → SpanStatus
      → Outcome
      → Metadata
      → Recorder
      → Recorder
  push_span handle input span_id parent started now status outcome metadata r =
      let spans = spans_of r handle.trace_id in
      record r {
        active_spans =
            set handle.trace_id
              (spans
                ++ new_span handle input span_id parent (suc (length spans)) started now status
                    outcome metadata
                  ∷ [])
              r.active_spans;
      }

  abbrev pub settled_span : ℕ → ℕ → Outcome → Metadata → Span → Span
  settled_span started now outcome metadata s = record s {
    ended_at = now;
    duration_ms = now - started;
    status = status_of outcome;
    error_name = error_name_of outcome;
    error_message = error_message_of outcome;
    result = result_of outcome;
    metadata = merge s.metadata metadata;
  }

  -- `updateSpan`
  unfoldable pub update_span : Handle → String → ℕ → ℕ → Outcome → Metadata → Recorder → Recorder
  unfolding update_first
  update_span handle span_id started now outcome metadata r =
      elim (get handle.trace_id r.active_spans) [
        | none ↦ r
        | some spans ↦ record r {
          active_spans =
              set handle.trace_id
                (update_first span_id (settled_span started now outcome metadata) spans)
                r.active_spans;
        }
      ]

  -- the root span of `finishTrace`
  abbrev pub root_span : Handle → ℕ → Outcome → Span
  root_span handle now outcome = record {
    span_id = handle.root_span_id;
    parent_span_id = none;
    run_id = handle.run_id;
    order = 0;
    name =
        Prim.Native.String.◌++◌ handle.provider_name
          (Prim.Native.String.◌++◌ "." handle.method_name);
    module_name = some handle.module_name;
    class_name = some handle.provider_name;
    method_name = some handle.method_name;
    resource = none;
    started_at = handle.started_at_ms;
    ended_at = now;
    duration_ms = now - handle.started_at_ms;
    status = status_of outcome;
    error_name = error_name_of outcome;
    error_message = error_message_of outcome;
    args = preview_value handle.args;
    result = result_of outcome;
    metadata = [];
  }

  -- the trace that `finishTrace` builds after the wait
  unfoldable pub finished_trace : Handle → ℕ → Outcome → Recorder → RuntimeTrace
  finished_trace handle now outcome r =
      let spans = sort_by order_le (root_span handle now outcome ∷ spans_of r handle.trace_id) in
      record {
        trace_id = handle.trace_id;
        run_id = handle.run_id;
        entrypoint = record {
          module_name = some handle.module_name;
          class_name = some handle.provider_name;
          method_name = handle.method_name;
        };
        started_at = handle.started_at_ms;
        ended_at = now;
        total_duration_ms = now - handle.started_at_ms;
        status = status_of outcome;
        total_spans = length spans;
        failed_span_id = id_of (find (λ s. is_error s.status) spans);
        spans = spans;
      }

  -- `finishTrace` after the wait
  unfoldable pub complete : Handle → ℕ → Outcome → Recorder → Recorder
  unfolding finished_trace persist_completed_trace
  complete handle now outcome r =
      persist_completed_trace (finished_trace handle now outcome r) (record r {
        active_spans = delete handle.trace_id r.active_spans;
        pending_spans = delete handle.trace_id r.pending_spans;
      })
