-- ===== src/Recorder/Steps.antt =====
-- lib/src/runtime-trace.recorder.ts: the states that the recorder reaches by calls in any order, and
-- what completing a trace does in one of them.
use nest_graph_inspector.Prelude.{
  ℕ, suc, ◌≤◌, String, false, ◌≡◌, refl, ap, ◌∙◌, Option, some, List, [], ◌∷◌, ◌++◌, length, find,
  eq_refl, if◌then◌else◌,
}
use nest_graph_inspector.Prelude.Maps.{get, keys, delete, has-keys-delete}
use nest_graph_inspector.Prelude.Sets.{has}
use nest_graph_inspector.Recorder.Values.{Value, Metadata}
use nest_graph_inspector.Recorder.{
  Recorder, RuntimeTrace, Handle, Span, SpanInput, SpanStatus, Outcome, returned, threw, empty,
  max_completed_traces, get_completed_trace, spans_of, run_with_context, track_pending_span,
  drop_pending_span, mark_pending_spans_not_awaited, push_span, update_span,
  persist_completed_trace, build_fallback_trace, finished_trace, complete, root_span, status_of,
  is_error, id_of,
}
use nest_graph_inspector.Recorder.Persist.{
  newest, entries, IsFresh, IsLatest, persist_completed_trace-IsLatest, length-newest-le,
  get-newest,
}
use nest_graph_inspector.Recorder.Spans.{
  IsOrdered, run_with_context-IsOrdered, track-IsOrdered, drop-IsOrdered, mark-IsOrdered,
  persist-IsOrdered, push_span-IsOrdered, update_span-IsOrdered, complete-IsOrdered, order_first,
  empty-IsOrdered, IsOrdered-spans,
}
use nest_graph_inspector.Recorder.Keeps.{
  track-completed, drop-completed, mark-completed, update_span-completed,
}

-- a recorder without the spans and the promises of a trace
abbrev without : String → Recorder → Recorder
without id r = record r {
  active_spans = delete id r.active_spans;
  pending_spans = delete id r.pending_spans;
}

has-deleted : {V : Type 0} (k : String) (m : List (String × V)) → has k (keys (delete k m)) ≡ false
has-deleted k m = rw (has-keys-delete k k m, eq_refl k) refl

module _ (preview_value : Value → Value) where
  -- The recorder after calls in any order, with the traces that were persisted on the way. The id of a
  -- trace that is persisted is new: `randomUUID()` does not answer twice the same.
  pub data Reached : List RuntimeTrace → Recorder → Type 0 where
    begun : Reached [] empty
    ran :
        {h : List RuntimeTrace} {r : Recorder} (handle : Handle)
        → Reached h r
        → Reached h (run_with_context handle r)
    pushed :
        {h : List RuntimeTrace} {r : Recorder} (handle : Handle) (input : SpanInput)
        (span_id : String) (parent : Option String) (started now : ℕ) (status : SpanStatus)
        (outcome : Outcome) (metadata : Metadata)
        → Reached h r
        → Reached h (
            push_span preview_value handle input span_id parent started now status outcome metadata
              r)
    updated :
        {h : List RuntimeTrace} {r : Recorder} (handle : Handle) (span_id : String)
        (started now : ℕ) (outcome : Outcome) (metadata : Metadata)
        → Reached h r
        → Reached h (update_span preview_value handle span_id started now outcome metadata r)
    tracked :
        {h : List RuntimeTrace} {r : Recorder} (trace_id promise : String)
        → Reached h r
        → Reached h (track_pending_span trace_id promise r)
    dropped :
        {h : List RuntimeTrace} {r : Recorder} (trace_id promise : String)
        → Reached h r
        → Reached h (drop_pending_span trace_id promise r)
    marked :
        {h : List RuntimeTrace} {r : Recorder} (trace_id : String)
        → Reached h r
        → Reached h (mark_pending_spans_not_awaited trace_id r)
    completed :
        {h : List RuntimeTrace} {r : Recorder} (handle : Handle) (now : ℕ) (outcome : Outcome)
        → Reached h r
        → IsFresh handle.trace_id (entries h)
        → Reached
            (h ++ finished_trace preview_value handle now outcome r ∷ [])
            (complete preview_value handle now outcome r)
    fell_back :
        {h : List RuntimeTrace} {r : Recorder} (trace_id run_id : String) (now : ℕ)
        → Reached h r
        → IsFresh trace_id (entries h)
        → Reached
            (h ++ build_fallback_trace trace_id run_id now ∷ [])
            (persist_completed_trace (build_fallback_trace trace_id run_id now) r)

  -- However the calls interleave, each trace's spans are numbered from 1 in the order of the list.
  pub Reached-IsOrdered : {h : List RuntimeTrace} {r : Recorder} → Reached h r → IsOrdered r
  Reached-IsOrdered begun = empty-IsOrdered
  Reached-IsOrdered (ran {h} {r} handle s) =
      run_with_context-IsOrdered handle r (Reached-IsOrdered s)
  Reached-IsOrdered
        (pushed {h} {r} handle input span_id parent started now status outcome metadata s) =
      push_span-IsOrdered preview_value handle input span_id parent started now status outcome
        metadata r (Reached-IsOrdered s)
  Reached-IsOrdered (updated {h} {r} handle span_id started now outcome metadata s) =
      update_span-IsOrdered preview_value handle span_id started now outcome metadata r
        (Reached-IsOrdered s)
  Reached-IsOrdered (tracked {h} {r} trace_id promise s) =
      track-IsOrdered trace_id promise r (Reached-IsOrdered s)
  Reached-IsOrdered (dropped {h} {r} trace_id promise s) =
      drop-IsOrdered trace_id promise r (Reached-IsOrdered s)
  Reached-IsOrdered (marked {h} {r} trace_id s) = mark-IsOrdered trace_id r (Reached-IsOrdered s)
  Reached-IsOrdered (completed {h} {r} handle now outcome s fresh) =
      complete-IsOrdered preview_value handle now outcome r (Reached-IsOrdered s)
  Reached-IsOrdered (fell_back {h} {r} trace_id run_id now s fresh) =
      persist-IsOrdered (build_fallback_trace trace_id run_id now) r (Reached-IsOrdered s)

  -- The completed traces are the list of all that were persisted, in their order, cut to its last
  -- hundred.
  pub Reached-IsLatest : {h : List RuntimeTrace} {r : Recorder} → Reached h r → IsLatest h r
  unfolding run_with_context push_span complete newest build_fallback_trace
  Reached-IsLatest begun = record { kept = refl; named = tt }
  Reached-IsLatest (ran handle s) =
      let l = Reached-IsLatest s in record { kept = l.kept; named = l.named }
  Reached-IsLatest (pushed handle input span_id parent started now status outcome metadata s) =
      let l = Reached-IsLatest s in record { kept = l.kept; named = l.named }
  Reached-IsLatest (updated {h} {r} handle span_id started now outcome metadata s) =
      let l = Reached-IsLatest s in
      record {
        kept =
            update_span-completed preview_value handle span_id started now outcome metadata r
            ∙ l.kept;
        named = l.named;
      }
  Reached-IsLatest (tracked {h} {r} trace_id promise s) =
      let l = Reached-IsLatest s in
      record { kept = track-completed trace_id promise r ∙ l.kept; named = l.named }
  Reached-IsLatest (dropped {h} {r} trace_id promise s) =
      let l = Reached-IsLatest s in
      record { kept = drop-completed trace_id promise r ∙ l.kept; named = l.named }
  Reached-IsLatest (marked {h} {r} trace_id s) =
      let l = Reached-IsLatest s in
      record { kept = mark-completed trace_id r ∙ l.kept; named = l.named }
  Reached-IsLatest (completed {h} {r} handle now outcome s fresh) =
      let l = Reached-IsLatest s in
      persist_completed_trace-IsLatest h (without handle.trace_id r)
        (finished_trace preview_value handle now outcome r)
        (record { kept = l.kept; named = l.named }) fresh
  Reached-IsLatest (fell_back {h} {r} trace_id run_id now s fresh) =
      persist_completed_trace-IsLatest h r (build_fallback_trace trace_id run_id now)
        (Reached-IsLatest s) fresh

  -- However the calls interleave, the recorder holds at most a hundred completed traces: those that
  -- were persisted last, in their order.
  pub Reached-completed_traces :
      {h : List RuntimeTrace} {r : Recorder}
      → Reached h r
      → (r.completed_traces ≡ newest (entries h))
        × (length r.completed_traces ≤ max_completed_traces)
  Reached-completed_traces {h} {r} s =
      let l = Reached-IsLatest s in (l.kept, rw (l.kept) (length-newest-le (entries h)))

  failed_first :
      (handle : Handle) (now : ℕ) (outcome : Outcome) (spans : List Span)
      → id_of (find (λ s. is_error s.status) (root_span preview_value handle now outcome ∷ spans))
        ≡ (if is_error (status_of outcome)
            then some handle.root_span_id
            else id_of (find (λ s. is_error s.status) spans))
  failed_first handle now (returned v) spans = refl
  failed_first handle now (threw e) spans = refl

  -- In any state that calls reach, completing a trace whose id is new makes a trace with the root span
  -- first and then the trace's spans in the order they were pushed. Its failed span is the root when the
  -- run threw, and otherwise the first span that did. The trace can be read back by its id, and neither
  -- spans nor promises are left under it.
  pub complete_lem :
      {h : List RuntimeTrace} {r : Recorder} (handle : Handle) (now : ℕ) (outcome : Outcome)
      → Reached h r
      → IsFresh handle.trace_id (entries h)
      → let t = finished_trace preview_value handle now outcome r in
        let after = complete preview_value handle now outcome r in
        (t.spans ≡ root_span preview_value handle now outcome ∷ spans_of r handle.trace_id)
        × (t.total_spans ≡ suc (length (spans_of r handle.trace_id)))
        × (t.failed_span_id ≡ (
            if is_error (status_of outcome)
            then some handle.root_span_id
            else id_of (find (λ s. is_error s.status) (spans_of r handle.trace_id))))
        × (get_completed_trace after handle.trace_id ≡ some t)
        × (has handle.trace_id (keys after.active_spans) ≡ false)
        × (has handle.trace_id (keys after.pending_spans) ≡ false)
  unfolding finished_trace get_completed_trace complete persist_completed_trace
  complete_lem {h} {r} handle now outcome s fresh =
      let first =
        order_first (root_span preview_value handle now outcome) (spans_of r handle.trace_id) refl
          (IsOrdered-spans r handle.trace_id (Reached-IsOrdered s)) in
      let l = Reached-IsLatest (completed handle now outcome s fresh) in
      (
        first,
        ap length first,
        ap (λ spans. id_of (find (λ s. is_error s.status) spans)) first
            ∙ failed_first handle now outcome (spans_of r handle.trace_id),
        ap (get handle.trace_id) l.kept
            ∙ get-newest h (finished_trace preview_value handle now outcome r) fresh,
        has-deleted handle.trace_id r.active_spans,
        has-deleted handle.trace_id r.pending_spans,
      )
