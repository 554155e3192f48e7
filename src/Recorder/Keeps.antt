-- ===== src/Recorder/Keeps.antt =====
-- lib/src/runtime-trace.recorder.ts: the operations on active spans leave the completed traces.
use nest_graph_inspector.Prelude.{ℕ, String, ◌≡◌, refl, inl, inr, Option-cases}
use nest_graph_inspector.Prelude.Maps.{get}
use nest_graph_inspector.Recorder.Values.{Value, Metadata}
use nest_graph_inspector.Recorder.{
  Recorder, Handle, Outcome, track_pending_span, drop_pending_span, mark_pending_spans_not_awaited,
  update_span,
}

pub track-completed :
    (id promise : String) (r : Recorder)
    → (track_pending_span id promise r).completed_traces ≡ r.completed_traces
unfolding track_pending_span
track-completed id promise r = elim (Option-cases (get id r.pending_spans)) [
  | inl e ↦ rw (e, track_pending_span) refl
  | inr (ps, e) ↦ rw (e, track_pending_span) refl
]

pub drop-completed :
    (id promise : String) (r : Recorder)
    → (drop_pending_span id promise r).completed_traces ≡ r.completed_traces
unfolding drop_pending_span
drop-completed id promise r = elim (Option-cases (get id r.pending_spans)) [
  | inl e ↦ rw (e, drop_pending_span) refl
  | inr (ps, e) ↦ rw (e, drop_pending_span) refl
]

pub mark-completed :
    (id : String) (r : Recorder)
    → (mark_pending_spans_not_awaited id r).completed_traces ≡ r.completed_traces
unfolding mark_pending_spans_not_awaited
mark-completed id r = elim (Option-cases (get id r.active_spans)) [
  | inl e ↦ rw (e, mark_pending_spans_not_awaited) refl
  | inr (spans, e) ↦ rw (e, mark_pending_spans_not_awaited) refl
]

pub update_span-completed :
    (preview_value : Value → Value) (handle : Handle) (span_id : String) (started now : ℕ)
    (outcome : Outcome) (metadata : Metadata) (r : Recorder)
    → (update_span preview_value handle span_id started now outcome metadata r).completed_traces
      ≡ r.completed_traces
unfolding update_span
update_span-completed preview_value handle span_id started now outcome metadata r =
    elim (Option-cases (get handle.trace_id r.active_spans)) [
      | inl e ↦ rw (e, update_span) refl
      | inr (spans, e) ↦ rw (e, update_span) refl
    ]
