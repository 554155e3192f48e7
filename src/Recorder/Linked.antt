-- ===== src/Recorder/Linked.antt =====
-- lib/src/runtime-trace.recorder.ts: the parents of a run's spans are spans of the run.
use nest_graph_inspector.Prelude.{String, ◌≡◌, List, [], ◌∷◌, In}
use nest_graph_inspector.Recorder.Values.{Value}
use nest_graph_inspector.Recorder.{Recorder, Handle, Span, spans_of}
use nest_graph_inspector.Recorder.Run.{ids_of, IsLinked}
use nest_graph_inspector.Recorder.Resumes.{IsAbove, ids_in}

module _ (preview_value : Value → Value) (handle : Handle) where
  -- what is kept: the parents are spans of the run, and so are the ids on each stack
  record IsHeld (stacks : List (List String)) (r : Recorder) : Type 0 where
    linked : IsLinked (handle.root_span_id ∷ []) (spans_of r handle.trace_id)
    held :
        (stack : List String)
        → In stack stacks
        → IsAbove (ids_in preview_value handle r) (handle.root_span_id ∷ []) stack

  -- an operation that changes no span's id or parent
  record IsSame (spans later : List Span) : Type 0 where
    ids : ids_of later ≡ ids_of spans
    parents :
        (t : Span) → In t later → (s : Span) × In s spans × (t.parent_span_id ≡ s.parent_span_id)
