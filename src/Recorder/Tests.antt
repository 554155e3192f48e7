-- ===== src/Recorder/Tests.antt =====
-- lib/src/runtime-trace.recorder.ts: a run with a call that calls another, which returns a promise.
use nest_graph_inspector.Prelude.{
  ◌≤◌, String, true, false, ◌≡◌, refl, Option, none, some, List, [], ◌∷◌, length, find,
  if◌then◌else◌, suc,
}
use nest_graph_inspector.Prelude.Maps.{get, set, delete, keys}
use nest_graph_inspector.Prelude.Sets.{has}
use nest_graph_inspector.Recorder.Values.{
  Value, undefined, text, error_object, other, preview_value,
}
use nest_graph_inspector.Recorder.{
  Recorder, Handle, Span, SpanInput, success, returned, threw, empty, max_completed_traces,
  get_completed_trace, spans_of, run_with_context, push_span, is_root_span, track_pending_span,
  root_span, finished_trace, complete, is_error, status_of, id_of,
}
use nest_graph_inspector.Recorder.Persist.{newest, entries}
use nest_graph_inspector.Recorder.Spans.{IsOrdered}
use nest_graph_inspector.Recorder.Steps.{
  Reached, begun, ran, pushed, Reached-IsOrdered, Reached-completed_traces, complete_lem,
}
use nest_graph_inspector.Recorder.Resumes.{with_stack}
use nest_graph_inspector.Recorder.Run.{Work, done, call, settled, promised, run, active_of}

abbrev preview : Value → Value
preview = preview_value (λ v. true)

abbrev handle : Handle
handle = record {
  trace_id = "t1";
  run_id = "r1";
  root_span_id = "s0";
  started_at_ms = 100;
  module_name = "UsersModule";
  provider_name = "UsersService";
  method_name = "find";
  args = other 1;
}

abbrev input : String → SpanInput
input name = record {
  name = name;
  module_name = some "UsersModule";
  class_name = some "Repo";
  method_name = some name;
  resource = none;
  args = undefined;
  metadata = [];
}

-- `list` calls `load`, which returns a promise
abbrev work : Work
work =
    call (input "list") "s1" 110 150 (call (input "load") "s2" 120 130 done promised done)
      (settled (returned (text "ok"))) done

abbrev span_ids : List Span → List (String × Option String)
span_ids [] = []
span_ids (s ∷ spans) = (s.span_id, s.parent_span_id) ∷ span_ids spans

work_spans :
    span_ids (spans_of (run preview work (active_of handle) (run_with_context handle empty)) "t1")
    ≡ ("s2", some "s1") ∷ ("s1", some "s0") ∷ []
unfolding run run_with_context is_root_span track_pending_span push_span set get
work_spans = refl

-- `load` goes on after a wait and calls `parse`, whose parent is `load`
abbrev later_work : Work
later_work = call (input "parse") "s3" 160 170 done (settled (returned (text "ok"))) done

abbrev before_wait : Recorder
before_wait = run preview work (with_stack handle ("s0" ∷ [])) (run_with_context handle empty)

abbrev after_wait : Recorder
after_wait = run preview later_work (with_stack handle ("s0" ∷ "s1" ∷ "s2" ∷ [])) before_wait

after_wait_spans :
    span_ids (spans_of after_wait "t1")
    ≡ ("s2", some "s1") ∷ ("s1", some "s0") ∷ ("s3", some "s2") ∷ []
unfolding run run_with_context is_root_span track_pending_span push_span set get
after_wait_spans = refl

-- a run with one span
abbrev one_span : Recorder
one_span =
    push_span preview handle (input "load") "s1" (some "s0") 110 120 success (returned (text "ok"))
      [] (run_with_context handle empty)

abbrev one_span-Reached : Reached preview [] one_span
one_span-Reached =
    pushed handle (input "load") "s1" (some "s0") 110 120 success (returned (text "ok")) []
      (ran handle begun)

Reached-IsOrdered_example : IsOrdered one_span
Reached-IsOrdered_example = Reached-IsOrdered preview one_span-Reached

Reached-completed_traces_example :
    (one_span.completed_traces ≡ newest (entries []))
    × (length one_span.completed_traces ≤ max_completed_traces)
Reached-completed_traces_example = Reached-completed_traces preview one_span-Reached

complete_lem_example :
    let failure = threw (error_object "Error" "no") in
    let t = finished_trace preview handle 140 failure one_span in
    let after = complete preview handle 140 failure one_span in
    (t.spans ≡ root_span preview handle 140 failure ∷ spans_of one_span "t1")
    × (t.total_spans ≡ suc (length (spans_of one_span "t1")))
    × (t.failed_span_id ≡ (
        if is_error (status_of failure)
        then some "s0"
        else id_of (find (λ s. is_error s.status) (spans_of one_span "t1"))))
    × (get_completed_trace after "t1" ≡ some t)
    × (has "t1" (keys after.active_spans) ≡ false)
    × (has "t1" (keys after.pending_spans) ≡ false)
complete_lem_example =
    complete_lem preview handle 140 (threw (error_object "Error" "no")) one_span-Reached
      (refl, refl)

-- a span that ends after its run was completed gets an entry that nothing deletes
late_span :
    keys
      (push_span preview handle
        (input "late")
        "s9"
        (some "s0")
        110
        900
        success
        (returned undefined)
        []
        (complete preview handle 140 (returned (text "ok")) one_span)).active_spans
    ≡ "t1" ∷ []
unfolding push_span complete run_with_context set get delete
late_span = refl
