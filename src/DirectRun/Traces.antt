-- ===== src/DirectRun/Traces.antt =====
-- lib/src/adapters/direct-run-output.adapter.ts with lib/src/runtime-trace.recorder.ts: the trace that
-- a run leaves, whether the called method returns or throws.
use nest_graph_inspector.Prelude.{
  String, false, not, ◌≡◌, refl, sym, ap, ◌∙◌, Option, none, some, List,
}
use nest_graph_inspector.Prelude.Maps.{keys}
use nest_graph_inspector.Prelude.Sets.{has}
use nest_graph_inspector.Recorder.Values.{Value}
use nest_graph_inspector.Recorder.{
  Recorder, RuntimeTrace, Handle, Outcome, returned, threw, is_error, status_of,
  get_completed_trace, finished_trace, run_with_context,
}
use nest_graph_inspector.Recorder.Persist.{entries, IsFresh}
use nest_graph_inspector.Recorder.Run.{Active, active_of}
use nest_graph_inspector.Recorder.Steps.{Reached, complete_lem}
use nest_graph_inspector.DirectRun.Body.{JsonValue}
use nest_graph_inspector.DirectRun.Route.{
  Admitted, Stamps, RunResult, payload_of, Answer, ran, answer_of, start_trace, waited, perform,
}

payload_of-trace :
    (name : String) (handle : Handle) (o : Outcome) (t : RuntimeTrace)
    → (payload_of name handle o t).runtime_trace ≡ t
payload_of-trace name handle (returned v) t = refl
payload_of-trace name handle (threw e) t = refl

payload_of-ok :
    (name : String) (handle : Handle) (o : Outcome) (t : RuntimeTrace)
    → (payload_of name handle o t).ok ≡ not (is_error (status_of o))
payload_of-ok name handle (returned v) t = refl
payload_of-ok name handle (threw e) t = refl

answer_or : RunResult → Answer → RunResult
answer_or p (ran q) = q
answer_or p _ = p

answer_of-ran : (p q : RunResult) (o : Option String) → answer_of p o ≡ ran q → p ≡ q
unfolding answer_or
answer_of-ran p q none h = ap (answer_or p) h
answer_of-ran p q (some e) h = cc

module _ (preview_value : Value → Value) (args_value : List JsonValue → Value)
    (invoke : Admitted → Active → Recorder → Recorder × Outcome)
    (wait : String → Recorder → Recorder) (on_complete : RuntimeTrace → Option String) where
  -- When the called method and the wait bring the recorder to a state that its calls reach, in which the
  -- run's id is new, a run that is answered has its trace in the recorder under that id, the trace has
  -- failed exactly when the answer is not ok, and nothing of the run stays active.
  pub perform_complete :
      (at : Stamps) (a : Admitted) (r : Recorder) (h : List RuntimeTrace) (p : RunResult)
      → Reached preview_value h (
          waited preview_value args_value invoke wait on_complete
            (start_trace preview_value args_value invoke wait on_complete at a)
            a
            r)
      → IsFresh at.trace_id (entries h)
      → (perform preview_value args_value invoke wait on_complete at a r).1 ≡ ran p
      → let after = (perform preview_value args_value invoke wait on_complete at a r).0 in
        (get_completed_trace after at.trace_id ≡ some p.runtime_trace)
        × (p.ok ≡ not (is_error p.runtime_trace.status))
        × (has at.trace_id (keys after.active_spans) ≡ false)
        × (has at.trace_id (keys after.pending_spans) ≡ false)
  unfolding perform finished_trace
  perform_complete at a r h p reached fresh answered =
      let handle = start_trace preview_value args_value invoke wait on_complete at a in
      let outcome = (invoke a (active_of handle) (run_with_context handle r)).1 in
      let trace =
        finished_trace preview_value handle at.ended outcome
          (waited preview_value args_value invoke wait on_complete handle a r) in
      let e =
        answer_of-ran (payload_of a.wanted.method_name handle outcome trace) p (on_complete trace)
          answered in
      let same : p.runtime_trace ≡ trace =
        ap (λ q. q.runtime_trace) (sym e)
        ∙ payload_of-trace a.wanted.method_name handle outcome trace in
      let fine : p.ok ≡ not (is_error (status_of outcome)) =
        ap (λ q. q.ok) (sym e) ∙ payload_of-ok a.wanted.method_name handle outcome trace in
      let (_, _, _, back, spans, promises) =
        complete_lem preview_value handle at.ended outcome reached fresh in
      (
        back ∙ ap some (sym same),
        fine ∙ ap (λ t. not (is_error t.status)) (sym same),
        spans,
        promises,
      )
