-- ===== src/DirectRun/Route.antt =====
-- lib/src/adapters/direct-run-output.adapter.ts: the route of `createRoute`, from a request's body to
-- its answer and the recorder afterwards.
use Prim.Native.String
use nest_graph_inspector.Prelude.{
  ℕ, ◌*◌, String, ◌==◌, Bool, true, false, ◌||◌, Option, none, some, List, get_or, if◌then◌else◌,
}
use nest_graph_inspector.Recorder.Values.{Value, error_object}
use nest_graph_inspector.Recorder.{
  Recorder, RuntimeTrace, Handle, Outcome, returned, threw, run_with_context,
  mark_pending_spans_not_awaited, finished_trace, complete,
}
use nest_graph_inspector.Recorder.Run.{Active, active_of}
use nest_graph_inspector.DirectRun.Methods.{
  Method, Instance, MethodResult, resolved, unavailable, failed, resolve_strict_method,
  resolve_permissive_method, resolve_permissive_controller_method,
}
use nest_graph_inspector.DirectRun.Body.{
  JsonValue, Parsed, null_body, fields, BodyResult, read, too_large, stream_failed, ByteLimit,
  bytes, Chunk, StreamEnd, read_json_body, Target, provider, controller, target_name, TargetResult,
  target_is, unknown_target, resolve_target, text_field, ArgsResult, args_are, args_refused,
  resolve_args,
}
use nest_graph_inspector.Prelude.Maps.{get}

-- `DirectRunRouteOptions`
pub record RouteOptions : Type 0 where
  pub allow_unsafe_methods : Option Bool
  pub max_body_size_bytes : Option ByteLimit

-- `DEFAULT_MAX_JSON_BODY_BYTES`
abbrev pub default_max_json_body_bytes : ByteLimit
default_max_json_body_bytes = bytes (50 * 1024 * 1024)

-- `DirectRunResult` of a run
pub record RunResult : Type 0 where
  pub ok : Bool
  pub method : String
  pub result : Option Value
  pub error : Option String
  pub run_id : String
  pub trace_id : String
  pub runtime_trace : RuntimeTrace

-- what the route's callback comes to: a refusal with its status and error, a run, or a thrown error
pub data Answer : Type 0 where
  refused : ℕ → String → Answer
  ran : RunResult → Answer
  thrown : String → Answer

-- a step of the callback: its result, or the answer that it returns at once
pub data Checked (A : Type 0) : Type 0 where
  passed : A → Checked A
  stopped : Answer → Checked A

abbrev pub and_then : {A B : Type 0} → Checked A → (A → Checked B) → Checked B
and_then (passed a) next = next a
and_then (stopped answer) next = stopped answer

-- `badRequest`, `notFound` and `payloadTooLarge`
abbrev pub bad_request : String → Answer
bad_request message = refused 400 message

abbrev pub not_found : String → Answer
not_found message = refused 404 message

abbrev pub payload_too_large : Answer
payload_too_large = refused 413 "Request body is too large."

-- a read of a field of `null` throws
abbrev pub body_fields : BodyResult → Checked (List (String × JsonValue))
body_fields (read (fields body)) = passed body
body_fields (read null_body) = stopped (thrown "Cannot read properties of null (reading 'target')")
body_fields too_large = stopped payload_too_large
body_fields (stream_failed e) = stopped (thrown e)

-- a request's target, module, name and method
pub record Wanted : Type 0 where
  pub target : Target
  pub module_name : String
  pub name : String
  pub method_name : String

pub record Admitted : Type 0 where
  pub wanted : Wanted
  pub object : Instance
  pub method : Method
  pub args : List JsonValue

abbrev pub target_label : Target → String
target_label provider = "Provider"
target_label controller = "Controller"

-- `!moduleName || !name || !methodName`
abbrev pub lacks_name : Wanted → Bool
lacks_name w = w.module_name == "" || (w.name == "" || w.method_name == "")

abbrev pub refuse_if : Bool → Wanted → Checked Wanted
refuse_if true w = stopped (
    bad_request
      (String.◌++◌ "module, " (String.◌++◌ (target_name w.target) ", and method are required.")))
refuse_if false w = passed w

abbrev pub require_names : Wanted → Checked Wanted
require_names w = refuse_if (lacks_name w) w

module _ (stringify : JsonValue → String) where
  abbrev pub wanted_target : TargetResult → Checked (Target × String)
  wanted_target (target_is t name) = passed (t, name)
  wanted_target (unknown_target raw) =
      stopped
        (bad_request (String.◌++◌ "Unknown direct run target " (String.◌++◌ (stringify raw) ".")))

  -- the request's names, none of them empty
  unfoldable pub read_wanted : List (String × JsonValue) → Checked Wanted
  unfolding resolve_target
  read_wanted body = and_then (wanted_target (resolve_target body)) (λ t. require_names (record {
    target = t.0;
    module_name = text_field (get "module" body);
    name = t.1;
    method_name = text_field (get "method" body);
  }))

abbrev pub find_instance : Wanted → Option Instance → Checked Instance
find_instance w (some object) = passed object
find_instance w none = stopped (
    not_found (
      String.◌++◌ (target_label w.target) (
        String.◌++◌ " "
          (String.◌++◌ w.module_name (String.◌++◌ ":" (String.◌++◌ w.name " is unavailable."))))))

abbrev pub permissive_method : Target → Instance → String → MethodResult
permissive_method controller object name = resolve_permissive_controller_method object name
permissive_method provider object name = resolve_permissive_method object name

abbrev pub found_method : String → MethodResult → Checked Method
found_method name (resolved m) = passed m
found_method name unavailable =
    stopped
      (bad_request (String.◌++◌ "Method " (String.◌++◌ name " is unavailable for direct run.")))
found_method name (failed e) = stopped (thrown e)

abbrev pub found_args : ArgsResult → Checked (List JsonValue)
found_args (args_are args) = passed args
found_args (args_refused message) = stopped (bad_request message)

module _ (stringify : JsonValue → String) (options : RouteOptions)
    (instance_lookup : Target → String → String → Option Instance)
    (allowed_methods_lookup : Target → String → String → Option (List String)) where
  -- `methodResult`
  unfoldable pub resolve_method : Wanted → Instance → MethodResult
  resolve_method w object =
      if get_or options.allow_unsafe_methods true
      then permissive_method w.target object w.method_name
      else resolve_strict_method object w.method_name
          (allowed_methods_lookup w.target w.module_name w.name)

  -- the callback up to `start`
  unfoldable pub admit : BodyResult → Checked Admitted
  unfolding read_wanted resolve_method
  admit result = and_then (body_fields result) (λ body. and_then (read_wanted stringify body) (λ w.
      and_then (find_instance w (instance_lookup w.target w.module_name w.name)) (λ object.
        and_then (found_method w.method_name (resolve_method w object)) (λ m.
          and_then (found_args (resolve_args body w.method_name m.length))
            (λ args. passed (record { wanted = w; object = object; method = m; args = args }))))))

-- `error instanceof Error ? error.message : "Direct run failed."`
abbrev pub error_text : Value → String
error_text (error_object name message) = message
error_text _ = "Direct run failed."

abbrev pub payload_of : String → Handle → Outcome → RuntimeTrace → RunResult
payload_of method_name handle (returned v) trace = record {
  ok = true;
  method = method_name;
  result = some v;
  error = none;
  run_id = handle.run_id;
  trace_id = handle.trace_id;
  runtime_trace = trace;
}
payload_of method_name handle (threw e) trace = record {
  ok = false;
  method = method_name;
  result = none;
  error = some (error_text e);
  run_id = handle.run_id;
  trace_id = handle.trace_id;
  runtime_trace = trace;
}

-- what is answered when the callback of the trace is done
abbrev pub answer_of : RunResult → Option String → Answer
answer_of payload none = ran payload
answer_of payload (some e) = thrown e

-- the three ids of `start`, and the two times
pub record Stamps : Type 0 where
  pub trace_id : String
  pub run_id : String
  pub root_span_id : String
  pub started : ℕ
  pub ended : ℕ

module _ (preview_value : Value → Value) (args_value : List JsonValue → Value)
    (invoke : Admitted → Active → Recorder → Recorder × Outcome)
    (wait : String → Recorder → Recorder) (on_complete : RuntimeTrace → Option String) where
  -- `start`
  abbrev pub start_trace : Stamps → Admitted → Handle
  start_trace at a = record {
    trace_id = at.trace_id;
    run_id = at.run_id;
    root_span_id = at.root_span_id;
    started_at_ms = at.started;
    module_name = a.wanted.module_name;
    provider_name = a.wanted.name;
    method_name = a.wanted.method_name;
    args = args_value a.args;
  }

  -- the recorder when the called method has ended and the wait of `finishTrace` is over
  unfoldable pub waited : Handle → Admitted → Recorder → Recorder
  waited handle a r = wait handle.trace_id (
      mark_pending_spans_not_awaited handle.trace_id
        (invoke a (active_of handle) (run_with_context handle r)).0)

  -- the callback from `start` on
  unfoldable pub perform : Stamps → Admitted → Recorder → Recorder × Answer
  unfolding waited
  perform at a r =
      let handle = start_trace at a in
      let outcome = (invoke a (active_of handle) (run_with_context handle r)).1 in
      let trace = finished_trace preview_value handle at.ended outcome (waited handle a r) in
      (
        complete preview_value handle at.ended outcome (waited handle a r),
        answer_of (payload_of a.wanted.method_name handle outcome trace) (on_complete trace),
      )

  abbrev pub perform_checked : Stamps → Checked Admitted → Recorder → Recorder × Answer
  perform_checked at (passed a) r = perform at a r
  perform_checked at (stopped answer) r = (r, answer)

  module _ (parse_json : String → Option Parsed) (stringify : JsonValue → String)
      (options : RouteOptions) (instance_lookup : Target → String → String → Option Instance)
      (allowed_methods_lookup : Target → String → String → Option (List String)) where
    -- the callback that `createRoute` registers
    unfoldable pub direct_run : Stamps → List Chunk → StreamEnd → Recorder → Recorder × Answer
    unfolding admit perform
    direct_run at chunks end r =
        perform_checked at
          (admit stringify options instance_lookup allowed_methods_lookup (
            read_json_body parse_json
              (get_or options.max_body_size_bytes default_max_json_body_bytes) chunks end))
          r
