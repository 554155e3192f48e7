-- ===== src/DirectRun/Tests.antt =====
-- lib/src/adapters/direct-run-output.adapter.ts: requests for UsersService.find and UsersController.list.
use nest_graph_inspector.Prelude.{
  ℕ, String, ◌==◌, false, not, ◌≡◌, refl, ◌↔◌, Option, none, some, List, [], ◌∷◌, if◌then◌else◌,
}
use nest_graph_inspector.Prelude.Maps.{get, keys}
use nest_graph_inspector.Prelude.Sets.{has}
use nest_graph_inspector.Prelude.Texts.{trim, trim_start, trim_end}
use nest_graph_inspector.Recorder.Values.{Value, other, text}
use nest_graph_inspector.Recorder.{
  Recorder, RuntimeTrace, Handle, finished_trace, Outcome, returned, empty, is_error,
  get_completed_trace,
}
use nest_graph_inspector.Recorder.Run.{Active}
use nest_graph_inspector.Recorder.Steps.{Reached, begun, ran, marked}
use nest_graph_inspector.DirectRun.Methods.{
  Method, Instance, function_value, plain_value, accessor, throws, resolve_strict_method,
}
use nest_graph_inspector.DirectRun.Body.{
  JsonValue, array, Parsed, null_body, fields, Chunk, ended, bytes, Target, provider, read,
  resolve_target, resolve_args, read_json_body,
}
use nest_graph_inspector.DirectRun.Route.{
  RouteOptions, Answer, thrown, RunResult, payload_of, Admitted, Stamps, admit, direct_run, perform,
  payload_too_large, passed, lacks_name, start_trace, waited,
}
use nest_graph_inspector.DirectRun.Callable.{IsCallable}
use nest_graph_inspector.DirectRun.Resolve.{admit-IsCallable}
use nest_graph_inspector.DirectRun.Limits.{Exceeds, total_bytes, direct_run_too_large_iff}
use nest_graph_inspector.DirectRun.Traces.{perform_complete}

abbrev find_method : Method
find_method = record { id = 7; length = 1 }

-- the class declares `find`, an accessor and a lifecycle hook
abbrev service : Instance
service = record {
  own = ("name", plain_value) ∷ [];
  prototypes =
      record {
        properties =
            ("find", function_value find_method)
            ∷ ("size", accessor (throws "no"))
            ∷ ("onModuleInit", function_value find_method)
            ∷ [];
        is_builtin = false;
      }
      ∷ [];
}

abbrev lookup : Target → String → String → Option Instance
lookup target module_name name = if module_name == "UsersModule" then some service else none

abbrev allowed : Target → String → String → Option (List String)
allowed target module_name name = some ("find" ∷ [])

abbrev strict : RouteOptions
strict = record { allow_unsafe_methods = some false; max_body_size_bytes = some (bytes 40) }

abbrev stringify : JsonValue → String
stringify v = "?"

abbrev preview : Value → Value
preview v = v

abbrev args_value : List JsonValue → Value
args_value args = other 1

abbrev invoke : Admitted → Active → Recorder → Recorder × Outcome
invoke a active r = (r, returned (text "user"))

abbrev wait : String → Recorder → Recorder
wait trace_id r = r

abbrev on_complete : RuntimeTrace → Option String
on_complete trace = none

abbrev request : List (String × JsonValue)
request =
    ("module", JsonValue.text "UsersModule")
    ∷ ("provider", JsonValue.text "UsersService")
    ∷ ("method", JsonValue.text "find")
    ∷ ("args", array (3 ∷ []))
    ∷ []

-- `null` is the JSON text of null; any other text is the request
abbrev parse : String → Option Parsed
parse body = some (if body == "null" then null_body else fields request)

abbrev stamps : Stamps
stamps = record { trace_id = "t1"; run_id = "r1"; root_span_id = "s0"; started = 100; ended = 120 }

abbrev chunk : ℕ → String → Chunk
chunk n s = record { byte_length = n; decoded = s }

abbrev answer : List Chunk → Answer
answer chunks =
    (direct_run preview args_value invoke wait on_complete parse stringify strict lookup allowed
      stamps chunks (ended "") empty).1

-- a body of `null` is answered by an error of the callback
null_thrown :
    answer (chunk 4 "null" ∷ []) ≡ thrown "Cannot read properties of null (reading 'target')"
unfolding direct_run read_json_body trim trim_end trim_start
null_thrown = refl

too_many_bytes : answer (chunk 30 "a" ∷ chunk 30 "b" ∷ []) ≡ payload_too_large
unfolding direct_run read_json_body
too_many_bytes = refl

direct_run_too_large_iff_example :
    (answer (chunk 30 "a" ∷ chunk 30 "b" ∷ []) ≡ payload_too_large)
    ↔ Exceeds (bytes 40) (total_bytes (chunk 30 "a" ∷ chunk 30 "b" ∷ []))
direct_run_too_large_iff_example =
    direct_run_too_large_iff preview args_value invoke wait on_complete parse stringify strict
      lookup allowed stamps (chunk 30 "a" ∷ chunk 30 "b" ∷ []) (ended "") empty

abbrev admitted : Admitted
admitted = record {
  wanted = record {
    target = provider;
    module_name = "UsersModule";
    name = "UsersService";
    method_name = "find";
  };
  object = service;
  method = find_method;
  args = array (3 ∷ []) ∷ [];
}

request-admit : admit stringify strict lookup allowed (read (fields request)) ≡ passed admitted
unfolding admit resolve_target get resolve_strict_method resolve_args
request-admit = refl

admit-IsCallable_example :
    (lacks_name admitted.wanted ≡ false)
    × (lookup provider "UsersModule" "UsersService" ≡ some service)
    × IsCallable false provider service "find" (some ("find" ∷ [])) find_method
admit-IsCallable_example =
    admit-IsCallable stringify strict lookup allowed (read (fields request)) admitted request-admit

abbrev user_handle : Handle
user_handle = start_trace preview args_value invoke wait on_complete stamps admitted

abbrev user_payload : RunResult
user_payload = payload_of "find" user_handle (returned (text "user")) (
    finished_trace preview user_handle 120 (returned (text "user"))
      (waited preview args_value invoke wait on_complete user_handle admitted empty))

user-perform :
    (perform preview args_value invoke wait on_complete stamps admitted empty).1
    ≡ Answer.ran user_payload
unfolding perform
user-perform = refl

user-Reached :
    Reached preview []
      (waited preview args_value invoke wait on_complete user_handle admitted empty)
unfolding waited
user-Reached = marked "t1" (ran user_handle begun)

perform_complete_example :
    let after = (perform preview args_value invoke wait on_complete stamps admitted empty).0 in
    (get_completed_trace after "t1" ≡ some user_payload.runtime_trace)
    × (user_payload.ok ≡ not (is_error user_payload.runtime_trace.status))
    × (has "t1" (keys after.active_spans) ≡ false)
    × (has "t1" (keys after.pending_spans) ≡ false)
perform_complete_example =
    perform_complete preview args_value invoke wait on_complete stamps admitted empty []
      user_payload user-Reached (refl, refl) user-perform
