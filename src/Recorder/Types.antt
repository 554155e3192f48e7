-- ===== src/Recorder/Types.antt =====
-- lib/src/types/direct-run.type.ts: the records of a trace, and those of lib/src/runtime-trace.recorder.ts.
use nest_graph_inspector.Prelude.{ℕ, String, Option, none, List, []}
use nest_graph_inspector.Recorder.Values.{
  Value, Metadata, resolve_error_name, resolve_error_message,
}

pub data SpanStatus : Type 0 where
  success error cancelled partial unknown : SpanStatus

-- `RuntimeTraceHandle` with the id of the root span
pub record Handle : Type 0 where
  pub trace_id : String
  pub run_id : String
  pub root_span_id : String
  pub started_at_ms : ℕ
  pub module_name : String
  pub provider_name : String
  pub method_name : String
  pub args : Value

-- `RuntimeTraceSpanInput`, without the type, which is not kept
pub record SpanInput : Type 0 where
  pub name : String
  pub module_name : Option String
  pub class_name : Option String
  pub method_name : Option String
  pub resource : Option String
  pub args : Value
  pub metadata : Metadata

-- `RuntimeTraceSpan`
pub record Span : Type 0 where
  pub span_id : String
  pub parent_span_id : Option String
  pub run_id : String
  pub order : ℕ
  pub name : String
  pub module_name : Option String
  pub class_name : Option String
  pub method_name : Option String
  pub resource : Option String
  pub started_at : ℕ
  pub ended_at : ℕ
  pub duration_ms : ℕ
  pub status : SpanStatus
  pub error_name : Option String
  pub error_message : Option String
  pub args : Value
  pub result : Value
  pub metadata : Metadata

-- `RuntimeTraceEntrypoint`
pub record Entrypoint : Type 0 where
  pub module_name : Option String
  pub class_name : Option String
  pub method_name : String

-- `RuntimeTrace`
pub record RuntimeTrace : Type 0 where
  pub trace_id : String
  pub run_id : String
  pub entrypoint : Entrypoint
  pub started_at : ℕ
  pub ended_at : ℕ
  pub total_duration_ms : ℕ
  pub status : SpanStatus
  pub total_spans : ℕ
  pub failed_span_id : Option String
  pub spans : List Span

-- the fields of `RuntimeTraceRecorder`
pub record Recorder : Type 0 where
  pub completed_traces : List (String × RuntimeTrace)
  pub active_spans : List (String × List Span)
  pub pending_spans : List (String × List String)

-- `MAX_COMPLETED_TRACES`
abbrev pub max_completed_traces : ℕ
max_completed_traces = 100

abbrev pub empty : Recorder
empty = record { completed_traces = []; active_spans = []; pending_spans = [] }

-- how a call ended: a result, or what was thrown
pub data Outcome : Type 0 where
  returned threw : Value → Outcome

abbrev pub status_of : Outcome → SpanStatus
status_of (returned _) = success
status_of (threw _) = error

abbrev pub error_name_of : Outcome → Option String
error_name_of (returned _) = none
error_name_of (threw e) = resolve_error_name e

abbrev pub error_message_of : Outcome → Option String
error_message_of (returned _) = none
error_message_of (threw e) = resolve_error_message e
