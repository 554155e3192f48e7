-- ===== src/Recorder/Values.antt =====
-- lib/src/runtime-trace.recorder.ts: the values that a span shows, `resolveErrorName`,
-- `resolveErrorMessage`, `errorResult`, `previewValue` and the spread of two metadata records.
use nest_graph_inspector.Prelude.{
  ℕ, String, ◌==◌, Bool, false, not, Option, none, some, List, [], ◌∷◌, eqb, if◌then◌else◌,
}
use nest_graph_inspector.Prelude.Maps.{set}

-- A JavaScript value: an `Error`, or what `errorResult` makes of one, by name and message; any other
-- value that is no text is a number that stands for it.
pub data Value : Type 0 where
  undefined null_value : Value
  text : String → Value
  error_object : String → String → Value
  error_summary : Option String → Option String → Value
  other : ℕ → Value

pub data MetaValue : Type 0 where
  meta_text : String → MetaValue
  meta_number : ℕ → MetaValue
  flag : Bool → MetaValue
  meta_null : MetaValue

abbrev pub Metadata : Type 0
Metadata = List (String × MetaValue)

-- `{ ...a, ...b }`
abbrev pub merge : Metadata → Metadata → Metadata
merge a [] = a
merge a ((k, v) ∷ b) = merge (set k v a) b

-- a value under an `if`
abbrev pub is_truthy : Option MetaValue → Bool
is_truthy none = false
is_truthy (some (meta_text s)) = not (s == "")
is_truthy (some (meta_number n)) = not (eqb n 0)
is_truthy (some (flag b)) = b
is_truthy (some meta_null) = false

-- `resolveErrorName`
abbrev pub resolve_error_name : Value → Option String
resolve_error_name (error_object name message) = some name
resolve_error_name _ = none

-- `resolveErrorMessage`
abbrev pub resolve_error_message : Value → Option String
resolve_error_message (error_object name message) = some message
resolve_error_message (text s) = some s
resolve_error_message _ = none

-- `errorResult`
abbrev pub error_result : Value → Value
error_result e = error_summary (resolve_error_name e) (resolve_error_message e)

-- `previewValue`; whether `JSON.stringify` takes the value is asked of `serializable`
unfoldable pub preview_value : (Value → Bool) → Value → Value
preview_value serializable undefined = null_value
preview_value serializable v = if serializable v then v else text "[unserializable]"
