-- ===== src/DirectRun/Body.antt =====
-- lib/src/adapters/direct-run-output.adapter.ts: `readJsonBody`, `resolveTarget` and `resolveArgs`.
use Prim.Native.String
use nest_graph_inspector.Prelude.{
  ℕ, ◌+◌, String, ◌==◌, Bool, false, not, ◌&&◌, Option, none, some, List, [], ◌∷◌, map,
  if◌then◌else◌, ltb, eqb,
}
use nest_graph_inspector.Prelude.Texts.{trim}
use nest_graph_inspector.Prelude.Decimal.{decimal}
use nest_graph_inspector.Prelude.Maps.{get}

-- A JSON value; the elements of an array, and a value that the adapter only passes on, are numbers that
-- stand for them.
pub data JsonValue : Type 0 where
  text : String → JsonValue
  array : List ℕ → JsonValue
  opaque : ℕ → JsonValue

-- A parsed body. A value that is no object has no field to read, but `null` throws when one is read.
pub data Parsed : Type 0 where
  null_body : Parsed
  fields : List (String × JsonValue) → Parsed

-- a chunk: its bytes, and what the decoder writes for it
pub record Chunk : Type 0 where
  pub byte_length : ℕ
  pub decoded : String

-- how the request's stream ends: with what the decoder holds back, or with an error
pub data StreamEnd : Type 0 where
  ended broken : String → StreamEnd

pub data BodyResult : Type 0 where
  read : Parsed → BodyResult
  too_large : BodyResult
  stream_failed : String → BodyResult

-- `maxBodySizeBytes`
pub data ByteLimit : Type 0 where
  negative : ByteLimit
  bytes : ℕ → ByteLimit

-- `byteLength > limit`
abbrev pub is_over : ByteLimit → ℕ → Bool
is_over negative n = false
is_over (bytes limit) n = not (eqb limit 0) && ltb limit n

abbrev pub body_of : Option Parsed → Parsed
body_of none = fields []
body_of (some body) = body

-- `readJsonBody` after the loop
unfoldable pub parse_body : (String → Option Parsed) → String → Parsed
parse_body parse_json body = if trim body == "" then fields [] else body_of (parse_json body)

-- `readJsonBody`, with the bytes and the text so far
unfoldable pub read_chunks :
    (String → Option Parsed) → ByteLimit → List Chunk → StreamEnd → ℕ → String → BodyResult
unfolding parse_body
read_chunks parse_json limit [] (ended rest) n body =
    read (parse_body parse_json (String.◌++◌ body rest))
read_chunks parse_json limit [] (broken e) n body = stream_failed e
read_chunks parse_json limit (c ∷ chunks) end n body =
    let later =
      read_chunks parse_json limit chunks end (n + c.byte_length) (String.◌++◌ body c.decoded) in
    if is_over limit (n + c.byte_length) then too_large else later

unfoldable pub read_json_body :
    (String → Option Parsed) → ByteLimit → List Chunk → StreamEnd → BodyResult
unfolding read_chunks
read_json_body parse_json limit chunks end = read_chunks parse_json limit chunks end 0 ""

pub data Target : Type 0 where
  provider controller : Target

abbrev pub target_name : Target → String
target_name provider = "provider"
target_name controller = "controller"

-- `DirectRunTargetResult`
pub data TargetResult : Type 0 where
  target_is : Target → String → TargetResult
  unknown_target : JsonValue → TargetResult

-- `typeof field === "string" ? field : ""`
abbrev pub text_field : Option JsonValue → String
text_field (some (text s)) = s
text_field _ = ""

abbrev pub named_target : Target → List (String × JsonValue) → TargetResult
named_target t body = target_is t (text_field (get (target_name t) body))

abbrev pub target_of : Option JsonValue → List (String × JsonValue) → TargetResult
target_of none body = named_target provider body
target_of (some (text s)) body =
    if s == "provider"
    then named_target provider body
    else if s == "controller"
    then named_target controller body
    else unknown_target (text s)
target_of (some (array xs)) body = unknown_target (array xs)
target_of (some (opaque n)) body = unknown_target (opaque n)

-- `resolveTarget`
unfoldable pub resolve_target : List (String × JsonValue) → TargetResult
resolve_target body = target_of (get "target" body) body

-- `DirectRunArgsResult`
pub data ArgsResult : Type 0 where
  args_are : List JsonValue → ArgsResult
  args_refused : String → ArgsResult

abbrev args_missing : String → ℕ → ArgsResult
args_missing name count =
    if ltb 0 count
    then args_refused (
        String.◌++◌ "Method "
          (String.◌++◌ name " requires arguments. Send args as JSON in the request body."))
    else args_are []

abbrev array_expected : String → ℕ → ArgsResult
array_expected name count = args_refused (
    String.◌++◌ "Method " (
      String.◌++◌ name (
        String.◌++◌ " expects "
          (String.◌++◌ (decimal count) " arguments. Send args as a JSON array."))))

abbrev args_of : JsonValue → String → ℕ → ArgsResult
args_of (array xs) name count =
    if eqb count 1 then args_are (array xs ∷ []) else args_are (map opaque xs)
args_of input name count = if ltb 1 count then array_expected name count else args_are (input ∷ [])

abbrev args_given : Option JsonValue → String → ℕ → ArgsResult
args_given none name count = args_missing name count
args_given (some input) name count = args_of input name count

-- `resolveArgs`
unfoldable pub resolve_args : List (String × JsonValue) → String → ℕ → ArgsResult
resolve_args body name count = args_given (get "args" body) name count
