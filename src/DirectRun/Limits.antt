-- ===== src/DirectRun/Limits.antt =====
-- lib/src/adapters/direct-run-output.adapter.ts: the limit on a request's body.
use Prim.Native.String
use nest_graph_inspector.Prelude.{
  suc, ◌≤◌, ℕ, ◌+◌, String, Bool, true, false, ◌≡◌, ◌≢◌, refl, ap, ◌↔◌, inl, inr, Option, none,
  some, List, [], ◌∷◌, arith, Bool-cases, get_or, eqb,
}
use nest_graph_inspector.Recorder.Values.{Value}
use nest_graph_inspector.Recorder.{Recorder, RuntimeTrace, Outcome}
use nest_graph_inspector.Recorder.Run.{Active}
use nest_graph_inspector.DirectRun.Methods.{Instance, MethodResult, resolved, unavailable, failed}
use nest_graph_inspector.DirectRun.Route.{
  Answer, refused, ran, thrown, Checked, passed, stopped, and_then, body_fields, Wanted, refuse_if,
  RunResult, wanted_target, read_wanted, find_instance, found_method, found_args, resolve_method,
  admit, RouteOptions, Admitted, Stamps, answer_of, perform, perform_checked, direct_run,
  payload_too_large, default_max_json_body_bytes,
}
use nest_graph_inspector.DirectRun.Body.{
  JsonValue, Target, TargetResult, target_is, unknown_target, resolve_target, ArgsResult, args_are,
  args_refused, resolve_args, null_body, fields, Chunk, StreamEnd, ended, broken, Parsed,
  BodyResult, read, too_large, stream_failed, ByteLimit, negative, bytes, is_over, read_chunks,
  read_json_body,
}

-- the bytes of all chunks
abbrev pub total_bytes : List Chunk → ℕ
total_bytes [] = 0
total_bytes (c ∷ chunks) = c.byte_length + total_bytes chunks

-- The limit is a number of bytes, not zero, which stands for none, and the body has more.
abbrev pub Exceeds : ByteLimit → ℕ → Type 0
Exceeds negative n = ⊥
Exceeds (bytes limit) n = (limit ≢ 0) × (suc limit ≤ n)

is_over-Exceeds : (limit : ByteLimit) (n : ℕ) → (is_over limit n ≡ true) ↔ Exceeds limit n
is_over-Exceeds negative n = (λ h. cc, λ h. absurd h)
is_over-Exceeds (bytes limit) n = (λ h. ground arith, λ h. ground arith)

is_over-more : (limit : ByteLimit) (n k : ℕ) → is_over limit n ≡ true → is_over limit (n + k) ≡ true
is_over-more negative n k h = cc
is_over-more (bytes b) n k h = ground arith

read_chunks_too_large_iff :
    (parse_json : String → Option Parsed) (limit : ByteLimit) (chunks : List Chunk)
    (end : StreamEnd) (n : ℕ) (body : String)
    → is_over limit n ≡ false
    → (read_chunks parse_json limit chunks end n body ≡ too_large)
      ↔ (is_over limit (n + total_bytes chunks) ≡ true)
unfolding read_chunks
read_chunks_too_large_iff parse_json limit [] (ended rest) n body under =
    let e : n + 0 ≡ n = omega arith in
    (λ h. cc, λ h. let k : is_over limit n ≡ true = rw e at h in cc)
read_chunks_too_large_iff parse_json limit [] (broken error) n body under =
    let e : n + 0 ≡ n = omega arith in
    (λ h. cc, λ h. let k : is_over limit n ≡ true = rw e at h in cc)
read_chunks_too_large_iff parse_json limit (c ∷ chunks) end n body under =
    let e : n + (c.byte_length + total_bytes chunks) ≡ n + c.byte_length + total_bytes chunks =
      omega arith in
    elim (Bool-cases (is_over limit (n + c.byte_length))) [
      | inl over ↦
          rw (over, e)
            (λ h. is_over-more limit (n + c.byte_length) (total_bytes chunks) over, λ h. refl)
      | inr room ↦
          rw (room, e)
            (read_chunks_too_large_iff parse_json limit chunks end (n + c.byte_length)
              (String.◌++◌ body c.decoded) room)
    ]

-- nothing is over at first
is_over-zero : (limit : ByteLimit) → is_over limit 0 ≡ false
is_over-zero negative = refl
is_over-zero (bytes b) = ground arith

read_json_body_too_large_iff :
    (parse_json : String → Option Parsed) (limit : ByteLimit) (chunks : List Chunk)
    (end : StreamEnd)
    → (read_json_body parse_json limit chunks end ≡ too_large)
      ↔ (is_over limit (total_bytes chunks) ≡ true)
unfolding read_json_body
read_json_body_too_large_iff parse_json limit chunks end =
    let e : 0 + total_bytes chunks ≡ total_bytes chunks = omega arith in
    let (to, from) =
      read_chunks_too_large_iff parse_json limit chunks end 0 "" (is_over-zero limit) in
    (λ h. rw e at (to h), λ h. from (rw e h))

-- the answer has the status of `payloadTooLarge`
abbrev is_large : Answer → Bool
is_large (refused status error) = eqb status 413
is_large (ran payload) = false
is_large (thrown error) = false

abbrev IsSmall : {A : Type 0} → Checked A → Type 0
IsSmall (passed a) = Unit
IsSmall (stopped answer) = is_large answer ≡ false

IsSmall-and_then :
    {A B : Type 0} (c : Checked A) (next : A → Checked B)
    → IsSmall c
    → ((a : A) → IsSmall (next a))
    → IsSmall (and_then c next)
IsSmall-and_then (passed a) next h k = k a
IsSmall-and_then (stopped answer) next h k = h

body_fields-IsSmall : (b : BodyResult) → b ≢ too_large → IsSmall (body_fields b)
body_fields-IsSmall (read null_body) h = refl
body_fields-IsSmall (read (fields body)) h = tt
body_fields-IsSmall too_large h = absurd (h refl)
body_fields-IsSmall (stream_failed e) h = refl

wanted_target-IsSmall :
    (stringify : JsonValue → String) (t : TargetResult) → IsSmall (wanted_target stringify t)
wanted_target-IsSmall stringify (target_is t name) = tt
wanted_target-IsSmall stringify (unknown_target raw) = refl

require_names-IsSmall : (b : Bool) (w : Wanted) → IsSmall (refuse_if b w)
require_names-IsSmall true w = refl
require_names-IsSmall false w = tt

answer_of-small : (payload : RunResult) (e : Option String) → is_large (answer_of payload e) ≡ false
answer_of-small payload none = refl
answer_of-small payload (some e) = refl

find_instance-IsSmall : (w : Wanted) (o : Option Instance) → IsSmall (find_instance w o)
find_instance-IsSmall w none = refl
find_instance-IsSmall w (some object) = tt

found_method-IsSmall : (name : String) (m : MethodResult) → IsSmall (found_method name m)
found_method-IsSmall name (resolved m) = tt
found_method-IsSmall name unavailable = refl
found_method-IsSmall name (failed e) = refl

found_args-IsSmall : (a : ArgsResult) → IsSmall (found_args a)
found_args-IsSmall (args_are args) = tt
found_args-IsSmall (args_refused message) = refl

module _ (stringify : JsonValue → String) where
  read_wanted-IsSmall : (body : List (String × JsonValue)) → IsSmall (read_wanted stringify body)
  unfolding read_wanted
  read_wanted-IsSmall body =
      IsSmall-and_then (wanted_target stringify (resolve_target body)) _
        (wanted_target-IsSmall stringify (resolve_target body)) (λ t. require_names-IsSmall _ _)

  module _ (options : RouteOptions) (instance_lookup : Target → String → String → Option Instance)
      (allowed_methods_lookup : Target → String → String → Option (List String)) where
    admit-IsSmall :
        (b : BodyResult)
        → b ≢ too_large
        → IsSmall (admit stringify options instance_lookup allowed_methods_lookup b)
    unfolding admit
    admit-IsSmall b h = IsSmall-and_then (body_fields b) _ (body_fields-IsSmall b h) (λ body.
        IsSmall-and_then (read_wanted stringify body) _ (read_wanted-IsSmall body) (λ w.
          IsSmall-and_then (find_instance w (instance_lookup w.target w.module_name w.name)) _
            (find_instance-IsSmall w _)
            (λ object.
              IsSmall-and_then
                (found_method w.method_name (
                  resolve_method stringify options instance_lookup allowed_methods_lookup w object))
                _ (found_method-IsSmall w.method_name _)
                (λ m.
                  IsSmall-and_then (found_args (resolve_args body w.method_name m.length)) _
                    (found_args-IsSmall _) (λ args. tt)))))

module _ (preview_value : Value → Value) (args_value : List JsonValue → Value)
    (invoke : Admitted → Active → Recorder → Recorder × Outcome)
    (wait : String → Recorder → Recorder) (on_complete : RuntimeTrace → Option String)
    (parse_json : String → Option Parsed) (stringify : JsonValue → String) (options : RouteOptions)
    (instance_lookup : Target → String → String → Option Instance)
    (allowed_methods_lookup : Target → String → String → Option (List String)) where
  perform-small :
      (at : Stamps) (a : Admitted) (r : Recorder)
      → is_large (perform preview_value args_value invoke wait on_complete at a r).1 ≡ false
  unfolding perform
  perform-small at a r = answer_of-small _ _

  perform_checked-small :
      (at : Stamps) (c : Checked Admitted) (r : Recorder)
      → IsSmall c
      → is_large (perform_checked preview_value args_value invoke wait on_complete at c r).1 ≡ false
  perform_checked-small at (passed a) r h = perform-small at a r
  perform_checked-small at (stopped answer) r h = h

  -- A request is answered 413 exactly when the limit is positive and the chunks of its body hold more
  -- bytes together, however the stream ends.
  pub direct_run_too_large_iff :
      (at : Stamps) (chunks : List Chunk) (end : StreamEnd) (r : Recorder)
      → ((direct_run preview_value args_value invoke wait on_complete parse_json stringify options
            instance_lookup allowed_methods_lookup at chunks end r).1
          ≡ payload_too_large)
        ↔ Exceeds
            (get_or options.max_body_size_bytes default_max_json_body_bytes)
            (total_bytes chunks)
  unfolding direct_run admit
  direct_run_too_large_iff at chunks end r =
      let limit = get_or options.max_body_size_bytes default_max_json_body_bytes in
      let body = read_json_body parse_json limit chunks end in
      let (to, from) = read_json_body_too_large_iff parse_json limit chunks end in
      let exceeds = is_over-Exceeds limit (total_bytes chunks) in
      (
        λ h. elim (Bool-cases (is_over limit (total_bytes chunks))) [
          | inl over ↦ exceeds.0 over
          | inr under ↦
              let other : body ≢ too_large = λ e. let k = to e in cc in
              let small = perform_checked-small at _ r (
                admit-IsSmall stringify options instance_lookup allowed_methods_lookup body
                  other) in
              let large = ap is_large h in cc
        ],
        λ over. let e = from (exceeds.1 over) in rw e refl,
      )
