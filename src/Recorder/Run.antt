-- ===== src/Recorder/Run.antt =====
-- lib/src/runtime-trace.recorder.ts, `recordSpan`: instrumented calls in a run, and the spans they leave.
use nest_graph_inspector.Prelude.{
  ℕ, suc, String, true, false, ◌≡◌, refl, sym, ap, Option, none, some, List, [], ◌∷◌, ◌++◌, In,
  In-append_left, last?, last?-concat, get_or, length, Bool-cases, Option-cases, eq_refl, ◌⊎◌, inl,
  inr,
}
use nest_graph_inspector.Prelude.Maps.{get, get-set}
use nest_graph_inspector.Prelude.Members.{In-append_iff}
use nest_graph_inspector.Recorder.Values.{Value, undefined, Metadata, flag}
use nest_graph_inspector.Recorder.{
  Recorder, Handle, Span, SpanInput, SpanStatus, partial, Outcome, returned, status_of, spans_of,
  is_root_span, new_span, push_span, track_pending_span,
}

-- what the async storages hold in a run: the handle and the stack of spans
pub record Active : Type 0 where
  pub handle : Handle
  pub stack : Option (List String)

-- what a callback does: it ends at once, or returns a promise
pub data Call : Type 0 where
  settled : Outcome → Call
  promised : Call

-- `activeSpanStackStorage.getStore() ?? [context.rootSpanId]`
abbrev pub parent_stack : Active → List String
parent_stack a = get_or a.stack (a.handle.root_span_id ∷ [])

-- the instrumented calls that a piece of code makes, each with the calls inside it
pub data Work : Type 0 where
  done : Work
  call : SpanInput → String → ℕ → ℕ → Work → Call → Work → Work

-- the storages in the callback of `runWithContext`
abbrev pub active_of : Handle → Active
active_of handle = record { handle = handle; stack = some (handle.root_span_id ∷ []) }

module _ (preview_value : Value → Value) where
  -- what `recordSpan` does after its callback
  unfoldable pub after_call :
      Handle → SpanInput → String → Option String → ℕ → ℕ → Call → Recorder → Recorder
  unfolding push_span
  after_call handle input span_id parent started now (settled outcome) r =
      push_span preview_value handle input span_id parent started now (status_of outcome) outcome []
        r
  after_call handle input span_id parent started now promised r =
      track_pending_span handle.trace_id span_id (
        push_span preview_value handle input span_id parent started now partial (returned undefined)
          (("async", flag true) ∷ []) r)

  -- `recordSpan`; the callback is given what the storages hold
  unfoldable pub record_span :
      Option Active
      → SpanInput
      → String
      → ℕ
      → ℕ
      → (Option Active → Recorder → Recorder × Call)
      → Recorder
      → Recorder × Call
  unfolding after_call
  record_span none input span_id started now callback r = callback none r
  record_span (some a) input span_id started now callback r = elim (is_root_span a.handle input) [
    | true ↦ callback (some a) r
    | false ↦
        let (after, result) =
          callback
            (some (record { handle = a.handle; stack = some (parent_stack a ++ span_id ∷ []) }))
            r in
        (
          after_call a.handle input span_id (last? (parent_stack a)) started now result after,
          result,
        )
  ]

  unfoldable pub run : Work → Active → Recorder → Recorder
  unfolding record_span
  run done a r = r
  run (call input span_id started now inner result next) a r =
      let inside : Option Active → Recorder → Recorder × Call =
        λ b s. (run inner (get_or b a) s, result) in
      run next a (record_span (some a) input span_id started now inside r).0

unfoldable pub ids_of : List Span → List String
ids_of [] = []
ids_of (s ∷ spans) = s.span_id ∷ ids_of spans

-- each span's parent is on the stack or is a span
unfoldable pub IsLinked : List String → List Span → Type 0
IsLinked stack spans =
    (s : Span)
    → In s spans
    → (p : String) × (s.parent_span_id ≡ some p) × (In p stack ⊎ In p (ids_of spans))

pub no_spans : (stack : List String) → IsLinked stack []
unfolding IsLinked
no_spans stack = λ s m. absurd m

pub In-ids_of :
    (p : String) (spans : List Span) (s : Span)
    → In p (ids_of spans)
    → In p (ids_of (spans ++ s ∷ []))
unfolding ids_of
In-ids_of p [] s m = absurd m
In-ids_of p (t ∷ spans) s (inl e) = inl e
In-ids_of p (t ∷ spans) s (inr m) = inr (In-ids_of p spans s m)

pub last-ids_of : (spans : List Span) (s : Span) → In s.span_id (ids_of (spans ++ s ∷ []))
unfolding ids_of
last-ids_of [] s = inl refl
last-ids_of (t ∷ spans) s = inr (last-ids_of spans s)

IsLinked-push :
    (stack : List String) (spans : List Span) (s : Span) (q : String)
    → s.parent_span_id ≡ some q
    → In q stack
    → IsLinked (stack ++ s.span_id ∷ []) spans
    → IsLinked stack (spans ++ s ∷ [])
unfolding IsLinked
IsLinked-push stack spans s q parent at h t m = elim ((In-append_iff t spans (s ∷ [])).0 m) [
  | inl old ↦
      let (p, e, place) = h t old in
      (
        p,
        e,
        elim place [
          | inl on ↦ elim ((In-append_iff p stack (s.span_id ∷ [])).0 on) [
            | inl below ↦ inl below
            | inr (inl same) ↦ inr (rw same (last-ids_of spans s))
            | inr (inr none_left) ↦ absurd none_left
          ]
          | inr among ↦ inr (In-ids_of p spans s among)
        ],
      )
  | inr (inl same) ↦ (q, rw same parent, inl at)
  | inr (inr none_left) ↦ absurd none_left
]

IsLinked-deeper :
    (stack : List String) (id : String) (spans : List Span)
    → IsLinked stack spans
    → IsLinked (stack ++ id ∷ []) spans
unfolding IsLinked
IsLinked-deeper stack id spans h t m =
    let (p, e, place) = h t m in
    (
      p,
      e,
      elim place [ inl on ↦ inl (In-append_left p stack (id ∷ []) on) | inr among ↦ inr among ],
    )

pub spans_of-track :
    (id promise : String) (r : Recorder) (trace_id : String)
    → spans_of (track_pending_span id promise r) trace_id ≡ spans_of r trace_id
unfolding track_pending_span
spans_of-track id promise r trace_id = elim (Option-cases (get id r.pending_spans)) [
  | inl e ↦ rw (e, track_pending_span) refl
  | inr (ps, e) ↦ rw (e, track_pending_span) refl
]

module _ (preview_value : Value → Value) where
  pub push_span-spans :
      (handle : Handle) (input : SpanInput) (span_id : String) (parent : Option String)
      (started now : ℕ) (status : SpanStatus) (outcome : Outcome) (metadata : Metadata)
      (r : Recorder)
      → spans_of
          (push_span preview_value handle input span_id parent started now status outcome metadata
            r)
          handle.trace_id
        ≡ spans_of r handle.trace_id
          ++ new_span preview_value handle input span_id parent
              (suc (length (spans_of r handle.trace_id)))
              started
              now
              status
              outcome
              metadata
            ∷ []
  unfolding push_span
  push_span-spans handle input span_id parent started now status outcome metadata r =
      rw (get-set handle.trace_id handle.trace_id _ r.active_spans, eq_refl handle.trace_id) refl

  after_call-IsLinked :
      (handle : Handle) (input : SpanInput) (span_id : String) (q : String) (parent : Option String)
      (started now : ℕ) (result : Call) (stack : List String) (r : Recorder)
      → parent ≡ some q
      → In q stack
      → IsLinked (stack ++ span_id ∷ []) (spans_of r handle.trace_id)
      → IsLinked stack (
          spans_of
            (after_call preview_value handle input span_id parent started now result r)
            handle.trace_id)
  unfolding after_call
  after_call-IsLinked handle input span_id q parent started now (settled outcome) stack r e at h =
      rw (push_span-spans handle input span_id parent started now (status_of outcome) outcome [] r)
        (IsLinked-push stack _ _ q e at h)
  after_call-IsLinked handle input span_id q parent started now promised stack r e at h =
      rw
        (
          spans_of-track handle.trace_id span_id
              (push_span preview_value handle input span_id parent started now partial
                (returned undefined) (("async", flag true) ∷ []) r)
              handle.trace_id,
          push_span-spans handle input span_id parent started now partial (returned undefined)
              (("async", flag true) ∷ []) r,
        )
        (IsLinked-push stack _ _ q e at h)

  record_span-IsLinked :
      (a : Active) (input : SpanInput) (span_id q : String) (started now : ℕ)
      (callback : Option Active → Recorder → Recorder × Call) (r : Recorder)
      → last? (parent_stack a) ≡ some q
      → In q (parent_stack a)
      → IsLinked (parent_stack a) (spans_of (callback (some a) r).0 a.handle.trace_id)
      → IsLinked (parent_stack a ++ span_id ∷ []) (
          spans_of
            (callback
              (some (record { handle = a.handle; stack = some (parent_stack a ++ span_id ∷ []) }))
              r).0
            a.handle.trace_id)
      → IsLinked (parent_stack a) (
          spans_of
            (record_span preview_value (some a) input span_id started now callback r).0
            a.handle.trace_id)
  unfolding record_span
  record_span-IsLinked a input span_id q started now callback r e at h k =
      elim (Bool-cases (is_root_span a.handle input)) [
        | inl root ↦ rw (root, record_span) h
        | inr other ↦
            rw (other, record_span)
              (after_call-IsLinked a.handle input span_id q (last? (parent_stack a)) started now _
                (parent_stack a) _ e at k)
      ]

  pub last-In : (stack : List String) (q : String) → last? stack ≡ some q → In q stack
  last-In [] q h = cc
  last-In (x ∷ []) q h = inl (sym (ap (λ o. get_or o x) h))
  last-In (x ∷ y ∷ stack) q h = inr (last-In (y ∷ stack) q h)

  pub run-IsLinked :
      (w : Work) (a : Active) (q : String) (r : Recorder)
      → last? (parent_stack a) ≡ some q
      → IsLinked (parent_stack a) (spans_of r a.handle.trace_id)
      → IsLinked (parent_stack a) (spans_of (run preview_value w a r) a.handle.trace_id)
  unfolding run
  run-IsLinked done a q r e h = h
  run-IsLinked (call input span_id started now inner result next) a q r e h =
      let stack = parent_stack a in
      let deep : Active = record { handle = a.handle; stack = some (stack ++ span_id ∷ []) } in
      let inside : Option Active → Recorder → Recorder × Call =
        λ b s. (run preview_value inner (get_or b a) s, result) in
      run-IsLinked next a q
        (record_span preview_value (some a) input span_id started now inside r).0 e
        (record_span-IsLinked a input span_id q started now inside r e (last-In stack q e)
          (run-IsLinked inner a q r e h)
          (run-IsLinked inner deep span_id r (last?-concat stack span_id)
            (IsLinked-deeper stack span_id _ h)))
