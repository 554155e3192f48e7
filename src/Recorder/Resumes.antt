-- ===== src/Recorder/Resumes.antt =====
-- lib/src/runtime-trace.recorder.ts, `recordSpan`: a run whose code goes on after a wait.
--
-- AsyncLocalStorage gives code that goes on after an `await`, or in a timer, the stack that it had before.
-- So a run is a sequence of pieces of code, each with a stack that an earlier piece has left.
use nest_graph_inspector.Prelude.{
  ℕ, suc, String, true, false, ◌≡◌, refl, sym, ◌∙◌, subst, ◌⊎◌, inl, inr, Option, some, List, [],
  ◌∷◌, ◌++◌, In, In-append_left, last?, last?-concat, length, Bool-cases,
}
use nest_graph_inspector.Prelude.Members.{In-append_iff}
use nest_graph_inspector.Recorder.Values.{Value, undefined, Metadata, flag}
use nest_graph_inspector.Recorder.{
  Recorder, Handle, Span, SpanInput, partial, Outcome, returned, status_of, spans_of, is_root_span,
  new_span, push_span, run_with_context, update_span, mark_pending_spans_not_awaited,
}
use nest_graph_inspector.Recorder.Run.{
  Active, Call, settled, promised, Work, done, call, after_call, record_span, run, ids_of,
  In-ids_of, last-ids_of, push_span-spans, spans_of-track,
}

-- the storages of code with a stack
abbrev pub with_stack : Handle → List String → Active
with_stack handle stack = record { handle = handle; stack = some stack }

-- The stacks of the callbacks in a piece of code, with which code may go on after it.
unfoldable pub stacks_of : Handle → Work → List String → List (List String)
stacks_of handle done stack = []
stacks_of handle (call input span_id started now inner result next) stack =
    elim (is_root_span handle input) [
      | true ↦ stacks_of handle inner stack ++ stacks_of handle next stack
      | false ↦
          (stack ++ span_id ∷ [])
          ∷ (stacks_of handle inner (stack ++ span_id ∷ []) ++ stacks_of handle next stack)
    ]

-- A run that has not been completed, with the stacks that its code has had: a piece of code makes
-- instrumented calls with one of them, a promise is settled, the promises that are left are marked, or
-- the recorder does something that leaves the spans of the run, as all calls of other runs do.
pub data Going (preview_value : Value → Value) (handle : Handle)
    : List (List String) → Recorder → Type 0 where
  begins :
      (r : Recorder)
      → Going preview_value handle ((handle.root_span_id ∷ []) ∷ []) (run_with_context handle r)
  continues :
      {stacks : List (List String)} {r : Recorder} (stack : List String) (w : Work)
      → Going preview_value handle stacks r
      → In stack stacks
      → Going preview_value handle
          (stacks ++ stacks_of handle w stack)
          (run preview_value w (with_stack handle stack) r)
  settles :
      {stacks : List (List String)} {r : Recorder} (span_id : String) (started now : ℕ)
      (outcome : Outcome) (metadata : Metadata)
      → Going preview_value handle stacks r
      → Going preview_value handle stacks
          (update_span preview_value handle span_id started now outcome metadata r)
  marks :
      {stacks : List (List String)} {r : Recorder}
      → Going preview_value handle stacks r
      → Going preview_value handle stacks (mark_pending_spans_not_awaited handle.trace_id r)
  elsewhere :
      {stacks : List (List String)} {r : Recorder} (s : Recorder)
      → Going preview_value handle stacks r
      → spans_of s handle.trace_id ≡ spans_of r handle.trace_id
      → Going preview_value handle stacks s

-- The second stack is the first one with recorded spans on it.
pub record IsAbove (ids stack above : List String) : Type 0 where
  pub last : (q : String) × (last? above ≡ some q)
  pub kept : (p : String) → In p stack → In p above
  pub recorded : (p : String) → In p above → In p stack ⊎ In p ids

pub IsAbove-later :
    (ids later stack above : List String)
    → ((p : String) → In p ids → In p later)
    → IsAbove ids stack above
    → IsAbove later stack above
IsAbove-later ids later stack above more h = record {
  last = h.last;
  kept = h.kept;
  recorded = λ p m. elim (h.recorded p m) [ inl on ↦ inl on | inr among ↦ inr (more p among) ];
}

IsAbove-deep :
    (ids stack : List String) (id : String) → In id ids → IsAbove ids stack (stack ++ id ∷ [])
IsAbove-deep ids stack id at = record {
  last = (id, last?-concat stack id);
  kept = λ p m. In-append_left p stack (id ∷ []) m;
  recorded = λ p m. elim ((In-append_iff p stack (id ∷ [])).0 m) [
    | inl on ↦ inl on
    | inr (inl same) ↦ inr (subst (λ x. In x ids) (sym same) at)
    | inr (inr none_left) ↦ absurd none_left
  ];
}

pub IsAbove-trans :
    (ids low mid high : List String)
    → IsAbove ids low mid
    → IsAbove ids mid high
    → IsAbove ids low high
IsAbove-trans ids low mid high h k = record {
  last = k.last;
  kept = λ p m. k.kept p (h.kept p m);
  recorded = λ p m. elim (k.recorded p m) [ inl on ↦ h.recorded p on | inr among ↦ inr among ];
}

module _ (preview_value : Value → Value) (handle : Handle) where
  -- the ids of the run's spans
  abbrev pub ids_in : Recorder → List String
  ids_in r = ids_of (spans_of r handle.trace_id)

  -- a span is recorded after its callback
  after_call-spans :
      (input : SpanInput) (span_id : String) (parent : Option String) (started now : ℕ)
      (result : Call) (r : Recorder)
      → (s : Span) × (s.span_id ≡ span_id)
        × (spans_of
              (after_call preview_value handle input span_id parent started now result r)
              handle.trace_id
            ≡ spans_of r handle.trace_id ++ s ∷ [])
  unfolding after_call
  after_call-spans input span_id parent started now (settled outcome) r = (
    new_span preview_value handle input span_id parent (suc (length (spans_of r handle.trace_id)))
        started now (status_of outcome) outcome [],
    refl,
    push_span-spans preview_value handle input span_id parent started now (status_of outcome)
        outcome [] r,
  )
  after_call-spans input span_id parent started now promised r = (
    new_span preview_value handle input span_id parent (suc (length (spans_of r handle.trace_id)))
        started now partial (returned undefined) (("async", flag true) ∷ []),
    refl,
    spans_of-track handle.trace_id span_id
          (push_span preview_value handle input span_id parent started now partial
            (returned undefined) (("async", flag true) ∷ []) r)
          handle.trace_id
        ∙ push_span-spans preview_value handle input span_id parent started now partial
            (returned undefined) (("async", flag true) ∷ []) r,
  )

  after_call-ids :
      (input : SpanInput) (span_id : String) (parent : Option String) (started now : ℕ)
      (result : Call) (r : Recorder)
      → let after = after_call preview_value handle input span_id parent started now result r in
        ((p : String) → In p (ids_in r) → In p (ids_in after)) × In span_id (ids_in after)
  after_call-ids input span_id parent started now result r =
      let (s, named, e) = after_call-spans input span_id parent started now result r in
      (
        λ p m. rw e (In-ids_of p (spans_of r handle.trace_id) s m),
        rw e (
            subst (λ x. In x (ids_of (spans_of r handle.trace_id ++ s ∷ []))) named
              (last-ids_of (spans_of r handle.trace_id) s)),
      )

  module _ (input : SpanInput) (span_id : String) (started now : ℕ) (inner : Work) (result : Call)
      (next : Work) (stack : List String) (r : Recorder) where
    run-root :
        is_root_span handle input ≡ true
        → run preview_value
            (call input span_id started now inner result next)
            (with_stack handle stack)
            r
          ≡ run preview_value next
              (with_stack handle stack)
              (run preview_value inner (with_stack handle stack) r)
    unfolding run record_span
    run-root e = rw (e, run, record_span) refl

    run-other :
        is_root_span handle input ≡ false
        → run preview_value
            (call input span_id started now inner result next)
            (with_stack handle stack)
            r
          ≡ run preview_value next (with_stack handle stack) (
              after_call preview_value handle input span_id
                (last? stack)
                started
                now
                result
                (run preview_value inner (with_stack handle (stack ++ span_id ∷ [])) r))
    unfolding run record_span
    run-other e = rw (e, run, record_span) refl

    stacks_of-root :
        is_root_span handle input ≡ true
        → stacks_of handle (call input span_id started now inner result next) stack
          ≡ stacks_of handle inner stack ++ stacks_of handle next stack
    unfolding stacks_of
    stacks_of-root e = rw (e, stacks_of) refl

    stacks_of-other :
        is_root_span handle input ≡ false
        → stacks_of handle (call input span_id started now inner result next) stack
          ≡ (stack ++ span_id ∷ [])
            ∷ (stacks_of handle inner (stack ++ span_id ∷ []) ++ stacks_of handle next stack)
    unfolding stacks_of
    stacks_of-other e = rw (e, stacks_of) refl

  -- no span is lost
  pub run-ids :
      (w : Work) (stack : List String) (r : Recorder) (p : String)
      → In p (ids_in r)
      → In p (ids_in (run preview_value w (with_stack handle stack) r))
  unfolding run
  run-ids done stack r p m = m
  run-ids (call input span_id started now inner result next) stack r p m =
      elim (Bool-cases (is_root_span handle input)) [
        | inl root ↦
            rw (run-root input span_id started now inner result next stack r root)
              (run-ids next stack _ p (run-ids inner stack r p m))
        | inr other ↦ rw (run-other input span_id started now inner result next stack r other) (
            run-ids next stack _ p (
              (after_call-ids input span_id (last? stack) started now result _).0 p
                (run-ids inner (stack ++ span_id ∷ []) r p m)))
      ]

  -- every stack that a piece of code leaves is made of recorded spans
  pub run-IsAbove :
      (w : Work) (stack : List String) (r : Recorder) (above : List String)
      → In above (stacks_of handle w stack)
      → IsAbove (ids_in (run preview_value w (with_stack handle stack) r)) stack above
  unfolding stacks_of
  run-IsAbove done stack r above m = absurd m
  run-IsAbove (call input span_id started now inner result next) stack r above m =
      elim (Bool-cases (is_root_span handle input)) [
        | inl root ↦
            let after = run preview_value inner (with_stack handle stack) r in
            rw (run-root input span_id started now inner result next stack r root)
              (elim ((In-append_iff above (stacks_of handle inner stack) _).0 (
                rw (stacks_of-root input span_id started now inner result next stack r root) at
                  m)) [
                    | inl at ↦
                        IsAbove-later _ _ stack above (run-ids next stack after)
                          (run-IsAbove inner stack r above at)
                    | inr at ↦ run-IsAbove next stack after above at
                  ])
        | inr other ↦
            let deep = stack ++ span_id ∷ [] in
            let before = run preview_value inner (with_stack handle deep) r in
            let after =
              after_call preview_value handle input span_id (last? stack) started now result
                before in
            let (more, mine) =
              after_call-ids input span_id (last? stack) started now result before in
            let own =
              IsAbove-deep (ids_in (run preview_value next (with_stack handle stack) after)) stack
                span_id (run-ids next stack after span_id mine) in
            rw (run-other input span_id started now inner result next stack r other)
              (elim (rw (stacks_of-other input span_id started now inner result next stack r other)
                at m) [
                  | inl same ↦ subst (IsAbove _ stack) (sym same) own
                  | inr m ↦ elim ((In-append_iff above (stacks_of handle inner deep) _).0 m) [
                    | inl at ↦ IsAbove-trans _ stack deep above own (
                        IsAbove-later _ _ deep above (λ p m. run-ids next stack after p (more p m))
                          (run-IsAbove inner deep r above at))
                    | inr at ↦ run-IsAbove next stack after above at
                  ]
                ])
      ]
