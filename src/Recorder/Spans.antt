-- ===== src/Recorder/Spans.antt =====
-- lib/src/runtime-trace.recorder.ts: the spans of a trace are numbered in the order they are pushed.
use nest_graph_inspector.Prelude.{
  ℕ, suc, ◌+◌, ◌≤◌, String, ◌==◌, true, ◌≡◌, refl, ◌∙◌, Option, some, List, [], ◌∷◌, ◌++◌, map,
  arith, length, Bool-cases, Option-cases, get_or, leb, inl, inr,
}
use nest_graph_inspector.Prelude.Maps.{get, set, get-set, get-delete}
use nest_graph_inspector.Prelude.Sort.{insert_by, sort_by}
use nest_graph_inspector.Recorder.Values.{Value, Metadata}
use nest_graph_inspector.Recorder.{
  empty, RuntimeTrace, Span, SpanInput, SpanStatus, Handle, Outcome, Recorder, spans_of, mark_span,
  mark_pending_spans_not_awaited, run_with_context, track_pending_span, drop_pending_span,
  push_span, update_first, update_span, settled_span, persist_completed_trace, complete, order_le,
}

-- the orders are those from a number on
abbrev pub IsNumbered : ℕ → List Span → Type 0
IsNumbered n [] = Unit
IsNumbered n (s ∷ spans) = (s.order ≡ n) × IsNumbered (suc n) spans

IsNumbered-append :
    (n : ℕ) (spans : List Span) (s : Span)
    → IsNumbered n spans
    → s.order ≡ n + length spans
    → IsNumbered n (spans ++ s ∷ [])
IsNumbered-append n [] s h e = (omega (arith, e), tt)
IsNumbered-append n (t ∷ spans) s (o, h) e =
    (o, IsNumbered-append (suc n) spans s h (omega (arith, e)))

mark_span-order : (s : Span) → (mark_span s).order ≡ s.order
mark_span-order s = ground arith

IsNumbered-mark :
    (n : ℕ) (spans : List Span) → IsNumbered n spans → IsNumbered n (map mark_span spans)
IsNumbered-mark n [] h = tt
IsNumbered-mark n (s ∷ spans) (o, h) = (mark_span-order s ∙ o, IsNumbered-mark (suc n) spans h)

IsNumbered-update :
    (span_id : String) (f : Span → Span) (same : (s : Span) → (f s).order ≡ s.order) (n : ℕ)
    (spans : List Span)
    → IsNumbered n spans
    → IsNumbered n (update_first span_id f spans)
unfolding update_first
IsNumbered-update span_id f same n [] h = tt
IsNumbered-update span_id f same n (s ∷ spans) (o, h) = elim (Bool-cases (s.span_id == span_id)) [
  | inl hit ↦ rw hit (same s ∙ o, h)
  | inr miss ↦ rw miss (o, IsNumbered-update span_id f same (suc n) spans h)
]

-- Every trace's spans are numbered from 1.
pub IsOrdered : Recorder → Type 0
IsOrdered r = (trace_id : String) → IsNumbered 1 (spans_of r trace_id)

-- setting the spans of one trace
IsOrdered-set :
    (r : Recorder) (id : String) (spans : List Span)
    → IsOrdered r
    → IsNumbered 1 spans
    → (trace_id : String) → IsNumbered 1 (get_or (get trace_id (set id spans r.active_spans)) [])
unfolding IsOrdered
IsOrdered-set r id spans h k trace_id =
    rw (get-set id trace_id spans r.active_spans) (elim (Bool-cases (id == trace_id)) [
      | inl same ↦ rw same k
      | inr other ↦ rw other (h trace_id)
    ])

pub run_with_context-IsOrdered :
    (handle : Handle) (r : Recorder) → IsOrdered r → IsOrdered (run_with_context handle r)
unfolding run_with_context IsOrdered
run_with_context-IsOrdered handle r h = IsOrdered-set r handle.trace_id [] h tt

-- the operations on the promises leave the spans
pub track-IsOrdered :
    (id promise : String) (r : Recorder) → IsOrdered r → IsOrdered (track_pending_span id promise r)
unfolding track_pending_span IsOrdered
track-IsOrdered id promise r h = elim (Option-cases (get id r.pending_spans)) [
  | inl e ↦ rw (e, track_pending_span) h
  | inr (ps, e) ↦ rw (e, track_pending_span) h
]

pub drop-IsOrdered :
    (id promise : String) (r : Recorder) → IsOrdered r → IsOrdered (drop_pending_span id promise r)
unfolding drop_pending_span IsOrdered
drop-IsOrdered id promise r h = elim (Option-cases (get id r.pending_spans)) [
  | inl e ↦ rw (e, drop_pending_span) h
  | inr (ps, e) ↦ rw (e, drop_pending_span) h
]

-- the spans of a trace that has an entry
spans_of_some :
    (r : Recorder) (id : String) (spans : List Span)
    → IsOrdered r
    → get id r.active_spans ≡ some spans
    → IsNumbered 1 spans
unfolding IsOrdered
spans_of_some r id spans h e = rw e at (h id)

pub mark-IsOrdered :
    (id : String) (r : Recorder) → IsOrdered r → IsOrdered (mark_pending_spans_not_awaited id r)
unfolding mark_pending_spans_not_awaited IsOrdered
mark-IsOrdered id r h = elim (Option-cases (get id r.active_spans)) [
  | inl e ↦ rw (e, mark_pending_spans_not_awaited) h
  | inr (spans, e) ↦
      rw (e, mark_pending_spans_not_awaited)
        (IsOrdered-set r id (map mark_span spans) h
          (IsNumbered-mark 1 spans (spans_of_some r id spans h e)))
]

pub persist-IsOrdered :
    (t : RuntimeTrace) (r : Recorder) → IsOrdered r → IsOrdered (persist_completed_trace t r)
unfolding persist_completed_trace IsOrdered
persist-IsOrdered t r h = h

module _ (preview_value : Value → Value) where
  pub push_span-IsOrdered :
      (handle : Handle) (input : SpanInput) (span_id : String) (parent : Option String)
      (started now : ℕ) (status : SpanStatus) (outcome : Outcome) (metadata : Metadata)
      (r : Recorder)
      → IsOrdered r
      → IsOrdered (
          push_span preview_value handle input span_id parent started now status outcome metadata r)
  unfolding push_span IsOrdered
  push_span-IsOrdered handle input span_id parent started now status outcome metadata r h =
      IsOrdered-set r handle.trace_id _ h
        (IsNumbered-append 1 (spans_of r handle.trace_id) _ (h handle.trace_id) (omega arith))

  pub update_span-IsOrdered :
      (handle : Handle) (span_id : String) (started now : ℕ) (outcome : Outcome)
      (metadata : Metadata) (r : Recorder)
      → IsOrdered r
      → IsOrdered (update_span preview_value handle span_id started now outcome metadata r)
  unfolding update_span IsOrdered
  update_span-IsOrdered handle span_id started now outcome metadata r h =
      elim (Option-cases (get handle.trace_id r.active_spans)) [
        | inl e ↦ rw (e, update_span) h
        | inr (spans, e) ↦
            rw (e, update_span)
              (IsOrdered-set r handle.trace_id _ h (
                IsNumbered-update span_id (settled_span preview_value started now outcome metadata)
                  (λ s. refl) 1 spans (spans_of_some r handle.trace_id spans h e)))
      ]

  pub complete-IsOrdered :
      (handle : Handle) (now : ℕ) (outcome : Outcome) (r : Recorder)
      → IsOrdered r
      → IsOrdered (complete preview_value handle now outcome r)
  unfolding complete IsOrdered persist_completed_trace
  complete-IsOrdered handle now outcome r h trace_id =
      rw (get-delete handle.trace_id trace_id r.active_spans)
        (elim (Bool-cases (handle.trace_id == trace_id)) [
          | inl same ↦ rw same tt
          | inr other ↦ rw other (h trace_id)
        ])

-- numbered spans are sorted
insert_first :
    (s : Span) (n : ℕ) (spans : List Span)
    → s.order ≤ n
    → IsNumbered n spans
    → insert_by order_le s spans ≡ s ∷ spans
unfolding insert_by
insert_first s n [] le h = refl
insert_first s n (t ∷ spans) le (o, h) =
    let e : leb s.order t.order ≡ true = ground arith in rw e refl

sort_by_of_IsNumbered :
    (n : ℕ) (spans : List Span) → IsNumbered n spans → sort_by order_le spans ≡ spans
unfolding sort_by
sort_by_of_IsNumbered n [] h = refl
sort_by_of_IsNumbered n (s ∷ spans) (o, h) =
    rw (sort_by_of_IsNumbered (suc n) spans h) (insert_first s (suc n) spans (omega (arith, o)) h)

-- the root comes first
pub order_first :
    (root : Span) (spans : List Span)
    → root.order ≡ 0
    → IsNumbered 1 spans
    → sort_by order_le (root ∷ spans) ≡ root ∷ spans
unfolding sort_by
order_first root spans o h =
    rw (sort_by_of_IsNumbered 1 spans h) (insert_first root 1 spans (omega (arith, o)) h)

pub empty-IsOrdered : IsOrdered empty
unfolding IsOrdered get
empty-IsOrdered = λ id. tt

pub IsOrdered-spans : (r : Recorder) (id : String) → IsOrdered r → IsNumbered 1 (spans_of r id)
unfolding IsOrdered
IsOrdered-spans r id h = h id
