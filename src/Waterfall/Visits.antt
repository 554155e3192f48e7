-- ===== src/Waterfall/Visits.antt =====
-- site/app/utils/trace-waterfall.ts, `buildSpanHierarchy`: what `visit` reaches.
use nest_graph_inspector.Prelude.{
  ℕ, zero, suc, ◌+◌, ◌≤◌, String, ◌==◌, Bool, true, false, not, ◌&&◌, ◌||◌, ◌≡◌, refl, ap, ◌∙◌, inl,
  inr, List, [], ◌∷◌, ◌++◌, arith, length, length-append, eq_iff, Bool-cases, or_cases,
  if◌then◌else◌,
}
use nest_graph_inspector.Prelude.Maps.{get}
use nest_graph_inspector.Prelude.Sets.{has, has-concat, IsDistinct, IsDistinct-concat}
use nest_graph_inspector.Recorder.{Span}
use nest_graph_inspector.Waterfall.{
  WaterfallRow, is_empty, ids_of, children_of, Visit, visits, new_row, visit_all, child_count,
}

abbrev pub row_ids : List WaterfallRow → List String
row_ids [] = []
row_ids (r ∷ rows) = r.span.span_id ∷ row_ids rows

row_ids-concat :
    (rows : List WaterfallRow) (r : WaterfallRow)
    → row_ids (rows ++ r ∷ []) ≡ row_ids rows ++ r.span.span_id ∷ []
row_ids-concat [] r = refl
row_ids-concat (q ∷ rows) r = ap (λ ids. q.span.span_id ∷ ids) (row_ids-concat rows r)

abbrev pub visit_ids : List Visit → List String
visit_ids [] = []
visit_ids (v ∷ pending) = v.span.span_id ∷ visit_ids pending

pub visit_ids-append :
    (u : String) (xs ys : List Visit)
    → has u (visit_ids (xs ++ ys)) ≡ (has u (visit_ids xs) || has u (visit_ids ys))
visit_ids-append u [] ys = refl
visit_ids-append u (x ∷ xs) ys = ground (arith, visit_ids-append u xs ys)

pub visit_ids-visits :
    (u : String) (depth : ℕ) (hidden : Bool) (spans : List Span)
    → has u (visit_ids (visits depth hidden spans)) ≡ has u (ids_of spans)
visit_ids-visits u depth hidden [] = refl
visit_ids-visits u depth hidden (s ∷ spans) = ground (arith, visit_ids-visits u depth hidden spans)

length-visits :
    (depth : ℕ) (hidden : Bool) (spans : List Span)
    → length (visits depth hidden spans) ≡ length spans
length-visits depth hidden [] = refl
length-visits depth hidden (s ∷ spans) = omega (arith, length-visits depth hidden spans)

-- the calls for children that are left
pub remaining : List String → List (String × List Span) → ℕ
remaining visited [] = 0
remaining visited ((k, spans) ∷ rest) =
    (if has k visited then 0 else length spans) + remaining visited rest

pub remaining-nil :
    (children : List (String × List Span)) → remaining [] children ≡ child_count children
unfolding remaining child_count
remaining-nil [] = refl
remaining-nil ((k, spans) ∷ rest) = omega (arith, remaining-nil rest)

remaining-less :
    (visited : List String) (id : String) (children : List (String × List Span))
    → remaining (visited ++ id ∷ []) children ≤ remaining visited children
unfolding remaining
remaining-less visited id [] = omega arith
remaining-less visited id ((k, spans) ∷ rest) =
    ground (arith, remaining-less visited id rest, has-concat k id visited)

remaining-visit :
    (visited : List String) (id : String) (children : List (String × List Span))
    → has id visited ≡ false
    → remaining (visited ++ id ∷ []) children + length (children_of children id)
      ≤ remaining visited children
unfolding remaining get
remaining-visit visited id [] new = omega arith
remaining-visit visited id ((k, spans) ∷ rest) new = elim (Bool-cases (k == id)) [
  | inl same ↦
      let e = (eq_iff k id).0 same in
      ground
        (arith, remaining-less visited id rest, has-concat k id visited, ap (λ x. has x visited) e)
  | inr other ↦ ground (
    arith,
    remaining-visit visited id rest new,
    has-concat k id visited,
    eq_iff id k,
    eq_iff k id,
  )
]

-- no call is below a collapsed span
abbrev IsOpen : List Visit → Type 0
IsOpen [] = Unit
IsOpen (v ∷ pending) = (v.hidden ≡ false) × IsOpen pending

pub IsOpen-append : (xs ys : List Visit) → IsOpen xs → IsOpen ys → IsOpen (xs ++ ys)
IsOpen-append [] ys h k = k
IsOpen-append (x ∷ xs) ys (o, h) k = (o, IsOpen-append xs ys h k)

pub IsOpen-visits :
    (depth : ℕ) (hidden : Bool) (spans : List Span)
    → hidden ≡ false
    → IsOpen (visits depth hidden spans)
IsOpen-visits depth hidden [] h = tt
IsOpen-visits depth hidden (s ∷ spans) h = (h, IsOpen-visits depth hidden spans h)

-- the rows are those of the visited spans, each once
pub record IsShown (visited : List String) (rows : List WaterfallRow) : Type 0 where
  pub distinct : IsDistinct (row_ids rows)
  pub shown : (u : String) → has u (row_ids rows) ≡ has u visited

IsShown-visit :
    (visited : List String) (rows : List WaterfallRow) (r : WaterfallRow)
    → IsShown visited rows
    → has r.span.span_id visited ≡ false
    → IsShown (visited ++ r.span.span_id ∷ []) (rows ++ r ∷ [])
IsShown-visit visited rows r h new = record {
  distinct =
      rw (row_ids-concat rows r)
        (IsDistinct-concat (row_ids rows) r.span.span_id h.distinct (h.shown r.span.span_id ∙ new));
  shown = λ u. rw (row_ids-concat rows r) (
      ground (
        arith,
        has-concat u r.span.span_id (row_ids rows),
        has-concat u r.span.span_id visited,
        h.shown u,
      ));
}

and_false : (b : Bool) → (b && false) ≡ false
and_false true = refl
and_false false = refl

module _ (trace_start : ℕ) (children : List (String × List Span)) where
  pub visit_all-IsShown :
      (fuel : ℕ) (pending : List Visit) (visited : List String) (rows : List WaterfallRow)
      → IsOpen pending
      → IsShown visited rows
      → let end = visit_all trace_start [] children fuel pending visited rows in IsShown end.0 end.1
  unfolding visit_all
  visit_all-IsShown zero pending visited rows o h = h
  visit_all-IsShown (suc fuel) [] visited rows o h = h
  visit_all-IsShown (suc fuel) (v ∷ pending) visited rows (top, o) h =
      let id = v.span.span_id in
      let below = children_of children id in
      elim (Bool-cases (has id visited)) [
        | inl old ↦ rw (old, visit_all) (visit_all-IsShown fuel pending visited rows o h)
        | inr new ↦
            rw (new, top, visit_all)
              (visit_all-IsShown fuel _ _ _
                (IsOpen-append (visits (suc v.depth) _ below) pending
                  (IsOpen-visits (suc v.depth) _ below (and_false (not (is_empty below)))) o)
                (IsShown-visit visited rows (new_row trace_start below _ v) h new))
      ]

  module _ (collapsed_ids : List String) where
    -- enough fuel visits every span of a call
    pub visit_all-visits :
        (u : String) (fuel : ℕ) (pending : List Visit) (visited : List String)
        (rows : List WaterfallRow)
        → length pending + remaining visited children ≤ fuel
        → (has u visited || has u (visit_ids pending)) ≡ true
        → has u (visit_all trace_start collapsed_ids children fuel pending visited rows).0 ≡ true
    unfolding visit_all
    visit_all-visits u zero [] visited rows work m = ground arith
    visit_all-visits u zero (v ∷ pending) visited rows work m = absurd (omega arith)
    visit_all-visits u (suc fuel) [] visited rows work m = ground arith
    visit_all-visits u (suc fuel) (v ∷ pending) visited rows work m =
        let id = v.span.span_id in
        let below = children_of children id in
        elim (Bool-cases (has id visited)) [
          | inl old ↦
              rw (old, visit_all)
                (visit_all-visits u fuel pending visited rows (omega arith)
                  (ground (arith, eq_iff id u)))
          | inr new ↦
              let hide = v.hidden || not (is_empty below) && has id collapsed_ids in
              let deeper = visits (suc v.depth) hide below in
              rw (new, visit_all)
                (visit_all-visits u fuel (deeper ++ pending) (visited ++ id ∷ []) _
                  (omega (
                    arith,
                    length-append deeper pending,
                    length-visits (suc v.depth) hide below,
                    remaining-visit visited id children new,
                  ))
                  (ground (
                    arith,
                    has-concat u id visited,
                    visit_ids-append u deeper pending,
                    visit_ids-visits u (suc v.depth) hide below,
                    eq_iff id u,
                  )))
        ]

    -- only spans of the calls and their children are visited
    module _ (ids : List String)
        (from : (k u : String)
          → has u (ids_of (children_of children k)) ≡ true
          → has u ids ≡ true) where
      pub visit_all-from :
          (fuel : ℕ) (pending : List Visit) (visited : List String) (rows : List WaterfallRow)
          → ((u : String) → has u (visit_ids pending) ≡ true → has u ids ≡ true)
          → ((u : String) → has u visited ≡ true → has u ids ≡ true)
          → (u : String)
          → has u (visit_all trace_start collapsed_ids children fuel pending visited rows).0 ≡ true
          → has u ids ≡ true
      unfolding visit_all
      visit_all-from zero pending visited rows p h = h
      visit_all-from (suc fuel) [] visited rows p h = h
      visit_all-from (suc fuel) (v ∷ pending) visited rows p h =
          let id = v.span.span_id in
          let below = children_of children id in
          elim (Bool-cases (has id visited)) [
            | inl old ↦
                rw (old, visit_all)
                  (visit_all-from fuel pending visited rows (λ u m. p u (ground arith)) h)
            | inr new ↦
                let hide = v.hidden || not (is_empty below) && has id collapsed_ids in
                let deeper = visits (suc v.depth) hide below in
                rw (new, visit_all)
                  (visit_all-from fuel (deeper ++ pending) (visited ++ id ∷ []) _
                    (λ u m.
                      elim (or_cases (has u (visit_ids deeper)) (has u (visit_ids pending))
                        (rw (visit_ids-append u deeper pending) at m)) [
                          | inl child ↦
                              from id u (rw (visit_ids-visits u (suc v.depth) hide below) at child)
                          | inr later ↦ p u (ground arith)
                        ])
                    (λ u m.
                      elim (or_cases (has u visited) (id == u)
                        (rw (has-concat u id visited) at m)) [
                          | inl old ↦ h u old
                          | inr same ↦ p u (ground arith)
                        ]))
          ]
