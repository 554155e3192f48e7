-- ===== src/Recorder/Persist.antt =====
-- lib/src/runtime-trace.recorder.ts, `persistCompletedTrace`: the map keeps the traces that came last.
use nest_graph_inspector.Prelude.{
  ℕ, zero, suc, ◌-◌, ◌≤◌, String, ◌==◌, true, false, ◌||◌, ◌≡◌, refl, sym, ap, ◌∙◌, some, eq_refl,
  List, [], ◌∷◌, ◌++◌, arith, length, length-append, eq_iff, Bool-cases, leb, inl, inr,
}
use nest_graph_inspector.Prelude.Maps.{set, delete, keys, get}
use nest_graph_inspector.Prelude.Sets.{has}
use nest_graph_inspector.Recorder.{
  RuntimeTrace, Recorder, drop_oldest, persist_completed_trace, max_completed_traces,
}

module _ {A : Type 0} where
  abbrev pub drop : ℕ → List A → List A
  drop zero xs = xs
  drop (suc n) [] = []
  drop (suc n) (x ∷ xs) = drop n xs

  -- the last hundred
  unfoldable pub newest : List A → List A
  newest xs = drop (length xs - max_completed_traces) xs

  pub drop-append : (n : ℕ) (xs ys : List A) → n ≤ length xs → drop n (xs ++ ys) ≡ drop n xs ++ ys
  drop-append zero xs ys h = refl
  drop-append (suc n) [] ys h = absurd (omega arith)
  drop-append (suc n) (x ∷ xs) ys h = drop-append n xs ys (omega arith)

  drop-drop : (n : ℕ) (xs : List A) → drop 1 (drop n xs) ≡ drop (suc n) xs
  drop-drop zero xs = refl
  drop-drop (suc n) [] = refl
  drop-drop (suc n) (x ∷ xs) = drop-drop n xs

  length-drop : (n : ℕ) (xs : List A) → length (drop n xs) ≡ length xs - n
  length-drop zero xs = omega arith
  length-drop (suc n) [] = omega arith
  length-drop (suc n) (x ∷ xs) = omega (arith, length-drop n xs)

  pub length-newest-le : (xs : List A) → length (newest xs) ≤ max_completed_traces
  unfolding newest
  length-newest-le xs = omega (arith, length-drop (length xs - max_completed_traces) xs)

  newest_of_le : (xs : List A) → length xs ≤ max_completed_traces → newest xs ≡ xs
  unfolding newest
  newest_of_le xs h =
      let e : length xs - max_completed_traces ≡ 0 = omega arith in ap (λ n. drop n xs) e

  newest-cons : (x : A) (xs : List A) → length xs ≡ max_completed_traces → newest (x ∷ xs) ≡ xs
  unfolding newest
  newest-cons x xs h =
      let e : length (x ∷ xs) - max_completed_traces ≡ 1 = omega arith in
      ap (λ n. drop n (x ∷ xs)) e

  pub newest-newest : (xs : List A) (x : A) → newest (newest xs ++ x ∷ []) ≡ newest (xs ++ x ∷ [])
  unfolding newest
  newest-newest xs x = elim (Bool-cases (leb (length xs) max_completed_traces)) [
    | inl few ↦ ap (λ ys. newest (ys ++ x ∷ [])) (newest_of_le xs (ground arith))
    | inr many ↦
        let k = length xs - max_completed_traces in
        let low : k ≤ length xs = omega arith in
        let ys = drop k xs in
        let one : length (ys ++ x ∷ []) - max_completed_traces ≡ 1 =
          ground (arith, length-append ys (x ∷ []), length-drop k xs) in
        let all : length (xs ++ x ∷ []) - max_completed_traces ≡ suc k =
          ground (arith, length-append xs (x ∷ [])) in
        ap (λ n. drop n (ys ++ x ∷ [])) one
        ∙ (ap (drop 1) (sym (drop-append k xs (x ∷ []) low))
            ∙ (drop-drop k (xs ++ x ∷ []) ∙ ap (λ n. drop n (xs ++ x ∷ [])) (sym all)))
  ]

-- the traces under their ids
abbrev pub entries : List RuntimeTrace → List (String × RuntimeTrace)
entries [] = []
entries (t ∷ ts) = (t.trace_id, t) ∷ entries ts

-- an id that no trace has; ids are not empty
abbrev pub IsFresh : String → List (String × RuntimeTrace) → Type 0
IsFresh id m = (has id (keys m) ≡ false) × ((id == "") ≡ false)

-- distinct ids, none of them empty
abbrev pub IsNamed : List (String × RuntimeTrace) → Type 0
IsNamed [] = Unit
IsNamed ((k, _) ∷ m) = IsFresh k m × IsNamed m

set_of_fresh :
    (k : String) (t : RuntimeTrace) (m : List (String × RuntimeTrace))
    → has k (keys m) ≡ false
    → set k t m ≡ m ++ (k, t) ∷ []
unfolding set
set_of_fresh k t [] h = refl
set_of_fresh k t ((j, u) ∷ m) h =
    let apart : (j == k) ≡ false = ground arith in
    rw apart (ap (λ r. (j, u) ∷ r) (set_of_fresh k t m (ground arith)))

delete_of_fresh :
    (k : String) (m : List (String × RuntimeTrace)) → has k (keys m) ≡ false → delete k m ≡ m
unfolding delete
delete_of_fresh k [] h = refl
delete_of_fresh k ((j, u) ∷ m) h =
    let apart : (j == k) ≡ false = ground arith in
    rw apart (ap (λ r. (j, u) ∷ r) (delete_of_fresh k m (ground arith)))

delete_first :
    (k : String) (t : RuntimeTrace) (m : List (String × RuntimeTrace))
    → has k (keys m) ≡ false
    → delete k ((k, t) ∷ m) ≡ m
unfolding delete
delete_first k t m h = rw ((eq_iff k k).1 refl) (delete_of_fresh k m h)

-- the loop at rest
drop_oldest_of_le :
    (fuel : ℕ) (m : List (String × RuntimeTrace))
    → length m ≤ max_completed_traces
    → drop_oldest fuel m ≡ m
unfolding drop_oldest
drop_oldest_of_le zero m h = refl
drop_oldest_of_le (suc fuel) [] h = refl
drop_oldest_of_le (suc fuel) ((k, t) ∷ m) h =
    let e : leb (length ((k, t) ∷ m)) max_completed_traces ≡ true = ground arith in rw e refl

drop_oldest_lem :
    (fuel : ℕ) (m : List (String × RuntimeTrace))
    → IsNamed m
    → length m ≤ suc max_completed_traces
    → 1 ≤ fuel
    → drop_oldest fuel m ≡ newest m
unfolding drop_oldest
drop_oldest_lem zero m named short some_fuel = absurd (omega arith)
drop_oldest_lem (suc fuel) [] named short some_fuel = sym (newest_of_le [] (omega arith))
drop_oldest_lem (suc fuel) ((k, t) ∷ m) ((fresh, filled), named) short some_fuel =
    elim (Bool-cases (leb (length ((k, t) ∷ m)) max_completed_traces)) [
      | inl few ↦ rw few (sym (newest_of_le ((k, t) ∷ m) (ground arith)))
      | inr many ↦
          let full : length m ≡ max_completed_traces = ground arith in
          rw (many, filled, delete_first k t m fresh)
            (drop_oldest_of_le fuel m (omega arith) ∙ sym (newest-cons (k, t) m full))
    ]

has-keys-append :
    (m : List (String × RuntimeTrace)) (j k : String) (t : RuntimeTrace)
    → has j (keys (m ++ (k, t) ∷ [])) ≡ (has j (keys m) || k == j)
has-keys-append [] j k t = ground arith
has-keys-append ((i, u) ∷ m) j k t = ground (arith, has-keys-append m j k t)

IsNamed-append :
    (m : List (String × RuntimeTrace)) (k : String) (t : RuntimeTrace)
    → IsNamed m
    → IsFresh k m
    → IsNamed (m ++ (k, t) ∷ [])
IsNamed-append [] k t named fresh = ((refl, fresh.1), tt)
IsNamed-append ((j, u) ∷ m) k t ((new, filled), named) (fresh, other) = (
  (ground (arith, has-keys-append m j k t, eq_iff j k, eq_iff k j), filled),
  IsNamed-append m k t named (ground arith, other),
)

IsNamed-drop : (n : ℕ) (m : List (String × RuntimeTrace)) → IsNamed m → IsNamed (drop n m)
IsNamed-drop zero m h = h
IsNamed-drop (suc n) [] h = tt
IsNamed-drop (suc n) (x ∷ m) (_, h) = IsNamed-drop n m h

IsFresh-drop :
    (n : ℕ) (m : List (String × RuntimeTrace)) (k : String)
    → has k (keys m) ≡ false
    → has k (keys (drop n m)) ≡ false
IsFresh-drop zero m k h = h
IsFresh-drop (suc n) [] k h = h
IsFresh-drop (suc n) ((j, u) ∷ m) k h = IsFresh-drop n m k (ground arith)

entries-append :
    (h : List RuntimeTrace) (t : RuntimeTrace)
    → entries (h ++ t ∷ []) ≡ entries h ++ (t.trace_id, t) ∷ []
entries-append [] t = refl
entries-append (u ∷ h) t = ap (λ m. (u.trace_id, u) ∷ m) (entries-append h t)

-- The map holds the last hundred of the traces that were persisted, in their order.
pub record IsLatest (persisted : List RuntimeTrace) (r : Recorder) : Type 0 where
  pub kept : r.completed_traces ≡ newest (entries persisted)
  pub named : IsNamed (entries persisted)

persist-newest :
    (m : List (String × RuntimeTrace)) (k : String) (t : RuntimeTrace)
    → IsNamed m
    → IsFresh k m
    → let traces = set k t (newest m) in
      drop_oldest (length traces) traces ≡ newest (m ++ (k, t) ∷ [])
unfolding newest
persist-newest m k t named (fresh, filled) =
    let old = newest m in
    let e = set_of_fresh k t old (IsFresh-drop (length m - max_completed_traces) m k fresh) in
    let next = old ++ (k, t) ∷ [] in
    let named_next =
      IsNamed-append old k t (IsNamed-drop (length m - max_completed_traces) m named)
        (IsFresh-drop (length m - max_completed_traces) m k fresh, filled) in
    rw e (
      drop_oldest_lem (length next) next named_next
        (omega (arith, length-append old ((k, t) ∷ []), length-newest-le m))
        (omega (arith, length-append old ((k, t) ∷ [])))
      ∙ newest-newest m (k, t))

pub persist_completed_trace-IsLatest :
    (persisted : List RuntimeTrace) (r : Recorder) (t : RuntimeTrace)
    → IsLatest persisted r
    → IsFresh t.trace_id (entries persisted)
    → IsLatest (persisted ++ t ∷ []) (persist_completed_trace t r)
unfolding persist_completed_trace
persist_completed_trace-IsLatest persisted r t h fresh = record {
  kept =
      rw (h.kept) (persist-newest (entries persisted) t.trace_id t h.named fresh)
      ∙ sym (ap newest (entries-append persisted t));
  named =
      rw (entries-append persisted t)
        (IsNamed-append (entries persisted) t.trace_id t h.named fresh);
}

get-append_of_fresh :
    (m : List (String × RuntimeTrace)) (k : String) (t : RuntimeTrace)
    → has k (keys m) ≡ false
    → get k (m ++ (k, t) ∷ []) ≡ some t
unfolding get
get-append_of_fresh [] k t h = rw (eq_refl k) refl
get-append_of_fresh ((j, u) ∷ m) k t h =
    let apart : (j == k) ≡ false = ground arith in
    rw apart (get-append_of_fresh m k t (ground arith))

-- the trace that came last is found
pub get-newest :
    (h : List RuntimeTrace) (t : RuntimeTrace)
    → IsFresh t.trace_id (entries h)
    → get t.trace_id (newest (entries (h ++ t ∷ []))) ≡ some t
unfolding newest
get-newest h t (fresh, _) =
    let m = entries h in
    let n = length (m ++ (t.trace_id, t) ∷ []) - max_completed_traces in
    let low : n ≤ length m = omega (arith, length-append m ((t.trace_id, t) ∷ [])) in
    ap (λ e. get t.trace_id (newest e)) (entries-append h t)
    ∙ (ap (get t.trace_id) (drop-append n m ((t.trace_id, t) ∷ []) low)
        ∙ get-append_of_fresh (drop n m) t.trace_id t (IsFresh-drop n m t.trace_id fresh))
