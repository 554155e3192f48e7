-- ===== src/Cycles/Sound.antt =====
-- lib/src/graph-output.builder.ts, `findCycles`: what it reports is a cycle, once, under its own id.
use nest_graph_inspector.Prelude.{
  ℕ, zero, suc, ◌+◌, String, ◌==◌, Bool, true, false, ◌≡◌, refl, sym, ap, subst, ◌∙◌, ◌≢◌, ◌↔◌, ◌⊎◌,
  inl, inr, none, some, List, [], ◌∷◌, ◌++◌, map, if◌then◌else◌, head?, last?, All, All-append,
  length, length-append, arith, eq_iff, eq_refl, Bool-cases, or_cases,
}
use mathlib.Core.List.{map-append}
use nest_graph_inspector.Prelude.Maps.{get, keys, is_some-get}
use nest_graph_inspector.Prelude.Sets.{has, IsDistinct, IsDistinct-concat}
use nest_graph_inspector.Graph.{
  Graph, targets, find_reachable_keys, find_path, Adj, Reach, one, more,
}
use nest_graph_inspector.Graph.Paths.{IsChain, IsPath, find_path-IsPath}
use nest_graph_inspector.Graph.Reachable.{find_reachable_keys_iff}
use nest_graph_inspector.Cycles.{
  direct, Cycle, Search, canonical_cycle_key, get_cycle_type, reachable_map, closes_cycle,
  cycle_path, new_cycle, try_edge, scan_targets, scan_sources, find_cycles,
}

-- A reported cycle: a closed path along edges that starts with the edge from `from` to `to`, called
-- direct exactly if that edge is a loop or has an edge back.
pub record IsCycle (g : Graph) (c : Cycle) : Type 0 where
  pub edge : Adj g c.from c.to
  pub chain : IsChain g c.path
  pub first : head? c.path ≡ some c.from
  pub last : last? c.path ≡ some c.from
  pub second : (rest : List String) × (c.path ≡ c.from ∷ c.to ∷ rest)
  pub direct_iff : (c.type ≡ direct) ↔ ((c.from ≡ c.to) ⊎ Adj g c.to c.from)

get-reachable_map :
    (g h : Graph) (k : String)
    → get k (reachable_map g h) ≡ (if has k (keys h) then some (find_reachable_keys g k) else none)
unfolding reachable_map get
get-reachable_map g [] k = refl
get-reachable_map g ((j, ts) ∷ h) k = ground (arith, eq_iff j k, get-reachable_map g h k)

-- A walk starts at a key of the graph.
pub targets_has : (g : Graph) (u v : String) → Adj g u v → has u (keys g) ≡ true
unfolding targets
targets_has g u v a = ground (arith, is_some-get u g)

Reach-has : (g : Graph) {u v : String} → Reach g u v → has u (keys g) ≡ true
Reach-has g (one {v} e) = targets_has g _ v e.0
Reach-has g (more r e) = Reach-has g r

-- The test that an edge closes a cycle is exact.
pub closes_cycle_iff :
    (g : Graph) (u v : String)
    → (closes_cycle (reachable_map g g) u v ≡ true) ↔ ((u ≡ v) ⊎ Reach g v u)
unfolding closes_cycle
closes_cycle_iff g u v = (
  λ c. elim (or_cases _ _ c) [
    | inl same ↦ inl ((eq_iff u v).0 same)
    | inr back ↦ inr ((find_reachable_keys_iff g v u).0 (ground (arith, get-reachable_map g g v)))
  ],
  λ d. elim d [
    | inl same ↦ ground (arith, eq_iff u v)
    | inr back ↦
        let there = Reach-has g back in
        let found = (find_reachable_keys_iff g v u).1 back in
        ground (arith, get-reachable_map g g v)
  ],
)

head?-cons : (p : List String) (v : String) → head? p ≡ some v → (r : List String) × (p ≡ v ∷ r)
head?-cons [] v e = cc
head?-cons (x ∷ r) v e = (r, cc)

-- An edge and a path back, put together.
record IsLoop (g : Graph) (u v : String) (path : List String) : Type 0 where
  chain : IsChain g path
  first : head? path ≡ some u
  last : last? path ≡ some u
  second : (rest : List String) × (path ≡ u ∷ v ∷ rest)

IsLoop-cons :
    (g : Graph) (u v : String) (p : List String) → Adj g u v → IsPath g v u p → IsLoop g u v (u ∷ p)
IsLoop-cons g u v p a h =
    let (r, e) = head?-cons p v h.first in
    let chain : IsChain g (v ∷ r) = rw (← e) h.chain in
    let last : last? (v ∷ r) ≡ some u = rw (← e) h.last in
    rw e (record { chain = (a, chain); first = refl; last = last; second = (r, refl) })

pub filled_key : (g : Graph) (v : String) → has "" (keys g) ≡ false → has v (keys g) ≡ true → v ≢ ""
filled_key g v none_empty there e = cc (subst (λ x. has x (keys g) ≡ true) e there)

cycle_path-IsLoop :
    (g : Graph) (u v : String)
    → has "" (keys g) ≡ false
    → Adj g u v
    → closes_cycle (reachable_map g g) u v ≡ true
    → IsLoop g u v (cycle_path g u v)
unfolding cycle_path
cycle_path-IsLoop g u v filled a c = elim (Bool-cases (u == v)) [
  | inl same ↦
      let e = (eq_iff u v).0 same in
      let loop : Adj g u u = subst (λ x. Adj g u x) (sym e) a in
      rw same (record {
        chain = (loop, tt);
        first = refl;
        last = refl;
        second = ([], ap (λ x. u ∷ x ∷ []) e);
      })
  | inr other ↦ elim ((closes_cycle_iff g u v).0 c) [
    | inl e ↦ absurd (cc ((eq_iff u v).1 e))
    | inr back ↦ rw other (
        IsLoop-cons g u v (find_path g v u) a
          (find_path-IsPath g v u (filled_key g v filled (Reach-has g back)) back))
  ]
]

new_cycle-IsCycle :
    (g : Graph) (id : ℕ) (u v : String)
    → has "" (keys g) ≡ false
    → Adj g u v
    → closes_cycle (reachable_map g g) u v ≡ true
    → IsCycle g (new_cycle g id u v)
unfolding get_cycle_type
new_cycle-IsCycle g id u v filled a c =
    let loop = cycle_path-IsLoop g u v filled a c in
    record {
      edge = a;
      chain = loop.chain;
      first = loop.first;
      last = loop.last;
      second = loop.second;
      direct_iff = ground (arith, eq_iff u v);
    }

-- `[from, from + 1, …]`, `n` of them
abbrev pub count_from : ℕ → ℕ → List ℕ
count_from from zero = []
count_from from (suc n) = from ∷ count_from (suc from) n

count_from-concat : (from n : ℕ) → count_from from (suc n) ≡ count_from from n ++ (n + from) ∷ []
count_from-concat from zero = ap (λ x. x ∷ []) (omega arith)
count_from-concat from (suc n) =
    let e : n + suc from ≡ suc n + from = omega arith in
    ap (◌∷◌ from) (count_from-concat (suc from) n ∙ ap (λ x. count_from (suc from) n ++ x ∷ []) e)

module _ (le : String → String → Bool) (g : Graph) (start : ℕ) where
  -- What holds of the variables of `findCycles` throughout.
  pub record IsValid (s : Search) : Type 0 where
    pub sound : All (IsCycle g) s.cycles
    pub named : map (λ c. canonical_cycle_key le c.path) s.cycles ≡ s.seen
    pub distinct : IsDistinct s.seen
    pub numbered : map (λ c. c.id) s.cycles ≡ count_from start (length s.cycles)
    pub next : s.next_id ≡ length s.cycles + start

  abbrev pub key_of : String → String → String
  key_of u v = canonical_cycle_key le (cycle_path g u v)

  -- the variables after an edge whose cycle is new
  abbrev pub pushed : Search → String → String → Search
  pushed s u v = record {
    next_id = s.next_id + 1;
    cycles = s.cycles ++ new_cycle g s.next_id u v ∷ [];
    seen = s.seen ++ key_of u v ∷ [];
  }

  pushed-IsValid :
      (s : Search) (u v : String)
      → IsCycle g (new_cycle g s.next_id u v)
      → has (key_of u v) s.seen ≡ false
      → IsValid s
      → IsValid (pushed s u v)
  pushed-IsValid s u v cycle new h =
      let c = new_cycle g s.next_id u v in
      let size : length (s.cycles ++ c ∷ []) ≡ suc (length s.cycles) =
        omega (arith, length-append s.cycles (c ∷ [])) in
      record {
        sound = All-append (IsCycle g) s.cycles (c ∷ []) h.sound (cycle, tt);
        named =
            map-append (λ c. canonical_cycle_key le c.path) s.cycles (c ∷ [])
            ∙ ap (λ ks. ks ++ key_of u v ∷ []) h.named;
        distinct = IsDistinct-concat s.seen (key_of u v) h.distinct new;
        numbered =
            map-append (λ c. c.id) s.cycles (c ∷ [])
            ∙ ap (λ is. is ++ s.next_id ∷ []) h.numbered
            ∙ ap (λ i. count_from start (length s.cycles) ++ i ∷ []) h.next
            ∙ sym (count_from-concat start (length s.cycles))
            ∙ ap (count_from start) (sym size);
        next = omega (arith, size);
      }

  pub try_edge-cases :
      (reachable : List (String × List String)) (s : Search) (u v : String)
      → (closes_cycle reachable u v ≡ true)
          × (has (key_of u v) s.seen ≡ false)
          × (try_edge le g reachable u s v ≡ pushed s u v)
        ⊎ ((closes_cycle reachable u v ≡ true) → (has (key_of u v) s.seen ≡ true))
          × (try_edge le g reachable u s v ≡ s)
  unfolding try_edge
  try_edge-cases reachable s u v = elim (Bool-cases (closes_cycle reachable u v)) [
    | inl closes ↦ elim (Bool-cases (has (key_of u v) s.seen)) [
      | inl old ↦ inr ((λ _. old), rw (closes, old) refl)
      | inr new ↦ inl (closes, new, rw (closes, new) refl)
    ]
    | inr open_path ↦ inr ((λ c. cc), rw open_path refl)
  ]

  try_edge-IsValid :
      (s : Search) (u v : String)
      → has "" (keys g) ≡ false
      → Adj g u v
      → IsValid s
      → IsValid (try_edge le g (reachable_map g g) u s v)
  try_edge-IsValid s u v filled a h = elim (try_edge-cases (reachable_map g g) s u v) [
    | inl (closes, new, e) ↦
        rw e (pushed-IsValid s u v (new_cycle-IsCycle g s.next_id u v filled a closes) new h)
    | inr (_, e) ↦ rw e h
  ]

  scan_targets-IsValid :
      (s : Search) (u : String) (ts : List String)
      → has "" (keys g) ≡ false
      → ((v : String) → has v ts ≡ true → Adj g u v)
      → IsValid s
      → IsValid (scan_targets le g (reachable_map g g) u s ts)
  unfolding scan_targets
  scan_targets-IsValid s u [] filled a h = h
  scan_targets-IsValid s u (t ∷ ts) filled a h =
      scan_targets-IsValid (try_edge le g (reachable_map g g) u s t) u ts filled
        (λ v m. a v (ground arith))
        (try_edge-IsValid s u t filled (a t (ground (arith, eq_refl t))) h)

  scan_sources-IsValid :
      (s : Search) (entries : Graph)
      → has "" (keys g) ≡ false
      → All (λ e. (v : String) → has v e.1 ≡ true → Adj g e.0 v) entries
      → IsValid s
      → IsValid (scan_sources le g (reachable_map g g) s entries)
  unfolding scan_sources
  scan_sources-IsValid s [] filled a h = h
  scan_sources-IsValid s ((u, ts) ∷ rest) filled (a, as_) h =
      scan_sources-IsValid (scan_targets le g (reachable_map g g) u s ts) rest filled as_
        (scan_targets-IsValid s u ts filled a h)

targets-cons_self : (u : String) (ts : List String) (h : Graph) → targets ((u, ts) ∷ h) u ≡ ts
unfolding targets get
targets-cons_self u ts h = ground (arith, eq_refl u)

targets-cons_ne :
    (u k : String) (ts : List String) (h : Graph) → u ≢ k → targets ((u, ts) ∷ h) k ≡ targets h k
unfolding targets get
targets-cons_ne u k ts h ne = ground (arith, eq_iff u k)

-- With distinct keys an entry's targets are those of its key.
entries-Adj :
    (g h : Graph)
    → ((k : String) → has k (keys h) ≡ true → targets g k ≡ targets h k)
    → IsDistinct (keys h)
    → All (λ e. (v : String) → has v e.1 ≡ true → Adj g e.0 v) h
entries-Adj g [] same d = tt
entries-Adj g ((u, ts) ∷ h) same (new, d) = (
  λ v m.
      let here = same u (ground (arith, eq_refl u)) in
      subst (λ xs. has v xs ≡ true) (sym (here ∙ targets-cons_self u ts h)) m,
  entries-Adj g h
      (λ k m.
        same k (ground (arith, m))
        ∙ targets-cons_ne u k ts h (λ e. cc (subst (λ x. has x (keys h) ≡ true) (sym e) m)))
      d,
)

-- Every reported cycle is a closed path along edges of the graph, called direct exactly if its first
-- edge is a loop or has an edge back; no two of them have the same canonical key; and their ids count
-- up from the first free id, which the next free id follows. The graph's keys are distinct and none
-- is empty.
pub find_cycles-IsValid :
    (le : String → String → Bool) (g : Graph) (start : ℕ)
    → IsDistinct (keys g)
    → has "" (keys g) ≡ false
    → IsValid le g start (find_cycles le g start)
unfolding find_cycles
find_cycles-IsValid le g start d filled =
    scan_sources-IsValid le g start _ g filled (entries-Adj g g (λ k m. refl) d)
      (record { sound = tt; named = refl; distinct = tt; numbered = refl; next = omega arith })
