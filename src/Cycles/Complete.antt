-- ===== src/Cycles/Complete.antt =====
-- lib/src/graph-output.builder.ts, `findCycles`: no cycle of the graph goes unreported.
use nest_graph_inspector.Prelude.{
  ℕ, String, ◌==◌, Bool, true, false, ◌≡◌, refl, ◌⊎◌, inl, inr, List, [], ◌∷◌, map, In, arith,
  eq_iff, eq_refl, Bool-cases, or_cases,
}
use nest_graph_inspector.Prelude.Maps.{get, keys}
use nest_graph_inspector.Prelude.Sets.{has, IsDistinct, has-concat}
use nest_graph_inspector.Graph.{Graph, targets, Adj, Reach}
use nest_graph_inspector.Cycles.{
  Cycle, Search, canonical_cycle_key, reachable_map, closes_cycle, cycle_path, try_edge,
  scan_targets, scan_sources, find_cycles,
}
use nest_graph_inspector.Cycles.Sound.{
  key_of, try_edge-cases, closes_cycle_iff, find_cycles-IsValid,
}

module _ (le : String → String → Bool) (g : Graph) where
  abbrev reach : List (String × List String)
  reach = reachable_map g g

  try_edge-keeps :
      (s : Search) (u v k : String)
      → has k s.seen ≡ true
      → has k (try_edge le g reach u s v).seen ≡ true
  try_edge-keeps s u v k m = elim (try_edge-cases le g 0 reach s u v) [
    | inl (_, _, e) ↦ rw e (ground (arith, has-concat k (key_of le g 0 u v) s.seen))
    | inr (_, e) ↦ rw e m
  ]

  try_edge-adds :
      (s : Search) (u v : String)
      → closes_cycle reach u v ≡ true
      → has (key_of le g 0 u v) (try_edge le g reach u s v).seen ≡ true
  try_edge-adds s u v c = elim (try_edge-cases le g 0 reach s u v) [
    | inl (_, _, e) ↦ rw e (
        ground (
          arith,
          has-concat (key_of le g 0 u v) (key_of le g 0 u v) s.seen,
          eq_refl (key_of le g 0 u v),
        ))
    | inr (old, e) ↦ rw e (old c)
  ]

  scan_targets-keeps :
      (s : Search) (u k : String) (ts : List String)
      → has k s.seen ≡ true
      → has k (scan_targets le g reach u s ts).seen ≡ true
  unfolding scan_targets
  scan_targets-keeps s u k [] m = m
  scan_targets-keeps s u k (t ∷ ts) m =
      scan_targets-keeps (try_edge le g reach u s t) u k ts (try_edge-keeps s u t k m)

  scan_targets-adds :
      (s : Search) (u v : String) (ts : List String)
      → has v ts ≡ true
      → closes_cycle reach u v ≡ true
      → has (key_of le g 0 u v) (scan_targets le g reach u s ts).seen ≡ true
  unfolding scan_targets
  scan_targets-adds s u v [] m c = cc
  scan_targets-adds s u v (t ∷ ts) m c = elim (or_cases _ _ m) [
    | inl same ↦
        let e = (eq_iff t v).0 same in
        scan_targets-keeps (try_edge le g reach u s t) u (key_of le g 0 u v) ts
          (rw e (try_edge-adds s u v c))
    | inr later ↦ scan_targets-adds (try_edge le g reach u s t) u v ts later c
  ]

  scan_sources-keeps :
      (s : Search) (k : String) (entries : Graph)
      → has k s.seen ≡ true
      → has k (scan_sources le g reach s entries).seen ≡ true
  unfolding scan_sources
  scan_sources-keeps s k [] m = m
  scan_sources-keeps s k ((u, ts) ∷ rest) m =
      scan_sources-keeps (scan_targets le g reach u s ts) k rest (scan_targets-keeps s u k ts m)

  scan_sources-adds :
      (s : Search) (u v : String) (entries : Graph)
      → has v (targets entries u) ≡ true
      → closes_cycle reach u v ≡ true
      → has (key_of le g 0 u v) (scan_sources le g reach s entries).seen ≡ true
  unfolding scan_sources targets get
  scan_sources-adds s u v [] m c = cc
  scan_sources-adds s u v ((k, ts) ∷ rest) m c = elim (Bool-cases (k == u)) [
    | inl same ↦
        let e = (eq_iff k u).0 same in
        let here : has v ts ≡ true = ground (arith, m, same) in
        scan_sources-keeps (scan_targets le g reach k s ts) (key_of le g 0 u v) rest
          (rw e (scan_targets-adds s u v ts here c))
    | inr other ↦
        scan_sources-adds (scan_targets le g reach k s ts) u v rest (ground (arith, m, other)) c
  ]

-- The key is that of one of the cycles.
In-of_has :
    (key : Cycle → String) (x : String) (cs : List Cycle)
    → has x (map key cs) ≡ true
    → (c : Cycle) × In c cs × (key c ≡ x)
In-of_has key x [] m = cc
In-of_has key x (c ∷ cs) m = elim (or_cases _ _ m) [
  | inl same ↦ (c, inl refl, (eq_iff (key c) x).0 same)
  | inr later ↦ let (d, i, e) = In-of_has key x cs later in (d, inr i, e)
]

-- Each edge that closes a cycle, a loop or one that a walk leads back from, is accounted for: some
-- reported cycle has the canonical key of the path that the edge closes. The graph's keys are
-- distinct and none is empty.
pub find_cycles_complete :
    (le : String → String → Bool) (g : Graph) (start : ℕ) (u v : String)
    → IsDistinct (keys g)
    → has "" (keys g) ≡ false
    → Adj g u v
    → (u ≡ v) ⊎ Reach g v u
    → (c : Cycle) × In c (find_cycles le g start).cycles
      × (canonical_cycle_key le c.path ≡ canonical_cycle_key le (cycle_path g u v))
find_cycles_complete le g start u v d filled a back =
    let valid = find_cycles-IsValid le g start d filled in
    let closes = (closes_cycle_iff g u v).1 back in
    let seen : has (key_of le g 0 u v) (find_cycles le g start).seen ≡ true =
      unfold find_cycles in scan_sources-adds le g _ u v g a closes in
    In-of_has (λ c. canonical_cycle_key le c.path) (key_of le g 0 u v)
      (find_cycles le g start).cycles (rw valid.named seen)
