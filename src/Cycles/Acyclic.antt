-- ===== src/Cycles/Acyclic.antt =====
-- lib/src/graph-output.builder.ts, `findCycles`: it reports nothing exactly on a graph with no cycle.
use nest_graph_inspector.Prelude.{
  ℕ, String, Bool, false, ◌≡◌, refl, sym, subst, ◌≢◌, ◌↔◌, ◌⊎◌, inl, inr, some, List, [], ◌∷◌, All,
  In, last?,
}
use nest_graph_inspector.Prelude.Maps.{keys}
use nest_graph_inspector.Prelude.Sets.{has, IsDistinct}
use nest_graph_inspector.Graph.{Graph, Adj, Edge, Reach, one, more}
use nest_graph_inspector.Graph.Paths.{IsChain}
use nest_graph_inspector.Cycles.{Cycle, find_cycles}
use nest_graph_inspector.Cycles.Sound.{IsCycle, find_cycles-IsValid, targets_has, filled_key}
use nest_graph_inspector.Cycles.Complete.{find_cycles_complete}

-- A walk begins with an edge.
Reach-first :
    (g : Graph) {u w : String}
    → Reach g u w
    → (v : String) × Adj g u v × ((u ≡ v) ⊎ (v ≡ w) ⊎ Reach g v w)
Reach-first g (one {v = w} e) = (w, e.0, inr (inl refl))
Reach-first g (more {v} {w} r e) =
    let (x, a, rest) = Reach-first g r in
    (
      x,
      a,
      elim rest [
        | inl loop ↦ inl loop
        | inr (inl at) ↦ inr (inr (one (subst (λ y. Edge g y w) (sym at) e)))
        | inr (inr back) ↦ inr (inr (more back e))
      ],
    )

Reach-cons : (g : Graph) {u v w : String} → Edge g u v → Reach g v w → Reach g u w
Reach-cons g e (one f) = more (one e) f
Reach-cons g e (more r f) = more (Reach-cons g e r) f

module _ (g : Graph) (filled : has "" (keys g) ≡ false) where
  -- A chain of two keys or more is a walk: whatever has an edge is not empty.
  Reach-chain :
      (u v w : String) (rest : List String)
      → w ≢ ""
      → IsChain g (u ∷ v ∷ rest)
      → last? (v ∷ rest) ≡ some w
      → Reach g u w
  Reach-chain u v w [] ne (a, _) e = let s : v ≡ w = cc in one (rw s at a, ne)
  Reach-chain u v w (x ∷ rest) ne (a, c) e =
      let nv = filled_key g v filled (targets_has g v x c.0) in
      Reach-cons g (a, nv) (Reach-chain v x w rest ne c e)

  IsCycle-Reach : (c : Cycle) → IsCycle g c → Reach g c.from c.from
  IsCycle-Reach c h =
      let (rest, e) = h.second in
      let nf = filled_key g c.from filled (targets_has g c.from c.to h.edge) in
      Reach-chain c.from c.to c.from rest nf (subst (IsChain g) e h.chain)
        (subst (λ p. last? p ≡ some c.from) e h.last)

-- Nothing is reported exactly when no walk of one edge or more leads from a key back to itself. The
-- graph's keys are distinct and none is empty.
pub find_cycles-nil_iff :
    (le : String → String → Bool) (g : Graph) (start : ℕ)
    → IsDistinct (keys g)
    → has "" (keys g) ≡ false
    → ((find_cycles le g start).cycles ≡ []) ↔ ((u : String) → ¬ Reach g u u)
find_cycles-nil_iff le g start d filled =
    (to, from (find_cycles le g start).cycles (find_cycles-IsValid le g start d filled).sound)
  where
    closing : (u v : String) → (u ≡ v) ⊎ (v ≡ u) ⊎ Reach g v u → (u ≡ v) ⊎ Reach g v u
    closing u v (inl e) = inl e
    closing u v (inr (inl e)) = inl (sym e)
    closing u v (inr (inr r)) = inr r

    to : (find_cycles le g start).cycles ≡ [] → (u : String) → ¬ Reach g u u
    to empty u r =
        let (v, a, back) = Reach-first g r in
        let (c, listed, _) = find_cycles_complete le g start u v d filled a (closing u v back) in
        subst (In c) empty listed

    from : (cs : List Cycle) → All (IsCycle g) cs → ((u : String) → ¬ Reach g u u) → cs ≡ []
    from [] h acyclic = refl
    from (c ∷ cs) (h, _) acyclic = absurd (acyclic c.from (IsCycle-Reach g filled c h))
