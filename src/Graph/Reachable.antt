-- ===== src/Graph/Reachable.antt =====
-- lib/src/graph-output.builder.ts, `findReachableKeys`: the keys that it returns are those at the end
-- of a walk.
use nest_graph_inspector.Prelude.{
  ℕ, zero, suc, ◌+◌, ◌≤◌, String, ◌==◌, true, false, ◌≡◌, ◌≢◌, ◌↔◌, ◌⊎◌, inl, inr, List, [], ◌∷◌,
  ◌++◌, length, arith, eq_iff, eq_refl, Bool-cases, or_cases,
}
use nest_graph_inspector.Prelude.Sets.{has, has-concat}
use nest_graph_inspector.Graph.{
  Graph, targets, edge_count, push_all, drain, find_reachable_keys, is_skipped, Edge, Reach, one,
  more,
}
use nest_graph_inspector.Graph.Work.{
  unseen, unseen-nil, unseen-concat, length-push_all, has-push_all,
}

module _ (g : Graph) (source : String) where
  -- What holds of the stack and of the keys collected so far.
  record IsSound (pending reachable : List String) : Type 0 where
    waiting : (v : String) → has v pending ≡ true → v ≢ "" → Reach g source v
    collected : (v : String) → has v reachable ≡ true → Reach g source v
    filled : (v : String) → has v reachable ≡ true → v ≢ ""

  -- Every edge that leaves the source or a collected key leads to a key that is collected or waits.
  record IsClosed (pending reachable : List String) : Type 0 where
    from_source : (v : String) → Edge g source v → (has v reachable ≡ true) ⊎ (has v pending ≡ true)
    from_key :
        (u v : String)
        → has u reachable ≡ true
        → Edge g u v
        → (has v reachable ≡ true) ⊎ (has v pending ≡ true)

  IsSound-skip :
      (key : String) (pending reachable : List String)
      → IsSound (key ∷ pending) reachable
      → IsSound pending reachable
  IsSound-skip key pending reachable h = record {
    waiting = λ v m. h.waiting v (ground arith);
    collected = h.collected;
    filled = h.filled;
  }

  not_skipped :
      (key : String) (reachable : List String)
      → is_skipped key reachable ≡ false
      → (key ≢ "") × (has key reachable ≡ false)
  not_skipped key reachable h = ground (arith, eq_iff key "")

  IsSound-visit :
      (key : String) (pending reachable : List String)
      → is_skipped key reachable ≡ false
      → IsSound (key ∷ pending) reachable
      → IsSound (push_all (targets g key) pending) (reachable ++ key ∷ [])
  IsSound-visit key pending reachable new h =
      let (ne, _) = not_skipped key reachable new in
      let here = h.waiting key (ground (arith, eq_refl key)) ne in
      record {
        waiting = λ v m nv. elim (or_cases _ _ (rw (has-push_all v (targets g key) pending) at m)) [
          | inl edge ↦ more here (edge, nv)
          | inr old ↦ h.waiting v (ground arith) nv
        ];
        collected = λ v m. elim (or_cases _ _ (rw (has-concat v key reachable) at m)) [
          | inl old ↦ h.collected v old
          | inr same ↦ let e = (eq_iff key v).0 same in rw (← e) here
        ];
        filled = λ v m. elim (or_cases _ _ (rw (has-concat v key reachable) at m)) [
          | inl old ↦ h.filled v old
          | inr same ↦ let e = (eq_iff key v).0 same in rw (← e) ne
        ];
      }

  IsClosed-skip :
      (key : String) (pending reachable : List String)
      → is_skipped key reachable ≡ true
      → IsClosed (key ∷ pending) reachable
      → IsClosed pending reachable
  IsClosed-skip key pending reachable old h = record {
    from_source = λ v e. ground (arith, h.from_source v e, eq_iff key v, eq_iff key "");
    from_key = λ u v m e. ground (arith, h.from_key u v m e, eq_iff key v, eq_iff key "");
  }

  IsClosed-visit :
      (key : String) (pending reachable : List String)
      → IsClosed (key ∷ pending) reachable
      → IsClosed (push_all (targets g key) pending) (reachable ++ key ∷ [])
  IsClosed-visit key pending reachable h = record {
    from_source = λ v e. ground (
      arith,
      h.from_source v e,
      has-concat v key reachable,
      has-push_all v (targets g key) pending,
    );
    from_key = λ u v m e.
        elim (or_cases (has u reachable) (key == u) (rw (has-concat u key reachable) at m)) [
          | inl old ↦ ground (
            arith,
            h.from_key u v old e,
            has-concat v key reachable,
            has-push_all v (targets g key) pending,
          )
          | inr same ↦
              let s = (eq_iff key u).0 same in
              let edge : has v (targets g key) ≡ true = rw s (e.0) in
              inr (rw (has-push_all v (targets g key) pending, edge))
        ];
  }

  drain-IsSound :
      (fuel : ℕ) (pending reachable : List String)
      → IsSound pending reachable
      → (v : String) → has v (drain g fuel pending reachable) ≡ true
      → Reach g source v
  unfolding drain
  drain-IsSound zero pending reachable h = h.collected
  drain-IsSound (suc fuel) [] reachable h = h.collected
  drain-IsSound (suc fuel) (key ∷ pending) reachable h =
      elim (Bool-cases (is_skipped key reachable)) [
        | inl old ↦
            rw old (drain-IsSound fuel pending reachable (IsSound-skip key pending reachable h))
        | inr new ↦ rw new (drain-IsSound fuel _ _ (IsSound-visit key pending reachable new h))
      ]

  drain-IsClosed :
      (fuel : ℕ) (pending reachable : List String)
      → length pending + unseen g reachable ≤ fuel
      → IsClosed pending reachable
      → IsClosed [] (drain g fuel pending reachable)
  unfolding drain
  drain-IsClosed zero [] reachable work h = h
  drain-IsClosed zero (key ∷ pending) reachable work h = absurd (omega arith)
  drain-IsClosed (suc fuel) [] reachable work h = h
  drain-IsClosed (suc fuel) (key ∷ pending) reachable work h =
      elim (Bool-cases (is_skipped key reachable)) [
        | inl old ↦ rw old (
            drain-IsClosed fuel pending reachable (omega arith)
              (IsClosed-skip key pending reachable old h))
        | inr new ↦ rw new (
            drain-IsClosed fuel (push_all (targets g key) pending) (reachable ++ key ∷ [])
              (omega (
                arith,
                length-push_all (targets g key) pending,
                unseen-concat g reachable key (not_skipped key reachable new).1,
              ))
              (IsClosed-visit key pending reachable h))
      ]

module _ (g : Graph) (source : String) where
  abbrev start : List String
  start = push_all (targets g source) []

  IsSound-start : IsSound g source start []
  IsSound-start = record {
    waiting = λ v m ne. one (ground (arith, has-push_all v (targets g source) []), ne);
    collected = λ v m. cc;
    filled = λ v m. cc;
  }

  IsClosed-start : IsClosed g source start []
  IsClosed-start = record {
    from_source = λ v e. inr (ground (arith, has-push_all v (targets g source) []));
    from_key = λ u v m e. cc;
  }

  work : length start + unseen g [] ≤ length (targets g source) + edge_count g
  work = omega (arith, length-push_all (targets g source) [], unseen-nil g)

  reached :
      (reachable : List String)
      → IsClosed g source [] reachable
      → {v : String} → Reach g source v
      → has v reachable ≡ true
  reached reachable h (one {v} e) = elim (h.from_source v e) [ inl m ↦ m | inr m ↦ cc ]
  reached reachable h (more {v} {w} r e) = elim (h.from_key v w (reached reachable h r) e) [
    | inl m ↦ m
    | inr m ↦ cc
  ]

-- A key is returned exactly when a walk of one edge or more leads to it from the source: the loop
-- ends within its fuel, finds every such key and no other. A walk here enters no empty key.
pub find_reachable_keys_iff :
    (g : Graph) (source v : String)
    → (has v (find_reachable_keys g source) ≡ true) ↔ Reach g source v
unfolding find_reachable_keys
find_reachable_keys_iff g source v = (
  drain-IsSound g source (length (targets g source) + edge_count g) (start g source) []
      (IsSound-start g source) v,
  reached g source _ (
      drain-IsClosed g source (length (targets g source) + edge_count g) (start g source) []
        (work g source) (IsClosed-start g source)),
)
