-- ===== src/Issues/Reachable.antt =====
-- site/app/utils/architecture-issues.ts, `reachableModules`: the modules that imports lead to.
use nest_graph_inspector.Prelude.{
  ℕ, zero, suc, ◌+◌, ◌≤◌, String, ◌==◌, Bool, true, not, ◌&&◌, ◌≡◌, refl, ap, ◌↔◌, ◌⊎◌, inl, inr,
  Option, List, [], ◌∷◌, ◌++◌, filter, length, length-filter-le, arith, eq_iff, eq_refl, Bool-cases,
  or_cases,
}
use nest_graph_inspector.Prelude.Maps.{get, keys}
use nest_graph_inspector.Prelude.Sets.{has, has-concat}
use nest_graph_inspector.Graph.{Graph, targets, edge_count, push_all}
use nest_graph_inspector.Graph.Work.{
  unseen, unseen-nil, unseen-concat, length-push_all, has-push_all,
}
use nest_graph_inspector.Builder.{GraphModules}
use nest_graph_inspector.Builder.Output.{GraphOutput}
use nest_graph_inspector.Issues.{
  imports_of, is_skipped_edge, links, explore, import_count, reachable_modules,
}

-- A walk of any length.
pub data Leads (next : String → List String) (u : String) : String → Type 0 where
  here : Leads next u u
  more : {v w : String} → Leads next u v → has w (next v) ≡ true → Leads next u w

module _ (next : String → List String) (root : String) where
  record IsSound (pending reachable : List String) : Type 0 where
    waiting : (v : String) → has v pending ≡ true → Leads next root v
    collected : (v : String) → has v reachable ≡ true → Leads next root v

  record IsClosed (pending reachable : List String) : Type 0 where
    from_root : (has root reachable ≡ true) ⊎ (has root pending ≡ true)
    from_key :
        (u v : String)
        → has u reachable ≡ true
        → has v (next u) ≡ true
        → (has v reachable ≡ true) ⊎ (has v pending ≡ true)

  IsSound-skip :
      (key : String) (pending reachable : List String)
      → IsSound (key ∷ pending) reachable
      → IsSound pending reachable
  IsSound-skip key pending reachable h = record {
    waiting = λ v m. h.waiting v (ground arith);
    collected = h.collected;
  }

  IsSound-visit :
      (key : String) (pending reachable : List String)
      → IsSound (key ∷ pending) reachable
      → IsSound (push_all (next key) pending) (reachable ++ key ∷ [])
  IsSound-visit key pending reachable h =
      let at = h.waiting key (ground (arith, eq_refl key)) in
      record {
        waiting = λ v m. elim (or_cases _ _ (rw (has-push_all v (next key) pending) at m)) [
          | inl edge ↦ more at edge
          | inr old ↦ h.waiting v (ground arith)
        ];
        collected = λ v m. elim (or_cases _ _ (rw (has-concat v key reachable) at m)) [
          | inl old ↦ h.collected v old
          | inr same ↦ let e = (eq_iff key v).0 same in rw (← e) at
        ];
      }

  IsClosed-skip :
      (key : String) (pending reachable : List String)
      → has key reachable ≡ true
      → IsClosed (key ∷ pending) reachable
      → IsClosed pending reachable
  IsClosed-skip key pending reachable old h = record {
    from_root = ground (arith, h.from_root, eq_iff key root);
    from_key = λ u v m e. ground (arith, h.from_key u v m e, eq_iff key v);
  }

  IsClosed-visit :
      (key : String) (pending reachable : List String)
      → IsClosed (key ∷ pending) reachable
      → IsClosed (push_all (next key) pending) (reachable ++ key ∷ [])
  IsClosed-visit key pending reachable h = record {
    from_root =
        ground
          (arith, h.from_root, has-concat root key reachable, has-push_all root (next key) pending);
    from_key = λ u v m e.
        elim (or_cases (has u reachable) (key == u) (rw (has-concat u key reachable) at m)) [
          | inl old ↦ ground (
            arith,
            h.from_key u v old e,
            has-concat v key reachable,
            has-push_all v (next key) pending,
          )
          | inr same ↦
              let s = (eq_iff key u).0 same in
              let edge : has v (next key) ≡ true = rw s e in
              inr (rw (has-push_all v (next key) pending, edge))
        ];
  }

  explore-IsSound :
      (fuel : ℕ) (pending reachable : List String)
      → IsSound pending reachable
      → (v : String) → has v (explore next fuel pending reachable) ≡ true
      → Leads next root v
  unfolding explore
  explore-IsSound zero pending reachable h = h.collected
  explore-IsSound (suc fuel) [] reachable h = h.collected
  explore-IsSound (suc fuel) (key ∷ pending) reachable h = elim (Bool-cases (has key reachable)) [
    | inl old ↦
        rw old (explore-IsSound fuel pending reachable (IsSound-skip key pending reachable h))
    | inr new ↦ rw new (explore-IsSound fuel _ _ (IsSound-visit key pending reachable h))
  ]

  -- a graph whose targets are what the walk pushes measures the work that is left
  module _ (g : Graph) (same : (n : String) → next n ≡ targets g n) where
    explore-IsClosed :
        (fuel : ℕ) (pending reachable : List String)
        → length pending + unseen g reachable ≤ fuel
        → IsClosed pending reachable
        → IsClosed [] (explore next fuel pending reachable)
    unfolding explore
    explore-IsClosed zero [] reachable work h = h
    explore-IsClosed zero (key ∷ pending) reachable work h = absurd (omega arith)
    explore-IsClosed (suc fuel) [] reachable work h = h
    explore-IsClosed (suc fuel) (key ∷ pending) reachable work h =
        elim (Bool-cases (has key reachable)) [
          | inl old ↦ rw old (
              explore-IsClosed fuel pending reachable (omega arith)
                (IsClosed-skip key pending reachable old h))
          | inr new ↦ rw new (
              explore-IsClosed fuel (push_all (next key) pending) (reachable ++ key ∷ [])
                (omega (
                  arith,
                  length-push_all (next key) pending,
                  ap length (same key),
                  unseen-concat g reachable key new,
                ))
                (IsClosed-visit key pending reachable h))
        ]

    reached :
        (reachable : List String)
        → IsClosed [] reachable
        → {v : String} → Leads next root v
        → has v reachable ≡ true
    reached reachable h here = elim (h.from_root) [ inl m ↦ m | inr m ↦ cc ]
    reached reachable h (more {v} {w} r e) = elim (h.from_key v w (reached reachable h r) e) [
      | inl m ↦ m
      | inr m ↦ cc
    ]

    explore_iff :
        (fuel : ℕ) (v : String)
        → suc (edge_count g) ≤ fuel
        → (has v (explore next fuel (root ∷ []) []) ≡ true) ↔ Leads next root v
    explore_iff fuel v enough = (
      explore-IsSound fuel (root ∷ []) []
          (record {
            waiting = λ u m. let e = (eq_iff root u).0 (ground arith) in rw (← e) here;
            collected = λ u m. cc;
          })
          v,
      reached _ (
          explore-IsClosed fuel (root ∷ []) [] (omega (arith, unseen-nil g))
            (record { from_root = inr (ground (arith, eq_refl root)); from_key = λ u w m e. cc })),
    )

-- the graph of the links
adjacency : (String → String → Bool) → GraphModules → Graph
adjacency keep [] = []
adjacency keep ((name, m) ∷ rest) = (name, filter (keep name) m.imports) ∷ adjacency keep rest

targets-adjacency :
    (keep : String → String → Bool) (modules : GraphModules) (n : String)
    → filter (keep n) (imports_of (get n modules)) ≡ targets (adjacency keep modules) n
unfolding adjacency targets get
targets-adjacency keep [] n = refl
targets-adjacency keep ((name, m) ∷ rest) n = elim (Bool-cases (name == n)) [
  | inl same ↦ let e = (eq_iff name n).0 same in rw same (rw e refl)
  | inr other ↦ rw other (targets-adjacency keep rest n)
]

edge_count-adjacency :
    (keep : String → String → Bool) (modules : GraphModules)
    → edge_count (adjacency keep modules) ≤ import_count modules
unfolding adjacency
edge_count-adjacency keep [] = omega arith
edge_count-adjacency keep ((name, m) ∷ rest) =
    omega (arith, edge_count-adjacency keep rest, length-filter-le (keep name) m.imports)

links-adjacency :
    (modules : GraphModules) (skipped : Option (String × String)) (n : String)
    → links modules skipped n
      ≡ targets
          (adjacency (λ a t. not (is_skipped_edge skipped a t) && has t (keys modules)) modules)
          n
unfolding links
links-adjacency modules skipped n =
    targets-adjacency (λ a t. not (is_skipped_edge skipped a t) && has t (keys modules)) modules n

-- A module is returned exactly when the root is a module of the graph and a chain of imports leads from
-- it to the module; every import of the chain is of a module of the graph and none is the skipped edge.
pub reachable_modules_iff :
    (g : GraphOutput) (skipped : Option (String × String)) (v : String)
    → (has v (reachable_modules g skipped) ≡ true)
      ↔ ((has g.root (keys g.modules) ≡ true) × Leads (links g.modules skipped) g.root v)
unfolding reachable_modules
reachable_modules_iff g skipped v =
    let keep = λ (a t : String). not (is_skipped_edge skipped a t) && has t (keys g.modules) in
    let (to, from) =
      explore_iff (links g.modules skipped) g.root (adjacency keep g.modules)
        (links-adjacency g.modules skipped) (suc (import_count g.modules)) v
        (omega (arith, edge_count-adjacency keep g.modules)) in
    elim (Bool-cases (has g.root (keys g.modules))) [
      | inl there ↦ rw there (λ h. (refl, to h), λ (_, l). from l)
      | inr absent ↦ rw absent (λ h. cc, λ (h, _). cc)
    ]
