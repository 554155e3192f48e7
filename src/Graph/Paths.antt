-- ===== src/Graph/Paths.antt =====
-- lib/src/graph-output.builder.ts, `findPath`: where the target can be reached, the result is a path
-- along edges from the source to the target, and the fallback is not taken.
use nest_graph_inspector.Prelude.{
  ℕ, zero, suc, ◌+◌, ◌≤◌, String, ◌==◌, true, false, ◌||◌, ◌≡◌, sym, ap, ◌∙◌, ◌≢◌, ◌⊎◌, inl, inr,
  refl, Option, none, some, List, [], ◌∷◌, ◌++◌, map, length, arith, eq_iff, eq_refl, length-append,
  Bool-cases, or_cases, last?, head?, last?-concat, Option-cases, length-map, All, All-append,
}
use nest_graph_inspector.Prelude.Sets.{has, has-concat}
use nest_graph_inspector.Graph.{
  Graph, targets, edge_count, follow, find_path, is_skipped, Adj, Edge, Reach, one, more,
}
use nest_graph_inspector.Graph.Work.{unseen, unseen-nil, unseen-concat}

-- Consecutive keys are joined by edges.
abbrev pub IsChain : Graph → List String → Type 0
IsChain g [] = Unit
IsChain g (x ∷ []) = Unit
IsChain g (x ∷ y ∷ xs) = Adj g x y × IsChain g (y ∷ xs)

-- A path from one key to another.
pub record IsPath (g : Graph) (u v : String) (path : List String) : Type 0 where
  pub chain : IsChain g path
  pub first : head? path ≡ some u
  pub last : last? path ≡ some v

IsChain-concat :
    (g : Graph) (path : List String) (u v : String)
    → IsChain g path
    → last? path ≡ some u
    → Adj g u v
    → IsChain g (path ++ v ∷ [])
IsChain-concat g [] u v h e a = tt
IsChain-concat g (x ∷ []) u v h e a = (ground arith, tt)
IsChain-concat g (x ∷ y ∷ xs) u v (b, h) e a = (b, IsChain-concat g (y ∷ xs) u v h e a)

head?-concat :
    (path : List String) (u v : String) → head? path ≡ some u → head? (path ++ v ∷ []) ≡ some u
head?-concat [] u v e = cc
head?-concat (x ∷ path) u v e = e

-- the last keys of the paths
abbrev end_of : Option String → List String → List String
end_of none us = us
end_of (some u) us = u ∷ us

abbrev ends : List (List String) → List String
ends [] = []
ends (path ∷ paths) = end_of (last? path) (ends paths)

has-end_of :
    (x : String) (o : Option String) (us : List String)
    → has x (end_of o us) ≡ true
    → (o ≡ some x) ⊎ (has x us ≡ true)
has-end_of x none us h = inr h
has-end_of x (some u) us h = elim (or_cases _ _ h) [
  | inl same ↦ inl (ap some ((eq_iff u x).0 same))
  | inr m ↦ inr m
]

has-ends-append :
    (v : String) (ps qs : List (List String))
    → has v (ends (ps ++ qs)) ≡ (has v (ends ps) || has v (ends qs))
has-ends-append v [] qs = refl
has-ends-append v (p ∷ ps) qs = ground (arith, has-ends-append v ps qs)

module _ (g : Graph) where
  -- the paths that a visit pushes
  abbrev extend : List String → List String → List (List String)
  extend path = map (λ next. path ++ next ∷ [])

  ends-extend : (path ts : List String) → ends (extend path ts) ≡ ts
  ends-extend path [] = refl
  ends-extend path (t ∷ ts) = rw (last?-concat path t, end_of) (ap (◌∷◌ t) (ends-extend path ts))

  -- A pending path leads from the source along edges.
  abbrev Leads : String → List String → Type 0
  Leads source path = IsChain g path × (head? path ≡ some source)

  Leads-extend :
      (source u : String) (path ts : List String)
      → Leads source path
      → last? path ≡ some u
      → ((t : String) → has t ts ≡ true → Adj g u t)
      → All (Leads source) (extend path ts)
  Leads-extend source u path [] h e a = tt
  Leads-extend source u path (t ∷ ts) h e a = (
    (
      IsChain-concat g path u t h.0 e (a t (ground (arith, eq_refl t))),
      head?-concat path source t h.1,
    ),
    Leads-extend source u path ts h e (λ x m. a x (ground arith)),
  )

  -- What one round does with the path that it takes.
  data Round (fuel : ℕ) (target : String) (path : List String) (pending : List (List String))
      (visited : List String) (result : Option (List String)) : Type 0 where
    skip :
        ((u : String) → last? path ≡ some u → is_skipped u visited ≡ true)
        → result ≡ follow g fuel target pending visited
        → Round fuel target path pending visited result
    finish :
        last? path ≡ some target
        → result ≡ some path
        → Round fuel target path pending visited result
    visit :
        (u : String)
        → last? path ≡ some u
        → is_skipped u visited ≡ false
        → (u == target) ≡ false
        → result ≡ follow g fuel target (pending ++ extend path (targets g u)) (visited ++ u ∷ [])
        → Round fuel target path pending visited result

  round :
      (fuel : ℕ) (target : String) (path : List String) (pending : List (List String))
      (visited : List String)
      → Round fuel target path pending visited (follow g (suc fuel) target (path ∷ pending) visited)
  unfolding follow
  round fuel target path pending visited = elim (Option-cases (last? path)) [
    | inl no_end ↦ skip (λ u e. cc) (rw (no_end, follow))
    | inr (u, at_u) ↦ elim (Bool-cases (is_skipped u visited)) [
      | inl old ↦ skip (λ v e. let s : u ≡ v = cc in rw (← s) old) (ground arith)
      | inr new ↦ elim (Bool-cases (u == target)) [
        | inl same ↦ finish (let s = (eq_iff u target).0 same in rw (← s) at_u) (ground arith)
        | inr other ↦ visit u at_u new other (ground arith)
      ]
    ]
  ]

  follow-IsPath :
      (fuel : ℕ) (source target : String) (pending : List (List String))
      (visited path : List String)
      → All (Leads source) pending
      → follow g fuel target pending visited ≡ some path
      → IsPath g source target path
  follow-IsPath zero source target pending visited path h e = unfold follow in cc
  follow-IsPath (suc fuel) source target [] visited path h e = unfold follow in cc
  follow-IsPath (suc fuel) source target (p ∷ pending) visited path (l, h) e =
      elim (round fuel target p pending visited) [
        | skip _ r ↦ follow-IsPath fuel source target pending visited path h (sym r ∙ e)
        | finish at_target r ↦
            let s : p ≡ path = cc in
            rw (← s) (record { chain = l.0; first = l.1; last = at_target })
        | visit u at_u new other r ↦
            follow-IsPath fuel source target (pending ++ extend p (targets g u)) (visited ++ u ∷ [])
              path
              (All-append (Leads source) pending (extend p (targets g u)) h
                (Leads-extend source u p (targets g u) l at_u (λ t m. m)))
              (sym r ∙ e)
      ]

  -- The source is visited or waits, and so is whatever an edge leads to from a visited key; the target
  -- was not visited.
  record IsClosed (source target : String) (pending : List (List String)) (visited : List String)
      : Type 0 where
    from_source : (has source visited ≡ true) ⊎ (has source (ends pending) ≡ true)
    from_key :
        (u v : String)
        → has u visited ≡ true
        → Edge g u v
        → (has v visited ≡ true) ⊎ (has v (ends pending) ≡ true)
    unmet : has target visited ≡ false

  IsClosed-skip :
      (source target : String) (p : List String) (pending : List (List String))
      (visited : List String)
      → source ≢ ""
      → ((u : String) → last? p ≡ some u → is_skipped u visited ≡ true)
      → IsClosed source target (p ∷ pending) visited
      → IsClosed source target pending visited
  IsClosed-skip source target p pending visited ne old h = record {
    from_source = met source ne h.from_source;
    from_key = λ u v m e. met v e.1 (h.from_key u v m e);
    unmet = h.unmet;
  }
    where
      met :
          (x : String)
          → x ≢ ""
          → (has x visited ≡ true) ⊎ (has x (ends (p ∷ pending)) ≡ true)
          → (has x visited ≡ true) ⊎ (has x (ends pending) ≡ true)
      met x nx (inl m) = inl m
      met x nx (inr m) = elim (has-end_of x (last? p) (ends pending) m) [
        | inl at ↦ inl (ground (arith, old x at, eq_iff x ""))
        | inr w ↦ inr w
      ]

  IsClosed-visit :
      (source target u : String) (p : List String) (pending : List (List String))
      (visited : List String)
      → last? p ≡ some u
      → (u == target) ≡ false
      → IsClosed source target (p ∷ pending) visited
      → IsClosed source target (pending ++ extend p (targets g u)) (visited ++ u ∷ [])
  IsClosed-visit source target u p pending visited at_u other h = record {
    from_source = met source h.from_source;
    from_key = λ x v m e. elim (or_cases _ _ (rw (has-concat x u visited) at m)) [
      | inl old ↦ met v (h.from_key x v old e)
      | inr same ↦
          let s = (eq_iff u x).0 same in
          let edge : has v (targets g u) ≡ true = rw s e.0 in inr (ground (arith, joined v, edge))
    ];
    unmet = ground (arith, has-concat target u visited, h.unmet);
  }
    where
      joined :
          (x : String)
          → has x (ends (pending ++ extend p (targets g u)))
            ≡ (has x (ends pending) || has x (targets g u))
      joined x =
          rw (has-ends-append x pending (extend p (targets g u)), ends-extend p (targets g u)) refl

      met :
          (x : String)
          → (has x visited ≡ true) ⊎ (has x (ends (p ∷ pending)) ≡ true)
          → (has x (visited ++ u ∷ []) ≡ true)
            ⊎ (has x (ends (pending ++ extend p (targets g u))) ≡ true)
      met x (inl m) = inl (ground (arith, has-concat x u visited))
      met x (inr m) = elim (has-end_of x (last? p) (ends pending) m) [
        | inl at ↦ let s : u ≡ x = cc in inl (ground (arith, has-concat x u visited, eq_iff u x))
        | inr w ↦ inr (ground (arith, joined x))
      ]

  follow-IsClosed :
      (fuel : ℕ) (source target : String) (pending : List (List String)) (visited : List String)
      → length pending + unseen g visited ≤ fuel
      → source ≢ ""
      → IsClosed source target pending visited
      → follow g fuel target pending visited ≡ none
      → (final : List String) × IsClosed source target [] final
  follow-IsClosed zero source target [] visited work ne h e = (visited, h)
  follow-IsClosed zero source target (p ∷ pending) visited work ne h e = absurd (omega arith)
  follow-IsClosed (suc fuel) source target [] visited work ne h e = (visited, h)
  follow-IsClosed (suc fuel) source target (p ∷ pending) visited work ne h e =
      elim (round fuel target p pending visited) [
        | skip old r ↦
            follow-IsClosed fuel source target pending visited (omega arith) ne
              (IsClosed-skip source target p pending visited ne old h) (sym r ∙ e)
        | finish at_target r ↦ cc
        | visit u at_u new other r ↦
            let costs = unseen-concat g visited u (ground arith) in
            follow-IsClosed fuel source target (pending ++ extend p (targets g u))
              (visited ++ u ∷ [])
              (omega (
                arith,
                costs,
                length-append pending (extend p (targets g u)),
                length-map (λ next. p ++ next ∷ []) (targets g u),
              ))
              ne (IsClosed-visit source target u p pending visited at_u other h) (sym r ∙ e)
      ]

  unmet_walk :
      (source target : String) (visited : List String)
      → IsClosed source target [] visited
      → {v : String} → Reach g source v
      → has v visited ≡ true
  unmet_walk source target visited h (one {v} e) = elim (h.from_source) [
    | inl m ↦ elim (h.from_key source v m e) [ inl n ↦ n | inr n ↦ cc ]
    | inr m ↦ cc
  ]
  unmet_walk source target visited h (more {v} {w} r e) =
      elim (h.from_key v w (unmet_walk source target visited h r) e) [ inl m ↦ m | inr m ↦ cc ]

module _ (g : Graph) (source target : String) where
  abbrev search : Option (List String)
  search = follow g (suc (edge_count g)) target ((source ∷ []) ∷ []) []

  IsClosed-start : IsClosed g source target ((source ∷ []) ∷ []) []
  IsClosed-start = record {
    from_source = inr (ground (arith, eq_refl source));
    from_key = λ u v m e. cc;
    unmet = refl;
  }

  search-ne-none : source ≢ "" → Reach g source target → search ≢ none
  search-ne-none ne r e =
      let (final, closed) =
        follow-IsClosed g (suc (edge_count g)) source target ((source ∷ []) ∷ []) []
          (omega (arith, unseen-nil g)) ne IsClosed-start e in
      cc (unmet_walk g source target final closed r, closed.unmet)

-- If the source is not the empty key and a walk leads from it to the target, `findPath` returns a
-- path along edges from the source to the target.
pub find_path-IsPath :
    (g : Graph) (source target : String)
    → source ≢ ""
    → Reach g source target
    → IsPath g source target (find_path g source target)
unfolding find_path
find_path-IsPath g source target ne r = elim (Option-cases (search g source target)) [
  | inl lost ↦ absurd (search-ne-none g source target ne r lost)
  | inr (path, found) ↦ rw found (
      follow-IsPath g (suc (edge_count g)) source target ((source ∷ []) ∷ []) [] path
        ((tt, refl), tt) found)
]
