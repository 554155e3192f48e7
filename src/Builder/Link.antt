-- ===== src/Builder/Link.antt =====
-- lib/src/graph-output.builder.ts: which edges the loops of `findModuleCycles` and
-- `addDependencyEdges` add.
use nest_graph_inspector.Prelude.{
  String, ◌==◌, true, ◌&&◌, ◌||◌, ◌≡◌, refl, sym, ap, ◌∙◌, ◌↔◌, ◌⊎◌, inl, inr, some, List, [], ◌∷◌,
  arith, eq_iff, Bool-cases, Option-cases, or_cases, In,
}
use nest_graph_inspector.Prelude.Maps.{
  get, set, keys, get-set, is_some-get, keys-set_of_has, has-keys-set, IsDistinct-keys-set,
}
use nest_graph_inspector.Prelude.Sets.{has, add, has-add, IsDistinct}
use nest_graph_inspector.Graph.{Graph, targets, create_from, create_graph, Adj}
use nest_graph_inspector.Builder.{add_edges, add_all_edges}

has_of_get : (k : String) (g : Graph) (ts : List String) → get k g ≡ some ts → has k (keys g) ≡ true
has_of_get k g ts e = ground (arith, is_some-get k g)

-- One edge more.
abbrev with_edge : Graph → String → List String → String → Graph
with_edge g source ts target = set source (add target ts) g

targets-with_edge :
    (g : Graph) (source target u v : String) (ts : List String)
    → get source g ≡ some ts
    → has v (targets (with_edge g source ts target) u)
      ≡ (has v (targets g u) || source == u && target == v)
unfolding targets
targets-with_edge g source target u v ts e =
    ground (arith, get-set source u (add target ts) g, has-add v target ts, eq_iff source u)

pub keys-add_edges :
    (g : Graph) (source : String) (cs nodes : List String)
    → keys (add_edges g source cs nodes) ≡ keys g
unfolding add_edges
keys-add_edges g source [] nodes = refl
keys-add_edges g source (c ∷ cs) nodes = elim (Option-cases (get source g)) [
  | inl missing ↦ rw (missing, add_edges) refl
  | inr (ts, found) ↦ elim (Bool-cases (has c nodes)) [
    | inl node ↦
        rw (found, add_edges, node)
          (keys-add_edges (with_edge g source ts c) source cs nodes
            ∙ keys-set_of_has source (add c ts) g (has_of_get source g ts found))
    | inr other ↦ rw (found, add_edges, other) (keys-add_edges g source cs nodes)
  ]
]

pub has-targets-add_edges :
    (g : Graph) (source u v : String) (cs nodes : List String)
    → has v (targets (add_edges g source cs nodes) u)
      ≡ (has v (targets g u) || source == u && (has u (keys g) && (has v cs && has v nodes)))
unfolding add_edges targets
has-targets-add_edges g source u v [] nodes = ground arith
has-targets-add_edges g source u v (c ∷ cs) nodes = elim (Option-cases (get source g)) [
  | inl missing ↦
      rw (missing, add_edges) (ground (arith, eq_iff source u, is_some-get source g, missing))
  | inr (ts, found) ↦
      let there = has_of_get source g ts found in
      elim (Bool-cases (has c nodes)) [
        | inl node ↦
            let g' = with_edge g source ts c in
            let kept : has u (keys g') ≡ has u (keys g) =
              ap (has u) (keys-set_of_has source (add c ts) g there) in
            rw (found, add_edges, node)
              (ground (
                arith,
                has-targets-add_edges g' source u v cs nodes,
                targets-with_edge g source c u v ts found,
                kept,
                eq_iff source u,
                eq_iff c v,
              ))
        | inr other ↦
            rw (found, add_edges, other)
              (ground (arith, has-targets-add_edges g source u v cs nodes, eq_iff c v))
      ]
]

pub keys-add_all_edges :
    (g : Graph) (entries : List (String × List String)) (nodes : List String)
    → keys (add_all_edges g entries nodes) ≡ keys g
unfolding add_all_edges
keys-add_all_edges g [] nodes = refl
keys-add_all_edges g ((source, cs) ∷ rest) nodes =
    keys-add_all_edges (add_edges g source cs nodes) rest nodes ∙ keys-add_edges g source cs nodes

-- A candidate of the key, in some entry.
pub record IsCandidate (entries : List (String × List String)) (u v : String) : Type 0 where
  pub candidates : List String
  pub entry : In (u, candidates) entries
  pub listed : has v candidates ≡ true

IsCandidate-cons :
    {e : String × List String} {rest : List (String × List String)} {u v : String}
    → IsCandidate rest u v
    → IsCandidate (e ∷ rest) u v
IsCandidate-cons c = record { candidates = c.candidates; entry = inr c.entry; listed = c.listed }

Adj-add_all_edges :
    (g : Graph) (entries : List (String × List String)) (nodes : List String) (u v : String)
    → Adj (add_all_edges g entries nodes) u v
    → Adj g u v ⊎ (IsCandidate entries u v × (has u (keys g) ≡ true) × (has v nodes ≡ true))
unfolding add_all_edges
Adj-add_all_edges g [] nodes u v a = inl a
Adj-add_all_edges g ((source, cs) ∷ rest) nodes u v a =
    elim (Adj-add_all_edges (add_edges g source cs nodes) rest nodes u v a) [
      | inl b ↦ elim (or_cases _ _ (rw (has-targets-add_edges g source u v cs nodes) at b)) [
        | inl old ↦ inl old
        | inr new ↦
            let same : source ≡ u = (eq_iff source u).0 (ground arith) in
            inr (
              record {
                candidates = cs;
                entry = inl (ap (λ x. (x, cs)) (sym same));
                listed = ground arith;
              },
              ground arith,
              ground arith,
            )
      ]
      | inr (c, node, target) ↦
          inr (IsCandidate-cons c, rw (← keys-add_edges g source cs nodes) node, target)
    ]

add_all_edges-keeps :
    (g : Graph) (entries : List (String × List String)) (nodes : List String) (u v : String)
    → Adj g u v
    → Adj (add_all_edges g entries nodes) u v
unfolding add_all_edges
add_all_edges-keeps g [] nodes u v a = a
add_all_edges-keeps g ((source, cs) ∷ rest) nodes u v a =
    add_all_edges-keeps (add_edges g source cs nodes) rest nodes u v
      (ground (arith, has-targets-add_edges g source u v cs nodes))

add_all_edges-Adj :
    (g : Graph) (entries : List (String × List String)) (nodes : List String) (u v : String)
    (cs : List String)
    → In (u, cs) entries
    → has v cs ≡ true
    → has u (keys g) ≡ true
    → has v nodes ≡ true
    → Adj (add_all_edges g entries nodes) u v
unfolding add_all_edges
add_all_edges-Adj g [] nodes u v cs i l node target = absurd i
add_all_edges-Adj g ((source, ds) ∷ rest) nodes u v cs (inl e) l node target =
    let same : source ≡ u = ap (λ p. p.0) (sym e) in
    let lists : ds ≡ cs = ap (λ p. p.1) (sym e) in
    let listed : has v ds ≡ true = rw lists l in
    add_all_edges-keeps (add_edges g source ds nodes) rest nodes u v
      (ground (arith, has-targets-add_edges g source u v ds nodes, eq_iff source u, same, listed))
add_all_edges-Adj g ((source, ds) ∷ rest) nodes u v cs (inr i) l node target =
    add_all_edges-Adj (add_edges g source ds nodes) rest nodes u v cs i l
      (rw (keys-add_edges g source ds nodes) node) target

targets-create_from :
    (g : Graph) (ks : List String)
    → ((u v : String) → ¬ Adj g u v)
    → (u v : String) → ¬ Adj (create_from g ks) u v
unfolding create_from targets
targets-create_from g [] h = h
targets-create_from g (k ∷ ks) h =
    targets-create_from (set k [] g) ks (λ u v a. h u v (ground (arith, get-set k u [] g, a)))

has-keys-create_from :
    (g : Graph) (ks : List String) (u : String)
    → has u (keys (create_from g ks)) ≡ (has u (keys g) || has u ks)
unfolding create_from
has-keys-create_from g [] u = ground arith
has-keys-create_from g (k ∷ ks) u =
    ground (arith, has-keys-create_from (set k [] g) ks u, has-keys-set k u [] g)

IsDistinct-create_from :
    (g : Graph) (ks : List String) → IsDistinct (keys g) → IsDistinct (keys (create_from g ks))
unfolding create_from
IsDistinct-create_from g [] d = d
IsDistinct-create_from g (k ∷ ks) d =
    IsDistinct-create_from (set k [] g) ks (IsDistinct-keys-set k [] g d)

-- The graph over the given nodes has those nodes as keys, each once, and exactly the edges from a
-- node to a candidate of its that is a node.
pub record IsLinked (nodes : List String) (entries : List (String × List String)) (g : Graph)
    : Type 0 where
  pub distinct : IsDistinct (keys g)
  pub nodes_iff : (u : String) → has u (keys g) ≡ has u nodes
  pub edges_iff :
      (u v : String)
      → Adj g u v ↔ (IsCandidate entries u v × (has u nodes ≡ true) × (has v nodes ≡ true))

-- Whatever the entries and candidates, a graph made of a list of nodes and then given the entries'
-- edges has those nodes as keys, each once, and exactly the edges between two nodes that an entry
-- names as a candidate.
pub add_all_edges-IsLinked :
    (nodes : List String) (entries : List (String × List String))
    → IsLinked nodes entries (add_all_edges (create_graph nodes) entries nodes)
add_all_edges-IsLinked nodes entries =
    let blank = create_graph nodes in
    let same = keys-add_all_edges blank entries nodes in
    let is_node : (u : String) → has u (keys blank) ≡ has u nodes =
      λ u. has-keys-create_from [] nodes u in
    record {
      distinct = rw same (IsDistinct-create_from [] nodes tt);
      nodes_iff = λ u. rw same (is_node u);
      edges_iff = λ u v. (
        λ a. elim (Adj-add_all_edges blank entries nodes u v a) [
          | inl b ↦ absurd (targets-create_from [] nodes (λ x y b'. unfold targets get in cc) u v b)
          | inr (c, node, target) ↦ (c, sym (is_node u) ∙ node, target)
        ],
        λ (c, node, target).
            add_all_edges-Adj blank entries nodes u v c.candidates c.entry c.listed
              (is_node u ∙ node) target,
      );
    }
