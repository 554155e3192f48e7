-- ===== src/Builder/Flatten.antt =====
-- lib/src/graph-output.builder.ts, `flattenModuleTree` and `getDirectRunInstanceIndex`: of modules with
-- one name the first, depth first, counts.
use mathlib.Core.Option
use nest_graph_inspector.Prelude.{
  String, ◌==◌, ◌≡◌, refl, ap, ◌∙◌, sym, inl, inr, Option, none, some, List, [], ◌∷◌, ◌++◌, arith,
  eq_iff, if◌then◌else◌, find, Bool-cases, Option-cases,
}
use nest_graph_inspector.Prelude.Maps.{get, keys, is_some-get}
use nest_graph_inspector.Prelude.Sets.{has, IsDistinct, IsDistinct-concat}
use nest_graph_inspector.Builder.{
  Node, ModuleTree, tree, Children, nil, cons, set_first, visit, visit_all, flatten_module_tree,
  find_provider_instance, instance_index,
}

-- The nodes of a tree, each before its children.
mutual
  pub preorder : ModuleTree → List Node
  preorder (tree node children) = node ∷ preorder_all children

  pub preorder_all : Children → List Node
  preorder_all nil = []
  preorder_all (cons t ts) = preorder t ++ preorder_all ts

set_all : {V : Type 0} → (Node → V) → List Node → List (String × V) → List (String × V)
set_all f [] m = m
set_all f (n ∷ ns) m = set_all f ns (set_first n.name (f n) m)

set_all-append :
    {V : Type 0} (f : Node → V) (ns ps : List Node) (m : List (String × V))
    → set_all f (ns ++ ps) m ≡ set_all f ps (set_all f ns m)
unfolding set_all
set_all-append f [] ps m = refl
set_all-append f (n ∷ ns) ps m = set_all-append f ns ps (set_first n.name (f n) m)

mutual
  unfolding visit preorder set_all

  visit-eq-set_all :
      {V : Type 0} (f : Node → V) (t : ModuleTree) (m : List (String × V))
      → visit f t m ≡ set_all f (preorder t) m
  visit-eq-set_all f (tree node children) m =
      visit_all-eq-set_all f children (set_first node.name (f node) m)

  visit_all-eq-set_all :
      {V : Type 0} (f : Node → V) (ts : Children) (m : List (String × V))
      → visit_all f ts m ≡ set_all f (preorder_all ts) m
  visit_all-eq-set_all f nil m = refl
  visit_all-eq-set_all f (cons t ts) m =
      visit_all-eq-set_all f ts (visit f t m)
      ∙ ap (set_all f (preorder_all ts)) (visit-eq-set_all f t m)
      ∙ sym (set_all-append f (preorder t) (preorder_all ts) m)

module _ {V : Type 0} (f : Node → V) where
  get-concat :
      (k j : String) (v : V) (m : List (String × V))
      → get k (m ++ (j, v) ∷ [])
        ≡ elim (get k m) [ some w ↦ some w | none ↦ if j == k then some v else none ]
  unfolding get
  get-concat k j v [] = refl
  get-concat k j v ((i, w) ∷ m) = ground (arith, get-concat k j v m)

  keys-concat :
      (j : String) (v : V) (m : List (String × V)) → keys (m ++ (j, v) ∷ []) ≡ keys m ++ j ∷ []
  keys-concat j v [] = refl
  keys-concat j v ((i, w) ∷ m) = ap (◌∷◌ i) (keys-concat j v m)

  abbrev first_named : String → List Node → Option V
  first_named k ns = Option.map f (find (λ n. n.name == k) ns)

  get-set_all :
      (k : String) (ns : List Node) (m : List (String × V))
      → get k (set_all f ns m) ≡ elim (get k m) [ some w ↦ some w | none ↦ first_named k ns ]
  unfolding set_all
  get-set_all k [] m = ground arith
  get-set_all k (n ∷ ns) m = elim (Bool-cases (has n.name (keys m))) [
    | inl old ↦
        rw (old, get-set_all k ns m)
          (elim (Option-cases (get k m)) [
            | inl absent ↦ elim (Bool-cases (n.name == k)) [
              | inl same ↦ ground (arith, is_some-get k m, absent, eq_iff n.name k)
              | inr other ↦ rw (absent, other) refl
            ]
            | inr (w, found) ↦ rw found refl
          ])
    | inr new ↦
        rw (new, get-set_all k ns (m ++ (n.name, f n) ∷ []), get-concat k n.name (f n) m)
          (elim (Option-cases (get k m)) [
            | inl absent ↦ elim (Bool-cases (n.name == k)) [
              | inl same ↦ rw (absent, same) refl
              | inr other ↦ rw (absent, other) refl
            ]
            | inr (w, found) ↦ rw found refl
          ])
  ]

  IsDistinct-set_all :
      (ns : List Node) (m : List (String × V))
      → IsDistinct (keys m)
      → IsDistinct (keys (set_all f ns m))
  unfolding set_all
  IsDistinct-set_all [] m d = d
  IsDistinct-set_all (n ∷ ns) m d = elim (Bool-cases (has n.name (keys m))) [
    | inl old ↦ rw old (IsDistinct-set_all ns m d)
    | inr new ↦ rw new (
        IsDistinct-set_all ns _
          (rw (keys-concat n.name (f n) m) (IsDistinct-concat (keys m) n.name d new)))
  ]

-- The flattened modules hold under each name the first module of that name, in depth-first order, and
-- under no other name anything; no name occurs twice.
pub flatten_module_tree_lem :
    (t : ModuleTree) (k : String)
    → (get k (flatten_module_tree t)
        ≡ Option.map (λ n. n.modules) (find (λ n. n.name == k) (preorder t)))
      × IsDistinct (keys (flatten_module_tree t))
unfolding flatten_module_tree get
flatten_module_tree_lem t k = (
  rw (visit-eq-set_all (λ n. n.modules) t []) (get-set_all (λ n. n.modules) k (preorder t) []),
  rw (visit-eq-set_all (λ n. n.modules) t [])
      (IsDistinct-set_all (λ n. n.modules) (preorder t) [] tt),
)

-- The instance of a provider is looked up in the same module: that of the first node with the
-- module's name.
pub find_provider_instance_lem :
    (t : ModuleTree) (k p : String)
    → find_provider_instance t k p
      ≡ Option.bind (find (λ n. n.name == k) (preorder t)) (λ n. get p n.provider_instances)
unfolding find_provider_instance instance_index get Option.bind
find_provider_instance_lem t k p =
    rw
      (
        visit-eq-set_all (λ n. n.provider_instances) t [],
        get-set_all (λ n. n.provider_instances) k (preorder t) [],
      )
      (elim (Option-cases (find (λ n. n.name == k) (preorder t))) [
        | inl absent ↦ rw absent refl
        | inr (n, found) ↦ rw found refl
      ])
