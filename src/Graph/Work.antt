-- ===== src/Graph/Work.antt =====
-- The work left for a search: the pending entries and the edges out of keys that it has not seen.
use nest_graph_inspector.Prelude.{
  ℕ, ◌+◌, ◌≤◌, String, false, ◌||◌, ◌≡◌, refl, List, [], ◌∷◌, ◌++◌, if◌then◌else◌, length, arith,
  eq_iff,
}
use nest_graph_inspector.Prelude.Maps.{get}
use nest_graph_inspector.Prelude.Sets.{has, has-concat}
use nest_graph_inspector.Graph.{Graph, targets, edge_count, push_all}

pub unseen : Graph → List String → ℕ
unseen [] seen = 0
unseen ((k, ts) ∷ g) seen = (if has k seen then 0 else length ts) + unseen g seen

pub unseen-nil : (g : Graph) → unseen g [] ≡ edge_count g
unfolding unseen
unseen-nil [] = refl
unseen-nil ((k, ts) ∷ g) = omega (arith, unseen-nil g)

unseen-concat-le :
    (g : Graph) (seen : List String) (key : String) → unseen g (seen ++ key ∷ []) ≤ unseen g seen
unfolding unseen
unseen-concat-le [] seen key = omega arith
unseen-concat-le ((k, ts) ∷ g) seen key =
    ground (arith, has-concat k key seen, unseen-concat-le g seen key)

-- To see a key costs its edges.
pub unseen-concat :
    (g : Graph) (seen : List String) (key : String)
    → has key seen ≡ false
    → length (targets g key) + unseen g (seen ++ key ∷ []) ≤ unseen g seen
unfolding unseen targets get
unseen-concat [] seen key new = omega arith
unseen-concat ((k, ts) ∷ g) seen key new = ground (
  arith,
  eq_iff k key,
  eq_iff key k,
  has-concat k key seen,
  unseen-concat-le g seen key,
  unseen-concat g seen key,
)

pub length-push_all :
    (xs stack : List String) → length (push_all xs stack) ≡ length xs + length stack
length-push_all [] stack = omega arith
length-push_all (x ∷ xs) stack = omega (arith, length-push_all xs (x ∷ stack))

pub has-push_all :
    (x : String) (xs stack : List String) → has x (push_all xs stack) ≡ (has x xs || has x stack)
has-push_all x [] stack = refl
has-push_all x (y ∷ xs) stack = ground (arith, has-push_all x xs (y ∷ stack))
