-- ===== src/Graph.antt =====
-- lib/src/graph-output.builder.ts, `createGraph`, `findReachableKeys` and `findPath`: the string
-- graphs in which the builder looks for cycles, and its two searches.
-- A `Map<string, Set<string>>` is an association list in the order of insertion. Both searches skip
-- an empty key, as the source's test of `!currentKey` does.
pub mod Work
pub mod Reachable
pub mod Paths
use nest_graph_inspector.Prelude.{
  ℕ, zero, suc, ◌+◌, String, ◌==◌, Bool, true, false, ◌||◌, ◌≡◌, ◌≢◌, Option, none, some, List, [],
  ◌∷◌, ◌++◌, map, get_or, if◌then◌else◌, length, last?,
}
use nest_graph_inspector.Prelude.Maps.{get, set}
use nest_graph_inspector.Prelude.Sets.{has, add}

abbrev pub Graph : Type 0
Graph = List (String × List String)

-- `graph.get(key) ?? []`
unfoldable pub targets : Graph → String → List String
targets g key = get_or (get key g) []

-- `createGraph`
unfoldable pub create_from : Graph → List String → Graph
create_from g [] = g
create_from g (k ∷ ks) = create_from (set k [] g) ks

abbrev pub create_graph : List String → Graph
create_graph = create_from []

-- pushes in turn: the top of the stack is the head of the list
abbrev pub push_all : List String → List String → List String
push_all [] stack = stack
push_all (x ∷ xs) stack = push_all xs (x ∷ stack)

-- A bound on the rounds of either search: each edge is taken at most once.
abbrev pub edge_count : Graph → ℕ
edge_count [] = 0
edge_count ((_, ts) ∷ g) = length ts + edge_count g

-- `!currentKey || reachableKeys.has(currentKey)`
abbrev pub is_skipped : String → List String → Bool
is_skipped key seen = key == "" || has key seen

module _ (g : Graph) where
  -- the `while` loop of `findReachableKeys`, on fuel
  unfoldable pub drain : ℕ → List String → List String → List String
  drain zero pending reachable = reachable
  drain (suc fuel) [] reachable = reachable
  drain (suc fuel) (key ∷ pending) reachable =
      let skip = is_skipped key reachable in
      drain fuel (if skip then pending else push_all (targets g key) pending)
        (if skip then reachable else reachable ++ key ∷ [])

  -- `findReachableKeys`
  unfoldable pub find_reachable_keys : String → List String
  unfolding drain
  find_reachable_keys source =
      drain (length (targets g source) + edge_count g) (push_all (targets g source) []) []

  -- the `while` loop of `findPath`, on fuel; `none` when no path is left
  unfoldable pub follow : ℕ → String → List (List String) → List String → Option (List String)
  follow zero target pending visited = none
  follow (suc fuel) target [] visited = none
  follow (suc fuel) target (path ∷ pending) visited = elim (last? path) [
    | none ↦ follow fuel target pending visited
    | some current ↦ elim (is_skipped current visited) [
      | true ↦ follow fuel target pending visited
      | false ↦ elim (current == target) [
        | true ↦ some path
        | false ↦
            follow fuel target (pending ++ map (λ next. path ++ next ∷ []) (targets g current))
              (visited ++ current ∷ [])
      ]
    ]
  ]

  -- `findPath`
  unfoldable pub find_path : String → String → List String
  unfolding follow
  find_path source target =
      get_or (follow (suc (edge_count g)) target ((source ∷ []) ∷ []) []) (source ∷ target ∷ [])

-- An edge of the graph, and one that the searches follow.
abbrev pub Adj : Graph → String → String → Type 0
Adj g u v = has v (targets g u) ≡ true

abbrev pub Edge : Graph → String → String → Type 0
Edge g u v = Adj g u v × (v ≢ "")

-- A walk of one edge or more, none of which enters an empty key.
pub data Reach (g : Graph) (u : String) : String → Type 0 where
  one : {v : String} → Edge g u v → Reach g u v
  more : {v w : String} → Reach g u v → Edge g v w → Reach g u w
