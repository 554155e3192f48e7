-- ===== src/Cycles.antt =====
-- lib/src/graph-output.builder.ts, `findCycles`, `getCanonicalCycleKey` and `getCycleType`.
-- The comparison of two texts by locale belongs to the runtime: `locale_le a b` stands for
-- `a.localeCompare(b) <= 0`. The counter behind `nextCycleId` is passed along as the next id.
pub mod Canonical
pub mod Sound
pub mod Complete
pub mod Acyclic
mod Tests
use Prim.Native.String
use nest_graph_inspector.Prelude.{
  ℕ, zero, suc, ◌+◌, String, ◌==◌, Bool, true, false, not, ◌&&◌, ◌||◌, ◌≡◌, Option, none, some,
  List, [], ◌∷◌, ◌++◌, map, get_or, is_some, if◌then◌else◌, head?,
}
use nest_graph_inspector.Prelude.Maps.{get}
use nest_graph_inspector.Prelude.Sets.{has}
use nest_graph_inspector.Prelude.Sort.{sort_by}
use nest_graph_inspector.Graph.{Graph, targets, find_reachable_keys, find_path}

pub data CycleType : Type 0 where
  direct indirect : CycleType

pub record Cycle : Type 0 where
  pub id : ℕ
  pub from : String
  pub to : String
  pub type : CycleType
  pub path : List String

-- `keys.join("->")`
unfoldable pub join : List String → String
join [] = ""
join (x ∷ []) = x
join (x ∷ y ∷ xs) = String.◌++◌ x (String.◌++◌ "->" (join (y ∷ xs)))

-- `path.slice(0, -1)`
unfoldable pub drop_last : List String → List String
drop_last [] = []
drop_last (x ∷ []) = []
drop_last (x ∷ y ∷ xs) = x ∷ drop_last (y ∷ xs)

-- `cyclePath.map((_, index) => [...cyclePath.slice(index), ...cyclePath.slice(0, index)])`, where
-- `before` is `cyclePath.slice(0, index)`
unfoldable pub rotations_from : List String → List String → List (List String)
rotations_from before [] = []
rotations_from before (x ∷ xs) = ((x ∷ xs) ++ before) ∷ rotations_from (before ++ x ∷ []) xs

unfoldable pub rotations : List String → List (List String)
unfolding rotations_from
rotations cycle = rotations_from [] cycle

-- `getCycleType`
unfoldable pub get_cycle_type : Graph → String → String → CycleType
get_cycle_type g source target =
    if source == target || has source (targets g target) then direct else indirect

-- `reachableKeys`, filled from every key of the graph
unfoldable pub reachable_map : Graph → Graph → List (String × List String)
reachable_map g [] = []
reachable_map g ((source, _) ∷ rest) = (source, find_reachable_keys g source) ∷ reachable_map g rest

-- `source === target || reachableKeys.get(target)?.has(source)`
unfoldable pub closes_cycle : List (String × List String) → String → String → Bool
closes_cycle reachable source target =
    source == target || elim (get target reachable) [ none ↦ false | some keys ↦ has source keys ]

-- `path` in `findCycles`
unfoldable pub cycle_path : Graph → String → String → List String
cycle_path g source target =
    if source == target then source ∷ source ∷ [] else source ∷ find_path g target source

-- what `findCycles` pushes
abbrev pub new_cycle : Graph → ℕ → String → String → Cycle
new_cycle g id source target = record {
  id = id;
  from = source;
  to = target;
  type = get_cycle_type g source target;
  path = cycle_path g source target;
}

-- The variables of `findCycles`.
pub record Search : Type 0 where
  pub next_id : ℕ
  pub cycles : List Cycle
  pub seen : List String

module _ (locale_le : String → String → Bool) where
  -- `getCanonicalCycleKey`, past its slice
  unfoldable pub canonical_key_of : List String → String
  unfolding join rotations
  canonical_key_of [] = join []
  canonical_key_of (x ∷ []) = join (x ∷ [])
  canonical_key_of (x ∷ y ∷ xs) =
      get_or (head? (sort_by locale_le (map join (rotations (x ∷ y ∷ xs))))) ""

  -- `getCanonicalCycleKey`
  unfoldable pub canonical_cycle_key : List String → String
  unfolding drop_last canonical_key_of
  canonical_cycle_key path = canonical_key_of (drop_last path)

  module _ (g : Graph) where
    -- the cycle that an edge closes
    -- the body of the inner loop
    unfoldable pub try_edge : List (String × List String) → String → Search → String → Search
    unfolding closes_cycle
    try_edge reachable source s target =
        let key = canonical_cycle_key (cycle_path g source target) in
        if closes_cycle reachable source target && not (has key s.seen)
        then record {
          next_id = s.next_id + 1;
          cycles = s.cycles ++ new_cycle g s.next_id source target ∷ [];
          seen = s.seen ++ key ∷ [];
        }
        else s

    -- `for (const target of targets)`
    unfoldable pub scan_targets :
        List (String × List String) → String → Search → List String → Search
    scan_targets reachable source s [] = s
    scan_targets reachable source s (t ∷ ts) =
        scan_targets reachable source (try_edge reachable source s t) ts

    -- `for (const [source, targets] of graph)`
    unfoldable pub scan_sources : List (String × List String) → Search → Graph → Search
    scan_sources reachable s [] = s
    scan_sources reachable s ((source, ts) ∷ rest) =
        scan_sources reachable (scan_targets reachable source s ts) rest

    -- `findCycles`: the cycles found, and the next id
    unfoldable pub find_cycles : ℕ → Search
    unfolding scan_sources scan_targets reachable_map
    find_cycles next_id =
        scan_sources (reachable_map g g) (record { next_id = next_id; cycles = []; seen = [] }) g
