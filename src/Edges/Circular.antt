-- ===== src/Edges/Circular.antt =====
-- site/app/utils/graph-viewer-edges.ts, `collectCircularEdgeInfo`: the cycles of a redrawn edge.
use nest_graph_inspector.Prelude.{
  ℕ, String, Bool, true, false, ◌||◌, ◌≡◌, refl, ◌∙◌, List, [], ◌∷◌, any, arith, eqb, eqb_iff,
  get_or, inl, inr, Bool-cases,
}
use nest_graph_inspector.Prelude.Maps.{get}
use nest_graph_inspector.Edges.{set_info, set_infos, collect_from, collect_circular_edge_info}

module _ {V : Type 0} (id_of : V → ℕ) where
  abbrev pub has_id : ℕ → List V → Bool
  has_id n [] = false
  has_id n (w ∷ ws) = eqb (id_of w) n || has_id n ws

  -- no id twice
  abbrev pub DistinctIds : List V → Type 0
  DistinctIds [] = Unit
  DistinctIds (w ∷ ws) = (has_id (id_of w) ws ≡ false) × DistinctIds ws

  has_id-set_info :
      (n : ℕ) (v : V) (ws : List V)
      → has_id n (set_info id_of v ws) ≡ (eqb (id_of v) n || has_id n ws)
  unfolding set_info
  has_id-set_info n v [] = refl
  has_id-set_info n v (w ∷ ws) = ground (arith, has_id-set_info n v ws)

  DistinctIds-set_info : (v : V) (ws : List V) → DistinctIds ws → DistinctIds (set_info id_of v ws)
  unfolding set_info
  DistinctIds-set_info v [] _ = (refl, tt)
  DistinctIds-set_info v (w ∷ ws) (new, d) = elim (Bool-cases (eqb (id_of w) (id_of v))) [
    | inl same ↦ rw same (rw (← (eqb_iff (id_of w) (id_of v)).0 same) new, d)
    | inr other ↦
        rw other
          (has_id-set_info (id_of w) v ws ∙ ground (arith, other, new), DistinctIds-set_info v ws d)
  ]

  has_id-set_infos :
      (n : ℕ) (vs ws : List V) → has_id n (set_infos id_of vs ws) ≡ (has_id n vs || has_id n ws)
  unfolding set_infos
  has_id-set_infos n [] ws = refl
  has_id-set_infos n (v ∷ vs) ws =
      ground (arith, has_id-set_infos n vs (set_info id_of v ws), has_id-set_info n v ws)

  DistinctIds-set_infos : (vs ws : List V) → DistinctIds ws → DistinctIds (set_infos id_of vs ws)
  unfolding set_infos
  DistinctIds-set_infos [] ws d = d
  DistinctIds-set_infos (v ∷ vs) ws d =
      DistinctIds-set_infos vs (set_info id_of v ws) (DistinctIds-set_info v ws d)

  or_false : (b : Bool) → (b || false) ≡ b
  or_false true = refl
  or_false false = refl

  module _ (edges : List (String × List V)) where
    abbrev pub has_id_under : ℕ → String → Bool
    has_id_under n k = has_id n (get_or (get k edges) [])

    collect_from_lem :
        (n : ℕ) (ks : List String) (ws : List V)
        → has_id n (collect_from id_of edges ks ws) ≡ (any (has_id_under n) ks || has_id n ws)
    unfolding collect_from
    collect_from_lem n [] ws = refl
    collect_from_lem n (k ∷ ks) ws =
        let infos = get_or (get k edges) [] in
        ground
          (arith, collect_from_lem n ks (set_infos id_of infos ws), has_id-set_infos n infos ws)

    DistinctIds-collect_from :
        (ks : List String) (ws : List V)
        → DistinctIds ws
        → DistinctIds (collect_from id_of edges ks ws)
    unfolding collect_from
    DistinctIds-collect_from [] ws d = d
    DistinctIds-collect_from (k ∷ ks) ws d =
        DistinctIds-collect_from ks _ (DistinctIds-set_infos (get_or (get k edges) []) ws d)

    -- A cycle is collected exactly if it is recorded under one of the item edges' keys, and none is
    -- collected twice.
    pub collect_circular_edge_info_lem :
        (keys : List String) (n : ℕ)
        → (has_id n (collect_circular_edge_info id_of keys edges) ≡ any (has_id_under n) keys)
          × DistinctIds (collect_circular_edge_info id_of keys edges)
    unfolding collect_circular_edge_info
    collect_circular_edge_info_lem keys n = (
      collect_from_lem n keys [] ∙ or_false (any (has_id_under n) keys),
      DistinctIds-collect_from keys [] tt,
    )
