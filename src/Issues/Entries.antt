-- ===== src/Issues/Entries.antt =====
-- site/app/utils/architecture-issues.ts, `uniqueSorted` and `moduleEntries`: what the lists hold.
use nest_graph_inspector.Prelude.{
  String, ◌==◌, false, ◌||◌, ◌≡◌, refl, ◌↔◌, List, [], ◌∷◌, arith, In,
}
use nest_graph_inspector.Prelude.Sets.{has, add, has-add}
use nest_graph_inspector.Prelude.Order.{text_le}
use nest_graph_inspector.Prelude.Members.{In-filter_iff, In-sort_by_iff, has_iff, same_answer}
use nest_graph_inspector.Builder.{GraphModules, GraphOutputModule}
use nest_graph_inspector.Issues.{unique, unique_sorted, module_entries, nest_core_module_name}

has-unique :
    (v : String) (xs seen : List String) → has v (unique xs seen) ≡ (has v xs || has v seen)
unfolding unique
has-unique v [] seen = refl
has-unique v (x ∷ xs) seen = ground (arith, has-unique v xs (add x seen), has-add v x seen)

pub has-unique_sorted : (v : String) (xs : List String) → has v (unique_sorted xs) ≡ has v xs
unfolding unique_sorted
has-unique_sorted v xs =
    same_answer _ _
      (λ h.
        let m = (In-sort_by_iff text_le v (unique xs [])).0 ((has_iff v _).0 h) in
        ground (arith, (has_iff v (unique xs [])).1 m, has-unique v xs []))
      (λ h.
        let m = (has_iff v (unique xs [])).0 (ground (arith, has-unique v xs [])) in
        (has_iff v _).1 ((In-sort_by_iff text_le v (unique xs [])).1 m))

pub module_entries_iff :
    (modules : GraphModules) (e : String × GraphOutputModule)
    → In e (module_entries modules) ↔ (In e modules × ((e.0 == nest_core_module_name) ≡ false))
unfolding module_entries
module_entries_iff modules e = (
  λ h.
      let (m, k) = (In-filter_iff _ e modules).0 ((In-sort_by_iff _ e _).0 h) in
      (m, ground (arith, k)),
  λ (m, k). (In-sort_by_iff _ e _).1 ((In-filter_iff _ e modules).1 (m, ground (arith, k))),
)
