-- ===== src/Issues/Orphans.antt =====
-- site/app/utils/architecture-issues.ts, `collectOrphanModuleIssues` and `collectDeadExportIssues`:
-- which issues are reported.
use nest_graph_inspector.Prelude.{
  String, ◌==◌, true, false, not, ◌≡◌, refl, ◌↔◌, inl, inr, none, [], ◌∷◌, map, filter, arith, In,
  Bool-cases,
}
use nest_graph_inspector.Prelude.Maps.{keys}
use nest_graph_inspector.Prelude.Sets.{has}
use nest_graph_inspector.Prelude.Members.{
  In-append_iff, In-filter_iff, In-map_cases, In-map, has_iff, any-false, any-false_of,
}
use nest_graph_inspector.Builder.{GraphModules, GraphOutputModule}
use nest_graph_inspector.Builder.Output.{GraphOutput}
use nest_graph_inspector.Issues.{
  Issue, module_entries, nest_core_module_name, reachable_modules, orphan_issue,
  collect_orphan_module_issues, is_dead, dead_in, dead_issue, unique_sorted, consumes_export,
  collect_dead_export_issues,
}
use nest_graph_inspector.Issues.Entries.{module_entries_iff, has-unique_sorted}

-- An issue is reported exactly for the modules, but the core module, that imports from the root do
-- not lead to, when the root is a module of the graph.
pub collect_orphan_module_issues_iff :
    (g : GraphOutput) (i : Issue)
    → In i (collect_orphan_module_issues g) ↔ (
        (e : String × GraphOutputModule) × In e g.modules
        × ((e.0 == nest_core_module_name) ≡ false)
        × (has g.root (keys g.modules) ≡ true)
        × (has e.0 (reachable_modules g none) ≡ false)
        × (i ≡ orphan_issue g e))
unfolding collect_orphan_module_issues
collect_orphan_module_issues_iff g i = elim (Bool-cases (has g.root (keys g.modules))) [
  | inl there ↦ rw there (
    λ m.
        let (e, at, shown) = In-map_cases (orphan_issue g) i _ m in
        let (entry, apart) = (In-filter_iff _ e (module_entries g.modules)).0 at in
        let (known, plain) = (module_entries_iff g.modules e).0 entry in
        (e, known, plain, refl, ground (arith, apart), shown),
    λ (e, known, plain, _, apart, shown). rw shown (
        In-map (orphan_issue g) e _ (
          (In-filter_iff (λ e. not (has e.0 (reachable_modules g none))) e
              (module_entries g.modules)).1
            ((module_entries_iff g.modules e).1 (known, plain), ground (arith, apart)))),
  )
  | inr absent ↦ rw absent (λ m. absurd m, λ (_, _, _, h, _, _). cc)
]

-- the issue is about an export of a module of the list that no module uses
abbrev IsDeadExport : GraphModules → GraphModules → Issue → Type 0
IsDeadExport modules entries i =
    (e : String × GraphOutputModule) × (exported : String) × In e entries
    × (has exported e.1.exports ≡ true)
    × (is_dead modules e.0 exported ≡ true)
    × (i ≡ dead_issue e.0 exported)

IsDeadExport-later :
    (modules : GraphModules) (e : String × GraphOutputModule) (rest : GraphModules) (i : Issue)
    → IsDeadExport modules rest i
    → IsDeadExport modules (e ∷ rest) i
IsDeadExport-later modules e rest i (c, exported, at, listed, dead, shown) =
    (c, exported, inr at, listed, dead, shown)

dead_in_to :
    (modules entries : GraphModules) (i : Issue)
    → In i (dead_in modules entries)
    → IsDeadExport modules entries i
unfolding dead_in
dead_in_to modules [] i m = absurd m
dead_in_to modules (e ∷ rest) i m =
    let own = map (dead_issue e.0) (filter (is_dead modules e.0) (unique_sorted e.1.exports)) in
    elim ((In-append_iff i own (dead_in modules rest)).0 m) [
      | inl mine ↦
          let (exported, at, shown) = In-map_cases (dead_issue e.0) i _ mine in
          let (listed, dead) = (In-filter_iff (is_dead modules e.0) exported _).0 at in
          (
            e,
            exported,
            inl refl,
            rw (← has-unique_sorted exported e.1.exports) ((has_iff exported _).1 listed),
            dead,
            shown,
          )
      | inr n ↦ IsDeadExport-later modules e rest i (dead_in_to modules rest i n)
    ]

dead_in_from :
    (modules entries : GraphModules) (i : Issue)
    → IsDeadExport modules entries i
    → In i (dead_in modules entries)
unfolding dead_in
dead_in_from modules [] i (_, _, at, _, _, _) = absurd at
dead_in_from modules (e ∷ rest) i (c, exported, inr at, listed, dead, shown) =
    (In-append_iff i _ (dead_in modules rest)).1
      (inr (dead_in_from modules rest i (c, exported, at, listed, dead, shown)))
dead_in_from modules (e ∷ rest) i (c, exported, inl same, listed, dead, shown) =
    (In-append_iff i
        (map (dead_issue e.0) (filter (is_dead modules e.0) (unique_sorted e.1.exports))) _).1
      (inl (
        rw (shown, same)
          (In-map (dead_issue e.0) exported _ (
            (In-filter_iff (is_dead modules e.0) exported _).1 (
              (has_iff exported _).0 (rw (has-unique_sorted exported e.1.exports, ← same) listed),
              rw (← same) dead,
            )))))

is_dead_iff :
    (modules : GraphModules) (exporter exported : String)
    → (is_dead modules exporter exported ≡ true) ↔ (
        (has exported (keys modules) ≡ false)
        × ((c : String × GraphOutputModule)
            → In c modules
            → consumes_export c exporter exported ≡ false))
unfolding is_dead
is_dead_iff modules exporter exported =
    let used = λ (c : String × GraphOutputModule). consumes_export c exporter exported in
    (
      λ h. (ground arith, λ c at. any-false used c modules (ground arith) at),
      λ (foreign, free). ground (arith, any-false_of used modules free),
    )

-- An issue is reported exactly for the exports, of the modules but the core module, that are no
-- module's name and that no other module consumes.
pub collect_dead_export_issues_iff :
    (g : GraphOutput) (i : Issue)
    → In i (collect_dead_export_issues g) ↔ (
        (e : String × GraphOutputModule) × (exported : String) × In e g.modules
        × ((e.0 == nest_core_module_name) ≡ false)
        × (has exported e.1.exports ≡ true)
        × (has exported (keys g.modules) ≡ false)
        × ((c : String × GraphOutputModule)
            → In c g.modules
            → consumes_export c e.0 exported ≡ false)
        × (i ≡ dead_issue e.0 exported))
unfolding collect_dead_export_issues
collect_dead_export_issues_iff g i = (
  λ m.
      let (e, exported, at, listed, dead, shown) =
        dead_in_to g.modules (module_entries g.modules) i m in
      let (known, plain) = (module_entries_iff g.modules e).0 at in
      let (foreign, free) = (is_dead_iff g.modules e.0 exported).0 dead in
      (e, exported, known, plain, listed, foreign, free, shown),
  λ (e, exported, known, plain, listed, foreign, free, shown).
      dead_in_from g.modules (module_entries g.modules) i (
        e,
        exported,
        (module_entries_iff g.modules e).1 (known, plain),
        listed,
        (is_dead_iff g.modules e.0 exported).1 (foreign, free),
        shown,
      ),
)
