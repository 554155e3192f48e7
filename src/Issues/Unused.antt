-- ===== src/Issues/Unused.antt =====
-- site/app/utils/architecture-issues.ts, `collectUnusedImportIssues`: what is reported may be removed.
use nest_graph_inspector.Prelude.{
  String, ◌==◌, Bool, List, ap, sym, ◌∙◌, if◌then◌else◌, true, false, not, ◌&&◌, ◌||◌, ◌≡◌, refl,
  ◌⊎◌, inl, inr, none, some, [], ◌∷◌, map, filter, arith, eq_iff, Bool-cases, In,
}
use nest_graph_inspector.Prelude.Maps.{get, keys}
use nest_graph_inspector.Prelude.Sets.{has}
use nest_graph_inspector.Prelude.Members.{
  In-append_iff, In-filter_iff, In-map_cases, has_iff, has-filter, same_answer,
}
use nest_graph_inspector.Issues.Entries.{has-unique_sorted, module_entries_iff}
use nest_graph_inspector.Builder.{GraphModules, GraphOutputModule}
use nest_graph_inspector.Builder.Output.{GraphOutput}
use nest_graph_inspector.Issues.{
  Issue, imports_of, is_skipped_edge, links, reachable_modules, is_unused, unused_in, unused_issue,
  collect_unused_import_issues, unique_sorted, module_entries,
}
use nest_graph_inspector.Issues.Reachable.{Leads, here, more, reachable_modules_iff}

module _ (g : GraphOutput) (from to : String) where
  -- Without the edge every link is a link.
  links_fewer :
      (v w : String)
      → has w (links g.modules (some (from, to)) v) ≡ true
      → has w (links g.modules none v) ≡ true
  unfolding links
  links_fewer v w h =
      let all = imports_of (get v g.modules) in
      let kept =
        λ (t : String). not (is_skipped_edge (some (from, to)) v t) && has t (keys g.modules) in
      let known = λ (t : String). not (is_skipped_edge none v t) && has t (keys g.modules) in
      ground (arith, has-filter kept w all, has-filter known w all, h)

  -- A link is the edge or stays without it.
  links_split :
      (v w : String)
      → has w (links g.modules none v) ≡ true
      → (has w (links g.modules (some (from, to)) v) ≡ true) ⊎ (to ≡ w)
  unfolding links
  links_split v w h =
      let all = imports_of (get v g.modules) in
      let kept =
        λ (t : String). not (is_skipped_edge (some (from, to)) v t) && has t (keys g.modules) in
      let known = λ (t : String). not (is_skipped_edge none v t) && has t (keys g.modules) in
      ground (arith, has-filter kept w all, has-filter known w all, h, eq_iff to w)

  Leads_fewer :
      {v : String}
      → Leads (links g.modules (some (from, to))) g.root v
      → Leads (links g.modules none) g.root v
  Leads_fewer here = here
  Leads_fewer (more {v} {w} l e) = more (Leads_fewer l) (links_fewer v w e)

  Leads_still :
      Leads (links g.modules (some (from, to))) g.root to
      → {v : String} → Leads (links g.modules none) g.root v
      → Leads (links g.modules (some (from, to))) g.root v
  Leads_still other here = here
  Leads_still other (more {v} {w} l e) = elim (links_split v w e) [
    | inl stays ↦ more (Leads_still other l) stays
    | inr same ↦ rw (← same) other
  ]

  -- what is reachable without the edge is what is reachable with it, if its end is
  reachable_same :
      has to (reachable_modules g (some (from, to))) ≡ true
      → (v : String)
      → has v (reachable_modules g (some (from, to))) ≡ has v (reachable_modules g none)
  reachable_same other v =
      let (root, leads) = (reachable_modules_iff g (some (from, to)) to).0 other in
      same_answer _ _
        (λ h.
          let (r, l) = (reachable_modules_iff g (some (from, to)) v).0 h in
          (reachable_modules_iff g none v).1 (r, Leads_fewer l))
        (λ h.
          let (r, l) = (reachable_modules_iff g none v).0 h in
          (reachable_modules_iff g (some (from, to)) v).1 (r, Leads_still leads l))

-- The issue is about an import of a module of the list: the module is reached and is not the root,
-- and the import is unused.
pub record IsUnusedImport (g : GraphOutput) (entries : GraphModules) (i : Issue) : Type 0 where
  pub name : String
  pub importer : GraphOutputModule
  pub imported : String
  pub entry : In (name, importer) entries
  pub child : (name == g.root) ≡ false
  pub inside : has name (reachable_modules g none) ≡ true
  pub listed : has imported importer.imports ≡ true
  pub unused : is_unused g name importer imported ≡ true
  pub shown : i ≡ unused_issue name imported

IsUnusedImport-later :
    (g : GraphOutput) (e : String × GraphOutputModule) (rest : GraphModules) (i : Issue)
    → IsUnusedImport g rest i
    → IsUnusedImport g (e ∷ rest) i
IsUnusedImport-later g e rest i h = record {
  name = h.name;
  importer = h.importer;
  imported = h.imported;
  entry = inr h.entry;
  child = h.child;
  inside = h.inside;
  listed = h.listed;
  unused = h.unused;
  shown = h.shown;
}

pub unused_in-IsUnusedImport :
    (g : GraphOutput) (entries : GraphModules) (i : Issue)
    → In i (unused_in g entries)
    → IsUnusedImport g entries i
unfolding unused_in
unused_in-IsUnusedImport g [] i m = absurd m
unused_in-IsUnusedImport g ((name, importer) ∷ rest) i m =
    let later = λ (n : In i (unused_in g rest)).
      IsUnusedImport-later g (name, importer) rest i (unused_in-IsUnusedImport g rest i n) in
    elim (Bool-cases (name == g.root || not (has name (reachable_modules g none)))) [
      | inl skipped ↦ later (rw skipped at m)
      | inr kept ↦
          elim ((In-append_iff i
              (map (unused_issue name)
                (filter (is_unused g name importer) (unique_sorted importer.imports)))
              (unused_in g rest)).0
            (rw kept at m)) [
              | inl mine ↦
                  let (imported, at, shown) = In-map_cases (unused_issue name) i _ mine in
                  let (listed, unused) =
                    (In-filter_iff (is_unused g name importer) imported _).0 at in
                  record {
                    name = name;
                    importer = importer;
                    imported = imported;
                    entry = inl refl;
                    child = ground (arith, kept);
                    inside = ground (arith, kept);
                    listed =
                        rw (← has-unique_sorted imported importer.imports)
                          ((has_iff imported _).1 listed);
                    unused = unused;
                    shown = shown;
                  }
              | inr n ↦ later n
            ]
    ]

-- the last test that makes an import unused
still_reached :
    (g : GraphOutput) (name : String) (importer : GraphOutputModule) (imported : String)
    → is_unused g name importer imported ≡ true
    → has imported (reachable_modules g (some (name, imported))) ≡ true
unfolding is_unused
still_reached g name importer imported h = ground arith

-- the module without an import
abbrev pub drop_import : String → GraphOutputModule → GraphOutputModule
drop_import to m = record m { imports = filter (λ t. not (to == t)) m.imports }

abbrev pub drop_from : String → String → GraphModules → GraphModules
drop_from from to [] = []
drop_from from to ((name, m) ∷ rest) =
    (name, (if from == name then drop_import to m else m)) ∷ drop_from from to rest

-- The graph in which the module `from` no longer imports `to`.
abbrev pub without_import : String → String → GraphOutput → GraphOutput
without_import from to g = record g { modules = drop_from from to g.modules }

keys-drop_from :
    (from to : String) (modules : GraphModules) → keys (drop_from from to modules) ≡ keys modules
keys-drop_from from to [] = refl
keys-drop_from from to ((name, m) ∷ rest) = ap (◌∷◌ name) (keys-drop_from from to rest)

-- an import of the graph without the edge is another import
has-imports_if :
    (b : Bool) (to w : String) (m : GraphOutputModule)
    → has w (if b then drop_import to m else m).imports ≡ (not (b && to == w) && has w m.imports)
has-imports_if true to w m = ground (arith, has-filter (λ t. not (to == t)) w m.imports)
has-imports_if false to w m = ground arith

has-imports_of-drop_from :
    (from to v w : String) (modules : GraphModules)
    → has w (imports_of (get v (drop_from from to modules)))
      ≡ (not (from == v && to == w) && has w (imports_of (get v modules)))
unfolding get
has-imports_of-drop_from from to v w [] = ground arith
has-imports_of-drop_from from to v w ((name, m) ∷ rest) = elim (Bool-cases (name == v)) [
  | inl same ↦
      let e = (eq_iff name v).0 same in rw same (rw (← e) (has-imports_if (from == name) to w m))
  | inr other ↦ rw other (has-imports_of-drop_from from to v w rest)
]

-- The links of that graph are the links without the edge.
has-links-without :
    (g : GraphOutput) (from to v w : String)
    → has w (links (drop_from from to g.modules) none v)
      ≡ has w (links g.modules (some (from, to)) v)
unfolding links
has-links-without g from to v w = rw (keys-drop_from from to g.modules) (
    let kept =
      λ (t : String). not (is_skipped_edge (some (from, to)) v t) && has t (keys g.modules) in
    let known = λ (t : String). not (is_skipped_edge none v t) && has t (keys g.modules) in
    ground (
      arith,
      has-filter kept w (imports_of (get v g.modules)),
      has-filter known w (imports_of (get v (drop_from from to g.modules))),
      has-imports_of-drop_from from to v w g.modules,
    ))

Leads-along :
    (next other : String → List String) (root : String)
    → ((v w : String) → has w (next v) ≡ true → has w (other v) ≡ true)
    → {v : String} → Leads next root v
    → Leads other root v
Leads-along next other root h here = here
Leads-along next other root h (more {v} {w} l e) = more (Leads-along next other root h l) (h v w e)

reachable_modules-without :
    (g : GraphOutput) (from to v : String)
    → has v (reachable_modules (without_import from to g) none)
      ≡ has v (reachable_modules g (some (from, to)))
reachable_modules-without g from to v =
    let less = without_import from to g in
    let skipping = links g.modules (some (from, to)) in
    let fewer = links less.modules none in
    let same = has-links-without g from to in
    same_answer _ _
      (λ h.
        let (r, l) = (reachable_modules_iff less none v).0 h in
        (reachable_modules_iff g (some (from, to)) v).1 (
          rw (keys-drop_from from to g.modules) at r,
          Leads-along fewer skipping g.root (λ u w e. sym (same u w) ∙ e) l,
        ))
      (λ h.
        let (r, l) = (reachable_modules_iff g (some (from, to)) v).0 h in
        (reachable_modules_iff less none v).1 (
          rw (keys-drop_from from to g.modules) r,
          Leads-along skipping fewer g.root (λ u w e. same u w ∙ e) l,
        ))

-- Every issue of `collectUnusedImportIssues` names an import that a module of the graph lists, and in
-- the graph in which the module no longer has this import `reachableModules` finds exactly the modules
-- that it finds in the graph itself.
pub collect_unused_import_issues-without_import :
    (g : GraphOutput) (i : Issue)
    → In i (collect_unused_import_issues g)
    → (importer : GraphOutputModule) × (imported : String) × In (i.module_name, importer) g.modules
      × (i.target ≡ some imported)
      × (has imported importer.imports ≡ true)
      × ((v : String)
          → has v (reachable_modules (without_import i.module_name imported g) none)
            ≡ has v (reachable_modules g none))
unfolding collect_unused_import_issues
collect_unused_import_issues-without_import g i m =
    let h = unused_in-IsUnusedImport g (module_entries g.modules) i m in
    let (at, _) = (module_entries_iff g.modules (h.name, h.importer)).0 h.entry in
    let reached = still_reached g h.name h.importer h.imported h.unused in
    rw h.shown (
      h.importer,
      h.imported,
      at,
      refl,
      h.listed,
      λ v.
          reachable_modules-without g h.name h.imported v
          ∙ reachable_same g h.name h.imported reached v,
    )
