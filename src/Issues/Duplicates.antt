-- ===== src/Issues/Duplicates.antt =====
-- site/app/utils/architecture-issues.ts, `collectDuplicateProviderIssues`: which issues are reported.
use nest_graph_inspector.Prelude.{
  ◌≤◌, String, ◌==◌, Bool, true, false, ◌&&◌, ◌||◌, ◌≡◌, refl, sym, ap, ◌∙◌, ◌↔◌, inl, inr, some,
  List, [], ◌∷◌, arith, In, any, length, get_or, eq_iff, eq_refl, Bool-cases, Option-cases,
}
use nest_graph_inspector.Prelude.Maps.{get, set, keys, get-set, IsDistinct-keys-set}
use nest_graph_inspector.Prelude.Sets.{has, add, has-add, IsDistinct, IsDistinct-add}
use nest_graph_inspector.Prelude.Members.{In-append_iff, any-true, any-true_cases}
use nest_graph_inspector.Builder.{GraphModules, GraphOutputModule, GraphOutputInjectable}
use nest_graph_inspector.Builder.Output.{GraphOutput}
use nest_graph_inspector.Issues.{
  Issue, module_entries, nest_core_module_name, add_providers, modules_by_provider, duplicate_issue,
  duplicate_issues, collect_duplicate_provider_issues,
}
use nest_graph_inspector.Issues.Entries.{module_entries_iff}

-- whether a module of the list registers the provider
abbrev lists_provider : List GraphOutputInjectable → String → Bool
lists_provider providers p = any (λ q. q.name == p) providers

abbrev registers : GraphModules → String → String → Bool
registers entries p m = any (λ e. e.0 == m && lists_provider e.1.providers p) entries

-- the modules that the map holds for a provider
abbrev holders : List (String × List String) → String → List String
holders found p = get_or (get p found) []

holders-add_providers :
    (name : String) (ps : List GraphOutputInjectable) (found : List (String × List String))
    (p m : String)
    → has m (holders (add_providers name ps found) p)
      ≡ (has m (holders found p) || name == m && lists_provider ps p)
unfolding add_providers
holders-add_providers name [] found p m = ground arith
holders-add_providers name (q ∷ ps) found p m =
    let next = set q.name (add name (holders found q.name)) found in
    elim (Bool-cases (q.name == p)) [
      | inl same ↦
          let e = (eq_iff q.name p).0 same in
          ground (
            arith,
            holders-add_providers name ps next p m,
            get-set q.name p (add name (holders found q.name)) found,
            has-add m name (holders found q.name),
            ap (λ n. has m (holders found n)) e,
          )
      | inr other ↦ ground (
        arith,
        holders-add_providers name ps next p m,
        get-set q.name p (add name (holders found q.name)) found,
      )
    ]

holders-modules_by_provider :
    (entries : GraphModules) (found : List (String × List String)) (p m : String)
    → has m (holders (modules_by_provider entries found) p)
      ≡ (has m (holders found p) || registers entries p m)
unfolding modules_by_provider
holders-modules_by_provider [] found p m = ground arith
holders-modules_by_provider ((name, e) ∷ rest) found p m = ground (
  arith,
  holders-modules_by_provider rest (add_providers name e.providers found) p m,
  holders-add_providers name e.providers found p m,
)

-- the keys are distinct, and so are the modules of each
record IsTable (found : List (String × List String)) : Type 0 where
  distinct : IsDistinct (keys found)
  each : (p : String) → IsDistinct (holders found p)

add_providers-IsTable :
    (name : String) (ps : List GraphOutputInjectable) (found : List (String × List String))
    → IsTable found
    → IsTable (add_providers name ps found)
unfolding add_providers
add_providers-IsTable name [] found h = h
add_providers-IsTable name (q ∷ ps) found h =
    let more = add name (holders found q.name) in
    add_providers-IsTable name ps (set q.name more found) (record {
      distinct = IsDistinct-keys-set q.name more found h.distinct;
      each = λ p. ground (
        arith,
        get-set q.name p more found,
        IsDistinct-add name (holders found q.name) (h.each q.name),
        h.each p,
      );
    })

modules_by_provider-IsTable :
    (entries : GraphModules) (found : List (String × List String))
    → IsTable found
    → IsTable (modules_by_provider entries found)
unfolding modules_by_provider
modules_by_provider-IsTable [] found h = h
modules_by_provider-IsTable ((name, e) ∷ rest) found h =
    modules_by_provider-IsTable rest _ (add_providers-IsTable name e.providers found h)

has-keys-In :
    (found : List (String × List String)) (p : String) (ms : List String)
    → In (p, ms) found
    → has p (keys found) ≡ true
has-keys-In [] p ms m = absurd m
has-keys-In ((q, ns) ∷ found) p ms (inl e) =
    let s : p ≡ q = ap (λ x. x.0) e in rw (s, eq_refl q) refl
has-keys-In ((q, ns) ∷ found) p ms (inr m) = ground (arith, has-keys-In found p ms m)

get-In :
    (found : List (String × List String)) (p : String) (ms : List String)
    → IsDistinct (keys found)
    → In (p, ms) found
    → get p found ≡ some ms
unfolding get
get-In [] p ms d m = absurd m
get-In ((q, ns) ∷ found) p ms d (inl e) =
    let s : p ≡ q = ap (λ x. x.0) e in
    let t : ms ≡ ns = ap (λ x. x.1) e in rw (s, eq_refl q, t) refl
get-In ((q, ns) ∷ found) p ms (new, d) (inr m) = ground (
  arith,
  get-In found p ms d m,
  has-keys-In found p ms m,
  ap (λ x. has x (keys found)),
  eq_iff q p,
)

In-get :
    (found : List (String × List String)) (p : String) (ms : List String)
    → get p found ≡ some ms
    → In (p, ms) found
unfolding get
In-get [] p ms h = cc
In-get ((q, ns) ∷ found) p ms h = elim (Bool-cases (q == p)) [
  | inl same ↦
      let k : some ns ≡ some ms = rw same at h in
      let e : ns ≡ ms = ap (λ o. get_or o []) k in inl (rw (← (eq_iff q p).0 same, e) refl)
  | inr other ↦ inr (In-get found p ms (rw other at h))
]

-- what an issue of the list is about
pub duplicate_issues_to :
    (found : List (String × List String)) (i : Issue)
    → In i (duplicate_issues found)
    → (p : String) × (ms : List String) × In (p, ms) found × In i (duplicate_issue p ms)
duplicate_issues_to [] i m = absurd m
duplicate_issues_to ((p, ms) ∷ found) i m =
    elim ((In-append_iff i (duplicate_issue p ms) (duplicate_issues found)).0 m) [
      | inl mine ↦ (p, ms, inl refl, mine)
      | inr n ↦ let (q, ns, at, mine) = duplicate_issues_to found i n in (q, ns, inr at, mine)
    ]

duplicate_issues_from :
    (found : List (String × List String)) (i : Issue) (p : String) (ms : List String)
    → In (p, ms) found
    → In i (duplicate_issue p ms)
    → In i (duplicate_issues found)
duplicate_issues_from [] i p ms at mine = absurd at
duplicate_issues_from ((q, ns) ∷ found) i p ms (inl e) mine =
    let s : p ≡ q = ap (λ x. x.0) e in
    let t : ms ≡ ns = ap (λ x. x.1) e in
    (In-append_iff i (duplicate_issue q ns) _).1 (inl (rw (← s, ← t) mine))
duplicate_issues_from ((q, ns) ∷ found) i p ms (inr at) mine =
    (In-append_iff i (duplicate_issue q ns) _).1 (inr (duplicate_issues_from found i p ms at mine))

-- the modules that an issue shows
abbrev shown_modules : Issue → List String
shown_modules i = i.module_name ∷ i.related_modules

duplicate_issue_cases :
    (p : String) (ms : List String) (i : Issue)
    → In i (duplicate_issue p ms)
    → (i.target ≡ some p) × (shown_modules i ≡ ms) × (2 ≤ length (shown_modules i))
duplicate_issue_cases p [] i m = absurd m
duplicate_issue_cases p (a ∷ []) i m = absurd m
duplicate_issue_cases p (a ∷ b ∷ ms) i (inl e) = rw e (refl, refl, omega arith)
duplicate_issue_cases p (a ∷ b ∷ ms) i (inr m) = absurd m

-- A list of two different texts has an issue.
two_modules :
    (p : String) (ms : List String) (a b : String)
    → has a ms ≡ true
    → has b ms ≡ true
    → (a == b) ≡ false
    → (i : Issue) × In i (duplicate_issue p ms)
two_modules p [] a b h k d = cc
two_modules p (x ∷ []) a b h k d = absurd (ground (arith, eq_iff x a, eq_iff x b, eq_iff a b))
two_modules p (x ∷ y ∷ ms) a b h k d = (_, inl refl)

-- the module is of the graph, is not the core module, and registers the provider
pub IsRegistered : GraphModules → String → String → Type 0
IsRegistered modules p m =
    (e : GraphOutputModule) × In (m, e) modules
    × ((m == nest_core_module_name) ≡ false)
    × (lists_provider e.providers p ≡ true)

registers_to :
    (modules : GraphModules) (p m : String)
    → registers (module_entries modules) p m ≡ true
    → IsRegistered modules p m
unfolding IsRegistered
registers_to modules p m h =
    let ((n, e), at, k) = any-true_cases (λ e. e.0 == m && lists_provider e.1.providers p) _ h in
    let (known, plain) = (module_entries_iff modules (n, e)).0 at in
    let same = (eq_iff n m).0 (ground arith) in
    (e, rw (← same) known, rw (← same) plain, ground arith)

registers_from :
    (modules : GraphModules) (p m : String)
    → IsRegistered modules p m
    → registers (module_entries modules) p m ≡ true
unfolding IsRegistered
registers_from modules p m (e, known, plain, h) =
    any-true (λ e. e.0 == m && lists_provider e.1.providers p) (m, e) _
      ((module_entries_iff modules (m, e)).1 (known, plain)) (ground (arith, eq_refl m))

table : (modules : GraphModules) → IsTable (modules_by_provider (module_entries modules) [])
unfolding get
table modules =
    modules_by_provider-IsTable (module_entries modules) []
      (record { distinct = tt; each = λ p. tt })

holders_iff :
    (modules : GraphModules) (p m : String)
    → (has m (holders (modules_by_provider (module_entries modules) []) p) ≡ true)
      ↔ IsRegistered modules p m
unfolding get
holders_iff modules p m =
    let e = holders-modules_by_provider (module_entries modules) [] p m in
    (
      λ h. registers_to modules p m (ground arith),
      λ r. let k = registers_from modules p m r in ground arith,
    )

-- An issue of `collectDuplicateProviderIssues` names a provider and shows at least two modules, no
-- module twice: exactly the modules, but the core module, that register the provider.
pub collect_duplicate_provider_issues_iff :
    (g : GraphOutput) (i : Issue)
    → In i (collect_duplicate_provider_issues g)
    → (p : String) × (i.target ≡ some p)
      × (2 ≤ length (i.module_name ∷ i.related_modules))
      × IsDistinct (i.module_name ∷ i.related_modules)
      × ((m : String)
          → (has m (i.module_name ∷ i.related_modules) ≡ true) ↔ IsRegistered g.modules p m)
unfolding collect_duplicate_provider_issues
collect_duplicate_provider_issues_iff g i m =
    let (p, ms, at, mine) = duplicate_issues_to _ i m in
    let (target, same, two) = duplicate_issue_cases p ms i mine in
    let h = table g.modules in
    let e : holders (modules_by_provider (module_entries g.modules) []) p
        ≡ i.module_name ∷ i.related_modules =
      ap (λ o. get_or o []) (get-In _ p ms h.distinct at) ∙ sym same in
    (p, target, two, rw e at (h.each p), λ m. rw e at (holders_iff g.modules p m))

-- A provider that two different modules register, neither of them the core module, is the target of
-- an issue.
pub collect_duplicate_provider_issues-IsRegistered :
    (g : GraphOutput) (p a b : String)
    → IsRegistered g.modules p a
    → IsRegistered g.modules p b
    → (a == b) ≡ false
    → (i : Issue) × In i (collect_duplicate_provider_issues g) × (i.target ≡ some p)
unfolding collect_duplicate_provider_issues
collect_duplicate_provider_issues-IsRegistered g p a b ra rb d =
    let found = modules_by_provider (module_entries g.modules) [] in
    let ha = (holders_iff g.modules p a).1 ra in
    let hb = (holders_iff g.modules p b).1 rb in
    elim (Option-cases (get p found)) [
      | inl absent ↦ absurd (ground (arith, rw absent at ha))
      | inr (ms, there) ↦
          let (i, mine) = two_modules p ms a b (rw there at ha) (rw there at hb) d in
          let (target, _, _) = duplicate_issue_cases p ms i mine in
          (i, duplicate_issues_from found i p ms (In-get found p ms there) mine, target)
    ]
