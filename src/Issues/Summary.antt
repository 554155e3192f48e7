-- ===== src/Issues/Summary.antt =====
-- site/app/utils/architecture-issues.ts: the order and the counts of the collected issues.
use nest_graph_inspector.Prelude.{
  ℕ, suc, ◌+◌, ◌≤◌, String, Bool, true, false, ◌≡◌, refl, ◌∙◌, ◌↔◌, ◌⊎◌, inl, inr, List, [], ◌∷◌,
  ◌++◌, length, arith, In, All, All-of_In, if◌then◌else◌, eqb, ltb,
}
use nest_graph_inspector.Prelude.Sort.{insert_by, sort_by}
use nest_graph_inspector.Prelude.Members.{In-append_iff, In-map_cases, In-sort_by_iff}
use nest_graph_inspector.Builder.Output.{GraphOutput}
use nest_graph_inspector.Issues.{
  Issue, Category, circular, duplicate_provider, unused_import, dead_export, orphan_module,
  Severity, error, warning, info, modules_by_provider, module_entries,
  collect_duplicate_provider_issues, collect_unused_import_issues, collect_dead_export_issues,
  collect_orphan_module_issues, duplicate_issue,
}
use nest_graph_inspector.Issues.Circular.{collect_circular_issues, circular_issue}
use nest_graph_inspector.Issues.Unused.{unused_in-IsUnusedImport}
use nest_graph_inspector.Issues.Orphans.{
  collect_orphan_module_issues_iff, collect_dead_export_issues_iff,
}
use nest_graph_inspector.Issues.Duplicates.{duplicate_issues_to}
use nest_graph_inspector.Issues.Collect.{
  severity_rank, compare_architecture_issues, all_issues, collect_architecture_issues, Summary,
  bump, count_severity, count_issue, count_issues, empty_summary, summarize_architecture_issues,
}

-- the severity of each category
abbrev pub severity_of : Category → Severity
severity_of circular = error
severity_of duplicate_provider = error
severity_of unused_import = warning
severity_of dead_export = info
severity_of orphan_module = warning

abbrev pub IsGraded : Issue → Type 0
IsGraded i = i.severity ≡ severity_of i.category

duplicate_issue-IsGraded :
    (p : String) (ms : List String) (i : Issue) → In i (duplicate_issue p ms) → IsGraded i
duplicate_issue-IsGraded p [] i m = absurd m
duplicate_issue-IsGraded p (a ∷ []) i m = absurd m
duplicate_issue-IsGraded p (a ∷ b ∷ ms) i (inl e) = rw e refl
duplicate_issue-IsGraded p (a ∷ b ∷ ms) i (inr m) = absurd m

module _ (g : GraphOutput) (i : Issue) where
  circular-IsGraded : In i (collect_circular_issues g) → IsGraded i
  unfolding collect_circular_issues circular_issue
  circular-IsGraded m = let (c, at, e) = In-map_cases circular_issue i _ m in rw e refl

  duplicate-IsGraded : In i (collect_duplicate_provider_issues g) → IsGraded i
  unfolding collect_duplicate_provider_issues
  duplicate-IsGraded m =
      let (p, ms, _, mine) =
        duplicate_issues_to (modules_by_provider (module_entries g.modules) []) i m in
      duplicate_issue-IsGraded p ms i mine

  unused-IsGraded : In i (collect_unused_import_issues g) → IsGraded i
  unfolding collect_unused_import_issues
  unused-IsGraded m =
      let h = unused_in-IsUnusedImport g (module_entries g.modules) i m in rw h.shown refl

  dead-IsGraded : In i (collect_dead_export_issues g) → IsGraded i
  dead-IsGraded m =
      let (_, _, _, _, _, _, _, e) = (collect_dead_export_issues_iff g i).0 m in rw e refl

  orphan-IsGraded : In i (collect_orphan_module_issues g) → IsGraded i
  orphan-IsGraded m =
      let (_, _, _, _, _, e) = (collect_orphan_module_issues_iff g i).0 m in rw e refl

  all_issues-IsGraded : In i (all_issues g) → IsGraded i
  all_issues-IsGraded m = elim ((In-append_iff i (collect_circular_issues g) _).0 m) [
    | inl a ↦ circular-IsGraded a
    | inr m ↦ elim ((In-append_iff i (collect_duplicate_provider_issues g) _).0 m) [
      | inl a ↦ duplicate-IsGraded a
      | inr m ↦ elim ((In-append_iff i (collect_unused_import_issues g) _).0 m) [
        | inl a ↦ unused-IsGraded a
        | inr m ↦ elim ((In-append_iff i (collect_dead_export_issues g) _).0 m) [
          | inl a ↦ dead-IsGraded a
          | inr a ↦ orphan-IsGraded a
        ]
      ]
    ]
  ]

collect-IsGraded : (g : GraphOutput) → All IsGraded (collect_architecture_issues g)
unfolding collect_architecture_issues
collect-IsGraded g = All-of_In IsGraded _ (λ i m.
    all_issues-IsGraded g i ((In-sort_by_iff compare_architecture_issues i (all_issues g)).0 m))

-- the severities never fall behind
abbrev IsRanked : List Issue → Type 0
IsRanked [] = Unit
IsRanked (i ∷ is) = All (λ j. severity_rank i.severity ≤ severity_rank j.severity) is × IsRanked is

first_key :
    (x y : ℕ) (c : Bool)
    → (((if eqb x y then c else ltb x y) ≡ true) × (x ≤ y))
      ⊎ (((if eqb x y then c else ltb x y) ≡ false) × (y ≤ x))
first_key x y true = ground arith
first_key x y false = ground arith

compare-rank :
    (a b : Issue)
    → ((compare_architecture_issues a b ≡ true)
        × (severity_rank a.severity ≤ severity_rank b.severity))
      ⊎ ((compare_architecture_issues a b ≡ false)
          × (severity_rank b.severity ≤ severity_rank a.severity))
unfolding compare_architecture_issues
compare-rank a b = first_key (severity_rank a.severity) (severity_rank b.severity) _

insert_by-All :
    (n : ℕ) (i : Issue) (is : List Issue)
    → n ≤ severity_rank i.severity
    → All (λ j. n ≤ severity_rank j.severity) is
    → All (λ j. n ≤ severity_rank j.severity) (insert_by compare_architecture_issues i is)
unfolding insert_by
insert_by-All n i [] h k = (h, tt)
insert_by-All n i (j ∷ is) h (p, k) = ground (arith, insert_by-All n i is h k)

All-above :
    (m n : ℕ) (is : List Issue)
    → m ≤ n
    → All (λ j. n ≤ severity_rank j.severity) is
    → All (λ j. m ≤ severity_rank j.severity) is
All-above m n [] h k = tt
All-above m n (i ∷ is) h (p, k) = (omega arith, All-above m n is h k)

insert_by-IsRanked :
    (i : Issue) (is : List Issue)
    → IsRanked is
    → IsRanked (insert_by compare_architecture_issues i is)
unfolding insert_by
insert_by-IsRanked i [] h = (tt, tt)
insert_by-IsRanked i (j ∷ is) (low, h) = elim (compare-rank i j) [
  | inl (e, le) ↦
      rw e
        ((le, All-above (severity_rank i.severity) (severity_rank j.severity) is le low), (low, h))
  | inr (e, le) ↦
      rw e (insert_by-All (severity_rank j.severity) i is le low, insert_by-IsRanked i is h)
]

sort_by-IsRanked : (is : List Issue) → IsRanked (sort_by compare_architecture_issues is)
unfolding sort_by
sort_by-IsRanked [] = tt
sort_by-IsRanked (i ∷ is) = insert_by-IsRanked i _ (sort_by-IsRanked is)

-- an issue of the first severity may stand before one of the second
abbrev pub MayPrecede : Severity → Severity → Type 0
MayPrecede error later = Unit
MayPrecede warning error = ⊥
MayPrecede warning warning = Unit
MayPrecede warning info = Unit
MayPrecede info error = ⊥
MayPrecede info warning = ⊥
MayPrecede info info = Unit

-- every error before every warning, and both before every cleanup
abbrev pub IsBySeverity : List Issue → Type 0
IsBySeverity [] = Unit
IsBySeverity (i ∷ is) = All (λ j. MayPrecede i.severity j.severity) is × IsBySeverity is

rank-MayPrecede : (a b : Severity) → severity_rank a ≤ severity_rank b → MayPrecede a b
rank-MayPrecede error b h = tt
rank-MayPrecede warning error h = absurd (omega arith)
rank-MayPrecede warning warning h = tt
rank-MayPrecede warning info h = tt
rank-MayPrecede info error h = absurd (omega arith)
rank-MayPrecede info warning h = absurd (omega arith)
rank-MayPrecede info info h = tt

All-MayPrecede :
    (a : Severity) (is : List Issue)
    → All (λ j. severity_rank a ≤ severity_rank j.severity) is
    → All (λ j. MayPrecede a j.severity) is
All-MayPrecede a [] h = tt
All-MayPrecede a (j ∷ is) (p, h) = (rank-MayPrecede a j.severity p, All-MayPrecede a is h)

IsRanked-IsBySeverity : (is : List Issue) → IsRanked is → IsBySeverity is
IsRanked-IsBySeverity [] h = tt
IsRanked-IsBySeverity (i ∷ is) (p, h) = (All-MayPrecede i.severity is p, IsRanked-IsBySeverity is h)

-- what one of the five collectors finds
abbrev pub IsFound : GraphOutput → Issue → Type 0
IsFound g i =
    In i (collect_circular_issues g)
    ⊎ (In i (collect_duplicate_provider_issues g)
        ⊎ (In i (collect_unused_import_issues g)
            ⊎ (In i (collect_dead_export_issues g) ⊎ In i (collect_orphan_module_issues g))))

In-append_five :
    (i : Issue) (a b c d e : List Issue)
    → In i (a ++ (b ++ (c ++ (d ++ e)))) ↔ (In i a ⊎ (In i b ⊎ (In i c ⊎ (In i d ⊎ In i e))))
In-append_five i a b c d e =
    let first = In-append_iff i a (b ++ (c ++ (d ++ e))) in
    let second = In-append_iff i b (c ++ (d ++ e)) in
    let third = In-append_iff i c (d ++ e) in
    let fourth = In-append_iff i d e in (λ m. ground arith, λ m. ground arith)

all_issues-IsFound : (g : GraphOutput) (i : Issue) → In i (all_issues g) ↔ IsFound g i
all_issues-IsFound g i =
    In-append_five i (collect_circular_issues g) (collect_duplicate_provider_issues g)
      (collect_unused_import_issues g) (collect_dead_export_issues g)
      (collect_orphan_module_issues g)

-- `collectArchitectureIssues` returns what its five collectors find, no other issue and none left out.
-- Each has the severity of its category: circular and duplicate-provider issues are errors,
-- unused-import and orphan-module issues warnings, dead-export issues cleanups. Every error stands
-- before every warning and every warning before every cleanup.
pub collect_architecture_issues-IsBySeverity :
    (g : GraphOutput)
    → IsBySeverity (collect_architecture_issues g)
      × All IsGraded (collect_architecture_issues g)
      × ((i : Issue) → In i (collect_architecture_issues g) ↔ IsFound g i)
unfolding collect_architecture_issues
collect_architecture_issues-IsBySeverity g = (
  IsRanked-IsBySeverity _ (sort_by-IsRanked (all_issues g)),
  collect-IsGraded g,
  λ i. (
    λ m.
        (all_issues-IsFound g i).0
          ((In-sort_by_iff compare_architecture_issues i (all_issues g)).0 m),
    λ m.
        (In-sort_by_iff compare_architecture_issues i (all_issues g)).1
          ((all_issues-IsFound g i).1 m),
  ),
)

-- the counts by severity are sums of counts by category
record IsTallied (s : Summary) : Type 0 where
  errors : s.errors ≡ s.by_category circular + s.by_category duplicate_provider
  warnings : s.warnings ≡ s.by_category unused_import + s.by_category orphan_module
  cleanups : s.cleanups ≡ s.by_category dead_export

count_severity-IsTallied :
    (c : Category) (s : Summary)
    → IsTallied s
    → IsTallied (
        count_severity (severity_of c) (record {
          total = s.total;
          errors = s.errors;
          warnings = s.warnings;
          cleanups = s.cleanups;
          by_category = bump c s.by_category;
        }))
count_severity-IsTallied circular s h = record {
  errors = omega (arith, h.errors);
  warnings = h.warnings;
  cleanups = h.cleanups;
}
count_severity-IsTallied duplicate_provider s h = record {
  errors = omega (arith, h.errors);
  warnings = h.warnings;
  cleanups = h.cleanups;
}
count_severity-IsTallied unused_import s h = record {
  errors = h.errors;
  warnings = omega (arith, h.warnings);
  cleanups = h.cleanups;
}
count_severity-IsTallied dead_export s h = record {
  errors = h.errors;
  warnings = h.warnings;
  cleanups = omega (arith, h.cleanups);
}
count_severity-IsTallied orphan_module s h = record {
  errors = h.errors;
  warnings = omega (arith, h.warnings);
  cleanups = h.cleanups;
}

count_issues-IsTallied :
    (is : List Issue) (s : Summary) → All IsGraded is → IsTallied s → IsTallied (count_issues is s)
unfolding count_issues
count_issues-IsTallied [] s _ h = h
count_issues-IsTallied (i ∷ is) s (e, g) h =
    count_issues-IsTallied is (count_issue i s) g (rw e (count_severity-IsTallied i.category s h))

count_severity-sum :
    (v : Severity) (s : Summary)
    → let t = count_severity v s in
      t.errors + t.warnings + t.cleanups ≡ suc (s.errors + s.warnings + s.cleanups)
count_severity-sum error s = omega arith
count_severity-sum warning s = omega arith
count_severity-sum info s = omega arith

count_severity-total : (v : Severity) (s : Summary) → (count_severity v s).total ≡ s.total
count_severity-total error s = refl
count_severity-total warning s = refl
count_severity-total info s = refl

count_issues-sum :
    (is : List Issue) (s : Summary)
    → let t = count_issues is s in
      (t.errors + t.warnings + t.cleanups ≡ length is + (s.errors + s.warnings + s.cleanups))
      × (t.total ≡ s.total)
unfolding count_issues
count_issues-sum [] s = (omega arith, refl)
count_issues-sum (i ∷ is) s =
    let (a, b) = count_issues-sum is (count_issue i s) in
    (omega (arith, a, count_severity-sum i.severity _), b ∙ count_severity-total i.severity _)

-- The summary's total is the number of the issues and the sum of its errors, warnings and cleanups.
pub summarize_architecture_issues_total :
    (is : List Issue)
    → let s = summarize_architecture_issues is in
      (s.total ≡ length is) × (s.total ≡ s.errors + s.warnings + s.cleanups)
unfolding summarize_architecture_issues
summarize_architecture_issues_total is =
    let (a, b) = count_issues-sum is (empty_summary (length is)) in (b, omega (arith, a, b))

-- The summary of what `collectArchitectureIssues` returns counts as errors the circular and the
-- duplicate-provider issues, as warnings the unused-import and the orphan-module issues, and as cleanups
-- the dead-export issues.
summarize-collect :
    (g : GraphOutput)
    → let s = summarize_architecture_issues (collect_architecture_issues g) in
      (s.errors ≡ s.by_category circular + s.by_category duplicate_provider)
      × (s.warnings ≡ s.by_category unused_import + s.by_category orphan_module)
      × (s.cleanups ≡ s.by_category dead_export)
unfolding summarize_architecture_issues
summarize-collect g =
    let h =
      count_issues-IsTallied (collect_architecture_issues g)
        (empty_summary (length (collect_architecture_issues g))) (collect-IsGraded g)
        (record { errors = omega arith; warnings = omega arith; cleanups = refl }) in
    (h.errors, h.warnings, h.cleanups)
