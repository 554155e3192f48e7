-- ===== src/Issues/Collect.antt =====
-- site/app/utils/architecture-issues.ts: `collectArchitectureIssues`, `compareArchitectureIssues` and
-- `summarizeArchitectureIssues`.
use nest_graph_inspector.Prelude.{
  ℕ, suc, ◌==◌, Bool, List, [], ◌∷◌, ◌++◌, length, if◌then◌else◌, eqb, ltb,
}
use nest_graph_inspector.Prelude.Sort.{sort_by}
use nest_graph_inspector.Prelude.Order.{text_le}
use nest_graph_inspector.Builder.Output.{GraphOutput}
use nest_graph_inspector.Issues.{
  Issue, Category, circular, duplicate_provider, unused_import, dead_export, orphan_module,
  Severity, error, warning, info, collect_duplicate_provider_issues, collect_unused_import_issues,
  collect_dead_export_issues, collect_orphan_module_issues,
}
use nest_graph_inspector.Issues.Circular.{collect_circular_issues}

-- `severityRank`
abbrev pub severity_rank : Severity → ℕ
severity_rank error = 0
severity_rank warning = 1
severity_rank info = 2

-- `ARCHITECTURE_ISSUE_CATEGORIES.indexOf(category)`
abbrev pub category_rank : Category → ℕ
category_rank circular = 0
category_rank duplicate_provider = 1
category_rank unused_import = 2
category_rank dead_export = 3
category_rank orphan_module = 4

-- `compareArchitectureIssues(a, b) <= 0`
unfoldable pub compare_architecture_issues : Issue → Issue → Bool
compare_architecture_issues a b =
    if eqb (severity_rank a.severity) (severity_rank b.severity)
    then if eqb (category_rank a.category) (category_rank b.category)
      then (if a.module_name == b.module_name
          then text_le a.id b.id
          else text_le a.module_name b.module_name)
      else ltb (category_rank a.category) (category_rank b.category)
    else ltb (severity_rank a.severity) (severity_rank b.severity)

-- the issues before they are sorted
abbrev pub all_issues : GraphOutput → List Issue
all_issues g =
    collect_circular_issues g
    ++ (collect_duplicate_provider_issues g
        ++ (collect_unused_import_issues g
            ++ (collect_dead_export_issues g ++ collect_orphan_module_issues g)))

-- `collectArchitectureIssues`
unfoldable pub collect_architecture_issues : GraphOutput → List Issue
unfolding compare_architecture_issues
collect_architecture_issues g = sort_by compare_architecture_issues (all_issues g)

-- `ArchitectureIssuesSummary`
pub record Summary : Type 0 where
  pub total : ℕ
  pub errors : ℕ
  pub warnings : ℕ
  pub cleanups : ℕ
  pub by_category : Category → ℕ

abbrev pub category_eqb : Category → Category → Bool
category_eqb a b = eqb (category_rank a) (category_rank b)

-- `byCategory[issue.category] += 1`
abbrev pub bump : Category → (Category → ℕ) → Category → ℕ
bump c counts d = if category_eqb c d then suc (counts d) else counts d

abbrev pub count_severity : Severity → Summary → Summary
count_severity error s = record {
  total = s.total;
  errors = suc s.errors;
  warnings = s.warnings;
  cleanups = s.cleanups;
  by_category = s.by_category;
}
count_severity warning s = record {
  total = s.total;
  errors = s.errors;
  warnings = suc s.warnings;
  cleanups = s.cleanups;
  by_category = s.by_category;
}
count_severity info s = record {
  total = s.total;
  errors = s.errors;
  warnings = s.warnings;
  cleanups = suc s.cleanups;
  by_category = s.by_category;
}

-- the body of the loop of `summarizeArchitectureIssues`
abbrev pub count_issue : Issue → Summary → Summary
count_issue i s = count_severity i.severity (record {
  total = s.total;
  errors = s.errors;
  warnings = s.warnings;
  cleanups = s.cleanups;
  by_category = bump i.category s.by_category;
})

unfoldable pub count_issues : List Issue → Summary → Summary
count_issues [] s = s
count_issues (i ∷ is) s = count_issues is (count_issue i s)

abbrev pub empty_summary : ℕ → Summary
empty_summary total = record {
  total = total;
  errors = 0;
  warnings = 0;
  cleanups = 0;
  by_category = λ c. 0;
}

-- `summarizeArchitectureIssues`
unfoldable pub summarize_architecture_issues : List Issue → Summary
unfolding count_issues
summarize_architecture_issues issues = count_issues issues (empty_summary (length issues))
