-- ===== src/Issues/Tests.antt =====
-- site/app/utils/architecture-issues.ts on a small graph: App imports Users, Mail and Log, Users
-- imports Mail, and Mail is used by neither; Old is imported by no module.
use nest_graph_inspector.Prelude.{
  ◌≤◌, String, true, ◌≡◌, refl, ◌↔◌, inl, none, some, List, [], ◌∷◌, In, length,
}
use nest_graph_inspector.Prelude.Texts.{strip_prefix}
use nest_graph_inspector.Prelude.Maps.{get, set}
use nest_graph_inspector.Prelude.Sort.{sort_by, insert_by}
use nest_graph_inspector.Prelude.Order.{text_le}
use nest_graph_inspector.Prelude.Decimal.{decimal}
use nest_graph_inspector.Prelude.Sets.{has, IsDistinct}
use nest_graph_inspector.Builder.{GraphOutputInjectable, GraphOutputModule}
use nest_graph_inspector.Cycles.{direct}
use nest_graph_inspector.Builder.Output.{GraphOutput}
use nest_graph_inspector.Issues.{
  Issue, error, module_entries, collect_orphan_module_issues, duplicate_provider, unused_issue,
  consumes_export, collect_unused_import_issues, collect_duplicate_provider_issues,
  collect_dead_export_issues, reachable_modules,
}
use nest_graph_inspector.Issues.Unused.{without_import, collect_unused_import_issues-without_import}
use nest_graph_inspector.Issues.Duplicates.{IsRegistered, collect_duplicate_provider_issues_iff}
use nest_graph_inspector.Issues.Circular.{
  collect_circular_issues, resolve_circular_dependency_endpoints, module_of_circular_label,
  split_key,
}
use nest_graph_inspector.Issues.Collect.{collect_architecture_issues}
use nest_graph_inspector.Issues.Summary.{
  IsBySeverity, IsGraded, IsFound, collect_architecture_issues-IsBySeverity,
}
use nest_graph_inspector.Prelude.{All}

abbrev provider : String → GraphOutputInjectable
provider name = record { name = name; jsdoc = none; dependencies = []; direct_run = none }

abbrev module_of : List String → List String → List GraphOutputInjectable → GraphOutputModule
module_of imports exports providers = record {
  jsdoc = none;
  imports = imports;
  exports = exports;
  providers = providers;
  controllers = [];
}

abbrev sample : GraphOutput
sample = record {
  version = "4.0.0";
  root = "App";
  modules =
      ("App", module_of ("Users" ∷ "Mail" ∷ "Log" ∷ []) [] [])
      ∷ (
        "Users",
        module_of ("Mail" ∷ []) ("UsersService" ∷ [])
            (provider "UsersService" ∷ provider "Clock" ∷ []),
      )
      ∷ ("Mail", module_of [] [] (provider "Clock" ∷ []))
      ∷ ("Log", module_of [] [] [])
      ∷ ("Old", module_of [] [] [])
      ∷ [];
  cycles = record {
    modules =
        record {
          id = 1;
          from = "App";
          to = "Users";
          type = direct;
          path = "App" ∷ "Users" ∷ "App" ∷ [];
        }
        ∷ [];
    providers = [];
    controllers = [];
  };
}

abbrev ids : List Issue → List String
ids [] = []
ids (i ∷ is) = i.id ∷ ids is

sample-ids :
    ids (collect_architecture_issues sample)
    ≡ "circular:module:1" ∷ "duplicate-provider:Clock" ∷ "unused-import:Users:Mail"
      ∷ "orphan-module:Old" ∷ "dead-export:Users:UsersService" ∷ []
unfolding collect_architecture_issues sort_by collect_circular_issues insert_by
    collect_duplicate_provider_issues text_le set get collect_unused_import_issues reachable_modules
    collect_dead_export_issues consumes_export collect_orphan_module_issues
sample-ids = refl

labels :
    (split_key "Users:a:b" ≡ some ("Users", "a:b"))
    × (module_of_circular_label "Repo from Data from Users" ≡ "Users")
    × (resolve_circular_dependency_endpoints ("A" ∷ []) ≡ ("A", "A"))
    × (decimal 1070 ≡ "1070")
unfolding split_key module_of_circular_label resolve_circular_dependency_endpoints decimal
    strip_prefix
labels = (refl, refl, refl, refl)

-- the import of Mail by Users may go: App imports Mail too
mail_unused : In (unused_issue "Users" "Mail") (collect_unused_import_issues sample)
unfolding collect_unused_import_issues module_entries sort_by insert_by text_le reachable_modules
    get
mail_unused = inl refl

collect_unused_import_issues-without_import_example :
    (importer : GraphOutputModule) × (imported : String) × In ("Users", importer) sample.modules
    × (some "Mail" ≡ some imported)
    × (has imported importer.imports ≡ true)
    × ((v : String)
        → has v (reachable_modules (without_import "Users" imported sample) none)
          ≡ has v (reachable_modules sample none))
collect_unused_import_issues-without_import_example =
    collect_unused_import_issues-without_import sample (unused_issue "Users" "Mail") mail_unused

abbrev clock_issue : Issue
clock_issue = record {
  id = "duplicate-provider:Clock";
  category = duplicate_provider;
  severity = error;
  module_name = "Mail";
  related_modules = "Users" ∷ [];
  target = some "Clock";
}

clock_duplicated : In clock_issue (collect_duplicate_provider_issues sample)
unfolding collect_duplicate_provider_issues sort_by insert_by text_le set get
clock_duplicated = inl refl

collect_duplicate_provider_issues_iff_example :
    (p : String) × (some "Clock" ≡ some p)
    × (2 ≤ length {A = String} ("Mail" ∷ "Users" ∷ []))
    × IsDistinct ("Mail" ∷ "Users" ∷ [])
    × ((m : String) → (has m ("Mail" ∷ "Users" ∷ []) ≡ true) ↔ IsRegistered sample.modules p m)
collect_duplicate_provider_issues_iff_example =
    collect_duplicate_provider_issues_iff sample clock_issue clock_duplicated

collect_architecture_issues-IsBySeverity_example :
    IsBySeverity (collect_architecture_issues sample)
    × All IsGraded (collect_architecture_issues sample)
    × ((i : Issue) → In i (collect_architecture_issues sample) ↔ IsFound sample i)
collect_architecture_issues-IsBySeverity_example = collect_architecture_issues-IsBySeverity sample
