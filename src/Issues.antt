-- ===== src/Issues.antt =====
-- site/app/utils/architecture-issues.ts: what the viewer finds wrong in a graph output.
-- An issue's title, description and remediation are texts to show, and are left out. A lookup in
-- `graphData.modules` is by the object's own keys.
pub mod Reachable
pub mod Entries
pub mod Unused
pub mod Orphans
pub mod Duplicates
pub mod Circular
pub mod Collect
pub mod Summary
mod Tests
use Prim.Native.String
use nest_graph_inspector.Prelude.{
  ℕ, zero, suc, ◌+◌, String, ◌==◌, Bool, true, false, not, ◌&&◌, ◌||◌, Option, none, some, List, [],
  ◌∷◌, ◌++◌, map, filter, any, if◌then◌else◌, get_or, length, eqb,
}
use nest_graph_inspector.Prelude.Maps.{get, set, keys}
use nest_graph_inspector.Prelude.Sets.{has, add}
use nest_graph_inspector.Prelude.Sort.{sort_by}
use nest_graph_inspector.Prelude.Order.{text_le}
use nest_graph_inspector.Graph.{push_all}
use nest_graph_inspector.Builder.{
  DependencyRef, GraphOutputInjectable, GraphOutputModule, GraphModules,
}
use nest_graph_inspector.Builder.Output.{GraphOutput}

pub data Category : Type 0 where
  circular duplicate_provider unused_import dead_export orphan_module : Category

pub data Severity : Type 0 where
  error warning info : Severity

-- `ArchitectureIssue`, without the texts and the cycle that is shown with a circular issue
pub record Issue : Type 0 where
  pub id : String
  pub category : Category
  pub severity : Severity
  pub module_name : String
  pub related_modules : List String
  pub target : Option String

-- `NEST_CORE_MODULE_NAME`
abbrev pub nest_core_module_name : String
nest_core_module_name = "NestJSCoreModule"

-- `uniqueSorted`
unfoldable pub unique : List String → List String → List String
unique [] seen = seen
unique (x ∷ xs) seen = unique xs (add x seen)

unfoldable pub unique_sorted : List String → List String
unfolding unique
unique_sorted values = sort_by text_le (unique values [])

abbrev entry_le : String × GraphOutputModule → String × GraphOutputModule → Bool
entry_le a b = text_le a.0 b.0

-- `moduleEntries`
unfoldable pub module_entries : GraphModules → GraphModules
module_entries modules = sort_by entry_le (filter (λ e. not (e.0 == nest_core_module_name)) modules)

-- `flatMap(item => item.dependencies)`
abbrev pub all_dependencies : List GraphOutputInjectable → List DependencyRef
all_dependencies [] = []
all_dependencies (i ∷ is) = i.dependencies ++ all_dependencies is

-- `moduleDependencies`
abbrev pub module_dependencies : GraphOutputModule → List DependencyRef
module_dependencies m = all_dependencies m.providers ++ all_dependencies m.controllers

abbrev pub imports_of : Option GraphOutputModule → List String
imports_of none = []
imports_of (some m) = m.imports

-- `skippedEdge?.from === moduleName && skippedEdge.to === importedName`
abbrev pub is_skipped_edge : Option (String × String) → String → String → Bool
is_skipped_edge none source target = false
is_skipped_edge (some (from, to)) source target = from == source && to == target

-- the imports of a module that `reachableModules` pushes
unfoldable pub links : GraphModules → Option (String × String) → String → List String
links modules skipped name =
    filter (λ t. not (is_skipped_edge skipped name t) && has t (keys modules))
      (imports_of (get name modules))

-- the `while` loop of `reachableModules`, on fuel
unfoldable pub explore : (String → List String) → ℕ → List String → List String → List String
explore next zero pending reachable = reachable
explore next (suc fuel) [] reachable = reachable
explore next (suc fuel) (name ∷ pending) reachable =
    let skip = has name reachable in
    explore next fuel (if skip then pending else push_all (next name) pending)
      (if skip then reachable else reachable ++ name ∷ [])

abbrev pub import_count : GraphModules → ℕ
import_count [] = 0
import_count ((_, m) ∷ rest) = length m.imports + import_count rest

-- `reachableModules`
unfoldable pub reachable_modules : GraphOutput → Option (String × String) → List String
unfolding links explore
reachable_modules g skipped =
    if has g.root (keys g.modules)
    then explore (links g.modules skipped) (suc (import_count g.modules)) (g.root ∷ []) []
    else []

-- `collectDuplicateProviderIssues`: the providers' names with the modules that register them
unfoldable pub add_providers :
    String → List GraphOutputInjectable → List (String × List String) → List (String × List String)
add_providers module_name [] found = found
add_providers module_name (p ∷ ps) found =
    add_providers module_name ps (set p.name (add module_name (get_or (get p.name found) [])) found)

unfoldable pub modules_by_provider :
    GraphModules → List (String × List String) → List (String × List String)
unfolding add_providers
modules_by_provider [] found = found
modules_by_provider ((name, m) ∷ rest) found =
    modules_by_provider rest (add_providers name m.providers found)

abbrev pub duplicate_issue : String → List String → List Issue
duplicate_issue provider (first ∷ second ∷ others) =
    record {
      id = String.◌++◌ "duplicate-provider:" provider;
      category = duplicate_provider;
      severity = error;
      module_name = first;
      related_modules = second ∷ others;
      target = some provider;
    }
    ∷ []
duplicate_issue provider _ = []

abbrev pub duplicate_issues : List (String × List String) → List Issue
duplicate_issues [] = []
duplicate_issues ((provider, modules) ∷ rest) =
    duplicate_issue provider modules ++ duplicate_issues rest

unfoldable pub collect_duplicate_provider_issues : GraphOutput → List Issue
unfolding modules_by_provider module_entries
collect_duplicate_provider_issues g =
    duplicate_issues (modules_by_provider (module_entries g.modules) [])

-- `isInjected` and `isReExported`
abbrev pub is_injected : List DependencyRef → String → List String → Bool
is_injected dependencies imported exports =
    any (λ d. d.provided_by == imported || has d.token exports) dependencies

abbrev pub is_re_exported : GraphOutputModule → String → List String → Bool
is_re_exported m imported exports = any (λ e. e == imported || has e exports) m.exports

abbrev pub unused_issue : String → String → Issue
unused_issue name imported = record {
  id = String.◌++◌ "unused-import:" (String.◌++◌ name (String.◌++◌ ":" imported));
  category = unused_import;
  severity = warning;
  module_name = name;
  related_modules = imported ∷ [];
  target = some imported;
}

-- whether the inner loop of `collectUnusedImportIssues` reaches its `push`
abbrev is_unused_target :
    GraphOutput → String → GraphOutputModule → String → Option GraphOutputModule → Bool
is_unused_target g name m imported none = false
is_unused_target g name m imported (some target) =
    not (imported == name)
    && not (imported == nest_core_module_name)
    && not (is_injected (module_dependencies m) imported target.exports)
    && not (is_re_exported m imported target.exports)
    && has imported (reachable_modules g (some (name, imported)))

unfoldable pub is_unused : GraphOutput → String → GraphOutputModule → String → Bool
is_unused g name m imported = is_unused_target g name m imported (get imported g.modules)

unfoldable pub unused_in : GraphOutput → GraphModules → List Issue
unfolding is_unused unique_sorted
unused_in g [] = []
unused_in g ((name, m) ∷ rest) =
    let more = unused_in g rest in
    if name == g.root || not (has name (reachable_modules g none))
    then more
    else map (unused_issue name) (filter (is_unused g name m) (unique_sorted m.imports)) ++ more

-- `collectUnusedImportIssues`
unfoldable pub collect_unused_import_issues : GraphOutput → List Issue
unfolding unused_in
collect_unused_import_issues g = unused_in g (module_entries g.modules)

-- `consumesExport`
unfoldable pub consumes_export : String × GraphOutputModule → String → String → Bool
consumes_export (name, m) exporter token =
    not (name == exporter)
    && (any (λ d. d.token == token && not (d.provided_by == name)) (module_dependencies m)
        || has exporter m.imports && has token m.exports)

abbrev pub dead_issue : String → String → Issue
dead_issue name exported = record {
  id = String.◌++◌ "dead-export:" (String.◌++◌ name (String.◌++◌ ":" exported));
  category = dead_export;
  severity = info;
  module_name = name;
  related_modules = [];
  target = some exported;
}

unfoldable pub is_dead : GraphModules → String → String → Bool
is_dead modules exporter exported =
    not (has exported (keys modules))
    && not (any (λ c. consumes_export c exporter exported) modules)

unfoldable pub dead_in : GraphModules → GraphModules → List Issue
unfolding is_dead unique_sorted
dead_in modules [] = []
dead_in modules ((name, m) ∷ rest) =
    map (dead_issue name) (filter (is_dead modules name) (unique_sorted m.exports))
    ++ dead_in modules rest

-- `collectDeadExportIssues`
unfoldable pub collect_dead_export_issues : GraphOutput → List Issue
unfolding dead_in
collect_dead_export_issues g = dead_in g.modules (module_entries g.modules)

abbrev pub orphan_issue : GraphOutput → String × GraphOutputModule → Issue
orphan_issue g e = record {
  id = String.◌++◌ "orphan-module:" e.0;
  category = orphan_module;
  severity = warning;
  module_name = e.0;
  related_modules = g.root ∷ [];
  target = none;
}

-- `collectOrphanModuleIssues`
unfoldable pub collect_orphan_module_issues : GraphOutput → List Issue
unfolding module_entries
collect_orphan_module_issues g =
    if has g.root (keys g.modules)
    then map (orphan_issue g)
        (filter (λ e. not (has e.0 (reachable_modules g none))) (module_entries g.modules))
    else []
