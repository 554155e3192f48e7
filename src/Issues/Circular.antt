-- ===== src/Issues/Circular.antt =====
-- site/app/utils/circular-dependency-issues.ts, and `collectCircularIssues` of
-- site/app/utils/architecture-issues.ts: the cycles of a graph output as issues.
use Prim.Native.String
use nest_graph_inspector.Prelude.{
  ℕ, String, ◌==◌, Bool, not, Option, none, some, List, ◌∷◌, ◌++◌, map, filter, strip_prefix,
  if◌then◌else◌, leb, get_or, head?,
}
use nest_graph_inspector.Prelude.Decimal.{decimal}
use nest_graph_inspector.Prelude.Sort.{sort_by}
use nest_graph_inspector.Cycles.{CycleType}
use nest_graph_inspector.Builder.Output.{GraphOutput, PathItem}
use nest_graph_inspector.Issues.{Issue, circular, error, unique_sorted}

pub data CycleCategory : Type 0 where
  of_module of_provider of_controller : CycleCategory

-- `CircularDependencyIssue`
pub record CircularIssue : Type 0 where
  pub id : ℕ
  pub category : CycleCategory
  pub type : CycleType
  pub from : String
  pub to : String
  pub path : List String

-- `key.indexOf(":")` and the two slices
unfoldable pub split_key : String → Option (String × String)
split_key String.[] = none
split_key (String.◌∷◌ c s) =
    let rest = split_key s in
    if String.◌∷◌ c "" == ":"
    then some ("", s)
    else elim rest [ none ↦ none | some p ↦ some (String.◌∷◌ c p.0, p.1) ]

-- `${token} from ${moduleName}`
abbrev pub label : String → String → String
label module_name token = String.◌++◌ token (String.◌++◌ " from " module_name)

abbrev pub label_of_key : Option (String × String) → String → String
label_of_key none key = key
label_of_key (some (module_name, token)) key = label module_name token

-- `formatDependencyCyclePath`
unfoldable pub format_dependency_cycle_path : List String → List String
unfolding split_key
format_dependency_cycle_path path = map (λ key. label_of_key (split_key key) key) path

-- `formatProviderCyclePath`
abbrev pub format_provider_cycle_path : List PathItem → List String
format_provider_cycle_path path = map (λ i. label i.module_name i.provider_name) path

-- `a || b` on texts
abbrev pub text_or : Option String → String → String
text_or none b = b
text_or (some a) b = if a == "" then b else a

abbrev second? : List String → Option String
second? (_ ∷ b ∷ _) = some b
second? _ = none

-- `resolveCircularDependencyEndpoints`
unfoldable pub resolve_circular_dependency_endpoints : List String → String × String
resolve_circular_dependency_endpoints path =
    (text_or (head? path) "Unknown", text_or (second? path) (text_or (head? path) "Unknown"))

-- `mapGraphCycleToIssue`
unfoldable pub map_graph_cycle_to_issue :
    ℕ → CycleType → CycleCategory → List String → CircularIssue
unfolding resolve_circular_dependency_endpoints
map_graph_cycle_to_issue id type category path = record {
  id = id;
  category = category;
  type = type;
  from = (resolve_circular_dependency_endpoints path).0;
  to = (resolve_circular_dependency_endpoints path).1;
  path = path;
}

abbrev id_le : CircularIssue → CircularIssue → Bool
id_le a b = leb a.id b.id

-- `collectCircularDependencyIssues`
unfoldable pub collect_circular_dependency_issues : GraphOutput → List CircularIssue
unfolding map_graph_cycle_to_issue format_dependency_cycle_path
collect_circular_dependency_issues g = sort_by id_le (
    map (λ c. map_graph_cycle_to_issue c.id c.type of_module c.path) g.cycles.modules
    ++ (map
          (λ c.
            map_graph_cycle_to_issue c.id c.type of_provider (format_provider_cycle_path c.path))
          g.cycles.providers
        ++ map
            (λ c.
              map_graph_cycle_to_issue c.id c.type of_controller
                (format_dependency_cycle_path c.path))
            g.cycles.controllers))

-- the text after the last " from "
unfoldable pub after_from : String → Option String
after_from String.[] = none
after_from (String.◌∷◌ c s) = elim (after_from s) [
  | some rest ↦ some rest
  | none ↦ strip_prefix " from " (String.◌∷◌ c s)
]

-- `moduleOfCircularLabel`
unfoldable pub module_of_circular_label : String → String
unfolding after_from
module_of_circular_label text = get_or (after_from text) text

abbrev pub category_text : CycleCategory → String
category_text of_module = "module"
category_text of_provider = "provider"
category_text of_controller = "controller"

-- what `collectCircularIssues` maps a cycle's issue to
unfoldable pub circular_issue : CircularIssue → Issue
unfolding module_of_circular_label decimal unique_sorted
circular_issue c =
    let modules = map module_of_circular_label c.path in
    let name = text_or (head? modules) (module_of_circular_label c.from) in
    record {
      id =
          String.◌++◌ "circular:"
            (String.◌++◌ (category_text c.category) (String.◌++◌ ":" (decimal c.id)));
      category = circular;
      severity = error;
      module_name = name;
      related_modules = unique_sorted (filter (λ m. not (m == name)) modules);
      target = some c.to;
    }

-- `collectCircularIssues`
unfoldable pub collect_circular_issues : GraphOutput → List Issue
unfolding collect_circular_dependency_issues circular_issue
collect_circular_issues g = map circular_issue (collect_circular_dependency_issues g)
