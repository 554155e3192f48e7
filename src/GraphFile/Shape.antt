-- ===== src/GraphFile/Shape.antt =====
-- site/app/utils/graph-file.ts: the shape of a graph that opens.
use nest_graph_inspector.Prelude.{
  ℕ, ◌≤◌, String, ◌==◌, true, false, ◌≡◌, ◌⊎◌, Option, none, some, All,
}
use nest_graph_inspector.Prelude.Maps.{keys}
use nest_graph_inspector.Prelude.Sets.{has}
use nest_graph_inspector.GraphFile.{
  Json, text, list, Items, items_of, read, entries_of, version_of,
  minimum_supported_graph_output_version,
}

-- the value is a text, an object, or a list of values of a kind
unfoldable pub IsText : Option Json → Type 0
IsText o = (s : String) × (o ≡ some (text s))

unfoldable pub IsListOf : (Json → Type 0) → Option Json → Type 0
IsListOf P o = (items : Items) × (o ≡ some (list items)) × All P (items_of items)

unfoldable pub IsOptionalText : Option Json → Type 0
IsOptionalText o = (o ≡ none) ⊎ IsText o

-- `GraphOutputDependencyRef`, a method of `directRun`, a provider or controller, and a module
unfoldable pub IsDependency : Json → Type 0
IsDependency v = IsText (read "token" (some v)) × IsText (read "name" (read "providedBy" (some v)))

unfoldable pub IsMethod : Json → Type 0
IsMethod v = IsText (read "name" (some v)) × IsText (read "parameterTypes" (some v))

unfoldable pub IsMember : Json → Type 0
IsMember v =
    IsText (read "name" (some v))
    × IsListOf IsDependency (read "dependencies" (some v))
    × ((read "directRun" (some v) ≡ none)
        ⊎ IsListOf IsMethod (read "methods" (read "directRun" (some v))))
    × IsOptionalText (read "jsdoc" (some v))

unfoldable pub IsModule : Json → Type 0
IsModule v =
    IsListOf (λ n. IsText (some n)) (read "imports" (some v))
    × IsListOf (λ n. IsText (some n)) (read "exports" (some v))
    × IsListOf IsMember (read "providers" (some v))
    × IsListOf IsMember (read "controllers" (some v))
    × IsOptionalText (read "jsdoc" (some v))

-- a step of a provider cycle, and a cycle whose steps are of a kind
unfoldable pub IsProviderStep : Json → Type 0
IsProviderStep v =
    IsText (read "name" (read "module" (some v))) × IsText (read "name" (read "provider" (some v)))

unfoldable pub IsCycle : (Json → Type 0) → Json → Type 0
IsCycle IsStep v =
    IsText (read "from" (some v))
    × IsText (read "to" (some v))
    × IsListOf IsStep (read "path" (some v))

-- `GraphOutput`: a root that is one of the modules, modules and cycles
unfoldable pub IsGraph : Json → Type 0
IsGraph v =
    (root : String) × (read "root" (some v) ≡ some (text root))
    × ((root == "") ≡ false)
    × (has root (keys (entries_of (read "modules" (some v)))) ≡ true)
    × All (λ e. IsModule e.1) (entries_of (read "modules" (some v)))
    × IsListOf (IsCycle (λ n. IsText (some n))) (read "modules" (read "cycles" (some v)))
    × IsListOf (IsCycle IsProviderStep) (read "providers" (read "cycles" (some v)))
    × IsListOf (IsCycle (λ n. IsText (some n))) (read "controllers" (read "cycles" (some v)))

-- the value has a version, which is not too old
unfoldable pub IsSupported : Json → Type 0
IsSupported v =
    (version : Json) × (n : ℕ) × (read "version" (some v) ≡ some version)
    × (version_of version ≡ some n)
    × (minimum_supported_graph_output_version ≤ n)
