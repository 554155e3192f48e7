-- ===== src/GraphFile.antt =====
-- site/app/utils/graph-file.ts and graph-output-support.ts beside it: reading a graph file that a visitor
-- opens. JSON.parse and JSON.stringify are parameters. A number of the file is what `parseInt` reads of
-- it if it is whole and not negative. The text of a size in megabytes is a parameter too.
pub mod Values
pub mod Shape
mod Problems
mod Opened
mod Tests
use Prim.Native.String
use Prim.Native.Char.{Char, code}
use nest_graph_inspector.Prelude.{
  ℕ, zero, suc, ◌+◌, ◌-◌, ◌*◌, String, ◌==◌, Bool, true, false, not, ◌&&◌, ◌||◌, Option, none, some,
  List, [], ◌∷◌, all, is_some, if◌then◌else◌, leb, ltb,
}
use nest_graph_inspector.Prelude.Texts.{trim}
use nest_graph_inspector.Prelude.Decimal.{decimal}
use nest_graph_inspector.Prelude.Maps.{get, keys}
use nest_graph_inspector.Prelude.Sets.{has}
use nest_graph_inspector.Builder.TypeCode.{is_identifier}
pub use nest_graph_inspector.GraphFile.Values.{
  Json, Items, Fields, items_of, fields_of, read, is_record, is_string, is_text, is_list_of,
  is_string_list, null, flag, whole, other_number, text, list, object, no_items, item, no_fields,
  field,
}

-- the first problem, if any
abbrev pub or_else : Option String → Option String → Option String
or_else none later = later
or_else (some problem) later = some problem

abbrev pub require : Bool → String → Option String
require true problem = none
require false problem = some problem

-- "`a` b"
abbrev quoted : String → String → String
quoted path rest = String.◌++◌ "`" (String.◌++◌ path (String.◌++◌ "`" rest))

abbrev at_index : String → ℕ → String
at_index path n = String.◌++◌ path (String.◌++◌ "[" (String.◌++◌ (decimal n) "]"))

-- the problem of `findIndex`'s first hit
unfoldable pub first_unfit : (Json → Bool) → String → String → ℕ → List Json → Option String
first_unfit fits path rest n [] = none
first_unfit fits path rest n (v ∷ items) =
    let later = first_unfit fits path rest (suc n) items in
    or_else (require (fits v) (quoted (at_index path n) rest)) later

-- the entries of a list, or the problem of what is none
abbrev pub unfit_in : (Json → Bool) → String → String → String → Option Json → Option String
unfit_in fits path no_list rest (some (list items)) = first_unfit fits path rest 0 (items_of items)
unfit_in fits path no_list rest _ = some (quoted path no_list)

-- the checks of a dependency and of a method
unfoldable pub is_dependency : Json → Bool
is_dependency v =
    is_record (some v)
    && is_string (read "token" (some v))
    && is_record (read "providedBy" (some v))
    && is_string (read "name" (read "providedBy" (some v)))

unfoldable pub is_method : Json → Bool
is_method v =
    is_record (some v)
    && is_string (read "name" (some v))
    && is_string (read "parameterTypes" (some v))

-- `optionalString`
abbrev pub optional_string : Option Json → String → Option String
optional_string none path = none
optional_string (some v) path = require (is_text v) (quoted path " is not text")

abbrev pub dot : String → String → String
dot path name = String.◌++◌ path (String.◌++◌ "." name)

abbrev pub direct_run_problem : Option Json → String → Option String
direct_run_problem none path = none
direct_run_problem (some v) path =
    unfit_in is_method (dot path "methods") " is not a list" " is not a method"
      (read "methods" (some v))

-- `findMemberProblem`
unfoldable pub find_member_problem : Json → String → Option String
unfolding is_dependency is_method first_unfit
find_member_problem v path =
    or_else
      (require (is_record (some v) && is_string (read "name" (some v)))
        (quoted path " has no `name`"))
      (or_else
        (unfit_in is_dependency (dot path "dependencies") " is not a list" " is not a dependency"
          (read "dependencies" (some v)))
        (or_else (direct_run_problem (read "directRun" (some v)) (dot path "directRun"))
          (optional_string (read "jsdoc" (some v)) (dot path "jsdoc"))))

unfoldable pub find_members_problem : String → ℕ → List Json → Option String
unfolding find_member_problem
find_members_problem path n [] = none
find_members_problem path n (v ∷ items) =
    let later = find_members_problem path (suc n) items in
    or_else (find_member_problem v (at_index path n)) later

abbrev pub members_problem : String → Option Json → Option String
members_problem path (some (list items)) = find_members_problem path 0 (items_of items)
members_problem path _ = some (quoted path " is not a list")

-- `findModuleProblem`
unfoldable pub find_module_problem : Json → String → Option String
unfolding find_members_problem
find_module_problem v path =
    or_else (require (is_record (some v)) (quoted path " is not a module")) (
      or_else
        (require (is_string_list (read "imports" (some v)))
          (quoted (dot path "imports") " is not a list of names"))
        (or_else
          (require (is_string_list (read "exports" (some v)))
            (quoted (dot path "exports") " is not a list of names"))
          (or_else (members_problem (dot path "providers") (read "providers" (some v))) (
            or_else (members_problem (dot path "controllers") (read "controllers" (some v)))
              (optional_string (read "jsdoc" (some v)) (dot path "jsdoc"))))))

-- `isProviderCycleStep`
unfoldable pub is_provider_cycle_step : Json → Bool
is_provider_cycle_step v =
    is_record (some v)
    && is_record (read "module" (some v))
    && is_string (read "name" (read "module" (some v)))
    && is_record (read "provider" (some v))
    && is_string (read "name" (read "provider" (some v)))

-- the test of a cycle, by the test of its steps
unfoldable pub is_cycle : (Json → Bool) → Json → Bool
is_cycle is_step v =
    is_record (some v)
    && is_string (read "from" (some v))
    && is_string (read "to" (some v))
    && is_list_of is_step (read "path" (some v))

abbrev pub cycles_problem : (Json → Bool) → String → Option Json → Option String
cycles_problem is_step kind cycles =
    unfit_in (is_cycle is_step) (String.◌++◌ "cycles." kind) " is not a list" " is not a cycle"
      (read kind cycles)

abbrev pub entries_of : Option Json → List (String × Json)
entries_of (some (object fs)) = fields_of fs
entries_of _ = []

abbrev pub text_of : Option Json → String
text_of (some (text s)) = s
text_of _ = ""

module _ (stringify : String → String) where
  -- `key`
  unfoldable pub key : String → String
  key name =
      if is_identifier name
      then String.◌++◌ "." name
      else String.◌++◌ "[" (String.◌++◌ (stringify name) "]")

  unfoldable pub find_modules_problem : List (String × Json) → Option String
  unfolding find_module_problem key
  find_modules_problem [] = none
  find_modules_problem ((name, v) ∷ rest) =
      let later = find_modules_problem rest in
      or_else (find_module_problem v (String.◌++◌ "modules" (key name))) later

  -- `findGraphOutputProblem`
  unfoldable pub find_graph_output_problem : Option Json → Option String
  unfolding find_modules_problem is_cycle is_provider_cycle_step
  find_graph_output_problem g =
      or_else (require (not (text_of (read "root" g) == "")) "it names no `root` module") (
        or_else (require (is_record (read "modules" g)) "`modules` is not an object of modules") (
          or_else
            (require (has (text_of (read "root" g)) (keys (entries_of (read "modules" g)))) (
              String.◌++◌ "its root module, "
                (String.◌++◌ (text_of (read "root" g)) ", is not among its `modules`")))
            (or_else (find_modules_problem (entries_of (read "modules" g))) (
              or_else (require (is_record (read "cycles" g)) "`cycles` is not an object") (
                or_else (cycles_problem is_text "modules" (read "cycles" g)) (
                  or_else (cycles_problem is_provider_cycle_step "providers" (read "cycles" g))
                    (cycles_problem is_text "controllers" (read "cycles" g))))))))

abbrev is_digit : Char → Bool
is_digit c = leb 48 (code c) && leb (code c) 57

unfoldable digits_from : ℕ → String → Option ℕ
digits_from n String.[] = some n
digits_from n (String.◌∷◌ c s) =
    let rest = digits_from (n * 10 + (code c - 48)) s in if is_digit c then rest else none

abbrev digits_value : String → Option ℕ
digits_value s = if s == "" then none else digits_from 0 s

-- `isWholeNumber(value) ? parseGraphOutputVersion(value) : null`
unfoldable pub version_of : Json → Option ℕ
unfolding digits_from
version_of (whole n) = some n
version_of (text s) = digits_value s
version_of _ = none

-- `MINIMUM_SUPPORTED_GRAPH_OUTPUT_VERSION` and `NEWEST_KNOWN_GRAPH_OUTPUT_VERSION`
abbrev pub minimum_supported_graph_output_version : ℕ
minimum_supported_graph_output_version = 3

abbrev pub newest_known_graph_output_version : ℕ
newest_known_graph_output_version = 3

-- `GraphFileProblem`
pub data Problem : Type 0 where
  too_large empty invalid_json not_a_graph unsupported_version unreadable : Problem

-- `GraphFileResult`: the graph with whether a notice is shown, or the kind of the problem with its detail
pub data GraphFileResult : Type 0 where
  opened : Json → Bool → GraphFileResult
  refused : Problem → String → GraphFileResult

abbrev pub is_newer : ℕ → Bool
is_newer version = ltb newest_known_graph_output_version version

abbrev pub judge : Json → ℕ → Option String → GraphFileResult
judge value version none = opened value (is_newer version)
judge value version (some problem) =
    refused (if is_newer version then unsupported_version else not_a_graph) problem

module _ (stringify : String → String) where
  abbrev pub read_version : Json → Option ℕ → GraphFileResult
  read_version value none = refused not_a_graph "its format `version` is not a whole number"
  read_version value (some version) =
      if ltb version minimum_supported_graph_output_version
      then refused unsupported_version (decimal version)
      else judge value version (find_graph_output_problem stringify (some value))

  abbrev pub read_versioned : Json → Option Json → GraphFileResult
  read_versioned value none = refused not_a_graph "it has no format `version`"
  read_versioned value (some null) = refused not_a_graph "it has no format `version`"
  read_versioned value (some v) = read_version value (version_of v)

  -- `readGraphOutput`
  unfoldable pub read_graph_output : Json → GraphFileResult
  unfolding find_graph_output_problem version_of
  read_graph_output value =
      if is_record (some value)
      then read_versioned value (read "version" (some value))
      else refused not_a_graph "it holds no JSON object"

-- what `JSON.parse` gives: a value, or the reason why the text is none
pub data ParseResult : Type 0 where
  parsed : Json → ParseResult
  unparsed : String → ParseResult

abbrev pub read_parsed : (String → String) → ParseResult → GraphFileResult
read_parsed stringify (parsed value) = read_graph_output stringify value
read_parsed stringify (unparsed reason) = refused invalid_json reason

-- `readGraphFileText`
unfoldable pub read_graph_file_text :
    (String → String) → (String → ParseResult) → String → GraphFileResult
unfolding read_graph_output
read_graph_file_text stringify parse content =
    if trim content == "" then refused empty "" else read_parsed stringify (parse content)

-- `MAX_GRAPH_FILE_BYTES`
abbrev pub max_graph_file_bytes : ℕ
max_graph_file_bytes = 20 * 1024 * 1024

-- `checkGraphFileSize`
unfoldable pub check_graph_file_size : (ℕ → String) → ℕ → Option GraphFileResult
check_graph_file_size format_file_size bytes =
    if leb bytes max_graph_file_bytes
    then none
    else some (refused too_large (format_file_size bytes))
