-- ===== src/GraphFile/Tests.antt =====
-- site/app/utils/graph-file.ts: a small graph, and files that do not open.
use nest_graph_inspector.Prelude.{none, some, String, ◌==◌, true, ◌≡◌, refl, if◌then◌else◌}
use nest_graph_inspector.Prelude.Maps.{get}
use nest_graph_inspector.Prelude.Decimal.{decimal}
use nest_graph_inspector.Prelude.Texts.{trim, trim_start, trim_end}
use nest_graph_inspector.Builder.TypeCode.{is_identifier}
use nest_graph_inspector.GraphFile.{
  check_graph_file_size, too_large, Json, null, whole, text, list, object, no_items, item,
  no_fields, field, ParseResult, parsed, unparsed, opened, refused, not_a_graph, empty,
  invalid_json, unsupported_version, read_graph_file_text,
}

abbrev no_list : Json
no_list = list no_items

abbrev names : String → Json
names n = list (item (text n) no_items)

abbrev dependency : Json
dependency = object (
    field "token" (text "Repo")
      (field "providedBy" (object (field "name" (text "Data") no_fields)) no_fields))

abbrev member : Json → Json
member d =
    object (field "name" (text "Service") (field "dependencies" (list (item d no_items)) no_fields))

abbrev module_of : Json → Json
module_of d = object (
    field "imports" (names "Data") (
      field "exports" no_list (
        field "providers" (list (item (member d) no_items))
          (field "controllers" no_list no_fields))))

abbrev cycles : Json
cycles =
    object
      (field "modules" no_list (field "providers" no_list (field "controllers" no_list no_fields)))

abbrev graph : Json → Json → Json
graph version d = object (
    field "version" version (
      field "root" (text "App") (
        field "modules" (object (field "App" (module_of d) no_fields))
          (field "cycles" cycles no_fields))))

abbrev stringify : String → String
stringify s = s

-- the file's text names the value that it is parsed to
abbrev parse : String → ParseResult
parse s =
    if s == "graph"
    then parsed (graph (text "3") dependency)
    else if s == "newer"
    then parsed (graph (whole 4) dependency)
    else if s == "old"
    then parsed (graph (whole 2) dependency)
    else if s == "broken"
    then parsed (graph (whole 3) null)
    else unparsed "no JSON"

newer_opens :
    read_graph_file_text stringify parse "newer" ≡ opened (graph (whole 4) dependency) true
unfolding read_graph_file_text trim trim_end trim_start get
newer_opens = refl

refusals :
    (read_graph_file_text stringify parse " " ≡ refused empty "")
    × (read_graph_file_text stringify parse "{" ≡ refused invalid_json "no JSON")
    × (read_graph_file_text stringify parse "old" ≡ refused unsupported_version "2")
    × (read_graph_file_text stringify parse "broken"
        ≡ refused not_a_graph "`modules.App.providers[0].dependencies[0]` is not a dependency")
unfolding read_graph_file_text trim trim_end trim_start get decimal is_identifier
refusals = (refl, refl, refl, refl)

-- twenty megabytes are let through, a byte more is not
sizes :
    (check_graph_file_size (λ n. "large") 20971520 ≡ none)
    × (check_graph_file_size (λ n. "large") 20971521 ≡ some (refused too_large "large"))
unfolding check_graph_file_size
sizes = (refl, refl)
