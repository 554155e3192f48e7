-- ===== src/GraphFile/Values.antt =====
-- What JSON.parse gives, and how site/app/utils/graph-file.ts looks at it.
use nest_graph_inspector.Prelude.{
  ℕ, String, Bool, true, false, Option, none, some, List, [], ◌∷◌, all,
}
use nest_graph_inspector.Prelude.Maps.{get}

mutual
  pub data Json : Type 0 where
    null : Json
    flag : Bool → Json
    whole : ℕ → Json
    other_number : Json
    text : String → Json
    list : Items → Json
    object : Fields → Json

  pub data Items : Type 0 where
    no_items : Items
    item : Json → Items → Items

  pub data Fields : Type 0 where
    no_fields : Fields
    field : String → Json → Fields → Fields

abbrev pub items_of : Items → List Json
items_of no_items = []
items_of (item v items) = v ∷ items_of items

abbrev pub fields_of : Fields → List (String × Json)
fields_of no_fields = []
fields_of (field k v fs) = (k, v) ∷ fields_of fs

-- `value[name]`; `none` is undefined
abbrev pub read : String → Option Json → Option Json
read name (some (object fs)) = get name (fields_of fs)
read name _ = none

-- `isRecord`
abbrev pub is_record : Option Json → Bool
is_record (some (object _)) = true
is_record _ = false

-- `isString`
abbrev pub is_string : Option Json → Bool
is_string (some (text _)) = true
is_string _ = false

abbrev pub is_text : Json → Bool
is_text v = is_string (some v)

-- `Array.isArray(value) && value.every(test)`
abbrev pub is_list_of : (Json → Bool) → Option Json → Bool
is_list_of test (some (list items)) = all test (items_of items)
is_list_of test _ = false

-- `isStringList`
abbrev pub is_string_list : Option Json → Bool
is_string_list value = is_list_of is_text value
