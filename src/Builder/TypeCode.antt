-- ===== src/Builder/TypeCode.antt =====
-- lib/src/graph-output.builder.ts: `typeToTypeScriptCode` and what it calls, the text of a type within
-- a length. Lengths are JavaScript's, in UTF-16 units.
--
-- The compiler's types and nodes are numbers; what it answers about them, the texts it prints and
-- `JSON.stringify` are parameters. `state.depth` counts up to MAX_TYPE_RENDER_DEPTH; the model counts the
-- levels that are left. A difference that is compared with MIN_TYPE_RENDER_LENGTH stops at 0.
use Prim.Native.String
use Prim.Native.Char.{Char, code}
use nest_graph_inspector.Prelude.{
  ℕ, zero, suc, ◌+◌, ◌-◌, ◌*◌, ◌/◌, String, Bool, true, false, not, ◌&&◌, ◌||◌, Option, none, some,
  List, [], ◌∷◌, ◌++◌, length, any, get_or, is_some, if◌then◌else◌, leb, ltb, eqb, strip_prefix,
}

-- `MAX_TYPE_RENDER_DEPTH` and the other limits
abbrev pub max_depth : ℕ
max_depth = 12

abbrev pub max_members : ℕ
max_members = 50

abbrev pub max_length : ℕ
max_length = 8000

abbrev pub max_name_length : ℕ
max_name_length = 160

abbrev pub min_length : ℕ
min_length = 7

-- `text.length`
unfoldable pub units : String → ℕ
units String.[] = 0
units (String.◌∷◌ c s) = (if leb 65536 (code c) then 2 else 1) + units s

-- a property's symbol, as the compiler answers
pub record PropertySymbol : Type 0 where
  pub name : String
  pub declaration : Option ℕ
  pub type_at : ℕ → ℕ
  pub is_optional : Bool

-- a type, as the compiler answers; `literal` is a literal's value where it is of the literal's kind,
-- a number by its text
pub record TypeInfo : Type 0 where
  pub is_any : Bool
  pub is_unknown : Bool
  pub is_never : Bool
  pub is_undefined : Bool
  pub is_void : Bool
  pub is_string : Bool
  pub is_number : Bool
  pub is_boolean : Bool
  pub is_null : Bool
  pub is_string_literal : Bool
  pub is_number_literal : Bool
  pub is_boolean_literal : Bool
  pub literal : Option String
  pub is_array : Bool
  pub is_readonly_array : Bool
  pub is_union : Bool
  pub is_tuple : Bool
  pub is_object : Bool
  pub union_types : List ℕ
  pub tuple_elements : List ℕ
  pub array_element : Option ℕ
  pub has_call_signatures : Bool
  pub properties : List PropertySymbol
  pub alias_name : Option String
  pub symbol_name : Option String

-- `[A-Za-z_$]` and `[\w$]`
abbrev is_between : ℕ → ℕ → Char → Bool
is_between low high c = leb low (code c) && leb (code c) high

abbrev is_start : Char → Bool
is_start c = is_between 65 90 c || is_between 97 122 c || eqb (code c) 95 || eqb (code c) 36

unfoldable all_parts : String → Bool
all_parts String.[] = true
all_parts (String.◌∷◌ c s) = (is_start c || is_between 48 57 c) && all_parts s

-- `/^[A-Za-z_$][\w$]*$/.test(name)`
unfoldable pub is_identifier : String → Bool
unfolding all_parts
is_identifier String.[] = false
is_identifier (String.◌∷◌ c s) = is_start c && all_parts s

-- `typeReferenceCode`
abbrev pub reference_of_name : Option String → Option String
reference_of_name none = none
reference_of_name (some name) =
    if not (is_some (strip_prefix "__" name)) && is_identifier name then some name else none

abbrev pub name_of : Option String → Option String → Option String
name_of none symbol = symbol
name_of (some alias) symbol = some alias

unfoldable pub type_reference_code : TypeInfo → Option String
type_reference_code info = reference_of_name (name_of info.alias_name info.symbol_name)

-- `typeTextWithinLimit`; `none` is a `getText` that throws
abbrev pub type_text_within_limit : Option String → ℕ → String
type_text_within_limit none max = "unknown"
type_text_within_limit (some s) max = if leb (units s) max then s else "unknown"

-- `typeFallback`
abbrev pub type_fallback : ℕ → String → String
type_fallback max preferred = if leb (units preferred) max then preferred else "unknown"

-- `text.includes(part)`
unfoldable pub includes : String → String → Bool
includes part String.[] = is_some (strip_prefix part "")
includes part (String.◌∷◌ c s) = is_some (strip_prefix part (String.◌∷◌ c s)) || includes part s

-- `wrapArrayItemType`
unfoldable pub wrap_array_item_type : String → String
unfolding includes
wrap_array_item_type s =
    if includes " | " s || includes "&" s then String.◌++◌ "(" (String.◌++◌ s ")") else s

abbrev pub string_literal_code : (String → String) → Option String → ℕ → String
string_literal_code stringify none max = "string"
string_literal_code stringify (some value) max =
    if ltb (max / 6) (units value)
    then "string"
    else if leb (units (stringify value)) max
    then stringify value
    else "string"

abbrev pub number_literal_code : Option String → ℕ → String
number_literal_code literal max =
    if leb (units (get_or literal "number")) max then get_or literal "number" else "number"

abbrev pub is_composite : TypeInfo → Bool
is_composite i = i.is_union || i.is_tuple || i.is_array || i.is_readonly_array || i.is_object

-- `typeToTypeScriptCode` down to `if (!isComposite)`; `text` is the type's own
unfoldable pub simple_code : (String → String) → TypeInfo → Option String → ℕ → Option String
unfolding type_reference_code
simple_code stringify i text max =
    if i.is_any || i.is_unknown
    then some "unknown"
    else if i.is_never
    then some "never"
    else if i.is_undefined
    then some "undefined"
    else if i.is_void
    then some "void"
    else if i.is_string
    then some "string"
    else if i.is_number
    then some "number"
    else if i.is_boolean
    then some "boolean"
    else if i.is_null
    then some "null"
    else if i.is_string_literal
    then some (string_literal_code stringify i.literal max)
    else if i.is_number_literal
    then some (number_literal_code i.literal max)
    else if i.is_boolean_literal
    then some (type_text_within_limit text max)
    else if is_composite i
    then none
    else some (get_or (type_reference_code i) (type_text_within_limit text max))

-- the text of a type under a node within a length, for the levels below
abbrev pub Render : Type 0
Render = ℕ → ℕ → ℕ → String

-- the loop of `renderTypeSequence`
unfoldable pub render_type_sequence :
    Render → ℕ → ℕ → String → String → String → Bool → List ℕ → String → String
render_type_sequence go node max delimiter suffix fallback first [] output =
    String.◌++◌ output suffix
render_type_sequence go node max delimiter suffix fallback first (t ∷ types) output =
    let separator = if first then "" else delimiter in
    let used =
      units output
      + units separator
      + units suffix
      + length types * (units delimiter + min_length) in
    elim (ltb max (used + min_length)) [
      | true ↦ type_fallback max fallback
      | false ↦
          render_type_sequence go node max delimiter suffix fallback false types
            (String.◌++◌ output (String.◌++◌ separator (go node (max - used) t)))
    ]

-- `propertyCodes.join("; ")`
unfoldable pub join_codes : List String → String
join_codes [] = ""
join_codes (c ∷ []) = c
join_codes (c ∷ d ∷ cs) = String.◌++◌ c (String.◌++◌ "; " (join_codes (d ∷ cs)))

abbrev is_empty : List String → Bool
is_empty [] = true
is_empty _ = false

abbrev pub separator_of : List String → String
separator_of codes = if is_empty codes then "" else "; "

abbrev pub truncation : String
truncation = "[key: string]: unknown"

module _ (info : ℕ → TypeInfo) (stringify : String → String) where
  -- `typeAllowsUndefined`
  unfoldable pub type_allows_undefined : ℕ → Bool
  type_allows_undefined t =
      (info t).is_undefined
      || (info t).is_union && any (λ u. (info u).is_undefined) (info t).union_types

  -- `propertyNameToTypeScriptCode`
  unfoldable pub property_name_code : String → String
  property_name_code name = if is_identifier name then name else stringify name

  -- `propertyPrefix`
  unfoldable pub property_prefix : PropertySymbol → ℕ → String
  unfolding property_name_code type_allows_undefined
  property_prefix p t =
      String.◌++◌ (property_name_code p.name)
        (if p.is_optional || type_allows_undefined t then "?: " else ": ")

  -- the loop of `renderObjectType` over the properties it may visit, with `propertyCodes`,
  -- `propertyCodesLength` and, in the result, whether it broke off
  unfoldable pub render_properties :
      Render → ℕ → ℕ → ℕ → List PropertySymbol → List String → ℕ → List String × Bool
  unfolding property_prefix
  render_properties go node max zero _ codes used = (codes, false)
  render_properties go node max (suc count) [] codes used = (codes, false)
  render_properties go node max (suc count) (p ∷ ps) codes used =
      let at = get_or p.declaration node in
      let t = p.type_at at in
      let prefix = property_prefix p t in
      let reserved = 2 + (if is_empty codes then 0 else 2) + units truncation in
      let taken = 2 + used + units (separator_of codes) + units prefix + reserved in
      elim (ltb max_name_length (units p.name) || ltb max (taken + min_length)) [
        | true ↦ (codes, true)
        | false ↦
            let property_code = String.◌++◌ prefix (go at (max - taken) t) in
            render_properties go node max count ps (codes ++ property_code ∷ [])
              (used + (units (separator_of codes) + units property_code))
      ]

  abbrev braces : String → String
  braces s = String.◌++◌ "{ " (String.◌++◌ s " }")

  abbrev pub object_text : List String × Bool → String
  object_text (codes, true) =
      braces (String.◌++◌ (join_codes codes) (String.◌++◌ (separator_of codes) truncation))
  object_text (codes, false) = braces (join_codes codes)

  -- `renderObjectType`
  unfoldable pub render_object_type : Render → ℕ → ℕ → List PropertySymbol → String
  unfolding render_properties
  render_object_type go node max properties =
      let (codes, stopped) = render_properties go node max max_members properties [] 0 in
      let output = object_text (codes, stopped || ltb max_members (length properties)) in
      if leb (units output) max then output else type_fallback max "unknown"

  -- `typeToTypeScriptCode` inside its `try`, on a composite type
  unfoldable pub composite_code : Render → ℕ → ℕ → ℕ → Option String → String
  unfolding render_type_sequence render_object_type wrap_array_item_type
  composite_code go node max t text =
      let i = info t in
      elim i.is_union [
        | true ↦ elim (ltb max_members (length i.union_types)) [
          | true ↦ "unknown"
          | false ↦ render_type_sequence go node max " | " "" "unknown" true i.union_types ""
        ]
        | false ↦ elim i.is_tuple [
          | true ↦ elim (ltb max_members (length i.tuple_elements)) [
            | true ↦ type_fallback max "unknown[]"
            | false ↦
                render_type_sequence go node max ", " "]" "unknown[]" true i.tuple_elements "["
          ]
          | false ↦ elim (i.is_array || i.is_readonly_array) [
            | true ↦ elim (ltb max (min_length + 4)) [
              | true ↦ type_fallback max "unknown[]"
              | false ↦
                  String.◌++◌ (wrap_array_item_type (go node (max - 4) (get_or i.array_element t)))
                    "[]"
            ]
            | false ↦ elim (i.has_call_signatures || eqb (length i.properties) 0) [
              | true ↦ get_or (type_reference_code i) (type_text_within_limit text max)
              | false ↦ render_object_type go node max i.properties
            ]
          ]
        ]
      ]

  module _ (text : ℕ → ℕ → Option String) where
    -- `typeToTypeScriptCode`, with the levels that are left and the types that are active
    unfoldable pub type_to_typescript_code : ℕ → List ℕ → Render
    unfolding simple_code composite_code
    type_to_typescript_code zero active node max t =
        elim (simple_code stringify (info t) (text t node) max) [
          | some s ↦ s
          | none ↦ get_or (type_reference_code (info t)) "unknown"
        ]
    type_to_typescript_code (suc left) active node max t =
        elim (simple_code stringify (info t) (text t node) max) [
          | some s ↦ s
          | none ↦ elim (any (λ u. eqb u t) active) [
            | true ↦ get_or (type_reference_code (info t)) "unknown"
            | false ↦
                composite_code (type_to_typescript_code left (t ∷ active)) node max t (text t node)
          ]
        ]
