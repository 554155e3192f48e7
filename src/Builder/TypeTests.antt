-- ===== src/Builder/TypeTests.antt =====
-- lib/src/graph-output.builder.ts: the text of `{ id: number; tags?: (string | undefined)[] }`, and of
-- a type that is longer than its length.
use Prim.Native.String
use nest_graph_inspector.Prelude.{
  ℕ, zero, suc, ◌+◌, ◌≤◌, String, Bool, true, false, ◌≡◌, refl, Option, none, some, [], ◌∷◌, arith,
}
use nest_graph_inspector.Prelude.Texts.{strip_prefix}
use nest_graph_inspector.Builder.TypeCode.{
  max_depth, max_length, units, PropertySymbol, TypeInfo, type_reference_code,
  type_to_typescript_code, is_identifier, join_codes,
}
use nest_graph_inspector.Builder.TypeBounds.{IsExcess, type_to_typescript_code-units}

abbrev bare : TypeInfo
bare = record {
  is_any = false;
  is_unknown = false;
  is_never = false;
  is_undefined = false;
  is_void = false;
  is_string = false;
  is_number = false;
  is_boolean = false;
  is_null = false;
  is_string_literal = false;
  is_number_literal = false;
  is_boolean_literal = false;
  literal = none;
  is_array = false;
  is_readonly_array = false;
  is_union = false;
  is_tuple = false;
  is_object = false;
  union_types = [];
  tuple_elements = [];
  array_element = none;
  has_call_signatures = false;
  properties = [];
  alias_name = none;
  symbol_name = none;
}

abbrev property : String → ℕ → Bool → PropertySymbol
property name type optional = record {
  name = name;
  declaration = none;
  type_at = λ node. type;
  is_optional = optional;
}

-- 0 undefined, 1 string, 2 number, 3 their union, 4 its array, 5 the object
abbrev types : ℕ → TypeInfo
types zero = record bare { is_undefined = true }
types (suc zero) = record bare { is_string = true }
types (suc (suc zero)) = record bare { is_number = true }
types (suc (suc (suc zero))) = record bare { is_union = true; union_types = 1 ∷ 0 ∷ [] }
types (suc (suc (suc (suc zero)))) = record bare {
  is_array = true;
  is_object = true;
  array_element = some 3;
}
types _ = record bare {
  is_object = true;
  properties = property "id" 2 false ∷ property "tags" 4 true ∷ [];
}

abbrev stringify : String → String
stringify s = String.◌++◌ "'" (String.◌++◌ s "'")

abbrev no_text : ℕ → ℕ → Option String
no_text t node = none

object_code :
    type_to_typescript_code types stringify no_text max_depth [] 0 max_length 5
    ≡ "{ id: number; tags?: (string | undefined)[] }"
unfolding type_to_typescript_code is_identifier units strip_prefix join_codes
object_code = refl

-- no room for the second property
truncated_code :
    type_to_typescript_code types stringify no_text max_depth [] 0 48 5
    ≡ "{ id: number; [key: string]: unknown }"
unfolding type_to_typescript_code is_identifier units strip_prefix join_codes
truncated_code = refl

-- `undefined` is written where 8 units are left
exceeded :
    type_to_typescript_code types stringify no_text max_depth [] 0 17 3 ≡ "string | undefined"
unfolding type_to_typescript_code units strip_prefix
exceeded = refl

undefined_excess : (t : ℕ) → (types t).is_undefined ≡ true → 2 ≤ 2
undefined_excess t h = omega arith

no_reference : (t : ℕ) → type_reference_code (types t) ≡ none
unfolding type_reference_code
no_reference zero = refl
no_reference (suc zero) = refl
no_reference (suc (suc zero)) = refl
no_reference (suc (suc (suc zero))) = refl
no_reference (suc (suc (suc (suc zero)))) = refl
no_reference (suc (suc (suc (suc (suc t))))) = refl

types-IsExcess : IsExcess types 2
types-IsExcess = record {
  undefined = undefined_excess;
  reference = λ t name h. let e = no_reference t in cc;
}

type_to_typescript_code-units_example :
    units (type_to_typescript_code types stringify no_text max_depth [] 0 17 3) ≤ 17 + 2
type_to_typescript_code-units_example =
    type_to_typescript_code-units types 2 types-IsExcess stringify no_text max_depth [] 0 17 3
      (omega arith)
