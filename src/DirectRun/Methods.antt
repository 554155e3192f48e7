-- ===== src/DirectRun/Methods.antt =====
-- lib/src/adapters/direct-run-output.adapter.ts: which method of an object a request may call.
--
-- An object is its own properties and the levels of its prototype chain. Reading an accessor runs its
-- getter, which gives a value or throws; reading a descriptor does not.
use nest_graph_inspector.Prelude.{
  ℕ, String, ◌==◌, Bool, true, false, not, Option, none, some, List, [], ◌∷◌, if◌then◌else◌,
}
use nest_graph_inspector.Prelude.Maps.{get}
use nest_graph_inspector.Prelude.Sets.{has}

-- a function value: which one it is, and its `length`
pub record Method : Type 0 where
  pub id : ℕ
  pub length : ℕ

-- what reading a property gives
pub data Read : Type 0 where
  a_function : Method → Read
  other_value : Read
  throws : String → Read

pub data Property : Type 0 where
  function_value : Method → Property
  plain_value : Property
  accessor : Read → Property

pub record Level : Type 0 where
  pub properties : List (String × Property)
  pub is_builtin : Bool

pub record Instance : Type 0 where
  pub own : List (String × Property)
  pub prototypes : List Level

-- `DirectRunMethodResult`, or what a getter threw
pub data MethodResult : Type 0 where
  resolved : Method → MethodResult
  unavailable : MethodResult
  failed : String → MethodResult

-- `Object.getOwnPropertyDescriptor(prototype, name)` on the immediate prototype
abbrev pub prototype_property : List Level → String → Option Property
prototype_property [] name = none
prototype_property (level ∷ _) name = get name level.properties

-- `typeof descriptor?.value === "function"`
abbrev pub of_descriptor : Option Property → MethodResult
of_descriptor none = unavailable
of_descriptor (some (function_value m)) = resolved m
of_descriptor (some plain_value) = unavailable
of_descriptor (some (accessor _)) = unavailable

abbrev pub is_own : Option Property → Bool
is_own none = false
is_own (some _) = true

abbrev pub allows : Option (List String) → String → Bool
allows none name = false
allows (some names) name = has name names

-- `resolveStrictMethod`
unfoldable pub resolve_strict_method : Instance → String → Option (List String) → MethodResult
resolve_strict_method object name allowed =
    if not (allows allowed name)
    then unavailable
    else if is_own (get name object.own)
    then unavailable
    else of_descriptor (prototype_property object.prototypes name)

-- the value of a property that is read
abbrev pub read_property : Property → Read
read_property (function_value m) = a_function m
read_property plain_value = other_value
read_property (accessor r) = r

-- `prototype?.[name]`: the first level of the chain that has the property
unfoldable pub read_chain : List Level → String → Read
read_chain [] name = other_value
read_chain (level ∷ levels) name = elim (get name level.properties) [
  | some p ↦ read_property p
  | none ↦ read_chain levels name
]

abbrev pub of_read : Read → MethodResult
of_read (a_function m) = resolved m
of_read other_value = unavailable
of_read (throws e) = failed e

-- what `resolvePermissiveMethod` makes of the own value
abbrev pub own_or_chain : Read → Read → MethodResult
own_or_chain (a_function m) chain = resolved m
own_or_chain other_value chain = of_read chain
own_or_chain (throws e) chain = failed e

abbrev pub read_own : Option Property → Read
read_own none = other_value
read_own (some p) = read_property p

-- `resolvePermissiveMethod`
unfoldable pub resolve_permissive_method : Instance → String → MethodResult
unfolding read_chain
resolve_permissive_method object name =
    if name == "constructor"
    then unavailable
    else own_or_chain (read_own (get name object.own)) (read_chain object.prototypes name)

-- `DIRECT_RUN_EXCLUDED_METHODS`
abbrev pub excluded_methods : List String
excluded_methods =
    "constructor" ∷ "onModuleInit" ∷ "onApplicationBootstrap" ∷ "onModuleDestroy"
    ∷ "beforeApplicationShutdown" ∷ "onApplicationShutdown" ∷ []

-- the descriptor on the controller's own class
abbrev pub class_property : List Level → String → Option Property
class_property [] name = none
class_property (level ∷ _) name = if level.is_builtin then none else get name level.properties

abbrev pub own_or_class : Option Property → Option Property → Option Property
own_or_class (some p) of_class = some p
own_or_class none of_class = of_class

-- `resolvePermissiveControllerMethod`
unfoldable pub resolve_permissive_controller_method : Instance → String → MethodResult
resolve_permissive_controller_method object name =
    if has name excluded_methods
    then unavailable
    else of_descriptor (own_or_class (get name object.own) (class_property object.prototypes name))
