-- ===== src/DirectRun/Callable.antt =====
-- lib/src/adapters/direct-run-output.adapter.ts: the methods that a request may call, by the mode.
use nest_graph_inspector.Prelude.{
  [], ◌∷◌, In, subst, ◌≢◌, Option-cases, String, Bool, true, false, not, ◌≡◌, refl, ap, ◌↔◌, ◌⊎◌,
  inl, inr, Option, none, some, List, Bool-cases, if◌then◌else◌,
}
use nest_graph_inspector.Prelude.Maps.{get}
use nest_graph_inspector.Prelude.Sets.{has}
use nest_graph_inspector.Prelude.Members.{has_iff}
use nest_graph_inspector.DirectRun.Methods.{
  Level, Read, a_function, other_value, throws, read_property, of_read, Method, Property,
  function_value, plain_value, accessor, Instance, MethodResult, resolved, unavailable, failed,
  prototype_property, of_descriptor, is_own, allows, class_property, own_or_class, own_or_chain,
  read_own, read_chain, excluded_methods, resolve_strict_method,
  resolve_permissive_controller_method,
}
use nest_graph_inspector.DirectRun.Body.{Target, provider, controller}

-- A function of the object's immediate prototype, whose name is advertised and is no property of the
-- object itself.
pub IsAdvertised : Instance → String → Option (List String) → Method → Type 0
IsAdvertised object name allowed m =
    (allows allowed name ≡ true)
    × (get name object.own ≡ none)
    × (prototype_property object.prototypes name ≡ some (function_value m))

-- A function that is a property of the object itself, or that its own class declares.
pub IsDeclared : Instance → String → Method → Type 0
IsDeclared object name m =
    (has name excluded_methods ≡ false)
    × ((get name object.own ≡ some (function_value m))
        ⊎ ((get name object.own ≡ none)
            × (class_property object.prototypes name ≡ some (function_value m))))

method_or : Method → MethodResult → Method
method_or n (resolved m) = m
method_or n unavailable = n
method_or n (failed e) = n

of_descriptor-resolved :
    (d : Option Property) (m : Method) → of_descriptor d ≡ resolved m → d ≡ some (function_value m)
unfolding method_or
of_descriptor-resolved none m h = cc
of_descriptor-resolved (some (function_value n)) m h =
    ap (λ r. some (function_value (method_or n r))) h
of_descriptor-resolved (some plain_value) m h = cc
of_descriptor-resolved (some (accessor r)) m h = cc

strict_cases :
    (allowed : Bool) (own of_class : Option Property) (m : Method)
    → ((if not allowed
          then unavailable
          else if is_own own
          then unavailable
          else of_descriptor of_class)
        ≡ resolved m)
      ↔ ((allowed ≡ true) × (own ≡ none) × (of_class ≡ some (function_value m)))
strict_cases false own of_class m = (λ h. cc, λ (h, _, _). cc)
strict_cases true (some p) of_class m = (λ h. cc, λ (_, h, _). cc)
strict_cases true none of_class m =
    (λ h. (refl, refl, of_descriptor-resolved of_class m h), λ (_, _, h). ap of_descriptor h)

controller_cases :
    (excluded : Bool) (own of_class : Option Property) (m : Method)
    → ((if excluded then unavailable else of_descriptor (own_or_class own of_class)) ≡ resolved m)
      ↔ ((excluded ≡ false)
          × ((own ≡ some (function_value m))
              ⊎ ((own ≡ none) × (of_class ≡ some (function_value m)))))
controller_cases true own of_class m = (λ h. cc, λ (h, _). cc)
controller_cases false (some p) of_class m = (
  λ h. (refl, inl (of_descriptor-resolved (some p) m h)),
  λ (_, h). elim h [ inl e ↦ ap of_descriptor e | inr (e, _) ↦ cc ],
)
controller_cases false none of_class m = (
  λ h. (refl, inr (refl, of_descriptor-resolved of_class m h)),
  λ (_, h). elim h [ inl e ↦ cc | inr (_, e) ↦ ap of_descriptor e ],
)

-- Strict mode resolves exactly the advertised methods that the object's class declares.
pub resolve_strict_method_iff :
    (object : Instance) (name : String) (allowed : Option (List String)) (m : Method)
    → (resolve_strict_method object name allowed ≡ resolved m) ↔ IsAdvertised object name allowed m
unfolding resolve_strict_method IsAdvertised
resolve_strict_method_iff object name allowed m =
    strict_cases (allows allowed name) (get name object.own)
      (prototype_property object.prototypes name) m

-- A controller's permissive mode resolves exactly the functions that the object has itself or that its
-- own class declares, lifecycle hooks and the constructor excluded.
pub resolve_permissive_controller_method_iff :
    (object : Instance) (name : String) (m : Method)
    → (resolve_permissive_controller_method object name ≡ resolved m) ↔ IsDeclared object name m
unfolding resolve_permissive_controller_method IsDeclared
resolve_permissive_controller_method_iff object name m =
    controller_cases (has name excluded_methods) (get name object.own)
      (class_property object.prototypes name) m

-- The immediate prototype has the method under the name, as a value.
pub record IsOnClass (object : Instance) (name : String) (m : Method) : Type 0 where
  pub level : Level
  pub above : List Level
  pub chain : object.prototypes ≡ level ∷ above
  pub method : get name level.properties ≡ some (function_value m)

-- The names are given, with this one among them, and the class of the object has the method, which no
-- property of the object itself shadows.
pub record IsStrict (object : Instance) (name : String) (allowed : Option (List String))
    (m : Method) : Type 0 where
  pub names : List String
  pub given : allowed ≡ some names
  pub listed : In name names
  pub unshadowed : get name object.own ≡ none
  pub on_class : IsOnClass object name m

-- the constructor and the lifecycle hooks of Nest
abbrev pub IsHook : String → Type 0
IsHook name =
    (name ≡ "constructor")
    ⊎ (name ≡ "onModuleInit")
    ⊎ (name ≡ "onApplicationBootstrap")
    ⊎ (name ≡ "onModuleDestroy")
    ⊎ (name ≡ "beforeApplicationShutdown")
    ⊎ (name ≡ "onApplicationShutdown")

-- The object itself has the method, or has nothing of the name while its class has it and is not a
-- class of JavaScript's own.
abbrev pub IsOwnOrOnClass : Instance → String → Method → Type 0
IsOwnOrOnClass object name m =
    (get name object.own ≡ some (function_value m))
    ⊎ ((get name object.own ≡ none)
        × ((c : IsOnClass object name m) × (c.level.is_builtin ≡ false)))

-- reading the property gives the method, from a value or from a getter
pub data PropertyGives : Property → Method → Type 0 where
  by_value : {m : Method} → PropertyGives (function_value m) m
  by_getter : {m : Method} → PropertyGives (accessor (a_function m)) m

-- reading the property gives something that is no function
pub data PropertyLacks : Property → Type 0 where
  plain : PropertyLacks plain_value
  by_getter_plain : PropertyLacks (accessor other_value)

-- The nearest level that has the name gives the method.
pub data ChainGives (name : String) : List Level → Method → Type 0 where
  nearest :
      {level : Level} {above : List Level} {p : Property} {m : Method}
      → get name level.properties ≡ some p
      → PropertyGives p m
      → ChainGives name (level ∷ above) m
  further :
      {level : Level} {above : List Level} {m : Method}
      → get name level.properties ≡ none
      → ChainGives name above m
      → ChainGives name (level ∷ above) m

-- The object's own property gives the method, or none of its own is a function and the chain gives it.
abbrev pub ObjectGives : Instance → String → Method → Type 0
ObjectGives object name m =
    ((p : Property) × (get name object.own ≡ some p) × PropertyGives p m)
    ⊎ (((get name object.own ≡ none)
          ⊎ ((p : Property) × (get name object.own ≡ some p) × PropertyLacks p))
        × ChainGives name object.prototypes m)

-- A method that a request may call, by the mode and the target.
unfoldable pub IsCallable :
    Bool → Target → Instance → String → Option (List String) → Method → Type 0
IsCallable true controller object name allowed m = (¬ IsHook name) × IsOwnOrOnClass object name m
IsCallable true provider object name allowed m = (name ≢ "constructor") × ObjectGives object name m
IsCallable false target object name allowed m = IsStrict object name allowed m

pub true-ne-false : true ≡ false → ⊥
true-ne-false e = cc

not_excluded : (name : String) → has name excluded_methods ≡ false → ¬ IsHook name
not_excluded name h hook =
    let at = λ (x : String) (e : name ≡ x). subst (λ y. has y excluded_methods ≡ false) e h in
    elim hook [
      | inl e ↦ true-ne-false (at "constructor" e)
      | inr (inl e) ↦ true-ne-false (at "onModuleInit" e)
      | inr (inr (inl e)) ↦ true-ne-false (at "onApplicationBootstrap" e)
      | inr (inr (inr (inl e))) ↦ true-ne-false (at "onModuleDestroy" e)
      | inr (inr (inr (inr (inl e)))) ↦ true-ne-false (at "beforeApplicationShutdown" e)
      | inr (inr (inr (inr (inr e)))) ↦ true-ne-false (at "onApplicationShutdown" e)
    ]

on_class :
    (object : Instance) (name : String) (m : Method) (levels : List Level)
    → object.prototypes ≡ levels
    → prototype_property levels name ≡ some (function_value m)
    → IsOnClass object name m
on_class object name m [] e h = cc
on_class object name m (level ∷ above) e h = record {
  level = level;
  above = above;
  chain = e;
  method = h;
}

on_own_class :
    (object : Instance) (name : String) (m : Method) (levels : List Level)
    → object.prototypes ≡ levels
    → class_property levels name ≡ some (function_value m)
    → (c : IsOnClass object name m) × (c.level.is_builtin ≡ false)
on_own_class object name m [] e h = cc
on_own_class object name m (level ∷ above) e h = elim (Bool-cases level.is_builtin) [
  | inl builtin ↦ absurd (let k = rw builtin at h in cc)
  | inr own ↦ (record { level = level; above = above; chain = e; method = rw own at h }, own)
]

allowed_names :
    (allowed : Option (List String)) (name : String)
    → allows allowed name ≡ true
    → (names : List String) × (allowed ≡ some names) × In name names
allowed_names none name h = cc
allowed_names (some names) name h = (names, refl, (has_iff name names).0 h)

pub IsAdvertised-IsStrict :
    (object : Instance) (name : String) (allowed : Option (List String)) (m : Method)
    → IsAdvertised object name allowed m
    → IsStrict object name allowed m
unfolding IsAdvertised
IsAdvertised-IsStrict object name allowed m (listed, unshadowed, e) =
    let (names, given, at) = allowed_names allowed name listed in
    record {
      names = names;
      given = given;
      listed = at;
      unshadowed = unshadowed;
      on_class = on_class object name m object.prototypes refl e;
    }

pub IsDeclared-IsOwnOrOnClass :
    (object : Instance) (name : String) (m : Method)
    → IsDeclared object name m
    → (¬ IsHook name) × IsOwnOrOnClass object name m
unfolding IsDeclared
IsDeclared-IsOwnOrOnClass object name m (fine, place) = (
  not_excluded name fine,
  elim place [
    | inl e ↦ inl e
    | inr (none_own, e) ↦ inr (none_own, on_own_class object name m object.prototypes refl e)
  ],
)

read_method : Method → Read → Method
read_method n (a_function m) = m
read_method n other_value = n
read_method n (throws e) = n

property_gives : (p : Property) (m : Method) → read_property p ≡ a_function m → PropertyGives p m
unfolding read_method
property_gives (function_value n) m e =
    subst (PropertyGives (function_value n)) (ap (read_method n) e) by_value
property_gives plain_value m e = cc
property_gives (accessor (a_function n)) m e =
    subst (PropertyGives (accessor (a_function n))) (ap (read_method n) e) by_getter
property_gives (accessor other_value) m e = cc
property_gives (accessor (throws t)) m e = cc

property_lacks : (p : Property) → read_property p ≡ other_value → PropertyLacks p
property_lacks (function_value n) e = cc
property_lacks plain_value e = plain
property_lacks (accessor (a_function n)) e = cc
property_lacks (accessor other_value) e = by_getter_plain
property_lacks (accessor (throws t)) e = cc

chain_gives :
    (name : String) (levels : List Level) (m : Method)
    → read_chain levels name ≡ a_function m
    → ChainGives name levels m
unfolding read_chain
chain_gives name [] m h = cc
chain_gives name (level ∷ above) m h = elim (Option-cases (get name level.properties)) [
  | inl absent ↦ further absent (chain_gives name above m (rw (absent, read_chain) at h))
  | inr (p, found) ↦ nearest found (property_gives p m (rw (found, read_chain) at h))
]

of_read-resolved : (r : Read) (m : Method) → of_read r ≡ resolved m → r ≡ a_function m
unfolding method_or
of_read-resolved (a_function n) m h = ap (λ x. a_function (method_or n x)) h
of_read-resolved other_value m h = cc
of_read-resolved (throws e) m h = cc

own_or_chain-cases :
    (own chain : Read) (m : Method)
    → own_or_chain own chain ≡ resolved m
    → (own ≡ a_function m) ⊎ ((own ≡ other_value) × (chain ≡ a_function m))
unfolding method_or
own_or_chain-cases (a_function n) chain m h = inl (ap (λ x. a_function (method_or n x)) h)
own_or_chain-cases other_value chain m h = inr (refl, of_read-resolved chain m h)
own_or_chain-cases (throws e) chain m h = cc

pub object_gives :
    (object : Instance) (name : String) (m : Method) (own : Option Property)
    → get name object.own ≡ own
    → own_or_chain (read_own own) (read_chain object.prototypes name) ≡ resolved m
    → ObjectGives object name m
object_gives object name m none e h =
    elim (own_or_chain-cases other_value (read_chain object.prototypes name) m h) [
      | inl k ↦ cc
      | inr (_, k) ↦ inr (inl e, chain_gives name object.prototypes m k)
    ]
object_gives object name m (some p) e h =
    elim (own_or_chain-cases (read_property p) (read_chain object.prototypes name) m h) [
      | inl k ↦ inl (p, e, property_gives p m k)
      | inr (l, k) ↦ inr (inr (p, e, property_lacks p l), chain_gives name object.prototypes m k)
    ]
