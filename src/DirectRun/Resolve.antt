-- ===== src/DirectRun/Resolve.antt =====
-- lib/src/adapters/direct-run-output.adapter.ts: which methods a request gets to call.
use nest_graph_inspector.Prelude.{
  subst, String, ◌==◌, Bool, true, false, ◌≡◌, refl, ap, inl, inr, Option, none, some, List,
  Bool-cases, get_or, if◌then◌else◌,
}
use nest_graph_inspector.Prelude.Maps.{get}
use nest_graph_inspector.DirectRun.Methods.{
  Method, Instance, MethodResult, resolved, unavailable, failed, resolve_permissive_method,
}
use nest_graph_inspector.DirectRun.Body.{
  JsonValue, BodyResult, Target, provider, controller, text_field, resolve_target, resolve_args,
}
use nest_graph_inspector.DirectRun.Route.{
  RouteOptions, Checked, passed, stopped, and_then, Wanted, lacks_name, refuse_if, require_names,
  wanted_target, Admitted, admit, resolve_method, found_method, permissive_method, body_fields,
  read_wanted, find_instance, found_args,
}
use nest_graph_inspector.DirectRun.Callable.{
  IsCallable, object_gives, IsDeclared-IsOwnOrOnClass, IsAdvertised-IsStrict, true-ne-false,
  resolve_strict_method_iff, resolve_permissive_controller_method_iff,
}

provider_cases :
    (refused : Bool) (r : MethodResult) (m : Method)
    → (if refused then unavailable else r) ≡ resolved m
    → (refused ≡ false) × (r ≡ resolved m)
provider_cases true r m h = cc
provider_cases false r m h = (refl, h)

passed_or : {A : Type 0} → A → Checked A → A
passed_or a (passed b) = b
passed_or a (stopped answer) = a

passed_injective : {A : Type 0} (a b : A) → passed a ≡ passed b → a ≡ b
unfolding passed_or
passed_injective a b h = ap (passed_or a) h

and_then-passed :
    {A B : Type 0} (c : Checked A) (next : A → Checked B) (b : B)
    → and_then c next ≡ passed b
    → (a : A) × (c ≡ passed a) × (next a ≡ passed b)
and_then-passed (passed a) next b h = (a, refl, h)
and_then-passed (stopped answer) next b h = cc

refuse_if-passed : (b : Bool) (v w : Wanted) → refuse_if b v ≡ passed w → (b ≡ false) × (v ≡ w)
refuse_if-passed true v w h = cc
refuse_if-passed false v w h = (refl, passed_injective v w h)

require_names-passed : (v w : Wanted) → require_names v ≡ passed w → lacks_name w ≡ false
require_names-passed v w h =
    let (lacks, same) = refuse_if-passed (lacks_name v) v w h in rw (← same) lacks

found_method-passed :
    (name : String) (r : MethodResult) (m : Method)
    → found_method name r ≡ passed m
    → r ≡ resolved m
found_method-passed name (resolved n) m h = ap resolved (passed_injective n m h)
found_method-passed name unavailable m h = cc
found_method-passed name (failed e) m h = cc

find_instance-passed :
    (w : Wanted) (o : Option Instance) (i : Instance) → find_instance w o ≡ passed i → o ≡ some i
find_instance-passed w none i h = cc
find_instance-passed w (some j) i h = ap some (passed_injective j i h)

permissive_method-IsCallable :
    (target : Target) (object : Instance) (name : String) (allowed : Option (List String))
    (m : Method)
    → permissive_method target object name ≡ resolved m
    → IsCallable true target object name allowed m
unfolding IsCallable resolve_permissive_method
permissive_method-IsCallable controller object name allowed m h =
    IsDeclared-IsOwnOrOnClass object name m
      ((resolve_permissive_controller_method_iff object name m).0 h)
permissive_method-IsCallable provider object name allowed m h =
    let (other, k) = provider_cases (name == "constructor") _ m h in
    (
      λ e. true-ne-false (subst (λ x. (x == "constructor") ≡ false) e other),
      object_gives object name m (get name object.own) refl k,
    )

module _ (stringify : JsonValue → String) (options : RouteOptions)
    (instance_lookup : Target → String → String → Option Instance)
    (allowed_methods_lookup : Target → String → String → Option (List String)) where
  resolve_method-IsCallable :
      (w : Wanted) (object : Instance) (m : Method)
      → resolve_method stringify options instance_lookup allowed_methods_lookup w object
        ≡ resolved m
      → IsCallable
          (get_or options.allow_unsafe_methods true)
          w.target
          object
          w.method_name
          (allowed_methods_lookup w.target w.module_name w.name)
          m
  unfolding resolve_method IsCallable
  resolve_method-IsCallable w object m h =
      elim (Bool-cases (get_or options.allow_unsafe_methods true)) [
        | inl unsafe ↦ rw unsafe (
            permissive_method-IsCallable w.target object w.method_name
              (allowed_methods_lookup w.target w.module_name w.name) m (rw unsafe at h))
        | inr strict ↦ rw strict (
            IsAdvertised-IsStrict object w.method_name
              (allowed_methods_lookup w.target w.module_name w.name) m
              ((resolve_strict_method_iff object w.method_name
                  (allowed_methods_lookup w.target w.module_name w.name) m).0
                (rw strict at h)))
      ]

  -- A request that reaches a call names its target, module and method, the object is the one found under
  -- these names, and the method is one that the mode and the target let it call. In strict mode its name
  -- is advertised, the object's class has it as a value, and the object does not shadow it. Else, on a
  -- controller, it is no lifecycle hook nor the constructor, and the object itself has it, or has nothing
  -- of the name while its class, none of JavaScript's own, has it as a value. Else, on a provider, it is
  -- not the constructor, and the object's own property gives it, or the nearest one of the chain if none
  -- of the object's own is a function.
  pub admit-IsCallable :
      (body : BodyResult) (a : Admitted)
      → admit stringify options instance_lookup allowed_methods_lookup body ≡ passed a
      → (lacks_name a.wanted ≡ false)
        × (instance_lookup a.wanted.target a.wanted.module_name a.wanted.name ≡ some a.object)
        × IsCallable
            (get_or options.allow_unsafe_methods true)
            a.wanted.target
            a.object
            a.wanted.method_name
            (allowed_methods_lookup a.wanted.target a.wanted.module_name a.wanted.name)
            a.method
  unfolding admit read_wanted
  admit-IsCallable body a h =
      let (values, _, h) = and_then-passed (body_fields body) _ a h in
      let (w, wanted, h) = and_then-passed (read_wanted stringify values) _ a h in
      let (t, _, named) =
        and_then-passed (wanted_target stringify (resolve_target values)) _ w wanted in
      let names : Wanted = record {
        target = t.0;
        module_name = text_field (get "module" values);
        name = t.1;
        method_name = text_field (get "method" values);
      } in
      let (object, found, h) =
        and_then-passed (find_instance w (instance_lookup w.target w.module_name w.name)) _ a h in
      let (m, method, h) =
        and_then-passed
          (found_method w.method_name
            (resolve_method stringify options instance_lookup allowed_methods_lookup w object))
          _ a h in
      let (args, _, h) =
        and_then-passed (found_args (resolve_args values w.method_name m.length)) _ a h in
      let e = passed_injective _ a h in
      rw (← e) (
        require_names-passed names w named,
        find_instance-passed w _ object found,
        resolve_method-IsCallable w object m (found_method-passed w.method_name _ m method),
      )
