-- ===== src/GraphFile/Problems.antt =====
-- site/app/utils/graph-file.ts: what a value has in which no problem is found.
use Prim.Native.String
use nest_graph_inspector.Prelude.{
  ℕ, suc, String, ◌==◌, Bool, true, false, not, ◌&&◌, ◌≡◌, refl, ◌⊎◌, inl, inr, Option, none, some,
  List, [], ◌∷◌, all, All, arith,
}
use nest_graph_inspector.Prelude.Maps.{keys}
use nest_graph_inspector.Prelude.Sets.{has}
use nest_graph_inspector.GraphFile.{
  Json, null, text, list, object, whole, other_number, flag, items_of, read, is_record, is_string,
  is_text, is_list_of, is_string_list, or_else, require, first_unfit, unfit_in, is_dependency,
  is_method, optional_string, direct_run_problem, find_member_problem, find_members_problem,
  members_problem, find_module_problem, find_modules_problem, is_provider_cycle_step, is_cycle,
  cycles_problem, dot, entries_of, text_of, find_graph_output_problem,
}
use nest_graph_inspector.GraphFile.Shape.{
  IsText, IsListOf, IsOptionalText, IsDependency, IsMethod, IsMember, IsModule, IsProviderStep,
  IsCycle, IsGraph,
}

is_string-IsText : (o : Option Json) → is_string o ≡ true → IsText o
unfolding IsText
is_string-IsText none h = cc
is_string-IsText (some (text s)) h = (s, refl)
is_string-IsText (some null) h = cc
is_string-IsText (some (flag b)) h = cc
is_string-IsText (some (whole n)) h = cc
is_string-IsText (some other_number) h = cc
is_string-IsText (some (list items)) h = cc
is_string-IsText (some (object fs)) h = cc

and_left : (a b : Bool) → (a && b) ≡ true → a ≡ true
and_left true b h = refl
and_left false b h = cc

and_right : (a b : Bool) → (a && b) ≡ true → b ≡ true
and_right true b h = h
and_right false b h = cc

or_else-none : (a b : Option String) → or_else a b ≡ none → (a ≡ none) × (b ≡ none)
or_else-none none b h = (refl, h)
or_else-none (some p) b h = cc

require-none : (b : Bool) (problem : String) → require b problem ≡ none → b ≡ true
require-none true problem h = refl
require-none false problem h = cc

module _ (fits : Json → Bool) (P : Json → Type 0) (sound : (v : Json) → fits v ≡ true → P v) where
  all-All : (vs : List Json) → all fits vs ≡ true → All P vs
  all-All [] h = tt
  all-All (v ∷ vs) h = (sound v (and_left _ _ h), all-All vs (and_right _ _ h))

  is_list_of-IsListOf : (o : Option Json) → is_list_of fits o ≡ true → IsListOf P o
  unfolding IsListOf
  is_list_of-IsListOf none h = cc
  is_list_of-IsListOf (some (list items)) h = (items, refl, all-All (items_of items) h)
  is_list_of-IsListOf (some null) h = cc
  is_list_of-IsListOf (some (flag b)) h = cc
  is_list_of-IsListOf (some (whole n)) h = cc
  is_list_of-IsListOf (some other_number) h = cc
  is_list_of-IsListOf (some (text s)) h = cc
  is_list_of-IsListOf (some (object fs)) h = cc

  first_unfit-All :
      (path rest : String) (n : ℕ) (vs : List Json)
      → first_unfit fits path rest n vs ≡ none
      → All P vs
  unfolding first_unfit
  first_unfit-All path rest n [] h = tt
  first_unfit-All path rest n (v ∷ vs) h =
      let (a, b) = or_else-none (require (fits v) _) _ h in
      (sound v (require-none (fits v) _ a), first_unfit-All path rest (suc n) vs b)

  unfit_in-IsListOf :
      (path no_list rest : String) (o : Option Json)
      → unfit_in fits path no_list rest o ≡ none
      → IsListOf P o
  unfolding IsListOf
  unfit_in-IsListOf path no_list rest none h = cc
  unfit_in-IsListOf path no_list rest (some (list items)) h =
      (items, refl, first_unfit-All path rest 0 (items_of items) h)
  unfit_in-IsListOf path no_list rest (some null) h = cc
  unfit_in-IsListOf path no_list rest (some (flag b)) h = cc
  unfit_in-IsListOf path no_list rest (some (whole n)) h = cc
  unfit_in-IsListOf path no_list rest (some other_number) h = cc
  unfit_in-IsListOf path no_list rest (some (text s)) h = cc
  unfit_in-IsListOf path no_list rest (some (object fs)) h = cc

is_text-IsText : (v : Json) → is_text v ≡ true → IsText (some v)
is_text-IsText v h = is_string-IsText (some v) h

is_dependency-IsDependency : (v : Json) → is_dependency v ≡ true → IsDependency v
unfolding is_dependency IsDependency
is_dependency-IsDependency v h = (
  is_string-IsText (read "token" (some v)) (ground arith),
  is_string-IsText (read "name" (read "providedBy" (some v))) (ground arith),
)

is_method-IsMethod : (v : Json) → is_method v ≡ true → IsMethod v
unfolding is_method IsMethod
is_method-IsMethod v h = (
  is_string-IsText (read "name" (some v)) (ground arith),
  is_string-IsText (read "parameterTypes" (some v)) (ground arith),
)

is_provider_cycle_step-IsProviderStep :
    (v : Json) → is_provider_cycle_step v ≡ true → IsProviderStep v
unfolding is_provider_cycle_step IsProviderStep
is_provider_cycle_step-IsProviderStep v h = (
  is_string-IsText (read "name" (read "module" (some v))) (ground arith),
  is_string-IsText (read "name" (read "provider" (some v))) (ground arith),
)

is_cycle-IsCycle :
    (fits : Json → Bool) (P : Json → Type 0) (sound : (v : Json) → fits v ≡ true → P v) (v : Json)
    → is_cycle fits v ≡ true
    → IsCycle P v
unfolding is_cycle IsCycle
is_cycle-IsCycle fits P sound v h = (
  is_string-IsText (read "from" (some v)) (ground arith),
  is_string-IsText (read "to" (some v)) (ground arith),
  is_list_of-IsListOf fits P sound (read "path" (some v)) (ground arith),
)

optional_string-IsOptionalText :
    (o : Option Json) (path : String) → optional_string o path ≡ none → IsOptionalText o
unfolding IsOptionalText
optional_string-IsOptionalText none path h = inl refl
optional_string-IsOptionalText (some v) path h =
    inr (is_text-IsText v (require-none (is_text v) _ h))

direct_run-shape :
    (o : Option Json) (path : String)
    → direct_run_problem o path ≡ none
    → (o ≡ none) ⊎ IsListOf IsMethod (read "methods" o)
direct_run-shape none path h = inl refl
direct_run-shape (some v) path h = inr (
    unfit_in-IsListOf is_method IsMethod is_method-IsMethod (dot path "methods") " is not a list"
      " is not a method" (read "methods" (some v)) h)

find_member_problem-IsMember :
    (v : Json) (path : String) → find_member_problem v path ≡ none → IsMember v
unfolding find_member_problem IsMember
find_member_problem-IsMember v path h =
    let named = is_record (some v) && is_string (read "name" (some v)) in
    let dependencies = read "dependencies" (some v) in
    let direct = read "directRun" (some v) in
    let (a, h) = or_else-none (require named _) _ h in
    let (b, h) =
      or_else-none
        (unfit_in is_dependency (dot path "dependencies") " is not a list" " is not a dependency"
          dependencies)
        _ h in
    let (c, d) = or_else-none (direct_run_problem direct (dot path "directRun")) _ h in
    (
      is_string-IsText (read "name" (some v))
          (and_right (is_record (some v)) _ (require-none named _ a)),
      unfit_in-IsListOf is_dependency IsDependency is_dependency-IsDependency
          (dot path "dependencies") " is not a list" " is not a dependency" dependencies b,
      direct_run-shape direct (dot path "directRun") c,
      optional_string-IsOptionalText (read "jsdoc" (some v)) (dot path "jsdoc") d,
    )

find_members_problem-All :
    (path : String) (n : ℕ) (vs : List Json)
    → find_members_problem path n vs ≡ none
    → All IsMember vs
unfolding find_members_problem
find_members_problem-All path n [] h = tt
find_members_problem-All path n (v ∷ vs) h =
    let (a, b) = or_else-none (find_member_problem v _) _ h in
    (find_member_problem-IsMember v _ a, find_members_problem-All path (suc n) vs b)

members_problem-IsListOf :
    (path : String) (o : Option Json) → members_problem path o ≡ none → IsListOf IsMember o
unfolding IsListOf
members_problem-IsListOf path none h = cc
members_problem-IsListOf path (some (list items)) h =
    (items, refl, find_members_problem-All path 0 (items_of items) h)
members_problem-IsListOf path (some null) h = cc
members_problem-IsListOf path (some (flag b)) h = cc
members_problem-IsListOf path (some (whole n)) h = cc
members_problem-IsListOf path (some other_number) h = cc
members_problem-IsListOf path (some (text s)) h = cc
members_problem-IsListOf path (some (object fs)) h = cc

find_module_problem-IsModule :
    (v : Json) (path : String) → find_module_problem v path ≡ none → IsModule v
unfolding find_module_problem IsModule
find_module_problem-IsModule v path h =
    let names = λ (o : Option Json) (e : is_string_list o ≡ true).
      is_list_of-IsListOf is_text (λ n. IsText (some n)) is_text-IsText o e in
    let (_, h) = or_else-none (require (is_record (some v)) _) _ h in
    let (a, h) = or_else-none (require (is_string_list (read "imports" (some v))) _) _ h in
    let (b, h) = or_else-none (require (is_string_list (read "exports" (some v))) _) _ h in
    let (c, h) =
      or_else-none (members_problem (dot path "providers") (read "providers" (some v))) _ h in
    let (d, e) =
      or_else-none (members_problem (dot path "controllers") (read "controllers" (some v))) _ h in
    (
      names (read "imports" (some v)) (require-none _ _ a),
      names (read "exports" (some v)) (require-none _ _ b),
      members_problem-IsListOf (dot path "providers") (read "providers" (some v)) c,
      members_problem-IsListOf (dot path "controllers") (read "controllers" (some v)) d,
      optional_string-IsOptionalText (read "jsdoc" (some v)) (dot path "jsdoc") e,
    )

cycles_problem-IsListOf :
    (fits : Json → Bool) (P : Json → Type 0) (sound : (v : Json) → fits v ≡ true → P v)
    (kind : String) (o : Option Json)
    → cycles_problem fits kind o ≡ none
    → IsListOf (IsCycle P) (read kind o)
cycles_problem-IsListOf fits P sound kind o h =
    unfit_in-IsListOf (is_cycle fits) (IsCycle P) (is_cycle-IsCycle fits P sound)
      (String.◌++◌ "cycles." kind) " is not a list" " is not a cycle" (read kind o) h

-- a text that is not empty stands where it is read
text_of-filled :
    (o : Option Json)
    → not (text_of o == "") ≡ true
    → (o ≡ some (text (text_of o))) × ((text_of o == "") ≡ false)
text_of-filled none h = cc
text_of-filled (some (text s)) h = (refl, ground arith)
text_of-filled (some null) h = cc
text_of-filled (some (flag b)) h = cc
text_of-filled (some (whole n)) h = cc
text_of-filled (some other_number) h = cc
text_of-filled (some (list items)) h = cc
text_of-filled (some (object fs)) h = cc

module _ (stringify : String → String) where
  find_modules_problem-All :
      (es : List (String × Json))
      → find_modules_problem stringify es ≡ none
      → All (λ e. IsModule e.1) es
  unfolding find_modules_problem
  find_modules_problem-All [] h = tt
  find_modules_problem-All ((name, v) ∷ es) h =
      let (a, b) = or_else-none (find_module_problem v _) _ h in
      (find_module_problem-IsModule v _ a, find_modules_problem-All es b)

  pub find_graph_output_problem-IsGraph :
      (v : Json) → find_graph_output_problem stringify (some v) ≡ none → IsGraph v
  unfolding find_graph_output_problem IsGraph
  find_graph_output_problem-IsGraph v h =
      let root = text_of (read "root" (some v)) in
      let modules = read "modules" (some v) in
      let cycles = read "cycles" (some v) in
      let (a, h) = or_else-none (require (not (root == "")) _) _ h in
      let (_, h) = or_else-none (require (is_record modules) _) _ h in
      let (b, h) = or_else-none (require (has root (keys (entries_of modules))) _) _ h in
      let (c, h) = or_else-none (find_modules_problem stringify (entries_of modules)) _ h in
      let (_, h) = or_else-none (require (is_record cycles) _) _ h in
      let (d, h) = or_else-none (cycles_problem is_text "modules" cycles) _ h in
      let (e, f) = or_else-none (cycles_problem is_provider_cycle_step "providers" cycles) _ h in
      let (named, filled) = text_of-filled (read "root" (some v)) (require-none _ _ a) in
      (
        root,
        named,
        filled,
        require-none _ _ b,
        find_modules_problem-All (entries_of modules) c,
        cycles_problem-IsListOf is_text (λ n. IsText (some n)) is_text-IsText "modules" cycles d,
        cycles_problem-IsListOf is_provider_cycle_step IsProviderStep
            is_provider_cycle_step-IsProviderStep "providers" cycles e,
        cycles_problem-IsListOf is_text (λ n. IsText (some n)) is_text-IsText "controllers" cycles
            f,
      )
