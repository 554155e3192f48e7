-- ===== src/Builder/TypeBounds.antt =====
-- lib/src/graph-output.builder.ts: how long the texts of `typeToTypeScriptCode` are.
use Prim.Native.String
use text.Mathlib.TextLemmas.{cons-append, nil-append}
use nest_graph_inspector.Prelude.{
  ℕ, zero, suc, ◌+◌, ◌-◌, ◌*◌, ◌/◌, ◌≤◌, String, Bool, true, false, ◌||◌, ◌≡◌, refl, inl, inr,
  Option, none, some, List, [], ◌∷◌, arith, length, any, get_or, if◌then◌else◌, leb, ltb, eqb,
  Option-cases,
}
use nest_graph_inspector.Builder.TypeCode.{
  max_members, min_length, units, TypeInfo, PropertySymbol, type_reference_code,
  type_text_within_limit, type_fallback, wrap_array_item_type, is_composite, simple_code,
  string_literal_code, number_literal_code, Render, render_type_sequence, render_object_type,
  composite_code, type_to_typescript_code,
}

units-append : (a b : String) → units (String.◌++◌ a b) ≡ units a + units b
unfolding units
units-append String.[] b = rw (nil-append b) (omega arith)
units-append (String.◌∷◌ c a) b = rw (cons-append c a b) (omega (arith, units-append a b))

-- what a type or its reference may exceed a length by
pub record IsExcess (info : ℕ → TypeInfo) (excess : ℕ) : Type 0 where
  pub undefined : (t : ℕ) → (info t).is_undefined ≡ true → 2 ≤ excess
  pub reference :
      (t : ℕ) (name : String) → type_reference_code (info t) ≡ some name → units name ≤ 7 + excess

-- `go` exceeds no length from 7 on by more
IsWithin : Render → ℕ → Type 0
IsWithin go excess = (node max t : ℕ) → 7 ≤ max → units (go node max t) ≤ max + excess

wrap-units : (s : String) → units (wrap_array_item_type s) ≤ units s + 2
unfolding wrap_array_item_type units
wrap-units s = ground (arith, units-append "(" (String.◌++◌ s ")"), units-append s ")")

-- a choice between two texts that are short
choice-units :
    (c : Bool) (a b : String) (n : ℕ)
    → (c ≡ true → units a ≤ n)
    → units b ≤ n
    → units (if c then a else b) ≤ n
choice-units true a b n h k = h refl
choice-units false a b n h k = k

branch-units :
    (c : Bool) (a b : String) (n : ℕ)
    → (c ≡ true → units a ≤ n)
    → (c ≡ false → units b ≤ n)
    → units (elim c [ true ↦ a | false ↦ b ]) ≤ n
branch-units true a b n h k = h refl
branch-units false a b n h k = k refl

within :
    (s other : String) (max : ℕ)
    → units other ≤ max
    → units (if leb (units s) max then s else other) ≤ max
within s other max h = choice-units (leb (units s) max) s other max (λ e. ground arith) h

fallback-units :
    (max : ℕ) (preferred : String) → 7 ≤ max → units (type_fallback max preferred) ≤ max
unfolding units
fallback-units max preferred h = within preferred "unknown" max h

text-units : (o : Option String) (max : ℕ) → 7 ≤ max → units (type_text_within_limit o max) ≤ max
unfolding units
text-units none max h = h
text-units (some s) max h = within s "unknown" max h

string_literal-units :
    (stringify : String → String) (literal : Option String) (max : ℕ)
    → 7 ≤ max
    → units (string_literal_code stringify literal max) ≤ max
unfolding units
string_literal-units stringify none max h = omega arith
string_literal-units stringify (some value) max h =
    choice-units (ltb (max / 6) (units value)) "string" _ max (λ e. omega arith)
      (within (stringify value) "string" max (omega arith))

number_literal-units :
    (literal : Option String) (max : ℕ) → 7 ≤ max → units (number_literal_code literal max) ≤ max
unfolding units
number_literal-units literal max h = within (get_or literal "number") "number" max (omega arith)

abbrev IsShort : ℕ → Option String → Type 0
IsShort n none = Unit
IsShort n (some s) = units s ≤ n

IsShort-if :
    (n : ℕ) (c : Bool) (s : String) (o : Option String)
    → (c ≡ true → units s ≤ n)
    → IsShort n o
    → IsShort n (if c then some s else o)
IsShort-if n true s o h k = h refl
IsShort-if n false s o h k = k

IsShort-none :
    (n : ℕ) (c : Bool) (o : Option String) → IsShort n o → IsShort n (if c then none else o)
IsShort-none n true o h = tt
IsShort-none n false o h = h

option-units :
    (o : Option String) (other : String) (n : ℕ)
    → IsShort n o
    → units other ≤ n
    → units (elim o [ some s ↦ s | none ↦ other ]) ≤ n
option-units none other n h k = k
option-units (some s) other n h k = h

module _ (info : ℕ → TypeInfo) (excess : ℕ) (h : IsExcess info excess) where
  reference-units :
      (t : ℕ) (other : String) (max : ℕ)
      → 7 ≤ max
      → units other ≤ max
      → units (get_or (type_reference_code (info t)) other) ≤ max + excess
  reference-units t other max low k = elim (Option-cases (type_reference_code (info t))) [
    | inl absent ↦ rw absent (omega arith)
    | inr (name, found) ↦ let r = h.reference t name found in rw found (omega (arith, r))
  ]

  simple-IsShort :
      (stringify : String → String) (text : Option String) (t max : ℕ)
      → 7 ≤ max
      → IsShort (max + excess) (simple_code stringify (info t) text max)
  unfolding simple_code units
  simple-IsShort stringify text t max low =
      let i = info t in
      let n = max + excess in
      IsShort-if n (i.is_any || i.is_unknown) "unknown" _ (λ e. omega arith)
        (IsShort-if n i.is_never "never" _ (λ e. omega arith)
          (IsShort-if n i.is_undefined "undefined" _ (λ e. omega (arith, h.undefined t e))
            (IsShort-if n i.is_void "void" _ (λ e. omega arith)
              (IsShort-if n i.is_string "string" _ (λ e. omega arith)
                (IsShort-if n i.is_number "number" _ (λ e. omega arith)
                  (IsShort-if n i.is_boolean "boolean" _ (λ e. omega arith)
                    (IsShort-if n i.is_null "null" _ (λ e. omega arith)
                      (IsShort-if n i.is_string_literal _ _
                        (λ e. omega (arith, string_literal-units stringify i.literal max low))
                        (IsShort-if n i.is_number_literal _ _
                          (λ e. omega (arith, number_literal-units i.literal max low))
                          (IsShort-if n i.is_boolean_literal _ _
                            (λ e. omega (arith, text-units text max low))
                            (IsShort-none n (is_composite i) _ (
                              reference-units t (type_text_within_limit text max) max low
                                (text-units text max low)))))))))))))

  module _ (go : Render) (inner : IsWithin go excess) where
    sequence-units :
        (node max : ℕ) (delimiter suffix fallback : String) (first : Bool) (types : List ℕ)
        (output : String)
        → 7 ≤ max
        → units output + units suffix ≤ max + excess
        → units (render_type_sequence go node max delimiter suffix fallback first types output)
          ≤ max + excess
    unfolding render_type_sequence IsWithin
    sequence-units node max delimiter suffix fallback first [] output low k =
        omega (arith, units-append output suffix)
    sequence-units node max delimiter suffix fallback first (t ∷ types) output low k =
        let separator = if first then "" else delimiter in
        let used =
          units output
          + units separator
          + units suffix
          + length types * (units delimiter + min_length) in
        branch-units (ltb max (used + min_length)) _ _ (max + excess)
          (λ full. omega (arith, fallback-units max fallback low))
          (λ room.
            let child = go node (max - used) t in
            let fits : 7 ≤ max - used = ground arith in
            sequence-units node max delimiter suffix fallback false types _ low (
              omega (
                arith,
                units-append output (String.◌++◌ separator child),
                units-append separator child,
                inner node (max - used) t fits,
              )))

    object-units :
        (stringify : String → String) (node max : ℕ) (properties : List PropertySymbol)
        → 7 ≤ max
        → units (render_object_type info stringify go node max properties) ≤ max
    unfolding render_object_type
    object-units stringify node max properties low =
        within _ _ max (fallback-units max "unknown" low)

    composite-units :
        (stringify : String → String) (node max t : ℕ) (text : Option String)
        → 7 ≤ max
        → units (composite_code info stringify go node max t text) ≤ max + excess
    unfolding composite_code units IsWithin
    composite-units stringify node max t text low =
        let i = info t in
        let n = max + excess in
        branch-units i.is_union _ _ n
          (λ _.
            branch-units (ltb max_members (length i.union_types)) _ _ n (λ _. omega arith)
              (λ _.
                sequence-units node max " | " "" "unknown" true i.union_types "" low (omega arith)))
          (λ _.
            branch-units i.is_tuple _ _ n
              (λ _.
                branch-units (ltb max_members (length i.tuple_elements)) _ _ n
                  (λ _. omega (arith, fallback-units max "unknown[]" low))
                  (λ _.
                    sequence-units node max ", " "]" "unknown[]" true i.tuple_elements "[" low
                      (omega arith)))
              (λ _.
                branch-units (i.is_array || i.is_readonly_array) _ _ n
                  (λ _.
                    branch-units (ltb max (min_length + 4)) _ _ n
                      (λ _. omega (arith, fallback-units max "unknown[]" low))
                      (λ room.
                        let item = go node (max - 4) (get_or i.array_element t) in
                        let fits : 7 ≤ max - 4 = ground arith in
                        omega (
                          arith,
                          units-append (wrap_array_item_type item) "[]",
                          wrap-units item,
                          inner node (max - 4) (get_or i.array_element t) fits,
                        )))
                  (λ _.
                    branch-units (i.has_call_signatures || eqb (length i.properties) 0) _ _ n
                      (λ _.
                        reference-units t (type_text_within_limit text max) max low
                          (text-units text max low))
                      (λ _. omega (arith, object-units stringify node max i.properties low)))))

  module _ (stringify : String → String) (text : ℕ → ℕ → Option String) where
    -- The text of a type within 7 units or more is longer than its length by at most the excess of
    -- `undefined` and of the references' names.
    pub type_to_typescript_code-units :
        (left : ℕ) (active : List ℕ) (node max t : ℕ)
        → 7 ≤ max
        → units (type_to_typescript_code info stringify text left active node max t) ≤ max + excess
    unfolding type_to_typescript_code IsWithin units
    type_to_typescript_code-units zero active node max t low =
        option-units (simple_code stringify (info t) (text t node) max) _ (max + excess)
          (simple-IsShort stringify (text t node) t max low)
          (reference-units t "unknown" max low low)
    type_to_typescript_code-units (suc left) active node max t low =
        let go = type_to_typescript_code info stringify text left (t ∷ active) in
        let inner : IsWithin go excess =
          λ n m u k. type_to_typescript_code-units left (t ∷ active) n m u k in
        option-units (simple_code stringify (info t) (text t node) max) _ (max + excess)
          (simple-IsShort stringify (text t node) t max low)
          (branch-units (any (λ u. eqb u t) active) _ _ (max + excess)
            (λ _. reference-units t "unknown" max low low)
            (λ _. composite-units go inner stringify node max t (text t node) low))
