-- ===== src/Serve/Wildcards.antt =====
-- lib/src/adapters/http-serve.adapter.ts, `wildcardPathCandidates`: the routes that a wildcard key gives.
use Prim.Native.String
use Prim.Native.Char.{Char}
use mathlib.Core.Option
use package.text.Mathlib.TextLemmas.{
  append_assoc, cons-append, nil-append, append-eq-nil_iff, cons-ne-nil,
}
use nest_graph_inspector.Prelude.{
  String, ◌==◌, Bool, true, false, ◌≡◌, ◌≢◌, refl, sym, ap, ◌∙◌, subst, Option, none, some, List,
  [], ◌∷◌, ◌++◌, ◌↔◌, ◌⊎◌, inl, inr, arith, eq_iff, In, if◌then◌else◌, Bool-cases, Option-cases,
  strip_prefix,
}
use nest_graph_inspector.Prelude.Texts.{upper, strip_prefix-append, append_of_strip_prefix}
use nest_graph_inspector.Serve.Candidates.{is_under_iff}
use nest_graph_inspector.Serve.{
  Route, Routes, wildcard_base, wildcard_path_candidates, is_under, is_candidate_path,
}

append_of_wildcard_base : (p b : String) → wildcard_base p ≡ some b → p ≡ String.◌++◌ b "/*"
unfolding wildcard_base
append_of_wildcard_base String.[] b e = cc
append_of_wildcard_base (String.◌∷◌ c s) b e =
    step (String.◌∷◌ c s == "/*") (wildcard_base s) refl (append_of_wildcard_base s) e
  where
    step :
        (last : Bool) (o : Option String)
        → (String.◌∷◌ c s == "/*") ≡ last
        → ((a : String) → o ≡ some a → s ≡ String.◌++◌ a "/*")
        → (if last then some "" else Option.map (String.◌∷◌ c) o) ≡ some b
        → String.◌∷◌ c s ≡ String.◌++◌ b "/*"
    step true o end rest e =
        let empty : "" ≡ b = cc in
        (eq_iff (String.◌∷◌ c s) "/*").0 end ∙ ap (λ a. String.◌++◌ a "/*") empty
    step false none end rest e = cc
    step false (some a) end rest e =
        let longer_base : String.◌∷◌ c a ≡ b = cc in
        ap (String.◌∷◌ c) (rest a refl)
        ∙ sym (cons-append c a "/*")
        ∙ ap (λ a. String.◌++◌ a "/*") longer_base

abbrev tail_of : String → String
tail_of String.[] = ""
tail_of (String.◌∷◌ _ s) = s

too_long : (b : String) → ◌≢◌ {A = String} (String.◌++◌ b "/*") "*"
too_long String.[] e =
    let bad : false ≡ true = (eq_iff "/*" "*").1 (sym (nil-append "/*") ∙ e) in cc
too_long (String.◌∷◌ d b) e =
    cons-ne-nil _ _ (append-eq-nil_iff.0 (ap tail_of (sym (cons-append d b "/*") ∙ e))).1

longer : (c : Char) (b : String) → (String.◌∷◌ c (String.◌++◌ b "/*") == "/*") ≡ false
longer c b = elim (Bool-cases (String.◌∷◌ c (String.◌++◌ b "/*") == "/*")) [
  | inl same ↦
      absurd (too_long b (ap tail_of ((eq_iff (String.◌∷◌ c (String.◌++◌ b "/*")) "/*").0 same)))
  | inr other ↦ other
]

wildcard_base-append : (b : String) → wildcard_base (String.◌++◌ b "/*") ≡ some b
unfolding wildcard_base
wildcard_base-append String.[] = refl
wildcard_base-append (String.◌∷◌ c b) =
    rw (cons-append c b "/*") (rw (longer c b, wildcard_base-append b) refl)

-- an entry of the table whose key is the method and a wildcard over the path, with the route in it
pub record IsWildcardMatch (t : Routes) (method path : String) (r : Route) : Type 0 where
  pub base : String
  pub group : List Route
  pub entry : In (String.◌++◌ (upper method) (String.◌++◌ " " (String.◌++◌ base "/*")), group) t
  pub member : In r group
  pub under : (path ≡ base) ⊎ ((rest : String) × (path ≡ String.◌++◌ base (String.◌++◌ "/" rest)))

is_candidate_path-base :
    (o : Option String) (path : String)
    → is_candidate_path o path ≡ true
    → (base : String) × (o ≡ some (String.◌++◌ base "/*")) × (is_under base path ≡ true)
is_candidate_path-base none path h = cc
is_candidate_path-base (some p) path h = elim (Option-cases (wildcard_base p)) [
  | inl absent ↦ ground (arith, absent, h)
  | inr (base, found) ↦
      (base, ap some (append_of_wildcard_base p base found), ground (arith, found, h))
]

In-append : (r : Route) (xs ys : List Route) → In r (xs ++ ys) ↔ (In r xs ⊎ In r ys)
In-append r [] ys = (λ h. inr h, λ h. elim h [ inl m ↦ absurd m | inr m ↦ m ])
In-append r (x ∷ xs) ys = ground (arith, In-append r xs ys)

module _ (method path : String) (r : Route) where
  abbrev method_prefix : String
  method_prefix = String.◌++◌ (upper method) " "

  abbrev wildcard_key : String → String
  wildcard_key base = String.◌++◌ (upper method) (String.◌++◌ " " (String.◌++◌ base "/*"))

  key_base :
      (key : String)
      → is_candidate_path (strip_prefix method_prefix key) path ≡ true
      → (base : String) × (wildcard_key base ≡ key) × (is_under base path ≡ true)
  key_base key h =
      let (base, found, under) = is_candidate_path-base (strip_prefix method_prefix key) path h in
      (
        base,
        sym (
            append_of_strip_prefix method_prefix key (String.◌++◌ base "/*") found
            ∙ append_assoc (upper method) " " (String.◌++◌ base "/*")),
        under,
      )

  base_key :
      (base : String)
      → is_under base path ≡ true
      → is_candidate_path (strip_prefix method_prefix (wildcard_key base)) path ≡ true
  base_key base under =
      let found : strip_prefix method_prefix (wildcard_key base) ≡ some (String.◌++◌ base "/*") =
        rw (← append_assoc (upper method) " " (String.◌++◌ base "/*"))
          (strip_prefix-append method_prefix (String.◌++◌ base "/*")) in
      rw found (rw (wildcard_base-append base) under)

  weaken :
      (e : String × List Route) (t : Routes)
      → IsWildcardMatch t method path r
      → IsWildcardMatch (e ∷ t) method path r
  weaken e t h = record {
    base = h.base;
    group = h.group;
    entry = inr h.entry;
    member = h.member;
    under = h.under;
  }

  split :
      (b : Bool) (group more : List Route)
      → In r (if b then group ++ more else more)
      → ((b ≡ true) × In r group) ⊎ In r more
  split true group more m = elim ((In-append r group more).0 m) [
    | inl here ↦ inl (refl, here)
    | inr later ↦ inr later
  ]
  split false group more m = inr m

  join_later :
      (b : Bool) (group more : List Route) → In r more → In r (if b then group ++ more else more)
  join_later true group more m = (In-append r group more).1 (inr m)
  join_later false group more m = m

  matched :
      (t : Routes) → In r (wildcard_path_candidates t method path) → IsWildcardMatch t method path r
  unfolding wildcard_path_candidates
  matched [] m = absurd m
  matched ((key, group) ∷ t) m =
      elim (split (is_candidate_path (strip_prefix method_prefix key) path) group
        (wildcard_path_candidates t method path) m) [
          | inl (candidate, here) ↦
              let (base, same, under) = key_base key candidate in
              record {
                base = base;
                group = group;
                entry = inl (ap (λ k. (k, group)) same);
                member = here;
                under = (is_under_iff base path).0 under;
              }
          | inr later ↦ weaken (key, group) t (matched t later)
        ]

  given :
      (t : Routes) (base : String) (group : List Route)
      → In (wildcard_key base, group) t
      → In r group
      → is_under base path ≡ true
      → In r (wildcard_path_candidates t method path)
  unfolding wildcard_path_candidates
  given [] base group e m under = absurd e
  given ((key, g) ∷ t) base group (inl e) m under =
      let candidate =
        subst (λ k. is_candidate_path (strip_prefix method_prefix k) path ≡ true) (ap (λ p. p.0) e)
          (base_key base under) in
      rw candidate (
        (In-append r g (wildcard_path_candidates t method path)).1
          (inl (subst (In r) (ap (λ p. p.1) e) m)))
  given ((key, g) ∷ t) base group (inr e) m under =
      join_later (is_candidate_path (strip_prefix method_prefix key) path) g
        (wildcard_path_candidates t method path) (given t base group e m under)

  -- A route is a wildcard candidate of a method and a path exactly if it stands under a key of that
  -- method and a pattern that ends in `/*`, whose base is the path or is above it.
  pub wildcard_path_candidates_iff :
      (t : Routes) → In r (wildcard_path_candidates t method path) ↔ IsWildcardMatch t method path r
  wildcard_path_candidates_iff t = (
    matched t,
    λ h. given t h.base h.group h.entry h.member ((is_under_iff h.base path).1 h.under),
  )
