-- ===== src/Serve/Candidates.antt =====
-- lib/src/adapters/http-serve.adapter.ts, `register` and `wildcardPathCandidates`: which routes a key
-- holds, and which paths a wildcard covers.
use Prim.Native.String
use package.text.Mathlib.TextLemmas.{append_assoc}
use nest_graph_inspector.Prelude.{
  String, ◌==◌, true, ◌≡◌, refl, sym, ap, ◌∙◌, Option, some, List, [], ◌∷◌, ◌++◌, map, filter, ◌↔◌,
  ◌⊎◌, inl, inr, arith, eq_iff, eq_refl, get_or, Bool-cases, Option-cases, strip_prefix,
}
use nest_graph_inspector.Prelude.Maps.{get, set, get-set}
use nest_graph_inspector.Prelude.Texts.{strip_prefix-append, append_of_strip_prefix}
use nest_graph_inspector.Serve.{
  Request, Authorization, Route, Routes, with_authorize, add_routes, route_key, normalize_path,
  is_under,
}

++_assoc : {A : Type 0} (xs ys zs : List A) → (xs ++ ys) ++ zs ≡ xs ++ (ys ++ zs)
++_assoc [] ys zs = refl
++_assoc (x ∷ xs) ys zs = ap (◌∷◌ x) (++_assoc xs ys zs)

++_nil : {A : Type 0} (xs : List A) → xs ++ [] ≡ xs
++_nil [] = refl
++_nil (x ∷ xs) = ap (◌∷◌ x) (++_nil xs)

abbrev pub key_of : Route → String
key_of r = route_key r.type (normalize_path r.path)

-- Registering appends: under each key stand the routes that were there and then those of the
-- registration with that key, in their order and with its `authorize` where they have none.
pub get-add_routes :
    (f : Option (Request → Authorization)) (rs : List Route) (t : Routes) (k : String)
    → get_or (get k (add_routes f rs t)) []
      ≡ get_or (get k t) [] ++ map (with_authorize f) (filter (λ r. key_of r == k) rs)
unfolding add_routes
get-add_routes f [] t k = sym (++_nil (get_or (get k t) []))
get-add_routes f (r ∷ rs) t k =
    let group = get_or (get (key_of r) t) [] ++ with_authorize f r ∷ [] in
    get-add_routes f rs (set (key_of r) group t) k ∙ (elim (Bool-cases (key_of r == k)) [
      | inl same ↦
          let rest = map (with_authorize f) (filter (λ x. key_of x == k) rs) in
          rw (get-set (key_of r) k group t, same)
            (++_assoc (get_or (get (key_of r) t) []) (with_authorize f r ∷ []) rest
              ∙ ap (λ j. get_or (get j t) [] ++ with_authorize f r ∷ rest)
                  ((eq_iff (key_of r) k).0 same))
      | inr other ↦ rw (get-set (key_of r) k group t, other) refl
    ])

is_under-below :
    (base path : String)
    → is_under base path ≡ true
    → (path ≡ base) ⊎ ((rest : String) × (path ≡ String.◌++◌ base (String.◌++◌ "/" rest)))
is_under-below base path h = elim (Option-cases (strip_prefix (String.◌++◌ base "/") path)) [
  | inl absent ↦ inl (ground (arith, absent, h, eq_iff path base))
  | inr (rest, found) ↦ inr (
    rest,
    append_of_strip_prefix (String.◌++◌ base "/") path rest found ∙ append_assoc base "/" rest,
  )
]

below-is_under :
    (base path : String)
    → (path ≡ base) ⊎ ((rest : String) × (path ≡ String.◌++◌ base (String.◌++◌ "/" rest)))
    → is_under base path ≡ true
below-is_under base path (inl e) = rw (e, eq_refl base) refl
below-is_under base path (inr (rest, e)) =
    let found : strip_prefix (String.◌++◌ base "/") path ≡ some rest =
      rw (e, ← append_assoc base "/" rest) (strip_prefix-append (String.◌++◌ base "/") rest) in
    rw found (ground arith)

-- A wildcard covers its base and every path below it, and no other.
pub is_under_iff :
    (base path : String)
    → (is_under base path ≡ true)
      ↔ ((path ≡ base) ⊎ ((rest : String) × (path ≡ String.◌++◌ base (String.◌++◌ "/" rest))))
is_under_iff base path = (is_under-below base path, below-is_under base path)
