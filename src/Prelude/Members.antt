-- ===== src/Prelude/Members.antt =====
-- Membership in lists that `map`, `filter`, concatenation and sorting make.
use Prim.Native.String.{String}
use text.Mathlib.Text.{◌==◌}
use text.Mathlib.TextEquality.{eq_iff}
use text.Mathlib.TextPositions.{eq_refl}
use mathlib.Core.Path.{◌≡◌, refl, ap, sym}
use mathlib.Core.Logic.{◌↔◌, ◌⊎◌, inl, inr}
use mathlib.Core.Bool.{Bool, true, false, ◌&&◌}
use mathlib.Core.List.{List, [], ◌∷◌, ◌++◌, map}
use native.Mathlib.Omega.{arith}
use nest_graph_inspector.Prelude.Tests.{if◌then◌else◌, Bool-cases, or_cases}
use nest_graph_inspector.Prelude.Lists.{In, any, filter, In-append_left, In-append_right}
use nest_graph_inspector.Prelude.Sets.{has}
use nest_graph_inspector.Prelude.Sort.{sort_by, In-sort_by, sort_by-In}

module _ {A : Type 0} where
  In-append_cases : (a : A) (xs ys : List A) → In a (xs ++ ys) → In a xs ⊎ In a ys
  In-append_cases a [] ys m = inr m
  In-append_cases a (x ∷ xs) ys (inl e) = inl (inl e)
  In-append_cases a (x ∷ xs) ys (inr m) = elim (In-append_cases a xs ys m) [
    | inl h ↦ inl (inr h)
    | inr h ↦ inr h
  ]

  pub In-append_iff : (a : A) (xs ys : List A) → In a (xs ++ ys) ↔ (In a xs ⊎ In a ys)
  In-append_iff a xs ys = (
    In-append_cases a xs ys,
    λ h. elim h [ inl m ↦ In-append_left a xs ys m | inr m ↦ In-append_right a xs ys m ],
  )

  split :
      (b : Bool) (a x : A) (xs : List A)
      → In a (if b then x ∷ xs else xs)
      → ((b ≡ true) × (a ≡ x)) ⊎ In a xs
  split true a x xs (inl e) = inl (refl, e)
  split true a x xs (inr m) = inr m
  split false a x xs m = inr m

  join : (b : Bool) (a x : A) (xs : List A) → In a xs → In a (if b then x ∷ xs else xs)
  join true a x xs m = inr m
  join false a x xs m = m

  filter_to :
      (keep : A → Bool) (a : A) (xs : List A) → In a (filter keep xs) → In a xs × (keep a ≡ true)
  filter_to keep a [] m = absurd m
  filter_to keep a (x ∷ xs) m = elim (split (keep x) a x (filter keep xs) m) [
    | inl (kept, e) ↦ (inl e, rw e kept)
    | inr later ↦ let (at, kept) = filter_to keep a xs later in (inr at, kept)
  ]

  filter_from :
      (keep : A → Bool) (a : A) (xs : List A) → In a xs → keep a ≡ true → In a (filter keep xs)
  filter_from keep a [] m h = absurd m
  filter_from keep a (x ∷ xs) (inl e) h = let k : keep x ≡ true = rw (← e) h in rw k (inl e)
  filter_from keep a (x ∷ xs) (inr m) h =
      join (keep x) a x (filter keep xs) (filter_from keep a xs m h)

  pub In-filter_iff :
      (keep : A → Bool) (a : A) (xs : List A) → In a (filter keep xs) ↔ (In a xs × (keep a ≡ true))
  In-filter_iff keep a xs = (filter_to keep a xs, λ (m, h). filter_from keep a xs m h)

  pub any-false : (p : A → Bool) (a : A) (xs : List A) → any p xs ≡ false → In a xs → p a ≡ false
  any-false p a [] h m = absurd m
  any-false p a (x ∷ xs) h (inl e) = rw e (ground arith)
  any-false p a (x ∷ xs) h (inr m) = any-false p a xs (ground arith) m

  pub any-false_of :
      (p : A → Bool) (xs : List A) → ((a : A) → In a xs → p a ≡ false) → any p xs ≡ false
  any-false_of p [] h = refl
  any-false_of p (x ∷ xs) h = rw (h x (inl refl)) (any-false_of p xs (λ a m. h a (inr m)))

  pub any-true : (p : A → Bool) (a : A) (xs : List A) → In a xs → p a ≡ true → any p xs ≡ true
  any-true p a [] m h = absurd m
  any-true p a (x ∷ xs) (inl e) h = let k : p x ≡ true = rw (← e) h in rw k refl
  any-true p a (x ∷ xs) (inr m) h = ground (arith, any-true p a xs m h)

  pub any-true_cases :
      (p : A → Bool) (xs : List A) → any p xs ≡ true → (a : A) × In a xs × (p a ≡ true)
  any-true_cases p [] h = cc
  any-true_cases p (x ∷ xs) h = elim (or_cases (p x) (any p xs) h) [
    | inl k ↦ (x, inl refl, k)
    | inr k ↦ let (a, m, e) = any-true_cases p xs k in (a, inr m, e)
  ]

  pub In-sort_by_iff : (le : A → A → Bool) (a : A) (xs : List A) → In a (sort_by le xs) ↔ In a xs
  In-sort_by_iff le a xs = (In-sort_by le a xs, sort_by-In le a xs)

module _ {A B : Type 0} (f : A → B) where
  pub In-map_cases : (b : B) (xs : List A) → In b (map f xs) → (a : A) × In a xs × (b ≡ f a)
  In-map_cases b [] m = absurd m
  In-map_cases b (x ∷ xs) (inl e) = (x, inl refl, e)
  In-map_cases b (x ∷ xs) (inr m) = let (a, at, e) = In-map_cases b xs m in (a, inr at, e)

  pub In-map : (a : A) (xs : List A) → In a xs → In (f a) (map f xs)
  In-map a [] m = absurd m
  In-map a (x ∷ xs) (inl e) = inl (ap f e)
  In-map a (x ∷ xs) (inr m) = inr (In-map a xs m)

-- `has` is membership
has_to : (x : String) (xs : List String) → has x xs ≡ true → In x xs
has_to x [] h = cc
has_to x (y ∷ ys) h = elim (or_cases (y == x) (has x ys) h) [
  | inl e ↦ inl (sym ((eq_iff y x).0 e))
  | inr m ↦ inr (has_to x ys m)
]

has_from : (x : String) (xs : List String) → In x xs → has x xs ≡ true
has_from x [] m = absurd m
has_from x (y ∷ ys) (inl e) = rw (e, eq_refl y) refl
has_from x (y ∷ ys) (inr m) = ground (arith, has_from x ys m)

pub has_iff : (x : String) (xs : List String) → (has x xs ≡ true) ↔ In x xs
has_iff x xs = (has_to x xs, has_from x xs)

pub same_answer : (a b : Bool) → (a ≡ true → b ≡ true) → (b ≡ true → a ≡ true) → a ≡ b
same_answer true b h k = sym (h refl)
same_answer false true h k = k refl
same_answer false false h k = refl

pub has-filter :
    (keep : String → Bool) (x : String) (xs : List String)
    → has x (filter keep xs) ≡ (keep x && has x xs)
has-filter keep x [] = ground arith
has-filter keep x (y ∷ xs) = elim (Bool-cases (y == x)) [
  | inl same ↦ ground (arith, has-filter keep x xs, same, ap keep ((eq_iff y x).0 same))
  | inr other ↦ ground (arith, has-filter keep x xs, other)
]
