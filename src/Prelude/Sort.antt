-- ===== src/Prelude/Sort.antt =====
-- `xs.sort(compare)`: a stable sort, by the comparison's answer `compare(a, b) <= 0`.
use mathlib.Core.Bool.{Bool, true}
use mathlib.Core.Path.{◌≡◌, refl, ap}
use mathlib.Core.Logic.{◌⊎◌, inl, inr}
use mathlib.Core.List.{List, [], ◌∷◌}
use mathlib.Core.Option.{some}
use native.Mathlib.Omega.{arith}
use nest_graph_inspector.Prelude.Tests.{if◌then◌else◌, Bool-cases}
use nest_graph_inspector.Prelude.Lists.{All, In, All-In, head?}

module _ {A : Type 0} (le : A → A → Bool) where
  unfoldable pub insert_by : A → List A → List A
  insert_by x [] = x ∷ []
  insert_by x (y ∷ ys) = let rest = insert_by x ys in if le x y then x ∷ y ∷ ys else y ∷ rest

  unfoldable pub sort_by : List A → List A
  sort_by [] = []
  sort_by (x ∷ xs) = insert_by x (sort_by xs)

  In-insert_by : (a x : A) (ys : List A) → In a (insert_by x ys) → (a ≡ x) ⊎ In a ys
  unfolding insert_by
  In-insert_by a x [] (inl e) = inl e
  In-insert_by a x [] (inr h) = absurd h
  In-insert_by a x (y ∷ ys) h = ground (arith, In-insert_by a x ys)

  insert_by-In : (a x : A) (ys : List A) → (a ≡ x) ⊎ In a ys → In a (insert_by x ys)
  unfolding insert_by
  insert_by-In a x [] h = h
  insert_by-In a x (y ∷ ys) h = ground (arith, insert_by-In a x ys)

  -- Sorting neither drops nor invents an element.
  pub In-sort_by : (a : A) (xs : List A) → In a (sort_by xs) → In a xs
  unfolding sort_by
  In-sort_by a [] h = h
  In-sort_by a (x ∷ xs) h = ground (arith, In-insert_by a x (sort_by xs), In-sort_by a xs)

  pub sort_by-In : (a : A) (xs : List A) → In a xs → In a (sort_by xs)
  unfolding sort_by
  sort_by-In a [] h = h
  sort_by-In a (x ∷ xs) h = ground (arith, insert_by-In a x (sort_by xs), sort_by-In a xs)

-- The laws of a comparison: it may find different elements equal.
pub record IsPreorder {A : Type 0} (le : A → A → Bool) : Type 0 where
  pub total : (a b : A) → (le a b ≡ true) ⊎ (le b a ≡ true)
  pub trans : (a b c : A) → le a b ≡ true → le b c ≡ true → le a c ≡ true

-- The comparison finds no two different elements of a list equal.
unfoldable pub TellsApart : {A : Type 0} → (A → A → Bool) → List A → Type 0
TellsApart {A} le xs = (a b : A) → In a xs → In b xs → le a b ≡ true → le b a ≡ true → a ≡ b

module _ {A : Type 0} (le : A → A → Bool) (order : IsPreorder le) where
  abbrev IsSorted : List A → Type 0
  IsSorted [] = Unit
  IsSorted (x ∷ xs) = All (λ y. le x y ≡ true) xs × IsSorted xs

  All-below :
      (x y : A) (ys : List A)
      → le x y ≡ true
      → All (λ z. le y z ≡ true) ys
      → All (λ z. le x z ≡ true) ys
  All-below x y [] h k = tt
  All-below x y (z ∷ ys) h (p, k) = (order.trans x y z h p, All-below x y ys h k)

  All-insert_by :
      (a x : A) (ys : List A)
      → le a x ≡ true
      → All (λ z. le a z ≡ true) ys
      → All (λ z. le a z ≡ true) (insert_by le x ys)
  unfolding insert_by
  All-insert_by a x [] h k = (h, tt)
  All-insert_by a x (y ∷ ys) h (p, k) = ground (arith, All-insert_by a x ys)

  insert_by-IsSorted : (x : A) (ys : List A) → IsSorted ys → IsSorted (insert_by le x ys)
  unfolding insert_by
  insert_by-IsSorted x [] h = (tt, tt)
  insert_by-IsSorted x (y ∷ ys) (p, h) = elim (Bool-cases (le x y)) [
    | inl first ↦ rw first ((first, All-below x y ys first p), (p, h))
    | inr later ↦
        let below : le y x ≡ true = ground (arith, order.total x y) in
        rw later (All-insert_by y x ys below p, insert_by-IsSorted x ys h)
  ]

  sort_by-IsSorted : (xs : List A) → IsSorted (sort_by le xs)
  unfolding sort_by
  sort_by-IsSorted [] = tt
  sort_by-IsSorted (x ∷ xs) = insert_by-IsSorted x (sort_by le xs) (sort_by-IsSorted xs)

  first_least : (x a : A) (xs : List A) → IsSorted (x ∷ xs) → In a (x ∷ xs) → le x a ≡ true
  first_least x a xs (p, h) (inl e) = rw e (ground (arith, order.total x x))
  first_least x a xs (p, h) (inr m) = All-In (λ y. le x y ≡ true) a xs p m

  -- Lists with the same elements have the same least element.
  pub head?-sort_by :
      (xs ys : List A)
      → TellsApart le xs
      → ((a : A) → In a xs → In a ys)
      → ((a : A) → In a ys → In a xs)
      → head? (sort_by le xs) ≡ head? (sort_by le ys)
  unfolding TellsApart
  head?-sort_by xs ys tells to from =
      heads (sort_by le xs) (sort_by le ys) (sort_by-IsSorted xs) (sort_by-IsSorted ys)
        (λ a m. In-sort_by le a xs m) (λ a m. sort_by-In le a ys (to a (In-sort_by le a xs m)))
        (λ a m. sort_by-In le a xs (from a (In-sort_by le a ys m)))
    where
      heads :
          (us vs : List A)
          → IsSorted us
          → IsSorted vs
          → ((a : A) → In a us → In a xs)
          → ((a : A) → In a us → In a vs)
          → ((a : A) → In a vs → In a us)
          → head? us ≡ head? vs
      heads [] [] _ _ _ _ _ = refl
      heads [] (v ∷ vs) _ _ _ _ g = absurd (g v (inl refl))
      heads (u ∷ us) [] _ _ _ f _ = absurd (f u (inl refl))
      heads (u ∷ us) (v ∷ vs) p q o f g = ap some (
          tells u v (o u (inl refl)) (o v (g v (inl refl))) (first_least u v us p (g v (inl refl)))
            (first_least v u vs q (f u (inl refl))))
