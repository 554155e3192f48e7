-- ===== src/Cycles/Canonical.antt =====
-- lib/src/graph-output.builder.ts, `getCanonicalCycleKey`: where a cycle is entered does not matter.
use nest_graph_inspector.Prelude.{
  String, Bool, ◌≡◌, refl, ap, ◌∙◌, sym, inl, inr, List, [], ◌∷◌, ◌++◌, map, get_or, head?, In,
  subst, In-append_left, In-append_right, arith,
}
use mathlib.Core.List.{append_assoc, append-nil, map-append}
use nest_graph_inspector.Prelude.Sort.{sort_by, IsPreorder, TellsApart, head?-sort_by}
use nest_graph_inspector.Cycles.{
  join, drop_last, rotations_from, rotations, canonical_key_of, canonical_cycle_key,
}

-- The first element of the cycle, moved to its end, only moves the first rotation to the end.
rotations_from-concat :
    (x : String) (before ys : List String)
    → rotations_from before (ys ++ x ∷ [])
      ≡ rotations_from (x ∷ before) ys ++ (x ∷ before ++ ys) ∷ []
unfolding rotations_from
rotations_from-concat x before [] = ap (λ r. (x ∷ r) ∷ []) (sym (append-nil before))
rotations_from-concat x before (y ∷ ys) =
    simp (rotations_from-concat x (before ++ y ∷ []) ys, append_assoc)

In-swap : {A : Type 0} (a r : A) (rs : List A) → In a (r ∷ rs) → In a (rs ++ r ∷ [])
In-swap a r rs (inl e) = In-append_right a rs (r ∷ []) (inl e)
In-swap a r rs (inr m) = In-append_left a rs (r ∷ []) m

swap-In : {A : Type 0} (a r : A) (rs : List A) → In a (rs ++ r ∷ []) → In a (r ∷ rs)
swap-In a r [] m = m
swap-In a r (s ∷ rs) (inl e) = inr (inl e)
swap-In a r (s ∷ rs) (inr m) = ground (arith, swap-In a r rs m)

-- the texts whose least one is the key of a cycle
abbrev pub entries : List String → List String
entries keys = map join (rotations keys)

entries-concat :
    (x : String) (ys : List String)
    → entries (ys ++ x ∷ []) ≡ map join (rotations_from (x ∷ []) ys) ++ join (x ∷ ys) ∷ []
unfolding rotations
entries-concat x ys = simp (rotations_from-concat x [] ys, map-append)

entries-cons :
    (x : String) (ys : List String)
    → entries (x ∷ ys) ≡ join (x ∷ ys) ∷ map join (rotations_from (x ∷ []) ys)
unfolding rotations rotations_from
entries-cons x ys = simp (append-nil ys)

-- entering the cycle one key later compares the same texts
turn : (a x : String) (ys : List String) → In a (entries (x ∷ ys)) → In a (entries (ys ++ x ∷ []))
turn a x ys m = rw (entries-concat x ys) (
    In-swap a (join (x ∷ ys)) (map join (rotations_from (x ∷ []) ys)) (rw (entries-cons x ys) at m))

turn_back :
    (a x : String) (ys : List String) → In a (entries (ys ++ x ∷ [])) → In a (entries (x ∷ ys))
turn_back a x ys m = rw (entries-cons x ys) (
    swap-In a (join (x ∷ ys)) (map join (rotations_from (x ∷ []) ys))
      (rw (entries-concat x ys) at m))

module _ (locale_le : String → String → Bool) (order : IsPreorder locale_le) where
  TellsApart-turn :
      (x : String) (ys : List String)
      → TellsApart locale_le (entries (x ∷ ys))
      → TellsApart locale_le (entries (ys ++ x ∷ []))
  unfolding TellsApart
  TellsApart-turn x ys h a b m n = h a b (turn_back a x ys m) (turn_back b x ys n)

  least_rotation :
      (x : String) (ys : List String)
      → TellsApart locale_le (entries (x ∷ ys))
      → head? (sort_by locale_le (entries (x ∷ ys)))
        ≡ head? (sort_by locale_le (entries (ys ++ x ∷ [])))
  least_rotation x ys h =
      head?-sort_by locale_le order (entries (x ∷ ys)) (entries (ys ++ x ∷ [])) h
        (λ a m. turn a x ys m) (λ a m. turn_back a x ys m)

  canonical_key_of-concat :
      (x : String) (ys : List String)
      → TellsApart locale_le (entries (x ∷ ys))
      → canonical_key_of locale_le (x ∷ ys) ≡ canonical_key_of locale_le (ys ++ x ∷ [])
  unfolding canonical_key_of
  canonical_key_of-concat x [] h = refl
  canonical_key_of-concat x (y ∷ []) h = ap (λ o. get_or o "") (least_rotation x (y ∷ []) h)
  canonical_key_of-concat x (y ∷ z ∷ ys) h = ap (λ o. get_or o "") (least_rotation x (y ∷ z ∷ ys) h)

  canonical_key_of-append :
      (left right : List String)
      → TellsApart locale_le (entries (left ++ right))
      → canonical_key_of locale_le (left ++ right) ≡ canonical_key_of locale_le (right ++ left)
  canonical_key_of-append [] right h = ap (canonical_key_of locale_le) (sym (append-nil right))
  canonical_key_of-append (x ∷ left) right h =
      let turned : TellsApart locale_le (entries (left ++ (right ++ x ∷ []))) =
        subst (λ keys. TellsApart locale_le (entries keys)) (append_assoc left right (x ∷ []))
          (TellsApart-turn x (left ++ right) h) in
      canonical_key_of-concat x (left ++ right) h
      ∙ ap (canonical_key_of locale_le) (append_assoc left right (x ∷ []))
      ∙ canonical_key_of-append left (right ++ x ∷ []) turned
      ∙ ap (canonical_key_of locale_le) (append_assoc right (x ∷ []) left)

drop_last-concat : (xs : List String) (z : String) → drop_last (xs ++ z ∷ []) ≡ xs
unfolding drop_last
drop_last-concat [] z = refl
drop_last-concat (x ∷ []) z = refl
drop_last-concat (x ∷ y ∷ xs) z = ap (◌∷◌ x) (drop_last-concat (y ∷ xs) z)

-- One cycle has one key: two closed paths over the same keys in the same cyclic order, entered at
-- different places, get the same canonical key, if the comparison by locale is a total preorder that
-- finds no two different ones of the cycle's texts, one for each place to enter it, equal.
pub canonical_cycle_key-rotate :
    (locale_le : String → String → Bool)
    → IsPreorder locale_le
    → (left right : List String) (y z : String) → TellsApart locale_le (entries (left ++ right))
    → canonical_cycle_key locale_le ((left ++ right) ++ y ∷ [])
      ≡ canonical_cycle_key locale_le ((right ++ left) ++ z ∷ [])
unfolding canonical_cycle_key
canonical_cycle_key-rotate le order left right y z tells =
    rw (drop_last-concat (left ++ right) y, drop_last-concat (right ++ left) z)
      (canonical_key_of-append le order left right tells)
