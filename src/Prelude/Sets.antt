-- ===== src/Prelude/Sets.antt =====
-- A JavaScript `Set<string>` or a `string[]` asked by `includes`: a list of distinct texts in the
-- order of insertion.
use Prim.Native.String.{String}
use text.Mathlib.Text.{◌==◌}
use text.Mathlib.TextEquality.{eq_iff}
use mathlib.Core.Path.{◌≡◌, refl}
use mathlib.Core.Bool.{Bool, false, ◌||◌}
use mathlib.Core.List.{List, [], ◌∷◌, ◌++◌}
use native.Mathlib.Omega.{arith}
use nest_graph_inspector.Prelude.Tests.{if◌then◌else◌}

-- `xs.includes(x)` and `set.has(x)`
abbrev pub has : String → List String → Bool
has x [] = false
has x (y ∷ ys) = y == x || has x ys

-- `set.add(x)`
abbrev pub add : String → List String → List String
add x xs = if has x xs then xs else xs ++ x ∷ []

pub has-append : (x : String) (xs ys : List String) → has x (xs ++ ys) ≡ (has x xs || has x ys)
has-append x [] ys = refl
has-append x (y ∷ xs) ys = ground (arith, has-append x xs ys)

pub has-concat : (x y : String) (xs : List String) → has x (xs ++ y ∷ []) ≡ (has x xs || y == x)
has-concat x y xs = ground (arith, has-append x xs (y ∷ []))

pub has-add : (x y : String) (xs : List String) → has x (add y xs) ≡ (has x xs || y == x)
has-add x y xs = ground (arith, has-concat x y xs, eq_iff y x)

-- No text stands twice.
abbrev pub IsDistinct : List String → Type 0
IsDistinct [] = Unit
IsDistinct (x ∷ xs) = (has x xs ≡ false) × IsDistinct xs

pub IsDistinct-concat :
    (xs : List String) (x : String) → IsDistinct xs → has x xs ≡ false → IsDistinct (xs ++ x ∷ [])
IsDistinct-concat [] x _ _ = (refl, tt)
IsDistinct-concat (y ∷ ys) x (new, d) h = (
  ground (arith, has-concat y x ys, eq_iff y x, eq_iff x y),
  IsDistinct-concat ys x d (ground arith),
)

pub IsDistinct-add : (x : String) (xs : List String) → IsDistinct xs → IsDistinct (add x xs)
IsDistinct-add x xs d = ground (arith, IsDistinct-concat xs x d)
