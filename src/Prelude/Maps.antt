-- ===== src/Prelude/Maps.antt =====
-- A JavaScript `Map<string, V>`, or an object read by `Object.entries`: an association list in the
-- order of insertion. Setting a key that is there keeps its place; deleting it and setting it again
-- moves it to the end.
use Prim.Native.Nat.{suc, ◌+◌, ◌≤◌}
use Prim.Native.String.{String}
use text.Mathlib.Text.{◌==◌}
use text.Mathlib.TextEquality.{eq_iff}
use mathlib.Core.Path.{◌≡◌, refl}
use mathlib.Core.Bool.{true, false, ◌||◌}
use mathlib.Core.Option.{Option, none, some}
use mathlib.Core.List.{List, [], ◌∷◌}
use native.Mathlib.Omega.{arith}
use nest_graph_inspector.Prelude.Tests.{if◌then◌else◌, is_some}
use nest_graph_inspector.Prelude.Lists.{length}
use nest_graph_inspector.Prelude.Sets.{has, IsDistinct}

module _ {ℓ} {V : Type ℓ} where
  abbrev pub keys : List (String × V) → List String
  keys [] = []
  keys ((k, _) ∷ m) = k ∷ keys m

  unfoldable pub get : String → List (String × V) → Option V
  get k [] = none
  get k ((j, v) ∷ m) = if j == k then some v else get k m

  unfoldable pub set : String → V → List (String × V) → List (String × V)
  set k v [] = (k, v) ∷ []
  set k v ((j, w) ∷ m) = let rest = set k v m in if j == k then (j, v) ∷ m else (j, w) ∷ rest

  -- `map.delete(k)`; the keys of a map are distinct, so dropping every entry of the key is the same
  unfoldable pub delete : String → List (String × V) → List (String × V)
  delete k [] = []
  delete k ((j, w) ∷ m) = let rest = delete k m in if j == k then rest else (j, w) ∷ rest

  pub get-set :
      (k j : String) (v : V) (m : List (String × V))
      → get j (set k v m) ≡ (if k == j then some v else get j m)
  unfolding get set
  get-set k j v [] = refl
  get-set k j v ((i, w) ∷ m) = ground (arith, eq_iff k j, eq_iff i k, eq_iff i j, get-set k j v m)

  pub get-delete :
      (k j : String) (m : List (String × V))
      → get j (delete k m) ≡ (if k == j then none else get j m)
  unfolding get delete
  get-delete k j [] = ground arith
  get-delete k j ((i, w) ∷ m) = ground (arith, eq_iff k j, eq_iff i k, eq_iff i j, get-delete k j m)

  pub is_some-get : (k : String) (m : List (String × V)) → is_some (get k m) ≡ has k (keys m)
  unfolding get
  is_some-get k [] = refl
  is_some-get k ((j, v) ∷ m) = ground (arith, is_some-get k m)

  pub has-keys-set :
      (k j : String) (v : V) (m : List (String × V))
      → has j (keys (set k v m)) ≡ (k == j || has j (keys m))
  unfolding set
  has-keys-set k j v [] = refl
  has-keys-set k j v ((i, w) ∷ m) =
      ground (arith, eq_iff k j, eq_iff i k, eq_iff i j, has-keys-set k j v m)

  pub has-keys-delete :
      (k j : String) (m : List (String × V))
      → has j (keys (delete k m)) ≡ (if k == j then false else has j (keys m))
  unfolding delete
  has-keys-delete k j [] = ground arith
  has-keys-delete k j ((i, w) ∷ m) =
      ground (arith, eq_iff k j, eq_iff i k, eq_iff i j, has-keys-delete k j m)

  pub IsDistinct-keys-set :
      (k : String) (v : V) (m : List (String × V))
      → IsDistinct (keys m)
      → IsDistinct (keys (set k v m))
  unfolding set
  IsDistinct-keys-set k v [] h = (refl, tt)
  IsDistinct-keys-set k v ((i, w) ∷ m) (new, h) =
      ground (arith, eq_iff i k, eq_iff k i, has-keys-set k i v m, IsDistinct-keys-set k v m h)

  pub IsDistinct-keys-delete :
      (k : String) (m : List (String × V)) → IsDistinct (keys m) → IsDistinct (keys (delete k m))
  unfolding delete
  IsDistinct-keys-delete k [] h = h
  IsDistinct-keys-delete k ((i, w) ∷ m) (new, h) =
      ground (arith, eq_iff i k, eq_iff k i, has-keys-delete k i m, IsDistinct-keys-delete k m h)

  pub length-set-le :
      (k : String) (v : V) (m : List (String × V)) → length (set k v m) ≤ length m + 1
  unfolding set
  length-set-le k v [] = omega arith
  length-set-le k v ((i, w) ∷ m) = ground (arith, length-set-le k v m)

  pub length-set_of_has :
      (k : String) (v : V) (m : List (String × V))
      → has k (keys m) ≡ true
      → length (set k v m) ≡ length m
  unfolding set
  length-set_of_has k v [] h = cc
  length-set_of_has k v ((i, w) ∷ m) h = ground (arith, length-set_of_has k v m)

  pub length-delete-le : (k : String) (m : List (String × V)) → length (delete k m) ≤ length m
  unfolding delete
  length-delete-le k [] = omega arith
  length-delete-le k ((i, w) ∷ m) = ground (arith, length-delete-le k m)

  pub length-delete-lt :
      (k : String) (m : List (String × V))
      → has k (keys m) ≡ true
      → suc (length (delete k m)) ≤ length m
  unfolding delete
  length-delete-lt k [] h = cc
  length-delete-lt k ((i, w) ∷ m) h = ground (arith, length-delete-lt k m, length-delete-le k m)

  pub keys-set_of_has :
      (k : String) (v : V) (m : List (String × V))
      → has k (keys m) ≡ true
      → keys (set k v m) ≡ keys m
  unfolding set
  keys-set_of_has k v [] h = cc
  keys-set_of_has k v ((i, w) ∷ m) h = ground (arith, keys-set_of_has k v m)
