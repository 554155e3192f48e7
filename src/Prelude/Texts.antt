-- ===== src/Prelude/Texts.antt =====
-- JavaScript's string methods that the modules share: `startsWith` and `slice` with a prefix,
-- `lastIndexOf` of one character, `toLowerCase` of an ASCII text and `trim`.
use Prim.Native.Nat.{ℕ, zero, suc}
use Prim.Native.String
use Prim.Native.String.{String}
use Prim.Native.Char.{Char, code}
use text.Mathlib.TextLemmas.{cons-append, nil-append}
use text.Mathlib.TextEquality.{Char-path}
use mathlib.Core.Path.{◌≡◌, refl, ap}
use mathlib.Core.Logic.{inl, inr}
use mathlib.Core.Bool.{Bool, true, false, ◌&&◌, ◌||◌}
use mathlib.Core.Option.{Option, none, some}
use native.Mathlib.Omega.{arith}
use nest_graph_inspector.Prelude.Tests.{eqb, eqb_iff, leb, if◌then◌else◌, Option-cases}

-- the rest of a text after a prefix: `s.startsWith(prefix)` and `s.slice(prefix.length)`
unfoldable pub strip_prefix : String → String → Option String
strip_prefix String.[] s = some s
strip_prefix (String.◌∷◌ c p) String.[] = none
strip_prefix (String.◌∷◌ c p) (String.◌∷◌ d s) =
    let rest = strip_prefix p s in if eqb (code c) (code d) then rest else none

-- the texts before and after the last place of a character: `lastIndexOf` and the two slices
unfoldable pub split_last : Char → String → Option (String × String)
split_last d String.[] = none
split_last d (String.◌∷◌ c s) = elim (split_last d s) [
  | some p ↦ some (String.◌∷◌ c p.0, p.1)
  | none ↦ if eqb (code c) (code d) then some ("", s) else none
]

abbrev pub Lacks : Char → String → Type 0
Lacks d String.[] = Unit
Lacks d (String.◌∷◌ c s) = (eqb (code c) (code d) ≡ false) × Lacks d s

same_char : (c d : Char) → eqb (code c) (code d) ≡ true → c ≡ d
same_char c d h = Char-path c d ((eqb_iff (code c) (code d)).0 h)

pub strip_prefix-append : (p s : String) → strip_prefix p (String.◌++◌ p s) ≡ some s
unfolding strip_prefix
strip_prefix-append String.[] s = ap some (nil-append s)
strip_prefix-append (String.◌∷◌ c p) s =
    rw (cons-append c p s) (rw (strip_prefix-append p s) (ground arith))

pub append_of_strip_prefix : (p s r : String) → strip_prefix p s ≡ some r → s ≡ String.◌++◌ p r
unfolding strip_prefix
append_of_strip_prefix String.[] s r h = ground (arith, nil-append r)
append_of_strip_prefix (String.◌∷◌ c p) String.[] r h = cc
append_of_strip_prefix (String.◌∷◌ c p) (String.◌∷◌ d s) r h =
    ground (arith, same_char c d, append_of_strip_prefix p s r, cons-append c p r)

split_last_of_Lacks : (d : Char) (s : String) → Lacks d s → split_last d s ≡ none
unfolding split_last
split_last_of_Lacks d String.[] h = refl
split_last_of_Lacks d (String.◌∷◌ c s) (h, hs) = rw (split_last_of_Lacks d s hs, h) refl

pub split_last-append :
    (d : Char) (a s : String)
    → Lacks d s
    → split_last d (String.◌++◌ a (String.◌∷◌ d s)) ≡ some (a, s)
unfolding split_last
split_last-append d String.[] s h =
    rw (nil-append (String.◌∷◌ d s)) (rw (split_last_of_Lacks d s h) (ground arith))
split_last-append d (String.◌∷◌ c a) s h =
    rw (cons-append c a (String.◌∷◌ d s)) (rw (split_last-append d a s h, split_last) refl)

pub append_of_split_last :
    (d : Char) (s a b : String) → split_last d s ≡ some (a, b) → s ≡ String.◌++◌ a (String.◌∷◌ d b)
unfolding split_last
append_of_split_last d String.[] a b h = cc
append_of_split_last d (String.◌∷◌ c s) a b h = elim (Option-cases (split_last d s)) [
  | inl absent ↦ ground (arith, same_char c d, nil-append (String.◌∷◌ d b))
  | inr ((x, y), found) ↦
      ground (arith, append_of_split_last d s x y found, cons-append c x (String.◌∷◌ d y))
]

-- The characters of one alphabet as those of another at the same place; others stay.
unfoldable pub transliterate : String → String → Char → Char
transliterate String.[] _ c = c
transliterate (String.◌∷◌ _ _) String.[] c = c
transliterate (String.◌∷◌ a xs) (String.◌∷◌ b ys) c =
    let rest = transliterate xs ys c in if eqb (code a) (code c) then b else rest

unfoldable pub map_chars : (Char → Char) → String → String
map_chars f String.[] = ""
map_chars f (String.◌∷◌ c s) = String.◌∷◌ (f c) (map_chars f s)

-- `toUpperCase` and `toLowerCase`, of ASCII letters
unfoldable pub upper : String → String
unfolding map_chars transliterate
upper = map_chars (transliterate "abcdefghijklmnopqrstuvwxyz" "ABCDEFGHIJKLMNOPQRSTUVWXYZ")

unfoldable pub lower : String → String
unfolding map_chars transliterate
lower = map_chars (transliterate "ABCDEFGHIJKLMNOPQRSTUVWXYZ" "abcdefghijklmnopqrstuvwxyz")

-- `s.slice(n)`
unfoldable pub drop_chars : ℕ → String → String
drop_chars zero s = s
drop_chars (suc n) String.[] = ""
drop_chars (suc n) (String.◌∷◌ _ s) = drop_chars n s

-- the white space that `trim` drops
abbrev pub is_space : Char → Bool
is_space c =
    leb 9 (code c) && leb (code c) 13
    || eqb (code c) 32
    || eqb (code c) 160
    || eqb (code c) 5760
    || leb 8192 (code c) && leb (code c) 8202
    || eqb (code c) 8232
    || eqb (code c) 8233
    || eqb (code c) 8239
    || eqb (code c) 8287
    || eqb (code c) 12288
    || eqb (code c) 65279

unfoldable pub trim_start : String → String
trim_start String.[] = ""
trim_start (String.◌∷◌ c s) = let rest = trim_start s in if is_space c then rest else String.◌∷◌ c s

unfoldable pub trim_end : String → String
trim_end String.[] = ""
trim_end (String.◌∷◌ c s) = elim (trim_end s) [
  | String.[] ↦ if is_space c then "" else String.◌∷◌ c ""
  | String.◌∷◌ d r ↦ String.◌∷◌ c (String.◌∷◌ d r)
]

-- `trim`
unfoldable pub trim : String → String
trim s = trim_end (trim_start s)
