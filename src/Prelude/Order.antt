-- ===== src/Prelude/Order.antt =====
-- The order of JavaScript's `<` on texts, which compares UTF-16 code units: a character past U+FFFF
-- starts with a surrogate, so it stands before those from U+E000.
use Prim.Native.Nat.{ℕ}
use Prim.Native.String.{String}
use Prim.Native.Char.{code}
use text.Mathlib.TextEquality.{Char-path}
use mathlib.Core.Path.{◌≡◌, refl}
use mathlib.Core.Logic.{◌⊎◌, inl, inr}
use mathlib.Core.Bool.{Bool, true, false, ◌&&◌, ◌||◌}
use native.Mathlib.Omega.{arith}
use mathlib.Core.List.{List}
use nest_graph_inspector.Prelude.Tests.{ltb, eqb, if◌then◌else◌}
use nest_graph_inspector.Prelude.Sort.{IsPreorder, TellsApart}

-- where a character's first code unit stands: below the surrogates, among them, above them
abbrev group : ℕ → ℕ
group n = if ltb n 55296 then 0 else if ltb 65535 n then 1 else 2

abbrev before : ℕ → ℕ → Bool
before a b = ltb (group a) (group b) || eqb (group a) (group b) && ltb a b

-- `s <= t`
unfoldable pub text_le : String → String → Bool
text_le String.[] t = true
text_le (String.◌∷◌ c s) String.[] = false
text_le (String.◌∷◌ c s) (String.◌∷◌ d t) =
    let rest = text_le s t in
    if before (code c) (code d) then true else (if eqb (code c) (code d) then rest else false)

before_total : (a b : ℕ) → (before a b ≡ true) ⊎ ((before b a ≡ true) ⊎ (a ≡ b))
before_total a b = ground arith

before_trans : (a b c : ℕ) → before a b ≡ true → before b c ≡ true → before a c ≡ true
before_trans a b c h k = ground arith

before_asym : (a b : ℕ) → before a b ≡ true → before b a ≡ false
before_asym a b h = ground arith

before_irrefl : (a : ℕ) → before a a ≡ false
before_irrefl a = ground arith

text_le_total : (s t : String) → (text_le s t ≡ true) ⊎ (text_le t s ≡ true)
unfolding text_le
text_le_total String.[] t = inl refl
text_le_total (String.◌∷◌ c s) String.[] = inr refl
text_le_total (String.◌∷◌ c s) (String.◌∷◌ d t) =
    ground (arith, text_le_total s t, before_total (code c) (code d))

text_le_trans : (s t u : String) → text_le s t ≡ true → text_le t u ≡ true → text_le s u ≡ true
unfolding text_le
text_le_trans String.[] t u h k = refl
text_le_trans (String.◌∷◌ c s) String.[] u h k = cc
text_le_trans (String.◌∷◌ c s) (String.◌∷◌ d t) String.[] h k = cc
text_le_trans (String.◌∷◌ c s) (String.◌∷◌ d t) (String.◌∷◌ e u) h k =
    ground (arith, text_le_trans s t u, before_trans (code c) (code d) (code e))

text_le_antisymm : (s t : String) → text_le s t ≡ true → text_le t s ≡ true → s ≡ t
unfolding text_le
text_le_antisymm String.[] String.[] h k = refl
text_le_antisymm String.[] (String.◌∷◌ d t) h k = cc
text_le_antisymm (String.◌∷◌ c s) String.[] h k = cc
text_le_antisymm (String.◌∷◌ c s) (String.◌∷◌ d t) h k =
    ground (arith, Char-path c d, text_le_antisymm s t, before_asym (code c) (code d))

pub text_le-IsPreorder : IsPreorder text_le
text_le-IsPreorder = record { total = text_le_total; trans = text_le_trans }

pub text_le-TellsApart : (texts : List String) → TellsApart text_le texts
unfolding TellsApart
text_le-TellsApart texts a b _ _ h k = text_le_antisymm a b h k
