-- ===== src/Prelude/Decimal.antt =====
-- A natural number in a JavaScript template: its decimal text.
use Prim.Native.Nat.{ℕ, zero, suc, ◌/◌, ◌%◌}
use Prim.Native.String
use Prim.Native.String.{String}
use mathlib.Core.List.{List, [], ◌∷◌}
use nest_graph_inspector.Prelude.Tests.{if◌then◌else◌, ltb}

abbrev item : List String → ℕ → String
item [] n = ""
item (x ∷ xs) zero = x
item (x ∷ xs) (suc n) = item xs n

abbrev digit : ℕ → String
digit n = item ("0" ∷ "1" ∷ "2" ∷ "3" ∷ "4" ∷ "5" ∷ "6" ∷ "7" ∷ "8" ∷ "9" ∷ []) n

-- a number in a template, in decimal; the number's value is more than enough fuel
decimal_on : ℕ → ℕ → String
decimal_on zero n = digit n
decimal_on (suc fuel) n =
    let high = decimal_on fuel (n / 10) in
    if ltb n 10 then digit n else String.◌++◌ high (digit (n % 10))

unfoldable pub decimal : ℕ → String
unfolding decimal_on
decimal n = decimal_on n n
