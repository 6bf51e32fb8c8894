-- ===== src/Common/Text.antt =====
-- Texts as JavaScript's String builds them: concatenation, decimal numerals, and the search in one.
use Prim.Native.Char.{code}
use Prim.Native.String
use mathlib.Core.Bool.{Bool, true, false, ◌&&◌, ◌||◌}
use ki_clash.Common.Tests.{eqb, if◌then◌else◌}
use Prim.Native.Nat.{ℕ, zero, suc, ◌/◌, ◌%◌}
use Prim.Native.String.{String}

infixr 65 ◌<>◌
abbrev pub ◌<>◌ : String → String → String
s <> t = String.◌++◌ s t

digit : ℕ → String
digit n =
    if eqb n 0
    then "0"
    else if eqb n 1
    then "1"
    else if eqb n 2
    then "2"
    else if eqb n 3
    then "3"
    else if eqb n 4
    then "4"
    else if eqb n 5
    then "5"
    else if eqb n 6
    then "6"
    else if eqb n 7
    then "7"
    else if eqb n 8
    then "8"
    else "9"

-- The digits of `n`, before `out`; the first argument bounds their number, and `n` itself is enough.
digits_before : ℕ → ℕ → String → String
digits_before zero n out = out
digits_before (suc k) n out =
    let rest = digits_before k (n / 10) (digit (n % 10) <> out) in if eqb n 0 then out else rest

-- `String(n)` for a whole number.
unfoldable pub show : ℕ → String
unfolding digits_before digit
show n = if eqb n 0 then "0" else digits_before n n ""

is_prefix : String → String → Bool
is_prefix String.[] t = true
is_prefix (String.◌∷◌ c s) String.[] = false
is_prefix (String.◌∷◌ c s) (String.◌∷◌ d t) = eqb (code c) (code d) && is_prefix s t

-- `t.includes(s)`.
unfoldable pub includes : String → String → Bool
unfolding is_prefix
includes String.[] s = is_prefix s String.[]
includes (String.◌∷◌ c t) s = is_prefix s (String.◌∷◌ c t) || includes t s
