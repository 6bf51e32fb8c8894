-- ===== src/Common/Codes.antt =====
-- Codes of capitals and digits, such as a room has, and the operations of JavaScript's String that make
-- them from what a player types.
use Prim.{tt}
use Prim.Native.Char.{Char, code}
use Prim.Native.String.{String}
use Prim.Native.Nat.{ℕ, zero, suc, ◌≤◌}
use mathlib.Core.Path.{◌≡◌, refl}
use mathlib.Core.Bool.{Bool, true, false, ◌&&◌, ◌||◌}
use mathlib.Core.Logic.{inl, inr}
use native.Mathlib.Omega.{arith}
use text.Mathlib.Text.{◌==◌}
use ki_clash.Common.Tests.{eqb, leb, Bool-cases, if◌then◌else◌}
use ki_clash.Common.Upper.{to_upper, upper_char, upper_char_fixes}

-- `s.length` on characters of one code unit.
abbrev pub text_length : String → ℕ
text_length String.[] = 0
text_length (String.◌∷◌ c s) = suc (text_length s)

-- `s.slice(0, n)`.
unfoldable pub slice : ℕ → String → String
slice zero s = String.[]
slice (suc n) String.[] = String.[]
slice (suc n) (String.◌∷◌ c s) = String.◌∷◌ c (slice n s)

abbrev is_between : ℕ → ℕ → Char → Bool
is_between a b c = leb a (code c) && leb (code c) b

abbrev is_capital_or_digit : Char → Bool
is_capital_or_digit c = is_between 65 90 c || is_between 48 57 c

-- `s.replace(/[^A-Z0-9]/g, "")`.
unfoldable pub keep_code : String → String
keep_code String.[] = String.[]
keep_code (String.◌∷◌ c s) =
    let rest = keep_code s in if is_capital_or_digit c then String.◌∷◌ c rest else rest

-- The texts of capitals and digits alone.
abbrev pub IsCode : String → Type 0
IsCode String.[] = Unit
IsCode (String.◌∷◌ c s) = (is_capital_or_digit c ≡ true) × IsCode s

-- The white space that `trim` removes, in the first 256 characters.
abbrev is_space : Char → Bool
is_space c = is_between 9 13 c || eqb (code c) 32 || eqb (code c) 160

trim_start : String → String
trim_start String.[] = String.[]
trim_start (String.◌∷◌ c s) = let rest = trim_start s in if is_space c then rest else String.◌∷◌ c s

trim_end : String → String
trim_end String.[] = String.[]
trim_end (String.◌∷◌ c s) =
    let rest = trim_end s in if is_space c && (rest == "") then String.[] else String.◌∷◌ c rest

-- `s.trim()`.
unfoldable pub trim : String → String
unfolding trim_start trim_end
trim s = trim_start (trim_end s)

pub keep_code-IsCode : (s : String) → IsCode (keep_code s)
unfolding keep_code
keep_code-IsCode String.[] = tt
keep_code-IsCode (String.◌∷◌ c s) = elim (Bool-cases (is_capital_or_digit c)) [
  | inl e ↦ rw e (e, keep_code-IsCode s)
  | inr e ↦ rw e (keep_code-IsCode s)
]

pub keep_code_fixes : (s : String) → IsCode s → keep_code s ≡ s
unfolding keep_code
keep_code_fixes String.[] h = refl
keep_code_fixes (String.◌∷◌ c s) h = rw (h.0, keep_code_fixes s h.1) refl

pub slice-IsCode : (n : ℕ) (s : String) → IsCode s → IsCode (slice n s)
unfolding slice
slice-IsCode zero s h = tt
slice-IsCode (suc n) String.[] h = tt
slice-IsCode (suc n) (String.◌∷◌ c s) h = (h.0, slice-IsCode n s h.1)

pub length-slice : (n : ℕ) (s : String) → text_length (slice n s) ≤ n
unfolding slice
length-slice zero s = omega arith
length-slice (suc n) String.[] = omega arith
length-slice (suc n) (String.◌∷◌ c s) = omega (arith, length-slice n s)

pub slice_fixes : (n : ℕ) (s : String) → text_length s ≤ n → slice n s ≡ s
unfolding slice
slice_fixes zero String.[] h = refl
slice_fixes (suc n) String.[] h = refl
slice_fixes (suc n) (String.◌∷◌ c s) h = rw (slice_fixes n s (omega arith)) refl
slice_fixes zero (String.◌∷◌ c s) h = elim h [ ]

no_space : (c : Char) → is_capital_or_digit c ≡ true → is_space c ≡ false
no_space c h = ground arith

no_small : (c : Char) → is_capital_or_digit c ≡ true → upper_char c ≡ String.◌∷◌ c String.[]
no_small c h = upper_char_fixes c (ground arith)

pub upper_fixes : (s : String) → IsCode s → to_upper s ≡ s
unfolding to_upper
upper_fixes String.[] h = refl
upper_fixes (String.◌∷◌ c s) h = rw (no_small c h.0, upper_fixes s h.1) refl

trim_end_fixes : (s : String) → IsCode s → trim_end s ≡ s
unfolding trim_end
trim_end_fixes String.[] h = refl
trim_end_fixes (String.◌∷◌ c s) h = rw (no_space c h.0, trim_end_fixes s h.1) refl

pub trim_fixes : (s : String) → IsCode s → trim s ≡ s
unfolding trim trim_start
trim_fixes String.[] h = refl
trim_fixes (String.◌∷◌ c s) h = rw (trim_end_fixes (String.◌∷◌ c s) h, no_space c h.0) refl
