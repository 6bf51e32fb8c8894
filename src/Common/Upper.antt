-- ===== src/Common/Upper.antt =====
-- Upper case as JavaScript's String has it, as far as a capital from A to Z comes of it, which is what
-- the codes of rooms are made of.
use Prim.{tt}
use Prim.Native.Char.{Char, code, nul}
use mathlib.Core.Path.{◌≡◌, refl, sym, ap, ◌∙◌}
use mathlib.Core.Bool.{Bool, true, false, ◌&&◌}
use mathlib.Core.Logic.{◌⊎◌, inl, inr}
use mathlib.Core.List.{List, [], ◌∷◌}
use ki_clash.Common.Tests.{eqb, leb, Bool-cases, if◌then◌else◌}
use Prim.Native.Nat.{ℕ, zero, suc, ◌-◌, ◌<◌, ◌≤◌}
use Prim.Native.String.{String}
use native.Mathlib.Omega.{arith}

-- The character at a position of a text; past its end, U+0000.
nth_char : String → ℕ → Char
nth_char String.[] i = nul
nth_char (String.◌∷◌ c s) zero = c
nth_char (String.◌∷◌ c s) (suc i) = nth_char s i

abbrev letters : String
letters = "ABCDEFGHIJKLMNOPQRSTUVWXYZ"

-- The other characters with a capital or a digit in their upper case, by their codes: LATIN SMALL
-- LETTER SHARP S, DOTLESS I, LONG S, letters that are preceded or followed by a mark, and ligatures.
abbrev special_upper : List (ℕ × String)
special_upper =
    (223, "SS")
    ∷ (305, "I")
    ∷ (329, "ʼN")
    ∷ (383, "S")
    ∷ (496, "J̌")
    ∷ (7830, "H̱")
    ∷ (7831, "T̈")
    ∷ (7832, "W̊")
    ∷ (7833, "Y̊")
    ∷ (7834, "Aʾ")
    ∷ (64256, "FF")
    ∷ (64257, "FI")
    ∷ (64258, "FL")
    ∷ (64259, "FFI")
    ∷ (64260, "FFL")
    ∷ (64261, "ST")
    ∷ (64262, "ST")
    ∷ []

look_up : List (ℕ × String) → ℕ → String → String
look_up [] n other = other
look_up ((m, s) ∷ rows) n other = let later = look_up rows n other in if eqb m n then s else later

single : Char → String
single c = String.◌∷◌ c String.[]

unfoldable pub upper_char : Char → String
unfolding nth_char look_up single
upper_char c =
    if leb 97 (code c) && leb (code c) 122
    then single (nth_char letters (code c - 97))
    else look_up special_upper (code c) (single c)

-- Two texts, one after the other.
abbrev pub joined : String → String → String
joined String.[] t = t
joined (String.◌∷◌ c s) t = String.◌∷◌ c (joined s t)

-- `s.toUpperCase()` on every character whose upper case has one of A to Z, such as the ASCII letters;
-- the others, whose upper case has none, stay. One character may become several.
unfoldable pub to_upper : String → String
unfolding upper_char
to_upper String.[] = String.[]
to_upper (String.◌∷◌ c s) = joined (upper_char c) (to_upper s)

abbrev AllBelow : ℕ → String → Type 0
AllBelow n String.[] = Unit
AllBelow n (String.◌∷◌ c s) = (code c < n) × AllBelow n s

nth_char-lt : (n : ℕ) (s : String) (i : ℕ) → 0 < n → AllBelow n s → code (nth_char s i) < n
unfolding nth_char
nth_char-lt n String.[] i pos h = pos
nth_char-lt n (String.◌∷◌ c s) zero pos h = h.0
nth_char-lt n (String.◌∷◌ c s) (suc i) pos h = nth_char-lt n s i pos h.1

letter-lt : (i : ℕ) → code (nth_char letters i) < 97
letter-lt i = nth_char-lt 97 letters i (omega arith) (omega arith)

abbrev AllAbove : ℕ → List (ℕ × String) → Type 0
AllAbove n [] = Unit
AllAbove n ((m, s) ∷ rows) = (n < m) × AllAbove n rows

look_up-other :
    (rows : List (ℕ × String)) (n m : ℕ) (other : String)
    → AllAbove m rows
    → n ≤ m
    → look_up rows n other ≡ other
unfolding look_up
look_up-other [] n m other h k = refl
look_up-other ((i, s) ∷ rows) n m other h k =
    let later = look_up-other rows n m other h.1 k in
    let e : eqb i n ≡ false = ground (arith, h.0, k) in rw e later

small : (n : ℕ) → n < 97 → (leb 97 n && leb n 122) ≡ false
small n h = ground arith

pub upper_char_fixes : (c : Char) → code c < 97 → upper_char c ≡ String.◌∷◌ c String.[]
unfolding upper_char single
upper_char_fixes c h =
    rw (small (code c) h) (look_up-other special_upper (code c) 97 _ (ground arith) (omega arith))

abbrev Fixed : List (ℕ × String) → Type 0
Fixed [] = Unit
Fixed ((m, s) ∷ rows) = (to_upper s ≡ s) × Fixed rows

special-Fixed : Fixed special_upper
unfolding to_upper
special-Fixed = (
  refl,
  (
    refl,
    (
      refl,
      (
        refl,
        (
          refl,
          (
            refl,
            (
              refl,
              (refl, (refl, (refl, (refl, (refl, (refl, (refl, (refl, (refl, (refl, tt)))))))))),
            ),
          ),
        ),
      ),
    ),
  ),
)

append_nil : (s : String) → joined s String.[] ≡ s
append_nil String.[] = refl
append_nil (String.◌∷◌ c s) = rw (append_nil s) refl

append_assoc : (s t u : String) → joined (joined s t) u ≡ joined s (joined t u)
append_assoc String.[] t u = refl
append_assoc (String.◌∷◌ c s) t u = rw (append_assoc s t u) refl

to_upper-append : (s t : String) → to_upper (joined s t) ≡ joined (to_upper s) (to_upper t)
unfolding to_upper
to_upper-append String.[] t = refl
to_upper-append (String.◌∷◌ c s) t =
    rw (to_upper-append s t) (sym (append_assoc (upper_char c) (to_upper s) (to_upper t)))

-- A row is found, and in upper case already, or none is.
look_up-Fixed :
    (rows : List (ℕ × String)) (n : ℕ) (other : String)
    → Fixed rows
    → (to_upper (look_up rows n other) ≡ look_up rows n other) ⊎ (look_up rows n other ≡ other)
unfolding look_up
look_up-Fixed [] n other h = inr refl
look_up-Fixed ((m, s) ∷ rows) n other h = elim (Bool-cases (eqb m n)) [
  | inl e ↦ rw e (inl h.0)
  | inr e ↦ rw e (look_up-Fixed rows n other h.1)
]

fixed_by :
    (c : Char) → upper_char c ≡ String.◌∷◌ c String.[] → to_upper (upper_char c) ≡ upper_char c
unfolding to_upper
fixed_by c h = ap to_upper h ∙ append_nil (upper_char c)

abbrev is_small : Char → Bool
is_small c = leb 97 (code c) && leb (code c) 122

upper_of_small :
    (c : Char) → is_small c ≡ true → upper_char c ≡ single (nth_char letters (code c - 97))
unfolding upper_char
upper_of_small c e = rw e refl

upper_of_other :
    (c : Char)
    → is_small c ≡ false
    → upper_char c ≡ look_up special_upper (code c) (String.◌∷◌ c String.[])
unfolding upper_char single
upper_of_other c e = rw e refl

upper_single : (c : Char) → code c < 97 → to_upper (single c) ≡ single c
unfolding to_upper single
upper_single c h = append_nil (upper_char c) ∙ upper_char_fixes c h

upper_char_idem : (c : Char) → to_upper (upper_char c) ≡ upper_char c
upper_char_idem c = elim (Bool-cases (is_small c)) [
  | inl e ↦
      let u = upper_of_small c e in ap to_upper u ∙ upper_single _ (letter-lt (code c - 97)) ∙ sym u
  | inr e ↦
      let u = upper_of_other c e in
      elim (look_up-Fixed special_upper (code c) (String.◌∷◌ c String.[]) special-Fixed) [
        | inl row ↦ ap to_upper u ∙ row ∙ sym u
        | inr no_row ↦ fixed_by c (u ∙ no_row)
      ]
]

pub to_upper_idem : (s : String) → to_upper (to_upper s) ≡ to_upper s
unfolding to_upper
to_upper_idem String.[] = refl
to_upper_idem (String.◌∷◌ c s) =
    to_upper-append (upper_char c) (to_upper s) ∙ rw (upper_char_idem c, to_upper_idem s) refl

upper_room : to_upper "ab-9Z" ≡ "AB-9Z"
unfolding to_upper
upper_room = refl

upper_sharp : to_upper "ßß1" ≡ "SSSS1"
unfolding to_upper
upper_sharp = refl
