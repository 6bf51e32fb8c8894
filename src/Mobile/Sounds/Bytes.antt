-- ===== src/Mobile/Sounds/Bytes.antt =====
-- Buffers of bytes and the numbers in them, as JavaScript's ArrayBuffer and DataView have them.
use Prim.Native.Char.{code}
use mathlib.Core.List.{append_assoc}
use ki_clash.Common.{
  ℕ, zero, suc, ◌+◌, ◌-◌, ◌*◌, ◌/◌, ◌%◌, ◌<◌, ◌≡◌, refl, ap, ◌∙◌, sym, arith, String, List, [], ◌∷◌,
  ◌++◌, length, length-append, ltb, if◌then◌else◌,
}
use ki_clash.Common.Integers.{ℤ, pos, negsuc}

abbrev pub Buffer : Type 0
Buffer = List ℕ

unfoldable pub zeros : ℕ → Buffer
zeros zero = []
zeros (suc n) = 0 ∷ zeros n

unfoldable pub set_byte : ℕ → ℕ → Buffer → Buffer
set_byte i v [] = []
set_byte zero v (b ∷ bs) = v ∷ bs
set_byte (suc i) v (b ∷ bs) = b ∷ set_byte i v bs

-- Bytes one after the other, from an offset on; past the end nothing is written, where DataView throws.
unfoldable pub set_bytes : ℕ → List ℕ → Buffer → Buffer
unfolding set_byte
set_bytes offset [] b = b
set_bytes offset (v ∷ vs) b = set_bytes (offset + 1) vs (set_byte offset v b)

unfoldable pub little_16 : ℕ → List ℕ
little_16 n = n % 256 ∷ n / 256 % 256 ∷ []

unfoldable pub little_32 : ℕ → List ℕ
little_32 n = n % 256 ∷ n / 256 % 256 ∷ n / 65536 % 256 ∷ n / 16777216 % 256 ∷ []

-- `str.charCodeAt(i)` for each i, as a byte.
unfoldable pub char_codes : String → List ℕ
char_codes String.[] = []
char_codes (String.◌∷◌ c s) = code c % 256 ∷ char_codes s

-- The 16 bits of an integer, as a number.
unfoldable pub word : ℤ → ℕ
word (pos n) = n % 65536
word (negsuc n) = 65535 - n % 65536

no_length : (xs : Buffer) → suc (length xs) ≡ 0 → 0 < 0
no_length xs h = omega (arith, h)

zero_add : (n : ℕ) → 0 + n ≡ n
zero_add n = omega arith

suc_add : (m n : ℕ) → suc m + n ≡ suc (m + n)
suc_add m n = omega arith

set_byte-append :
    (xs : Buffer) (v z : ℕ) (zs : Buffer) → set_byte (length xs) v (xs ++ z ∷ zs) ≡ xs ++ v ∷ zs
unfolding set_byte
set_byte-append [] v z zs = refl
set_byte-append (x ∷ xs) v z zs = ap (λ q. x ∷ q) (set_byte-append xs v z zs)

length-append_last : (xs : Buffer) (v : ℕ) → length (xs ++ v ∷ []) ≡ length xs + 1
length-append_last xs v = length-append xs (v ∷ [])

-- Bytes written over others.
pub set_bytes-append :
    (xs vs ys zs : Buffer)
    → length ys ≡ length vs
    → set_bytes (length xs) vs (xs ++ (ys ++ zs)) ≡ xs ++ (vs ++ zs)
unfolding set_bytes
set_bytes-append xs [] [] zs h = refl
set_bytes-append xs (v ∷ vs) (y ∷ ys) zs h =
    ap (set_bytes (length xs + 1) vs) (set_byte-append xs v y (ys ++ zs))
    ∙ rw⁻¹ (length-append_last xs v) (
        ap (set_bytes (length (xs ++ v ∷ [])) vs) (sym (append_assoc xs (v ∷ []) (ys ++ zs)))
        ∙ set_bytes-append (xs ++ v ∷ []) vs ys zs (omega (arith, h))
        ∙ append_assoc xs (v ∷ []) (vs ++ zs))
set_bytes-append xs [] (y ∷ ys) zs h = elim (no_length ys h) [ ]
set_bytes-append xs (v ∷ vs) [] zs h = elim (no_length vs (sym h)) [ ]

pub zeros-add : (m n : ℕ) → zeros (m + n) ≡ zeros m ++ zeros n
unfolding zeros
zeros-add zero n = ap zeros (zero_add n)
zeros-add (suc m) n = ap zeros (suc_add m n) ∙ ap (λ q. 0 ∷ q) (zeros-add m n)

-- The number of bytes with the lowest first.
abbrev pub number_of : List ℕ → ℕ
number_of [] = 0
number_of (b ∷ bs) = b + 256 * number_of bs

pub number_of-little_32 : (n : ℕ) → n < 4294967296 → number_of (little_32 n) ≡ n
unfolding little_32
number_of-little_32 n h = omega arith

pub number_of-little_16 : (n : ℕ) → n < 65536 → number_of (little_16 n) ≡ n
unfolding little_16
number_of-little_16 n h = omega arith

-- The integers of 16 bits.
abbrev pub IsInt16 : ℤ → Type 0
IsInt16 (pos n) = n < 32768
IsInt16 (negsuc n) = n < 32768

-- The integer with these 16 bits.
unfoldable pub int_of : ℕ → ℤ
int_of w = if ltb w 32768 then pos w else negsuc (65535 - w)

pub int_of-word : (v : ℤ) → IsInt16 v → int_of (word v) ≡ v
unfolding int_of word
int_of-word (pos n) h = ground arith
int_of-word (negsuc n) h = ground arith

pub word-lt : (v : ℤ) → word v < 65536
unfolding word
word-lt (pos n) = omega arith
word-lt (negsuc n) = omega arith
