-- ===== src/Mobile/Sounds/Wave.antt =====
-- Reading back the files that mobile/src/hooks/useSoundEffects.ts writes, by the WAVE format.
use ki_clash.Common.{
  ℕ, zero, suc, ◌+◌, ◌*◌, ◌<◌, ◌≡◌, refl, sym, ap, ◌∙◌, arith, String, Bool, true, false, ◌&&◌,
  Option, none, some, List, [], ◌∷◌, ◌++◌, length, length-append, eqb, take, All, if◌then◌else◌,
}
use mathlib.Core.List.{append_assoc}
use ki_clash.Common.Integers.{ℤ}
use ki_clash.Mobile.Sounds.Bytes.{
  Buffer, zeros, set_byte, set_bytes, little_16, little_32, char_codes, word, set_bytes-append,
  zeros-add, number_of, number_of-little_16, number_of-little_32, IsInt16, int_of, int_of-word,
  word-lt,
}
use ki_clash.Mobile.Sounds.{
  sample_rate, write_string, set_uint_16, set_uint_32, write_samples, pcm_to_wav,
}

abbrev pub drop : ℕ → Buffer → Buffer
drop zero b = b
drop (suc n) [] = []
drop (suc n) (x ∷ b) = drop n b

-- So many bytes from an offset on, and the number that they are.
abbrev pub bytes_at : ℕ → ℕ → Buffer → List ℕ
bytes_at offset n b = take n (drop offset b)

abbrev pub number_at : ℕ → ℕ → Buffer → ℕ
number_at offset n b = number_of (bytes_at offset n b)

abbrev pub are_same : List ℕ → List ℕ → Bool
are_same [] [] = true
are_same (x ∷ xs) (y ∷ ys) = eqb x y && are_same xs ys
are_same _ _ = false

abbrev pub has_text : ℕ → String → Buffer → Bool
has_text offset s b = are_same (bytes_at offset (length (char_codes s)) b) (char_codes s)

-- The samples of 16 bits that a list of bytes has.
unfoldable pub samples_of : Buffer → List ℤ
unfolding int_of
samples_of (lo ∷ hi ∷ b) = int_of (number_of (lo ∷ hi ∷ [])) ∷ samples_of b
samples_of _ = []

-- The rate and the samples of a file of one chunk of samples, uncompressed, with one channel of 16 bits;
-- none where the file is not of this kind or has another length than it says.
unfoldable pub read_wav : Buffer → Option (ℕ × List ℤ)
unfolding samples_of char_codes
read_wav b =
    if has_text 0 "RIFF" b
      && eqb (number_at 4 4 b + 8) (length b)
      && has_text 8 "WAVE" b
      && has_text 12 "fmt " b
      && eqb (number_at 16 4 b) 16
      && eqb (number_at 20 2 b) 1
      && eqb (number_at 22 2 b) 1
      && eqb (number_at 28 4 b) (number_at 24 4 b * 2)
      && eqb (number_at 32 2 b) 2
      && eqb (number_at 34 2 b) 16
      && has_text 36 "data" b
      && eqb (number_at 40 4 b + 44) (length b)
    then some (number_at 24 4 b, samples_of (drop 44 b))
    else none

-- The bytes of the samples, and those before them.
abbrev pub body : List ℤ → Buffer
body [] = []
body (v ∷ vs) = little_16 (word v) ++ body vs

abbrev pub header : ℕ → Buffer
header data_size =
    char_codes "RIFF"
    ++ little_32 (36 + data_size)
    ++ char_codes "WAVE"
    ++ char_codes "fmt "
    ++ little_32 16
    ++ little_16 1
    ++ little_16 1
    ++ little_32 sample_rate
    ++ little_32 (sample_rate * 2)
    ++ little_16 2
    ++ little_16 16
    ++ char_codes "data"
    ++ little_32 data_size

abbrev put_header : ℕ → Buffer → Buffer
put_header data_size b = set_uint_32 40 data_size (
    write_string 36 "data" (
      set_uint_16 34 16 (
        set_uint_16 32 2 (
          set_uint_32 28 (sample_rate * 2) (
            set_uint_32 24 sample_rate (
              set_uint_16 22 1 (
                set_uint_16 20 1 (
                  set_uint_32 16 16 (
                    write_string 12 "fmt " (
                      write_string 8 "WAVE"
                        (set_uint_32 4 (36 + data_size) (write_string 0 "RIFF" b))))))))))))

header_put :
    (data_size : ℕ) (b : Buffer) → put_header data_size (zeros 44 ++ b) ≡ header data_size ++ b
unfolding set_bytes set_byte zeros char_codes little_16 little_32
header_put data_size b = refl

length-header : (data_size : ℕ) → length (header data_size) ≡ 44
unfolding char_codes little_16 little_32
length-header data_size = refl

next_length :
    (i : ℕ) (xs : Buffer) (v : ℤ)
    → length xs ≡ 44 + i * 2
    → length (xs ++ little_16 (word v)) ≡ 44 + (i + 1) * 2
unfolding little_16
next_length i xs v h = omega (arith, h, length-append xs (little_16 (word v)))

twice_suc : (n : ℕ) → suc n * 2 ≡ suc (suc (n * 2))
twice_suc n = omega arith

two_zeros : (n : ℕ) → zeros (suc n * 2) ≡ 0 ∷ 0 ∷ zeros (n * 2)
unfolding zeros
two_zeros n = ap zeros (twice_suc n)

samples_put :
    (i : ℕ) (vs : List ℤ) (xs : Buffer)
    → length xs ≡ 44 + i * 2
    → write_samples i vs (xs ++ zeros (length vs * 2)) ≡ xs ++ body vs
unfolding write_samples zeros little_16
samples_put i [] xs h = refl
samples_put i (v ∷ vs) xs h =
    let over = ap (λ q. xs ++ q) (two_zeros (length vs)) in
    let put : set_bytes (44 + i * 2) (little_16 (word v)) (xs ++ (0 ∷ 0 ∷ zeros (length vs * 2)))
        ≡ xs ++ (little_16 (word v) ++ zeros (length vs * 2)) =
      rw⁻¹ h (set_bytes-append xs (little_16 (word v)) (0 ∷ 0 ∷ []) (zeros (length vs * 2)) refl) in
    ap (λ q. write_samples (i + 1) vs (set_bytes (44 + i * 2) (little_16 (word v)) q)) over
    ∙ ap (write_samples (i + 1) vs) (put ∙ sym (append_assoc xs (little_16 (word v)) _))
    ∙ samples_put (i + 1) vs (xs ++ little_16 (word v)) (next_length i xs v h)
    ∙ append_assoc xs (little_16 (word v)) (body vs)

wav_bytes : (vs : List ℤ) → pcm_to_wav vs ≡ header (length vs * 2) ++ body vs
unfolding pcm_to_wav
wav_bytes vs =
    ap (λ b. write_samples 0 vs (put_header (length vs * 2) b)) (zeros-add 44 (length vs * 2))
    ∙ ap (write_samples 0 vs) (header_put (length vs * 2) (zeros (length vs * 2)))
    ∙ samples_put 0 vs (header (length vs * 2)) (length-header (length vs * 2))

length-body : (vs : List ℤ) → length (body vs) ≡ length vs * 2
unfolding little_16
length-body [] = refl
length-body (v ∷ vs) = omega (arith, length-body vs)

body_read : (vs : List ℤ) → All IsInt16 vs → samples_of (body vs) ≡ vs
unfolding samples_of little_16
body_read [] h = refl
body_read (v ∷ vs) h =
    rw (number_of-little_16 (word v) (word-lt v), int_of-word v h.0, body_read vs h.1) refl

file_length : (vs : List ℤ) → length (header (length vs * 2) ++ body vs) ≡ 44 + length vs * 2
file_length vs = omega (
  arith,
  length-append (header (length vs * 2)) (body vs),
  length-header (length vs * 2),
  length-body vs,
)

-- What the two fields of the header for lengths say of the file.
sizes_say :
    (n m : ℕ)
    → m ≡ 44 + n
    → 36 + n < 4294967296
    → (eqb (number_of (little_32 (36 + n)) + 8) m ≡ true)
      × (eqb (number_of (little_32 n) + 44) m ≡ true)
sizes_say n m h short = (
  ground (arith, number_of-little_32 (36 + n) short, h),
  ground (arith, number_of-little_32 n (omega (arith, short)), h),
)

file_read :
    (vs : List ℤ)
    → All IsInt16 vs
    → 36 + length vs * 2 < 4294967296
    → read_wav (header (length vs * 2) ++ body vs) ≡ some (sample_rate, vs)
unfolding read_wav char_codes little_16 little_32
file_read vs h short =
    let (riff, chunk) = sizes_say (length vs * 2) _ (file_length vs) short in
    rw (riff, chunk, body_read vs h) refl

-- The file that the mobile client writes for any samples of 16 bits, as long as the lengths in its
-- header have room in 32 bits, is read back by the WAVE format whole: it says what it is and how
-- long it is, and has the sample rate and the very samples.
pub wav_reads_back :
    (vs : List ℤ)
    → All IsInt16 vs
    → 36 + length vs * 2 < 4294967296
    → read_wav (pcm_to_wav vs) ≡ some (sample_rate, vs)
wav_reads_back vs h short = ap read_wav (wav_bytes vs) ∙ file_read vs h short
