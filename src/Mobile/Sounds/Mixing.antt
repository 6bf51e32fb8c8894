-- ===== src/Mobile/Sounds/Mixing.antt =====
-- The mix of two sounds in mobile/src/hooks/useSoundEffects.ts.
use Prim.{tt}
use ki_clash.Common.{
  ℕ, zero, suc, ◌≡◌, ◌≤◌, ◌<◌, refl, ap, ◌∙◌, arith, List, [], ◌∷◌, length, All, leb, if◌then◌else◌,
  get_elem?, get_or_else,
}
use ki_clash.Common.Integers.{ℤ, pos, negsuc, ◌+ℤ◌}
use ki_clash.Mobile.Sounds.{clamp, mix_samples}

-- The amplitudes of a mix.
abbrev pub IsAmplitude : ℤ → Type 0
IsAmplitude (pos n) = n ≤ 32767
IsAmplitude (negsuc n) = n < 32767

clamp-IsAmplitude : (v : ℤ) → IsAmplitude (clamp v)
unfolding clamp
clamp-IsAmplitude (pos n) = ground arith
clamp-IsAmplitude (negsuc n) = ground arith

clamp_fixes : (v : ℤ) → IsAmplitude v → clamp v ≡ v
unfolding clamp
clamp_fixes (pos n) h = ground (arith, h)
clamp_fixes (negsuc n) h = ground (arith, h)

mix_samples-IsAmplitude : (xs ys : List ℤ) → All IsAmplitude (mix_samples xs ys)
unfolding mix_samples
mix_samples-IsAmplitude [] [] = tt
mix_samples-IsAmplitude (x ∷ xs) [] =
    (clamp-IsAmplitude (x +ℤ pos 0), mix_samples-IsAmplitude xs [])
mix_samples-IsAmplitude [] (y ∷ ys) =
    (clamp-IsAmplitude (pos 0 +ℤ y), mix_samples-IsAmplitude [] ys)
mix_samples-IsAmplitude (x ∷ xs) (y ∷ ys) =
    (clamp-IsAmplitude (x +ℤ y), mix_samples-IsAmplitude xs ys)

add_comm : (a b : ℤ) → a +ℤ b ≡ b +ℤ a
unfolding ◌+ℤ◌
add_comm (pos a) (pos b) = ap pos (omega arith)
add_comm (pos a) (negsuc b) = refl
add_comm (negsuc a) (pos b) = refl
add_comm (negsuc a) (negsuc b) = ap negsuc (omega arith)

mix_comm : (xs ys : List ℤ) → mix_samples xs ys ≡ mix_samples ys xs
unfolding mix_samples
mix_comm [] [] = refl
mix_comm (x ∷ xs) [] = rw (add_comm x (pos 0), mix_comm xs []) refl
mix_comm [] (y ∷ ys) = rw (add_comm (pos 0) y, mix_comm [] ys) refl
mix_comm (x ∷ xs) (y ∷ ys) = rw (add_comm x y, mix_comm xs ys) refl

-- The longer of two lengths.
abbrev pub longer : ℕ → ℕ → ℕ
longer m n = if leb m n then n else m

mix_length : (xs ys : List ℤ) → length (mix_samples xs ys) ≡ longer (length xs) (length ys)
unfolding mix_samples
mix_length [] [] = refl
mix_length (x ∷ xs) [] = ground (arith, mix_length xs [])
mix_length [] (y ∷ ys) = ground (arith, mix_length [] ys)
mix_length (x ∷ xs) (y ∷ ys) = ground (arith, mix_length xs ys)

-- The sample of a sound at an index, which is 0 once it has ended.
abbrev pub sample_at : List ℤ → ℕ → ℤ
sample_at xs i = get_or_else (get_elem? xs i) (pos 0)

mix_at :
    (xs ys : List ℤ) (i : ℕ)
    → sample_at (mix_samples xs ys) i ≡ clamp (sample_at xs i +ℤ sample_at ys i)
unfolding mix_samples clamp ◌+ℤ◌
mix_at [] [] i = refl
mix_at (x ∷ xs) [] zero = refl
mix_at (x ∷ xs) [] (suc i) = mix_at xs [] i
mix_at [] (y ∷ ys) zero = refl
mix_at [] (y ∷ ys) (suc i) = mix_at [] ys i
mix_at (x ∷ xs) (y ∷ ys) zero = refl
mix_at (x ∷ xs) (y ∷ ys) (suc i) = mix_at xs ys i

-- The mix of any two sounds stays within the amplitude of 32,767, is as long as the longer one,
-- does not depend on their order, and is the sum of their samples wherever that is within the
-- amplitude, a sound that has ended counting as silent.
pub mix_samples_bounded :
    (xs ys : List ℤ)
    → All IsAmplitude (mix_samples xs ys)
      × (length (mix_samples xs ys) ≡ longer (length xs) (length ys))
      × (mix_samples xs ys ≡ mix_samples ys xs)
      × ((i : ℕ)
          → IsAmplitude (sample_at xs i +ℤ sample_at ys i)
          → sample_at (mix_samples xs ys) i ≡ sample_at xs i +ℤ sample_at ys i)
mix_samples_bounded xs ys = (
  mix_samples-IsAmplitude xs ys,
  mix_length xs ys,
  mix_comm xs ys,
  λ i h. mix_at xs ys i ∙ clamp_fixes _ h,
)
