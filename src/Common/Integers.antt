-- ===== src/Common/Integers.antt =====
-- Integers over the native numbers, as JavaScript's whole numbers are used.
use Prim.Native.Nat.{ℕ, ◌+◌, ◌-◌}
use mathlib.Core.Bool.{Bool, true, false}
use ki_clash.Common.Tests.{leb, if◌then◌else◌}

pub data ℤ : Type 0 where
  pos : ℕ → ℤ
  negsuc : ℕ → ℤ

infixl 60 ◌+ℤ◌
unfoldable pub ◌+ℤ◌ : ℤ → ℤ → ℤ
pos a +ℤ pos b = pos (a + b)
pos a +ℤ negsuc b = if leb (b + 1) a then pos (a - (b + 1)) else negsuc (b - a)
negsuc a +ℤ pos b = if leb (a + 1) b then pos (b - (a + 1)) else negsuc (a - b)
negsuc a +ℤ negsuc b = negsuc (a + b + 1)

abbrev pub lebℤ : ℤ → ℤ → Bool
lebℤ (pos a) (pos b) = leb a b
lebℤ (pos a) (negsuc b) = false
lebℤ (negsuc a) (pos b) = true
lebℤ (negsuc a) (negsuc b) = leb b a

-- `Math.max` and `Math.min`.
abbrev pub max_z : ℤ → ℤ → ℤ
max_z a b = if lebℤ a b then b else a

abbrev pub min_z : ℤ → ℤ → ℤ
min_z a b = if lebℤ a b then a else b
