-- ===== src/Particles/Arrays.antt =====
-- The operations of JavaScript's arrays that web/src/components/arena/pixi/particles.ts uses.
use ki_clash.Common.{ℕ, zero, suc, Option, none, some, List, [], ◌∷◌}

module _ {A : Type 0} where
  -- `a.splice(i, 1)`.
  abbrev pub remove_at : ℕ → List A → List A
  remove_at i [] = []
  remove_at zero (x ∷ xs) = xs
  remove_at (suc i) (x ∷ xs) = x ∷ remove_at i xs

  -- The object at place `i`, changed to `y`.
  abbrev pub set_at : ℕ → A → List A → List A
  set_at i y [] = []
  set_at zero y (x ∷ xs) = y ∷ xs
  set_at (suc i) y (x ∷ xs) = x ∷ set_at i y xs

  abbrev pub pop_after : A → Option (A × List A) → Option (A × List A)
  pop_after x none = some (x, [])
  pop_after x (some (y, ys)) = some (y, x ∷ ys)

  -- `a.pop()`: the last element, and the others.
  abbrev pub pop : List A → Option (A × List A)
  pop [] = none
  pop (x ∷ xs) = pop_after x (pop xs)
