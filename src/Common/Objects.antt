-- ===== src/Common/Objects.antt =====
-- JavaScript objects with text keys, in the order of their keys.
use Prim.Native.String.{String}
use mathlib.Core.Path.{◌≡◌, refl}
use mathlib.Core.Option.{Option, none, some}
use mathlib.Core.List.{List, [], ◌∷◌}
use native.Mathlib.Omega.{arith}
use text.Mathlib.Text.{◌==◌}
use text.Mathlib.TextEquality.{eq_iff}
use ki_clash.Common.Tests.{if◌then◌else◌, or_none}

module _ {ℓ} {V : Type ℓ} where
  -- `o[k]`.
  unfoldable pub get : String → List (String × V) → Option V
  get k [] = none
  get k ((j, v) ∷ o) = if j == k then some v else get k o

  -- `o[k] = v`.
  unfoldable pub put : String → V → List (String × V) → List (String × V)
  put k v [] = (k, v) ∷ []
  put k v ((j, w) ∷ o) = if j == k then (j, v) ∷ o else (j, w) ∷ put k v o

  -- `{ ...o, ...given }`.
  unfoldable pub assign : List (String × V) → List (String × V) → List (String × V)
  assign o [] = o
  assign o ((k, v) ∷ given) = assign (put k v o) given

  -- The value that a list of writes leaves under a key.
  unfoldable pub last : String → List (String × V) → Option V
  last k [] = none
  last k ((j, v) ∷ given) = or_none (last k given) (if j == k then some v else none)

  pub get-put :
      (k j : String) (v : V) (o : List (String × V))
      → get j (put k v o) ≡ (if k == j then some v else get j o)
  unfolding get put
  get-put k j v [] = refl
  get-put k j v ((i, w) ∷ o) = ground (arith, eq_iff k j, eq_iff i k, eq_iff i j, get-put k j v o)

  pub get-assign :
      (k : String) (o given : List (String × V))
      → get k (assign o given) ≡ or_none (last k given) (get k o)
  unfolding assign last
  get-assign k o [] = refl
  get-assign k o ((j, v) ∷ given) = ground (arith, get-assign k (put j v o) given, get-put j k v o)
