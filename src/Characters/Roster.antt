-- ===== src/Characters/Roster.antt =====
-- The identifiers of the roster of web/src/lib/characters.ts, and the choice of an opponent.
use Prim.Native.Nat.{ℕ}
use ki_clash.Common.{
  suc, zero, ◌<◌, ◌≡◌, ◌≢◌, refl, String, some, List, [], ◌∷◌, inl, inr, arith, ◌==◌, eq_iff,
  length, get_elem?, get_elem?-some, All, Bool-cases,
}
use mathlib.Core.Path.{subst}
use mathlib.Core.List.{tail}
use native.Mathlib.Nat.{div-lt_iff_lt-mul}
use ki_clash.Characters.{
  Character, haneul, bora, characters, get_character, others, Random, floor_times,
  get_random_character_excluding,
}

-- A fraction below 1 of a number that is not 0 is below the number.
floor_times-lt : (r : Random) (n : ℕ) → r.num < r.den → 0 < n → floor_times r n < n
floor_times-lt r n h pos = (div-lt_iff_lt-mul (omega arith)).1 (grind arith)

others-All :
    (P : Character → Type 0) (id : String) (cs : List Character)
    → All P cs
    → All (λ c. (c.id ≢ id) × P c) (others id cs)
others-All P id [] h = tt
others-All P id (c ∷ cs) h = elim (Bool-cases (c.id == id)) [
  | inl same ↦ rw same (others-All P id cs h.1)
  | inr other ↦ rw other ((λ e. cc ((eq_iff c.id id).1 e), h.0), others-All P id cs h.1)
]

-- Of two members with different identifiers one is left.
others_left :
    (id : String) (c d : Character) (cs : List Character)
    → c.id ≢ d.id
    → 0 < length (others id (c ∷ d ∷ cs))
others_left id c d cs h = ground (arith, eq_iff c.id id, eq_iff d.id id)

All-get_elem? {ℓ} :
    {A : Type ℓ} (P : A → Type 0) (xs : List A) (i : ℕ) (a : A)
    → All P xs
    → get_elem? xs i ≡ some a
    → P a
All-get_elem? P [] i a h e = cc
All-get_elem? P (x ∷ xs) zero a h e = let q : x ≡ a = cc in subst P q h.0
All-get_elem? P (x ∷ xs) (suc i) a h e = All-get_elem? P xs i a h.1 e

-- Every member is found under its own identifier, so no two share one.
pub get_character-All : All (λ c. get_character c.id ≡ some c) characters
unfolding get_character
get_character-All = (refl, (refl, (refl, (refl, (refl, (refl, (refl, (refl, (refl, tt)))))))))

haneul-ne-bora : ◌≢◌ {A = String} "haneul" "bora"
haneul-ne-bora = ground (arith, eq_iff "haneul" "bora")

candidates_pos : (id : String) → 0 < length (others id characters)
unfolding characters
candidates_pos id = others_left id haneul bora (tail (tail characters)) haneul-ne-bora

-- Whatever the random number below 1 and the excluded identifier, an opponent is picked, it is not
-- the excluded character, and the look-up of its identifier finds it.
pub get_random_character_excluding_ne :
    (r : Random) (exclude_id : String)
    → r.num < r.den
    → (c : Character) × (get_random_character_excluding r exclude_id ≡ some c)
      × (c.id ≢ exclude_id)
      × (get_character c.id ≡ some c)
unfolding get_random_character_excluding
get_random_character_excluding_ne r exclude_id h =
    let candidates = others exclude_id characters in
    let (c, e) =
      get_elem?-some candidates (floor_times r (length candidates))
        (floor_times-lt r (length candidates) h (candidates_pos exclude_id)) in
    let (other, found) =
      All-get_elem? _ candidates _ c
        (others-All (λ c. get_character c.id ≡ some c) exclude_id characters get_character-All) e in
    (c, e, other, found)
