-- ===== src/Particles/Update.antt =====
-- The loop of `update` in web/src/components/arena/pixi/particles.ts, which removes from the list that it
-- goes through, beside a filter of the list.
use mathlib.Core.List.{append_assoc, append-nil}
use ki_clash.Common.{
  ℕ, suc, ◌+◌, ◌≡◌, refl, sym, ap, ◌∙◌, arith, Bool, false, some, List, [], ◌∷◌, ◌++◌, get_elem?,
  length, if◌then◌else◌, Bool-cases, inl, inr,
}
use ki_clash.Particles
use ki_clash.Particles.{Floats}
use ki_clash.Particles.Arrays.{remove_at, set_at}

module _ {A : Type 0} where
  -- The reverse of the first list, before the second.
  abbrev pub reverse_onto : List A → List A → List A
  reverse_onto [] ys = ys
  reverse_onto (r ∷ rs) ys = reverse_onto rs (r ∷ ys)

  -- A place of the second list, in the whole.
  abbrev shift : List A → ℕ → ℕ
  shift [] k = k
  shift (r ∷ rs) k = shift rs (suc k)

  length-shift : (rs : List A) (k : ℕ) → shift rs k ≡ length rs + k
  length-shift [] k = omega arith
  length-shift (r ∷ rs) k = omega (arith, length-shift rs (suc k))

  get-reverse_onto :
      (rs ys : List A) (k : ℕ) → get_elem? (reverse_onto rs ys) (shift rs k) ≡ get_elem? ys k
  get-reverse_onto [] ys k = refl
  get-reverse_onto (r ∷ rs) ys k = get-reverse_onto rs (r ∷ ys) (suc k)

  remove-reverse_onto :
      (rs ys : List A) (k : ℕ)
      → remove_at (shift rs k) (reverse_onto rs ys) ≡ reverse_onto rs (remove_at k ys)
  remove-reverse_onto [] ys k = refl
  remove-reverse_onto (r ∷ rs) ys k = remove-reverse_onto rs (r ∷ ys) (suc k)

  set-reverse_onto :
      (rs ys : List A) (k : ℕ) (z : A)
      → set_at (shift rs k) z (reverse_onto rs ys) ≡ reverse_onto rs (set_at k z ys)
  set-reverse_onto [] ys k z = refl
  set-reverse_onto (r ∷ rs) ys k z = set-reverse_onto rs (r ∷ ys) (suc k) z

  length_place : (rs : List A) → length rs ≡ shift rs 0
  length_place rs = omega (arith, length-shift rs 0)

  get_place : (r : A) (rs ys : List A) → get_elem? (reverse_onto rs (r ∷ ys)) (length rs) ≡ some r
  get_place r rs ys = rw (length_place rs) (get-reverse_onto rs (r ∷ ys) 0)

  remove_place :
      (r : A) (rs ys : List A)
      → remove_at (length rs) (reverse_onto rs (r ∷ ys)) ≡ reverse_onto rs ys
  remove_place r rs ys = rw (length_place rs) (remove-reverse_onto rs (r ∷ ys) 0)

  set_place :
      (r z : A) (rs ys : List A)
      → set_at (length rs) z (reverse_onto rs (r ∷ ys)) ≡ reverse_onto rs (z ∷ ys)
  set_place r z rs ys = rw (length_place rs) (set-reverse_onto rs (r ∷ ys) 0 z)

  length-reverse_onto : (rs ys : List A) → length (reverse_onto rs ys) ≡ length rs + length ys
  length-reverse_onto [] ys = omega arith
  length-reverse_onto (r ∷ rs) ys = omega (arith, length-reverse_onto rs (r ∷ ys))

  reverse_onto_twice : (xs ys : List A) → reverse_onto (reverse_onto xs ys) [] ≡ reverse_onto ys xs
  reverse_onto_twice [] ys = refl
  reverse_onto_twice (x ∷ xs) ys = reverse_onto_twice xs (x ∷ ys)

module _ (floats : Floats) (dt clock : floats.Number) where
  abbrev P : Type 0
  P = Particles.Particle floats

  abbrev pub moved : P → P
  moved = Particles.move floats dt clock

  abbrev is_dead : P → Bool
  is_dead p = floats.is_at_most_zero p.life

  -- The particles that live on, and those that do not, after they have moved.
  abbrev pub survivors : List P → List P
  survivors [] = []
  survivors (p ∷ ps) = if is_dead (moved p) then survivors ps else moved p ∷ survivors ps

  abbrev pub casualties : List P → List P
  casualties [] = []
  casualties (p ∷ ps) =
      if is_dead (moved p)
      then Particles.set_visible floats false (moved p) ∷ casualties ps
      else casualties ps

  turn_place :
      (r : P) (rs ys pool : List P)
      → Particles.turn_on floats
          (length rs)
          dt
          clock
          (get_elem? (reverse_onto rs (r ∷ ys)) (length rs))
          (reverse_onto rs (r ∷ ys), pool)
        ≡ (if is_dead (moved r)
            then (reverse_onto rs ys, pool ++ Particles.set_visible floats false (moved r) ∷ [])
            else (reverse_onto rs (moved r ∷ ys), pool))
  turn_place r rs ys pool =
      rw (get_place r rs ys, remove_place r rs ys, set_place r (moved r) rs ys) refl

  loop :
      (rs ys pool : List P)
      → Particles.update_below floats (length rs) dt clock (reverse_onto rs ys, pool)
        ≡ (reverse_onto (survivors rs) ys, pool ++ casualties rs)
  unfolding Particles.update_below
  loop [] ys pool = ap (λ q. (ys, q)) (sym (append-nil pool))
  loop (r ∷ rs) ys pool =
      ap (Particles.update_below floats (length rs) dt clock) (turn_place r rs ys pool)
      ∙ elim (Bool-cases (is_dead (moved r))) [
        | inl dead ↦ rw dead (
            loop rs ys (pool ++ Particles.set_visible floats false (moved r) ∷ [])
            ∙ ap (λ q. (reverse_onto (survivors rs) ys, q)) (append_assoc pool _ _))
        | inr alive ↦ rw alive (loop rs (moved r ∷ ys) pool)
      ]

  survivors-reverse_onto :
      (xs ys : List P) → survivors (reverse_onto xs ys) ≡ reverse_onto (survivors xs) (survivors ys)
  survivors-reverse_onto [] ys = refl
  survivors-reverse_onto (x ∷ xs) ys =
      survivors-reverse_onto xs (x ∷ ys) ∙ elim (Bool-cases (is_dead (moved x))) [
        | inl dead ↦ rw dead refl
        | inr alive ↦ rw alive refl
      ]

  casualties-reverse_onto :
      (xs ys : List P)
      → casualties (reverse_onto xs ys) ≡ reverse_onto (casualties xs) (casualties ys)
  casualties-reverse_onto [] ys = refl
  casualties-reverse_onto (x ∷ xs) ys =
      casualties-reverse_onto xs (x ∷ ys) ∙ elim (Bool-cases (is_dead (moved x))) [
        | inl dead ↦ rw dead refl
        | inr alive ↦ rw alive refl
      ]

  whole_loop :
      (live pool : List P)
      → Particles.update_below floats (length live) dt clock (live, pool)
        ≡ (survivors live, pool ++ reverse_onto (casualties live) [])
  whole_loop live pool =
      let rs = reverse_onto live [] in
      let size : length live ≡ length rs = omega (arith, length-reverse_onto live []) in
      rw⁻¹ (casualties-reverse_onto live []) (
        rw size (
          ap (λ q. Particles.update_below floats (length rs) dt clock (q, pool))
            (sym (reverse_onto_twice live [])))
        ∙ loop rs [] pool
        ∙ ap (λ q. (q, pool ++ casualties rs))
            (ap (λ q. reverse_onto q []) (survivors-reverse_onto live [])
              ∙ reverse_onto_twice (survivors live) []))

-- The loop of an update, which removes from the list that it goes through backwards, does what a
-- filter does: the live particles are those that are still alive after they have moved, in their
-- order, and the others are put to the end of the pool, the newest first.
pub update_filters :
    (floats : Floats) (dt : floats.Number) (e : Particles.Emitter floats)
    → ((Particles.update floats dt e).live ≡ survivors floats dt (floats.add e.clock dt) e.live)
      × ((Particles.update floats dt e).pool
          ≡ e.pool ++ reverse_onto (casualties floats dt (floats.add e.clock dt) e.live) [])
unfolding Particles.update
update_filters floats dt e =
    let same = whole_loop floats dt (floats.add e.clock dt) e.live e.pool in
    (ap (λ q. q.0) same, ap (λ q. q.1) same)
