-- ===== src/Particles/Recycling.antt =====
-- The sprites of the emitter in web/src/components/arena/pixi/particles.ts, which are never destroyed but
-- wait in the pool.
use ki_clash.Common.{
  ℕ, zero, suc, ◌+◌, ◌≡◌, refl, ap, ◌∙◌, arith, true, Option, none, some, List, [], ◌∷◌, ◌++◌,
  if◌then◌else◌, Bool-cases, inl, inr, eqb, ltb,
}
use ki_clash.Particles
use ki_clash.Particles.{Floats}
use ki_clash.Particles.Arrays.{pop, pop_after}
use ki_clash.Particles.Update.{reverse_onto, survivors, casualties, update_filters, moved}

module _ (floats : Floats) where
  abbrev P : Type 0
  P = Particles.Particle floats

  -- The sum of the weights that `f` gives the sprites of a list, and of all that were made.
  abbrev pub total : (ℕ → ℕ) → List P → ℕ
  total f [] = 0
  total f (p ∷ ps) = f p.sprite.id + total f ps

  abbrev pub total_below : (ℕ → ℕ) → ℕ → ℕ
  total_below f zero = 0
  total_below f (suc n) = f n + total_below f n

  -- The same of what `pop` gave.
  abbrev pub total_popped : (ℕ → ℕ) → Option (P × List P) → ℕ
  total_popped f none = 0
  total_popped f (some (p, ps)) = f p.sprite.id + total f ps

  total-append : (f : ℕ → ℕ) (ps qs : List P) → total f (ps ++ qs) ≡ total f ps + total f qs
  total-append f [] qs = omega arith
  total-append f (p ∷ ps) qs = omega (arith, total-append f ps qs)

  total-reverse_onto :
      (f : ℕ → ℕ) (ps qs : List P) → total f (reverse_onto ps qs) ≡ total f ps + total f qs
  total-reverse_onto f [] qs = omega arith
  total-reverse_onto f (p ∷ ps) qs = omega (arith, total-reverse_onto f ps (p ∷ qs))

  total-survivors :
      (f : ℕ → ℕ) (dt clock : floats.Number) (ps : List P)
      → total f (survivors floats dt clock ps) + total f (casualties floats dt clock ps)
        ≡ total f ps
  total-survivors f dt clock [] = omega arith
  total-survivors f dt clock (p ∷ ps) =
      elim (Bool-cases (floats.is_at_most_zero (moved floats dt clock p).life)) [
        | inl dead ↦ rw dead (omega (arith, total-survivors f dt clock ps))
        | inr alive ↦ rw alive (omega (arith, total-survivors f dt clock ps))
      ]

  total-pop_after :
      (f : ℕ → ℕ) (p : P) (o : Option (P × List P))
      → total_popped f (pop_after p o) ≡ f p.sprite.id + total_popped f o
  total-pop_after f p none = refl
  total-pop_after f p (some (q, qs)) = omega arith

  pub total-pop : (f : ℕ → ℕ) (ps : List P) → total_popped f (pop ps) ≡ total f ps
  total-pop f [] = refl
  total-pop f (p ∷ ps) = omega (arith, total-pop_after f p (pop ps), total-pop f ps)

  -- However the sprites are weighed, those in the pool and those live make up all of the container's.
  pub record IsRecycling (e : Particles.Emitter floats) : Type 0 where
    pub whole : (f : ℕ → ℕ) → total f e.pool + total f e.live ≡ total_below f e.children

  update-IsRecycling :
      (dt : floats.Number) (e : Particles.Emitter floats)
      → IsRecycling e
      → IsRecycling (Particles.update floats dt e)
  unfolding Particles.update
  update-IsRecycling dt e h =
      let clock = floats.add e.clock dt in
      let (live, pool) = update_filters floats dt e in
      record {
        whole = λ f.
            rw (live, pool)
              (omega (
                arith,
                total-append f e.pool (reverse_onto (casualties floats dt clock e.live) []),
                total-reverse_onto f (casualties floats dt clock e.live) [],
                total-survivors f dt clock e.live,
                h.whole f,
              ));
      }

  below_next : (f : ℕ → ℕ) (n : ℕ) → total_below f (n + 1) ≡ f n + total_below f n
  below_next f n = let next : n + 1 ≡ suc n = omega arith in ap (total_below f) next

  add_live-whole :
      (cfg : Particles.SpawnConfig floats) (a b : floats.Number) (o : Option (P × List P))
      (e : Particles.Emitter floats) (f : ℕ → ℕ)
      → total_popped f o ≡ total f e.pool
      → total f e.pool + total f e.live ≡ total_below f e.children
      → let after = Particles.add_live floats cfg a b (Particles.acquire_popped floats o e) in
        total f after.pool + total f after.live ≡ total_below f after.children
  add_live-whole cfg a b none e f h k = omega (
    arith,
    k,
    below_next f e.children,
    total-append f e.live
        (Particles.launch floats cfg a b (Particles.fresh floats e.children) ∷ []),
  )
  add_live-whole cfg a b (some (p, ps)) e f h k = omega (
    arith,
    h,
    k,
    total-append f e.live
        (Particles.launch floats cfg a b (Particles.set_visible floats true p) ∷ []),
  )

  spawn-IsRecycling :
      (cfg : Particles.SpawnConfig floats) (a b : floats.Number) (e : Particles.Emitter floats)
      → IsRecycling e
      → IsRecycling (Particles.spawn floats cfg a b e)
  unfolding Particles.spawn Particles.acquire
  spawn-IsRecycling cfg a b e h = record {
    whole = λ f. add_live-whole cfg a b (pop e.pool) e f (total-pop f e.pool) (h.whole f);
  }

  -- What the effects of the arena do with the emitter.
  pub data Event : Type 0 where
    spawns : Particles.SpawnConfig floats → floats.Number → floats.Number → Event
    updates : floats.Number → Event

  abbrev pub on_event : Event → Particles.Emitter floats → Particles.Emitter floats
  on_event (spawns cfg a b) e = Particles.spawn floats cfg a b e
  on_event (updates dt) e = Particles.update floats dt e

  unfoldable pub run : List Event → Particles.Emitter floats → Particles.Emitter floats
  run [] e = e
  run (v ∷ vs) e = run vs (on_event v e)

  pub event-IsRecycling :
      (v : Event) (e : Particles.Emitter floats) → IsRecycling e → IsRecycling (on_event v e)
  event-IsRecycling (spawns cfg a b) e h = spawn-IsRecycling cfg a b e h
  event-IsRecycling (updates dt) e h = update-IsRecycling dt e h

  run-IsRecycling :
      (vs : List Event) (e : Particles.Emitter floats) → IsRecycling e → IsRecycling (run vs e)
  unfolding run
  run-IsRecycling [] e h = h
  run-IsRecycling (v ∷ vs) e h = run-IsRecycling vs (on_event v e) (event-IsRecycling v e h)

  abbrev pub is_at : ℕ → ℕ → ℕ
  is_at i j = if eqb j i then 1 else 0

  below_at : (i n : ℕ) → total_below (is_at i) n ≡ (if ltb i n then 1 else 0)
  below_at i zero = ground arith
  below_at i (suc n) = ground (arith, below_at i n)

  -- Whatever is spawned and however time passes, every sprite that the emitter has made is once in
  -- its pool or once among the live particles, and in one of them only; no other sprite is there.
  pub sprite_once :
      (vs : List Event) (i : ℕ)
      → let e = run vs (Particles.initial floats) in
        total (is_at i) e.pool + total (is_at i) e.live ≡ (if ltb i e.children then 1 else 0)
  sprite_once vs i =
      (run-IsRecycling vs (Particles.initial floats) (record { whole = λ f. refl })).whole (is_at i)
      ∙ below_at i (run vs (Particles.initial floats)).children
