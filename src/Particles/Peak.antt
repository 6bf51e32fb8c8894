-- ===== src/Particles/Peak.antt =====
-- How many sprites the emitter in web/src/components/arena/pixi/particles.ts makes.
use ki_clash.Common.{
  ℕ, zero, suc, ◌+◌, ◌≤◌, ◌≡◌, refl, arith, Option, none, some, List, [], ◌∷◌, ◌++◌, length,
  length-append, if◌then◌else◌, ltb,
}
use ki_clash.Particles
use ki_clash.Particles.{Floats}
use ki_clash.Particles.Arrays.{pop}
use ki_clash.Particles.Recycling.{
  total, total_below, total_popped, total-pop, IsRecycling, Event, spawns, updates, on_event, run,
  event-IsRecycling,
}

module _ (floats : Floats) where
  abbrev P : Type 0
  P = Particles.Particle floats

  abbrev larger : ℕ → ℕ → ℕ
  larger a b = if ltb a b then b else a

  -- The most particles that are live at once.
  abbrev pub peak : List (Event floats) → Particles.Emitter floats → ℕ
  peak [] e = Particles.live_count floats e
  peak (v ∷ vs) e = larger (Particles.live_count floats e) (peak vs (on_event floats v e))

  ones : (ps : List P) → total floats (λ i. 1) ps ≡ length ps
  ones [] = refl
  ones (p ∷ ps) = omega (arith, ones ps)

  ones_below : (n : ℕ) → total_below floats (λ i. 1) n ≡ n
  ones_below zero = refl
  ones_below (suc n) = omega (arith, ones_below n)

  all_sprites :
      (e : Particles.Emitter floats)
      → IsRecycling floats e
      → length e.pool + length e.live ≡ e.children
  all_sprites e h = omega (arith, h.whole (λ i. 1), ones e.pool, ones e.live, ones_below e.children)

  larger_left : (a b : ℕ) → a ≤ larger a b
  larger_left a b = ground arith

  larger_right : (a b : ℕ) → b ≤ larger a b
  larger_right a b = ground arith

  spawn_children :
      (cfg : Particles.SpawnConfig floats) (a b : floats.Number) (o : Option (P × List P))
      (e : Particles.Emitter floats)
      → total_popped floats (λ i. 1) o ≡ total floats (λ i. 1) e.pool
      → IsRecycling floats e
      → let after = Particles.add_live floats cfg a b (Particles.acquire_popped floats o e) in
        after.children ≤ larger e.children (Particles.live_count floats after)
  spawn_children cfg a b none e h k = omega (
    arith,
    h,
    ones e.pool,
    all_sprites e k,
    length-append e.live (Particles.launch floats cfg a b (Particles.fresh floats e.children) ∷ []),
    larger_right e.children (
        length
          (e.live ++ Particles.launch floats cfg a b (Particles.fresh floats e.children) ∷ [])),
  )
  spawn_children cfg a b (some (p, ps)) e h k = larger_left e.children _

  event_children :
      (v : Event floats) (e : Particles.Emitter floats)
      → IsRecycling floats e
      → (on_event floats v e).children
        ≤ larger e.children (Particles.live_count floats (on_event floats v e))
  unfolding Particles.spawn Particles.acquire Particles.update
  event_children (spawns cfg a b) e h =
      spawn_children cfg a b (pop e.pool) e (total-pop floats (λ i. 1) e.pool) h
  event_children (updates dt) e h = larger_left e.children _

  grow : (c l m : ℕ) → larger c m ≤ larger c (larger l m)
  grow c l m = ground arith

  larger_zero : (m : ℕ) → larger 0 m ≡ m
  larger_zero m = ground arith

  peak_first :
      (vs : List (Event floats)) (e : Particles.Emitter floats)
      → Particles.live_count floats e ≤ peak vs e
  peak_first [] e = omega arith
  peak_first (v ∷ vs) e = larger_left _ _

  within : (a b c d m : ℕ) → a ≤ larger b m → b ≤ larger c d → d ≤ m → a ≤ larger c m
  within a b c d m h k l = ground (arith, h, k, l)

  run_children :
      (vs : List (Event floats)) (e : Particles.Emitter floats)
      → IsRecycling floats e
      → (run floats vs e).children ≤ larger e.children (peak vs e)
  unfolding run
  run_children [] e h = larger_left e.children _
  run_children (v ∷ vs) e h =
      let next = on_event floats v e in
      omega (
        arith,
        within (run floats vs next).children next.children e.children
            (Particles.live_count floats next) (peak vs next)
            (run_children vs next (event-IsRecycling floats v e h)) (event_children v e h)
            (peak_first vs next),
        grow e.children (Particles.live_count floats e) (peak vs next),
      )

  -- The emitter never makes more sprites than the most particles that were ever live at once.
  pub sprites_within_peak :
      (vs : List (Event floats))
      → (run floats vs (Particles.initial floats)).children ≤ peak vs (Particles.initial floats)
  sprites_within_peak vs = omega (
    arith,
    run_children vs (Particles.initial floats) (record { whole = λ f. refl }),
    larger_zero (peak vs (Particles.initial floats)),
  )
