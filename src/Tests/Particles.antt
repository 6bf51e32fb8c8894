-- ===== src/Tests/Particles.antt =====
-- The emitter of web/src/components/arena/pixi/particles.ts over numbers that are natural.
use ki_clash.Common.{
  ℕ, ◌+◌, ◌-◌, ◌*◌, ◌≡◌, not, none, some, List, [], ◌∷◌, ◌++◌, eqb, ltb, ◌==◌, if◌then◌else◌,
}
use ki_clash.Particles
use ki_clash.Particles.{Floats, SpawnConfig, Emitter, initial}
use ki_clash.Particles.Update.{survivors, casualties, reverse_onto, update_filters}
use ki_clash.Particles.Recycling.{Event, spawns, updates, run, total, is_at, sprite_once}

abbrev pub naturals : Floats
naturals = record {
  Number = ℕ;
  literal = λ s. if s == "1" then 1 else if s == "2" then 2 else if s == "60" then 60 else 0;
  add = λ a b. a + b;
  sub = λ a b. a - b;
  mul = λ a b. a * b;
  div = λ a b. a;
  pow = λ a b. a;
  max = λ a b. if ltb a b then b else a;
  min = λ a b. if ltb a b then a else b;
  sign = λ a. if eqb a 0 then 0 else 1;
  sin = λ a. a;
  pi = 3;
  is_truthy = λ a. not (eqb a 0);
  is_at_most_zero = λ a. eqb a 0;
}

abbrev spark : ℕ → SpawnConfig naturals
spark life = record {
  x = 10;
  y = 20;
  vx = some 1;
  vy = none;
  gravity = none;
  drag = none;
  spin = none;
  max_life = some life;
  scale = none;
  scale_decay = none;
  tint = none;
  sway = none;
  alpha = none;
}

abbrev events : List (Event naturals)
events = spawns (spark 1) 0 0 ∷ spawns (spark 2) 1 1 ∷ updates 1 ∷ spawns (spark 3) 0 1 ∷ []

once_example :
    let e = run naturals events (initial naturals) in
    total naturals (is_at naturals 0) e.pool + total naturals (is_at naturals 0) e.live
    ≡ (if ltb 0 e.children then 1 else 0)
once_example = sprite_once naturals events 0

abbrev two : Emitter naturals
two = run naturals (spawns (spark 1) 0 0 ∷ spawns (spark 2) 1 1 ∷ []) (initial naturals)

filter_example :
    ((Particles.update naturals 1 two).live ≡ survivors naturals 1 (two.clock + 1) two.live)
    × ((Particles.update naturals 1 two).pool
        ≡ two.pool ++ reverse_onto (casualties naturals 1 (two.clock + 1) two.live) [])
filter_example = update_filters naturals 1 two
