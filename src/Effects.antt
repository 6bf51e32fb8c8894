-- ===== src/Effects.antt =====
-- web/src/components/arena/pixi/effects.ts in the arena of
-- web/src/components/arena/pixi/PixiBattleArena.tsx: the effects that run on its ticker, and what they
-- change of the fighters and the layer of effects. Numbers are those of Particles.antt, and time is in
-- whole milliseconds. Particles, the shakes of the page and what the sprites and filters of an effect
-- look like are not modelled.
pub mod Restoring
pub mod Overlaps
use ki_clash.Common.{
  ℕ, zero, suc, ◌+◌, ◌-◌, ◌*◌, String, Bool, true, false, ◌&&◌, ◌||◌, Option, none, some, List, [],
  ◌∷◌, ◌++◌, leb, ltb, if◌then◌else◌,
}
use ki_clash.Common.Text.{show}
use ki_clash.Particles.{Floats}

pub data EffectKind : Type 0 where
  charge attack energy_wave teleport block finisher : EffectKind

pub data Side : Type 0 where
  player enemy : Side

pub data Filter : Type 0 where
  aura glow color_matrix shockwave rgb_split bloom : Filter

abbrev pub other : Side → Side
other player = enemy
other enemy = player

-- `durationMs` of each effect's animation.
abbrev pub duration : EffectKind → ℕ
duration charge = 900
duration attack = 600
duration energy_wave = 1500
duration teleport = 280
duration block = 360
duration finisher = 1400

-- The fighter that an effect of a side changes.
abbrev pub changed : EffectKind → Side → Side
changed charge side = side
changed attack side = other side
changed energy_wave side = other side
changed teleport side = side
changed block side = side
changed finisher side = other side

abbrev is_wave : EffectKind → Bool
is_wave energy_wave = true
is_wave _ = false

module _ (floats : Floats) where
  abbrev Number : Type 0
  Number = floats.Number

  abbrev literal : String → Number
  literal s = floats.literal s

  pub record Fighter : Type 0 where
    pub x : Number
    pub scale_x : Number
    pub scale_y : Number
    pub alpha : Number
    pub rotation : Number
    pub filters : List Filter

  -- An animation on the ticker: the fighter that its effect changes, as the effect found it, and
  -- `impacted` of the energy wave.
  pub record Animation : Type 0 where
    pub kind : EffectKind
    pub side : Side
    pub elapsed : ℕ
    pub found : Fighter
    pub impacted : Bool
    pub dir : Number

  -- `sprites` is the number of sprites that effects have added to the layer.
  pub record Arena : Type 0 where
    pub player : Fighter
    pub enemy : Fighter
    pub fx_filters : List Filter
    pub sprites : ℕ
    pub running : List Animation

  abbrev pub fighter : Side → Arena → Fighter
  fighter player a = a.player
  fighter enemy a = a.enemy

  abbrev pub set_fighter : Side → Fighter → Arena → Arena
  set_fighter player f a = record a { player = f }
  set_fighter enemy f a = record a { enemy = f }

  abbrev pub set_x : Side → Number → Arena → Arena
  set_x side x a = set_fighter side (record (fighter side a) { x = x }) a

  abbrev pub set_filters : Side → List Filter → Arena → Arena
  set_filters side fs a = set_fighter side (record (fighter side a) { filters = fs }) a

  -- What an effect does before its animation.
  abbrev pub begin : EffectKind → Side → Arena → Arena
  begin charge side a = set_filters side (glow ∷ []) a
  begin attack side a = record a { fx_filters = shockwave ∷ rgb_split ∷ [] }
  begin energy_wave side a = record a { sprites = a.sprites + 5 }
  begin teleport side a = set_filters side (color_matrix ∷ []) a
  begin block side a = set_filters side (color_matrix ∷ []) a
  begin finisher side a = record a { fx_filters = bloom ∷ rgb_split ∷ [] }

  -- `Math.sign(dest.x - origin.x) || 1`.
  abbrev pub toward : Number → Number → Number
  toward origin dest =
      let d = floats.sign (floats.sub dest origin) in if floats.is_truthy d then d else literal "1"

  -- `triggerEffect`.
  unfoldable pub trigger_effect : EffectKind → Side → Arena → Arena
  trigger_effect kind side a =
      let begun = begin kind side a in
      record begun {
        running =
            a.running
            ++ record {
              kind = kind;
              side = side;
              elapsed = 0;
              found = fighter (changed kind side) a;
              impacted = false;
              dir = toward (fighter side a).x (fighter (other side) a).x;
            }
              ∷ [];
      }

  abbrev whole : ℕ → Number
  whole n = literal (show n)

  -- `Math.min(1, elapsed / durationMs)`.
  unfoldable pub progress : EffectKind → ℕ → Number
  progress kind elapsed =
      if leb (duration kind) elapsed
      then literal "1"
      else floats.div (whole elapsed) (whole (duration kind))

  -- `Math.sin(p * Math.PI)`.
  abbrev pub swing : Number → Number
  swing p = floats.sin (floats.mul p floats.pi)

  -- `recoil` of an attack.
  abbrev pub recoil : Side → Number
  recoil player = literal "28"
  recoil enemy = literal "-28"

  -- `dir` of a finisher.
  abbrev dir : Side → Number
  dir player = literal "1"
  dir enemy = literal "-1"

  -- `sp` of an energy wave.
  abbrev wave_progress : Number → Number
  wave_progress p =
      floats.min (literal "1") (floats.div (floats.sub p (literal "0.5")) (literal "0.32"))

  -- Where an energy wave has come to `FIRE`, p from 0.3 to 0.82, and then whether `reach` is 0.98 or more.
  abbrev fires : ℕ → Bool
  fires elapsed = leb 450 elapsed && ltb elapsed 1230

  abbrev reaches : ℕ → Bool
  reaches elapsed = leb 15288000 ((elapsed - 450) * 30000)

  -- An energy wave on its way, which marks when its head has landed.
  abbrev pub fly : ℕ → Animation → Animation
  fly elapsed r = record r {
    elapsed = elapsed;
    impacted = r.impacted || is_wave r.kind && fires elapsed && reaches elapsed;
  }

  -- `onUpdate` of the effects that change a fighter, with the progress of the animation; `side` is the
  -- fighter's.
  abbrev attack_update : Side → Animation → Number → Arena → Arena
  attack_update side r p a =
      set_x side (floats.add r.found.x (floats.mul (swing p) (recoil r.side))) a

  -- Of an energy wave; `impacted` is that after the call, and `before` that before it.
  abbrev wave_update : Side → Bool → Animation → Number → Arena → Arena
  wave_update side before r p a =
      if fires r.elapsed && r.impacted
      then set_x side
          (floats.add r.found.x
            (floats.mul (floats.mul (swing (wave_progress p)) (literal "30")) r.dir))
          (if before then a else record a { fx_filters = shockwave ∷ [] })
      else a

  abbrev teleport_update : Side → Animation → Number → Arena → Arena
  teleport_update side r p a =
      set_fighter side
        (record (fighter side a) {
          scale_x = floats.mul r.found.scale_x (floats.sub (literal "1") p);
          scale_y =
              floats.mul r.found.scale_y (floats.add (literal "1") (floats.mul p (literal "0.4")));
        })
        a

  abbrev finisher_update : Side → Animation → Number → Arena → Arena
  finisher_update side r p a =
      set_fighter side
        (record (fighter side a) {
          x = floats.add r.found.x (floats.mul (floats.mul p (literal "120")) (dir r.side));
          alpha =
              floats.max (literal "0") (floats.sub (literal "1") (floats.mul p (literal "1.1")));
          rotation = floats.mul (floats.mul p (literal "0.6")) (dir r.side);
        })
        a

  abbrev pub update : Bool → Animation → Arena → Arena
  update before r a =
      let p = progress r.kind r.elapsed in
      let side = changed r.kind r.side in
      elim r.kind [
        | charge ↦ a
        | attack ↦ attack_update side r p a
        | energy_wave ↦ wave_update side before r p a
        | teleport ↦ teleport_update side r p a
        | block ↦ a
        | finisher ↦ finisher_update side r p a
      ]

  -- `onDone`.
  abbrev attack_done : Side → Animation → Arena → Arena
  attack_done side r a = set_x side r.found.x (record a { fx_filters = [] })

  abbrev wave_done : Side → Animation → Arena → Arena
  wave_done side r a = set_x side r.found.x (record a { sprites = a.sprites - 5; fx_filters = [] })

  abbrev teleport_done : Side → Animation → Arena → Arena
  teleport_done side r a =
      set_fighter side
        (record (fighter side a) {
          scale_x = r.found.scale_x;
          scale_y = r.found.scale_y;
          filters = [];
        })
        a

  abbrev finisher_done : Side → Animation → Arena → Arena
  finisher_done side r a =
      set_fighter side
        (record (fighter side a) { x = r.found.x; alpha = literal "1"; rotation = literal "0" })
        (record a { fx_filters = [] })

  abbrev pub done : Animation → Arena → Arena
  done r a =
      let side = changed r.kind r.side in
      elim r.kind [
        | charge ↦ set_filters side [] a
        | attack ↦ attack_done side r a
        | energy_wave ↦ wave_done side r a
        | teleport ↦ teleport_done side r a
        | block ↦ set_filters side [] a
        | finisher ↦ finisher_done side r a
      ]

  -- An animation's function on the ticker, in a frame that takes `dt`.
  unfoldable pub advance : ℕ → Animation → Arena → Arena
  unfolding progress
  advance dt r a =
      let now = fly (r.elapsed + dt) r in
      let moved = update r.impacted now a in
      if leb (duration r.kind) now.elapsed
      then done now moved
      else record moved { running = moved.running ++ now ∷ [] }

  unfoldable pub frame_from : ℕ → List Animation → Arena → Arena
  unfolding advance
  frame_from dt [] a = a
  frame_from dt (r ∷ rs) a = frame_from dt rs (advance dt r a)

  -- A frame of the ticker.
  unfoldable pub frame : ℕ → Arena → Arena
  unfolding frame_from
  frame dt a = frame_from dt a.running (record a { running = [] })

  unfoldable pub frames : List ℕ → Arena → Arena
  unfolding frame
  frames [] a = a
  frames (dt ∷ dts) a = frames dts (frame dt a)
