-- ===== src/Particles.antt =====
-- web/src/components/arena/pixi/particles.ts: the emitter that recycles its particles. Floating-point
-- numbers and their operations are a parameter, and so is what Math.random returns; a sprite is known
-- by the number of sprites that were made before it.
pub mod Arrays
pub mod Update
pub mod Recycling
pub mod Peak
use ki_clash.Common.{
  ℕ, zero, suc, ◌+◌, String, Bool, true, false, Option, none, some, List, [], ◌∷◌, ◌++◌, get_elem?,
  get_or_else, length, if◌then◌else◌,
}
use ki_clash.Particles.Arrays.{remove_at, set_at, pop}

-- The type `number`, with a literal by its text.
pub record Floats : Type 1 where
  pub Number : Type 0
  pub literal : String → Number
  pub add : Number → Number → Number
  pub sub : Number → Number → Number
  pub mul : Number → Number → Number
  pub div : Number → Number → Number
  pub pow : Number → Number → Number
  pub max : Number → Number → Number
  pub min : Number → Number → Number
  pub sign : Number → Number
  pub sin : Number → Number
  pub pi : Number
  pub is_truthy : Number → Bool
  pub is_at_most_zero : Number → Bool

module _ (floats : Floats) where
  abbrev Number : Type 0
  Number = floats.Number

  pub record SpawnConfig : Type 0 where
    pub x : Number
    pub y : Number
    pub vx : Option Number
    pub vy : Option Number
    pub gravity : Option Number
    pub drag : Option Number
    pub spin : Option Number
    pub max_life : Option Number
    pub scale : Option Number
    pub scale_decay : Option Number
    pub tint : Option Number
    pub sway : Option Number
    pub alpha : Option Number

  pub record Sprite : Type 0 where
    pub id : ℕ
    pub visible : Bool
    pub x : Number
    pub y : Number
    pub scale_x : Number
    pub scale_y : Number
    pub alpha : Number
    pub rotation : Number
    pub tint : Number

  pub record Particle : Type 0 where
    pub sprite : Sprite
    pub vx : Number
    pub vy : Number
    pub gravity : Number
    pub drag : Number
    pub spin : Number
    pub life : Number
    pub max_life : Number
    pub scale_decay : Number
    pub base_x : Number
    pub sway : Number
    pub phase : Number
    pub alpha0 : Number

  -- `children` is the number of sprites in the container.
  pub record Emitter : Type 0 where
    pub children : ℕ
    pub pool : List Particle
    pub live : List Particle
    pub clock : Number

  abbrev pub initial : Emitter
  initial = record { children = 0; pool = []; live = []; clock = floats.literal "0" }

  abbrev pub live_count : Emitter → ℕ
  live_count e = length e.live

  -- A new particle, whose sprite is the next of the container.
  abbrev pub fresh : ℕ → Particle
  fresh id = record {
    sprite = record {
      id = id;
      visible = true;
      x = floats.literal "0";
      y = floats.literal "0";
      scale_x = floats.literal "1";
      scale_y = floats.literal "1";
      alpha = floats.literal "1";
      rotation = floats.literal "0";
      tint = floats.literal "0xffffff";
    };
    vx = floats.literal "0";
    vy = floats.literal "0";
    gravity = floats.literal "0";
    drag = floats.literal "1";
    spin = floats.literal "0";
    life = floats.literal "0";
    max_life = floats.literal "1";
    scale_decay = floats.literal "1";
    base_x = floats.literal "0";
    sway = floats.literal "0";
    phase = floats.literal "0";
    alpha0 = floats.literal "1";
  }

  abbrev pub set_visible : Bool → Particle → Particle
  set_visible b p = record p { sprite = record p.sprite { visible = b } }

  -- `acquire`, with what `pop` gave.
  abbrev pub acquire_popped : Option (Particle × List Particle) → Emitter → Particle × Emitter
  acquire_popped none e = (fresh e.children, record e { children = e.children + 1 })
  acquire_popped (some (p, pool)) e = (set_visible true p, record e { pool = pool })

  unfoldable pub acquire : Emitter → Particle × Emitter
  acquire e = acquire_popped (pop e.pool) e

  -- `Math.random() * Math.PI * 2`, for what Math.random returned.
  abbrev pub angle : Number → Number
  angle random = floats.mul (floats.mul random floats.pi) (floats.literal "2")

  abbrev pub launch : SpawnConfig → Number → Number → Particle → Particle
  launch cfg random_turn random_phase p = record {
    sprite = record p.sprite {
      x = cfg.x;
      y = cfg.y;
      scale_x = get_or_else cfg.scale (floats.literal "1");
      scale_y = get_or_else cfg.scale (floats.literal "1");
      alpha = get_or_else cfg.alpha (floats.literal "1");
      rotation = angle random_turn;
      tint = get_or_else cfg.tint (floats.literal "0xffffff");
    };
    vx = get_or_else cfg.vx (floats.literal "0");
    vy = get_or_else cfg.vy (floats.literal "0");
    gravity = get_or_else cfg.gravity (floats.literal "0");
    drag = get_or_else cfg.drag (floats.literal "1");
    spin = get_or_else cfg.spin (floats.literal "0");
    life = get_or_else cfg.max_life (floats.literal "60");
    max_life = get_or_else cfg.max_life (floats.literal "60");
    scale_decay = get_or_else cfg.scale_decay (floats.literal "1");
    base_x = cfg.x;
    sway = get_or_else cfg.sway (floats.literal "0");
    phase = angle random_phase;
    alpha0 = get_or_else cfg.alpha (floats.literal "1");
  }

  abbrev pub add_live : SpawnConfig → Number → Number → Particle × Emitter → Emitter
  add_live cfg random_turn random_phase (p, e) = record e {
    live = e.live ++ launch cfg random_turn random_phase p ∷ [];
  }

  unfoldable pub spawn : SpawnConfig → Number → Number → Emitter → Emitter
  unfolding acquire
  spawn cfg random_turn random_phase e = add_live cfg random_turn random_phase (acquire e)

  -- `burst`, with what each call of the factory and of Math.random gives.
  unfoldable pub burst : List (SpawnConfig × Number × Number) → Emitter → Emitter
  unfolding spawn
  burst [] e = e
  burst ((cfg, random_turn, random_phase) ∷ rest) e =
      burst rest (spawn cfg random_turn random_phase e)

  -- What one turn of the loop in `update` does to its particle.
  abbrev pub move : Number → Number → Particle → Particle
  move dt clock p =
      let drag = floats.pow p.drag dt in
      let vy = floats.mul (floats.add p.vy (floats.mul p.gravity dt)) drag in
      let vx = floats.mul p.vx drag in
      let base_x = floats.add p.base_x (floats.mul vx dt) in
      let decay = floats.pow p.scale_decay dt in
      let life = floats.sub p.life dt in
      record p {
        vx = vx;
        vy = vy;
        base_x = base_x;
        life = life;
        sprite = record p.sprite {
          y = floats.add p.sprite.y (floats.mul vy dt);
          x =
              if floats.is_truthy p.sway
              then floats.add base_x (
                  floats.mul
                    (floats.sin (floats.add (floats.mul clock (floats.literal "0.12")) p.phase))
                    p.sway)
              else base_x;
          rotation = floats.add p.sprite.rotation (floats.mul p.spin dt);
          scale_x = floats.mul p.sprite.scale_x decay;
          scale_y = floats.mul p.sprite.scale_y decay;
          alpha =
              floats.mul (floats.max (floats.literal "0") (floats.div life p.max_life)) p.alpha0;
        };
      }

  -- One turn of the loop in `update`, on the particle at a place.
  abbrev pub turn_on :
      ℕ
      → Number
      → Number
      → Option Particle
      → List Particle × List Particle
      → List Particle × List Particle
  turn_on i dt clock none state = state
  turn_on i dt clock (some p) (live, pool) =
      if floats.is_at_most_zero (move dt clock p).life
      then (remove_at i live, pool ++ set_visible false (move dt clock p) ∷ [])
      else (set_at i (move dt clock p) live, pool)

  -- The loop, from the place below the first argument down to the first.
  unfoldable pub update_below :
      ℕ → Number → Number → List Particle × List Particle → List Particle × List Particle
  update_below zero dt clock state = state
  update_below (suc i) dt clock state =
      update_below i dt clock (turn_on i dt clock (get_elem? state.0 i) state)

  unfoldable pub update : Number → Emitter → Emitter
  unfolding update_below
  update dt e =
      let clock = floats.add e.clock dt in
      let (live, pool) = update_below (length e.live) dt clock (e.live, e.pool) in
      record e { clock = clock; live = live; pool = pool }

  unfoldable pub destroy : Emitter → Emitter
  destroy e = record e { children = 0; pool = []; live = [] }
