-- ===== src/Overlay.antt =====
-- web/src/components/arena/pixi/PixiFxOverlay.tsx: the layer of effects over the arena, from its mount to
-- the end of its init and beyond. What an effect draws is not modelled, only that it fires.
pub mod Queue
use Prim.Native.Char.{Char, code}
use Prim.Native.String
use mathlib.Core.Option
use ki_clash.Common.{
  ℕ, zero, suc, ◌+◌, ◌-◌, ◌*◌, String, Bool, true, false, not, ◌&&◌, Option, none, some, List, [],
  ◌∷◌, ◌++◌, eqb, leb, get_or_else, if◌then◌else◌,
}

pub data FxKind : Type 0 where
  charge attack energy_wave teleport block finisher : FxKind

pub data FxSide : Type 0 where
  player enemy : FxSide

pub record OverlayEffect : Type 0 where
  pub kind : FxKind
  pub side : FxSide
  pub nonce : ℕ

abbrev pub Call : Type 0
Call = FxKind × FxSide

-- The component while it is mounted: the dependencies with which its two effects last ran, and what the
-- first one made. `inits` counts its runs, and so the calls of `init`; `is_ready` is whether fireFn is
-- set; `ticker` whether the application's ticker runs, if there is an application; `fired` has the calls
-- of `fx[kind](side)`.
pub record State : Type 0 where
  pub player_color : ℕ
  pub enemy_color : ℕ
  pub nonce : Option ℕ
  pub inits : ℕ
  pub pending : List Call
  pub is_ready : Bool
  pub ticker : Option Bool
  pub fired : List Call

-- `triggerRef.current(kind, side)`.
unfoldable pub trigger : Call → State → State
trigger c s =
    if s.is_ready
    then record s { fired = s.fired ++ c ∷ [] }
    else record s { pending = s.pending ++ c ∷ [] }

abbrev pub nonce_of : Option OverlayEffect → Option ℕ
nonce_of none = none
nonce_of (some e) = some e.nonce

-- The second effect.
unfoldable pub fire_effect : Option OverlayEffect → State → State
unfolding trigger
fire_effect none s = record s { nonce = none }
fire_effect (some e) s = trigger (e.kind, e.side) (record s { nonce = some e.nonce })

-- The first effect, after the clean-up of its last run if there was one.
unfoldable pub build : ℕ → ℕ → State → State
build player_color enemy_color s = record s {
  player_color = player_color;
  enemy_color = enemy_color;
  inits = s.inits + 1;
  pending = [];
  is_ready = false;
  ticker = none;
}

-- The first render: both effects run, whatever their dependencies.
unfoldable pub mount : ℕ → ℕ → Option OverlayEffect → State
unfolding build fire_effect
mount player_color enemy_color effect = fire_effect effect (
    build player_color enemy_color (record {
      player_color = player_color;
      enemy_color = enemy_color;
      nonce = none;
      inits = 0;
      pending = [];
      is_ready = false;
      ticker = none;
      fired = [];
    }))

abbrev pub is_same_nonce : Option ℕ → Option ℕ → Bool
is_same_nonce none none = true
is_same_nonce (some a) (some b) = eqb a b
is_same_nonce _ _ = false

-- A later render: an effect runs if a dependency of it has changed.
unfoldable pub rerender : ℕ → ℕ → Option OverlayEffect → State → State
unfolding build fire_effect
rerender player_color enemy_color effect s =
    let built =
      if eqb player_color s.player_color && eqb enemy_color s.enemy_color
      then s
      else build player_color enemy_color s in
    if is_same_nonce (nonce_of effect) s.nonce then built else fire_effect effect built

-- The call `inits` of `init` is done: what was queued fires. One whose run was cleaned up only
-- destroys its application.
unfoldable pub init_done : ℕ → State → State
init_done run s =
    if eqb run s.inits
    then record s {
      ticker = some true;
      is_ready = true;
      fired = s.fired ++ s.pending;
      pending = [];
    }
    else s

-- `onVis`.
unfoldable pub visibility_changes : Bool → State → State
visibility_changes hidden s = record s { ticker = Option.map (λ _. not hidden) s.ticker }
