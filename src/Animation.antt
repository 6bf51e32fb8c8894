-- ===== src/Animation.antt =====
-- web/src/hooks/useActionAnimation.ts and web/src/lib/actions.ts: the animation of a fighter's action,
-- which three timers of the browser drive.
pub mod Lifecycle
use ki_clash.Common.{
  ℕ, zero, suc, ◌+◌, Bool, true, false, ◌||◌, eqb, leb, Option, none, some, List, [], ◌∷◌, ◌++◌,
  if◌then◌else◌, String, ◌==◌,
}
use ki_clash.Api.Types.{Action}
use ki_clash.Api.Types

pub data ActionKind : Type 0 where
  charge block attack energy_wave teleport victory defeat : ActionKind

pub data ActionPhase : Type 0 where
  idle windup impact recover : ActionPhase

unfoldable pub api_to_action : Action → ActionKind
api_to_action Types.charge = charge
api_to_action Types.block = block
api_to_action Types.attack = attack
api_to_action Types.energy_wave = energy_wave
api_to_action Types.teleport = teleport

-- `windupMs`, `impactMs` and `recoverMs`.
pub record Options : Type 0 where
  pub windup_ms : ℕ
  pub impact_ms : ℕ
  pub recover_ms : ℕ

abbrev pub default_options : Options
default_options = record { windup_ms = 600; impact_ms = 800; recover_ms = 600 }

-- A timer of the browser that has not fired: its identifier, when it is due, and the phase that its
-- callback sets.
pub record Timer : Type 0 where
  pub id : ℕ
  pub due : ℕ
  pub sets : ActionPhase

-- The hook's states and ref, and the browser's clock and timers, in the order in which they were made.
pub record State : Type 0 where
  pub action : Option ActionKind
  pub phase : ActionPhase
  pub timeout_refs : List ℕ
  pub now : ℕ
  pub next_id : ℕ
  pub timers : List Timer

abbrev pub initial : State
initial = record {
  action = none;
  phase = idle;
  timeout_refs = [];
  now = 0;
  next_id = 0;
  timers = [];
}

abbrev pub is_animating : State → Bool
is_animating s = elim s.phase [ idle ↦ false | windup ↦ true | impact ↦ true | recover ↦ true ]

abbrev pub has : ℕ → List ℕ → Bool
has i [] = false
has i (j ∷ js) = eqb j i || has i js

-- `forEach(clearTimeout)`: a timer whose identifier is among the refs does not fire any more.
abbrev pub clear : List ℕ → List Timer → List Timer
clear refs [] = []
clear refs (t ∷ ts) = if has t.id refs then clear refs ts else t ∷ clear refs ts

-- `triggerAction`.
unfoldable pub trigger_action : Options → ActionKind → State → State
trigger_action o new_action s =
    let t1 : Timer = record { id = s.next_id; due = s.now + o.windup_ms; sets = impact } in
    let t2 : Timer = record {
      id = s.next_id + 1;
      due = s.now + (o.windup_ms + o.impact_ms);
      sets = recover;
    } in
    let t3 : Timer = record {
      id = s.next_id + 2;
      due = s.now + (o.windup_ms + o.impact_ms + o.recover_ms);
      sets = idle;
    } in
    record s {
      timers = clear s.timeout_refs s.timers ++ t1 ∷ t2 ∷ t3 ∷ [];
      action = some new_action;
      phase = windup;
      timeout_refs = s.next_id ∷ (s.next_id + 1) ∷ (s.next_id + 2) ∷ [];
      next_id = s.next_id + 3;
    }

-- The callback of a timer: the last one also drops the action.
abbrev pub callback : ActionPhase → State → State
callback idle s = record s { phase = idle; action = none }
callback p s = record s { phase = p }

-- One timer, before the later ones: it fires if it is due, and else it stays.
abbrev pub fired : Bool → Timer → (State → State) → State → State
fired true t later s = later (callback t.sets s)
fired false t later s = let after = later s in record after { timers = t ∷ after.timers }

-- The browser at its present time: each timer that is due fires, and is gone.
unfoldable pub fire : List Timer → State → State
fire [] s = s
fire (t ∷ ts) s = fired (leb t.due s.now) t (fire ts) s

-- Time passes.
unfoldable pub advance : ℕ → State → State
unfolding fire
advance ms s = fire s.timers (record s { now = s.now + ms; timers = [] })
