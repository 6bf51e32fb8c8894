-- ===== src/Finale.antt =====
-- web/src/components/finale/MatchFinale.tsx: the stages of the end of a match and those of its first
-- stage, the final blow, which timers drive, and the bursts of confetti.
pub mod Once
pub mod Timers
pub mod Stages
use ki_clash.Common.{
  ℕ, zero, suc, ◌+◌, ◌-◌, String, Bool, true, false, not, ◌&&◌, ◌||◌, Option, none, some, List, [],
  ◌∷◌, ◌++◌, map, if◌then◌else◌,
}

pub data Result : Type 0 where
  win loss draw : Result

pub data Stage : Type 0 where
  final_blow vignette zoom flash shake stats : Stage

abbrev pub is_draw : Result → Bool
is_draw draw = true
is_draw _ = false

abbrev pub player_won : Result → Bool
player_won win = true
player_won _ = false

-- `DURATIONS`.
abbrev pub duration : Stage → ℕ
duration final_blow = 2300
duration vignette = 500
duration zoom = 600
duration flash = 200
duration shake = 700
duration stats = 0

abbrev pub same_test : Bool → Bool → Bool
same_test true b = b
same_test false b = not b

-- A call of `confetti`, by the number of its particles.
abbrev pub Burst : Type 0
Burst = ℕ

-- The component's state and ref, its timers with the milliseconds that are left, the time since it was
-- mounted, and the bursts.
pub record State : Type 0 where
  pub stage : Stage
  pub has_fired : Bool
  pub timers : List (ℕ × Stage)
  pub now : ℕ
  pub bursts : List Burst

abbrev first_stage : Result → Stage
first_stage r = if is_draw r then vignette else final_blow

abbrev offset : Result → ℕ
offset r = if is_draw r then 0 else duration final_blow

-- The effect that schedules the stages.
abbrev pub schedule : Result → List (ℕ × Stage)
schedule r =
    (offset r, vignette)
    ∷ (offset r + duration vignette, zoom)
    ∷ (offset r + duration vignette + duration zoom, flash)
    ∷ (offset r + duration vignette + duration zoom + duration flash, shake)
    ∷ (offset r + duration vignette + duration zoom + duration flash + duration shake, stats)
    ∷ []

-- `Math.floor(220 * ratio)` for the five ratios of a victory.
abbrev pub victory_bursts : List Burst
victory_bursts = 55 ∷ 44 ∷ 77 ∷ 22 ∷ 22 ∷ []

abbrev pub bursts_of : Result → List Burst
bursts_of win = victory_bursts
bursts_of loss = 90 ∷ []
bursts_of draw = []

abbrev pub is_shake : Stage → Bool
is_shake shake = true
is_shake _ = false

-- The effect on the stage.
unfoldable pub run_effect : Result → State → State
run_effect r s =
    if not (is_shake s.stage) || s.has_fired
    then s
    else record s { has_fired = true; bursts = s.bursts ++ bursts_of r }

-- The component before its effects.
abbrev pub unseen : Result → State
unseen r = record {
  stage = first_stage r;
  has_fired = false;
  timers = schedule r;
  now = 0;
  bursts = [];
}

unfoldable pub mount : Result → State
unfolding run_effect
mount r = run_effect r (unseen r)

abbrev pub wait : ℕ → ℕ × Stage → ℕ × Stage
wait d (left, stage) = (left - d, stage)

-- The next timer, after the milliseconds that are left of it.
unfoldable pub next_timer : Result → State → State
unfolding run_effect
next_timer r s = elim s.timers [
  | [] ↦ s
  | (d, stage) ∷ rest ↦
      run_effect r (record s { stage = stage; timers = map (wait d) rest; now = s.now + d })
]

-- The page renders the component for another result. The effect that schedules depends on `isDraw`
-- alone, so that the timers are cleared and made anew only if that changes; the effect on the stage
-- runs if that or `playerWon` changes.
unfoldable pub rerender : Result → Result → State → State
unfolding run_effect
rerender before r s =
    let scheduled =
      if same_test (is_draw before) (is_draw r) then s else record s { timers = schedule r } in
    if same_test (is_draw before) (is_draw r) && same_test (player_won before) (player_won r)
    then s
    else run_effect r scheduled

unfoldable pub run : Result → ℕ → State → State
unfolding next_timer
run r zero s = s
run r (suc n) s = run r n (next_timer r s)

abbrev pub shows_winner : State → Bool
shows_winner s = elim s.stage [ zoom ↦ true | flash ↦ true | _ ↦ false ]

abbrev pub shows_title : State → Bool
shows_title s = elim s.stage [ shake ↦ true | stats ↦ true | _ ↦ false ]

-- The panel with the button that plays again.
abbrev pub shows_stats : State → Bool
shows_stats s = elim s.stage [ stats ↦ true | _ ↦ false ]
