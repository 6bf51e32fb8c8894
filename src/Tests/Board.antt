-- ===== src/Tests/Board.antt =====
-- The board and its countdown (web/src/components/GameBoard.tsx and Countdown.tsx) on a few events.
use ki_clash.Common.{ℕ, ◌≡◌, ◌≤◌, ◌+◌, ◌*◌, refl, arith, false, List, [], ◌∷◌, All, if◌then◌else◌}
use ki_clash.Api.Types.{attack, energy_wave}
use ki_clash.Board.{initial, action_config}
use ki_clash.Board.Choices.{Event, clicks, times_out, run, submitted_affordable}
use ki_clash.Board.Countdown.{State, run_effect}
use ki_clash.Board.Clock.{frames, is_reached, countdown_fires_once, toggles, toggles_hold}

abbrev events : List Event
events = clicks energy_wave ∷ clicks attack ∷ clicks attack ∷ times_out ∷ []

choices_example : All (λ a. (action_config a).cost ≤ 1) (run 1 false events initial).submitted
choices_example = submitted_affordable 1 false events

abbrev mounted : State
mounted = record {
  seconds = 5;
  remaining = 5;
  start_time = 0;
  fired = false;
  last_beat = 5;
  frame = false;
  beats = 0;
  timeouts = 0;
}

abbrev times : List ℕ
times = 3100 ∷ 8016 ∷ 8033 ∷ []

countdown_example :
    ((frames times (run_effect 3000 mounted)).timeouts
      ≡ 0 + (if is_reached (3000 + 5 * 1000) times then 1 else 0))
    × ((frames times (run_effect 3000 mounted)).beats ≤ 0 + 5 + 1)
countdown_example = countdown_fires_once 3000 times mounted (omega arith)

abbrev runs : List (ℕ × List ℕ)
runs = (3000, 3100 ∷ 7900 ∷ []) ∷ (7950, 8016 ∷ 12800 ∷ []) ∷ []

toggles_example : (toggles runs mounted).timeouts ≡ 0
toggles_example = toggles_hold runs mounted (omega arith) refl
