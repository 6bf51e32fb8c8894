-- ===== src/Tests/Game.antt =====
-- A match of web/src/hooks/useGame.ts, and the page around it.
use ki_clash.Common.{refl, some, none, []}
use ki_clash.Api.Types.{easy, GameState, in_progress}
use ki_clash.Characters.{bora}
use ki_clash.Game.{State, initial, select_difficulty, start_game, playing}
use ki_clash.Game.Page.{System, Step, choose, pick, Reach, opened, next, IsSound, started}
use ki_clash.Game.Page.Sound.{Reach-IsSound}
use ki_clash.Game.Calls.{run_start_game}
use ki_clash.Game.Calls.Ends.{Started, run_start_game_ends}
use ki_clash.Tests.Server.{offline, newcomer}

abbrev pub some_game : GameState
some_game = record {
  game_id = "g1";
  match_type = "ai";
  status = in_progress;
  rounds_won_p1 = 0;
  rounds_won_p2 = 0;
  current_round = none;
  round_results = [];
}

abbrev pub in_match : State
in_match = record initial { game_state = some some_game; phase = playing }

start_ends_example : Started (run_start_game offline "haneul" (some bora) initial newcomer)
start_ends_example = run_start_game_ends offline "haneul" (some bora) initial newcomer

abbrev chosen : System
chosen = record { state = select_difficulty easy initial; pending = [] }

chosen_reached : Reach chosen
unfolding initial
chosen_reached = next opened (choose easy refl)

abbrev waiting : System
waiting = started (start_game "haneul" (some bora) chosen.state) []

picked : Step chosen waiting
unfolding select_difficulty
picked = pick "haneul" (some bora) refl

reached_page_example : IsSound waiting
reached_page_example = Reach-IsSound (next chosen_reached picked)
