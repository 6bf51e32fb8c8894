-- ===== src/Api/Calls/Settles.antt =====
-- How the calls of web/src/lib/api.ts that the hooks make end, for every server.
use ki_clash.Common.{◌≢◌, String}
use ki_clash.Api.Types.{Action, Difficulty, history, game, submitted, action_name, difficulty_name}
use ki_clash.Common.Json.{str, obj, end, field}
use ki_clash.Common.Text.{◌<>◌}
use ki_clash.Api.Storage.{World, Result, ok, thrown, exhausted}
use ki_clash.Api.Client.{Network, ensure_auth}
use ki_clash.Api.Client.Fetch.{api_fetch_settles}
use ki_clash.Api.Client.Session.{Settled, ensure_auth_settled}
use ki_clash.Api.Calls.{with_body, create_ai_game, submit_action, get_match_history, no_options}

Settled-ne : {A : Type 0} (w : World) (r : Result A) (w' : World) → Settled w r w' → r ≢ exhausted
Settled-ne w (ok a) w' h = λ e. cc
Settled-ne w (thrown e) w' h = λ q. cc
Settled-ne w exhausted w' h = absurd h

module _ (net : Network) where
  pub ensure_auth_settles : (w : World) → (ensure_auth net w).0 ≢ exhausted
  ensure_auth_settles w = Settled-ne w _ _ (ensure_auth_settled net w)

  pub create_ai_game_settles : (d : Difficulty) (w : World) → (create_ai_game net d w).0 ≢ exhausted
  unfolding create_ai_game
  create_ai_game_settles d w =
      (api_fetch_settles net game "/api/v1/games/ai"
        (with_body "POST" (obj (field "difficulty" (str (difficulty_name d)) end))) w).0

  pub submit_action_settles :
      (id : String) (a : Action) (w : World) → (submit_action net id a w).0 ≢ exhausted
  unfolding submit_action
  submit_action_settles id a w =
      (api_fetch_settles net submitted ("/api/v1/games/" <> id <> "/action")
        (with_body "POST" (obj (field "action" (str (action_name a)) end))) w).0

  pub get_match_history_settles : (w : World) → (get_match_history net w).0 ≢ exhausted
  unfolding get_match_history
  get_match_history_settles w =
      (api_fetch_settles net history "/api/v1/players/me/matches" no_options w).0
