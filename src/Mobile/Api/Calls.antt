-- ===== src/Mobile/Api/Calls.antt =====
-- The methods of mobile/src/lib/api.ts: one call each.
use ki_clash.Common.{ℕ, String, Bool, Option, get_or_else}
use ki_clash.Common.Text.{◌<>◌, show}
use ki_clash.Common.Upper.{to_upper}
use ki_clash.Common.Json.{bool, str, obj, end, field}
use ki_clash.Api.Types.{
  Action, Difficulty, Shape, game, submitted, profile, history, leaderboard, my_rank, ad_free,
  created_room, a_room, started_game, nothing, action_name, difficulty_name,
}
use ki_clash.Api.Calls.{no_options, with_method, with_body}
use ki_clash.Mobile.Api.{SecureStore, Network, Call, ◌>>=◌, pure, api_fetch}

module _ (secure : SecureStore) (net : Network) where
  pub create_ai_game : Difficulty → Call secure.Store (Shape game)
  create_ai_game difficulty =
      api_fetch secure net game "/api/v1/games/ai"
        (with_body "POST" (obj (field "difficulty" (str (difficulty_name difficulty)) end)))

  pub get_game_state : String → Call secure.Store (Shape game)
  get_game_state game_id = api_fetch secure net game ("/api/v1/games/" <> game_id) no_options

  pub submit_action : String → Action → Call secure.Store (Shape submitted)
  submit_action game_id action =
      api_fetch secure net submitted ("/api/v1/games/" <> game_id <> "/action")
        (with_body "POST" (obj (field "action" (str (action_name action)) end)))

  pub get_my_profile : Call secure.Store (Shape profile)
  get_my_profile = api_fetch secure net profile "/api/v1/players/me" no_options

  pub create_room : Call secure.Store (Shape created_room)
  create_room = api_fetch secure net created_room "/api/v1/rooms" (with_method "POST")

  pub get_room : String → Call secure.Store (Shape a_room)
  get_room code = api_fetch secure net a_room ("/api/v1/rooms/" <> to_upper code) no_options

  pub join_room : String → Call secure.Store (Shape a_room)
  join_room code =
      api_fetch secure net a_room ("/api/v1/rooms/" <> to_upper code <> "/join")
        (with_method "POST")

  pub set_room_character : String → String → Call secure.Store (Shape a_room)
  set_room_character code character_id =
      api_fetch secure net a_room ("/api/v1/rooms/" <> to_upper code <> "/character")
        (with_body "PUT" (obj (field "character_id" (str character_id) end)))

  pub set_room_ready : String → Bool → Call secure.Store (Shape a_room)
  set_room_ready code ready =
      api_fetch secure net a_room ("/api/v1/rooms/" <> to_upper code <> "/ready")
        (with_body "PUT" (obj (field "ready" (bool ready) end)))

  pub start_room_game : String → Call secure.Store (Shape started_game)
  start_room_game code =
      api_fetch secure net started_game ("/api/v1/rooms/" <> to_upper code <> "/start")
        (with_method "POST")

  pub leave_room : String → Call secure.Store Unit
  leave_room code = do
    done ←
        api_fetch secure net nothing ("/api/v1/rooms/" <> to_upper code <> "/leave")
          (with_method "POST")
    pure tt

  pub get_match_history : Call secure.Store (Shape history)
  get_match_history = api_fetch secure net history "/api/v1/players/me/matches" no_options

  pub get_leaderboard : Option ℕ → Call secure.Store (Shape leaderboard)
  get_leaderboard limit =
      api_fetch secure net leaderboard
        ("/api/v1/ranked/leaderboard?limit=" <> show (get_or_else limit 50)) no_options

  pub get_my_rank : Call secure.Store (Shape my_rank)
  get_my_rank = api_fetch secure net my_rank "/api/v1/ranked/me" no_options

  pub get_ad_free_status : Call secure.Store (Shape ad_free)
  get_ad_free_status = api_fetch secure net ad_free "/api/v1/purchases/ad-free-status" no_options
