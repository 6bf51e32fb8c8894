-- ===== src/Api/Calls.antt =====
-- The API methods of web/src/lib/api.ts: one call each.
pub mod Rooms
pub mod Settles
use ki_clash.Common.{ℕ, String, Bool, Option, none, some, [], get_or_else}
use ki_clash.Common.Text.{◌<>◌, show}
use ki_clash.Common.Upper.{to_upper}
use ki_clash.Common.Json.{Json, bool, str, obj, end, field}
use ki_clash.Api.Types.{
  Action, Difficulty, Schema, game, submitted, profile, history, leaderboard, my_rank, ad_free,
  checkout, created_room, a_room, started_game, nothing, Shape, action_name, difficulty_name,
}
use ki_clash.Api.Storage.{Api, ◌>>=◌, pure}
use ki_clash.Api.Client.{Options, Network, api_fetch}

-- `{}`, `{ method }` and `{ method, body: JSON.stringify(body) }`.
abbrev pub no_options : Options
no_options = record { method = none; headers = []; body = none }

abbrev pub with_method : String → Options
with_method m = record { method = some m; headers = []; body = none }

abbrev pub with_body : String → Json → Options
with_body m b = record { method = some m; headers = []; body = some b }

module _ (net : Network) where
  pub create_ai_game : Difficulty → Api (Shape game)
  create_ai_game difficulty =
      api_fetch net game "/api/v1/games/ai"
        (with_body "POST" (obj (field "difficulty" (str (difficulty_name difficulty)) end)))

  pub get_game_state : String → Api (Shape game)
  get_game_state game_id = api_fetch net game ("/api/v1/games/" <> game_id) no_options

  pub submit_action : String → Action → Api (Shape submitted)
  submit_action game_id action =
      api_fetch net submitted ("/api/v1/games/" <> game_id <> "/action")
        (with_body "POST" (obj (field "action" (str (action_name action)) end)))

  pub get_my_profile : Api (Shape profile)
  get_my_profile = api_fetch net profile "/api/v1/players/me" no_options

  pub get_match_history : Api (Shape history)
  get_match_history = api_fetch net history "/api/v1/players/me/matches" no_options

  pub get_leaderboard : Option ℕ → Api (Shape leaderboard)
  get_leaderboard limit =
      api_fetch net leaderboard ("/api/v1/ranked/leaderboard?limit=" <> show (get_or_else limit 50))
        no_options

  pub get_my_rank : Api (Shape my_rank)
  get_my_rank = api_fetch net my_rank "/api/v1/ranked/me" no_options

  pub get_ad_free_status : Api (Shape ad_free)
  get_ad_free_status = api_fetch net ad_free "/api/v1/purchases/ad-free-status" no_options

  checkout_urls : String → String → Json
  checkout_urls success_url cancel_url =
      obj (field "success_url" (str success_url) (field "cancel_url" (str cancel_url) end))

  pub create_ad_free_checkout : String → String → Api (Shape checkout)
  unfolding checkout_urls
  create_ad_free_checkout success_url cancel_url =
      api_fetch net checkout "/api/v1/purchases/checkout/ad-free"
        (with_body "POST" (checkout_urls success_url cancel_url))

  pub create_founder_pass_checkout : String → String → Api (Shape checkout)
  unfolding checkout_urls
  create_founder_pass_checkout success_url cancel_url =
      api_fetch net checkout "/api/v1/purchases/checkout/founder-pass"
        (with_body "POST" (checkout_urls success_url cancel_url))

  pub create_room : Api (Shape created_room)
  create_room = api_fetch net created_room "/api/v1/rooms" (with_method "POST")

  pub get_room : String → Api (Shape a_room)
  get_room code = api_fetch net a_room ("/api/v1/rooms/" <> to_upper code) no_options

  pub join_room : String → Api (Shape a_room)
  join_room code =
      api_fetch net a_room ("/api/v1/rooms/" <> to_upper code <> "/join") (with_method "POST")

  pub set_room_character : String → String → Api (Shape a_room)
  set_room_character code character_id =
      api_fetch net a_room ("/api/v1/rooms/" <> to_upper code <> "/character")
        (with_body "PUT" (obj (field "character_id" (str character_id) end)))

  pub set_room_ready : String → Bool → Api (Shape a_room)
  set_room_ready code ready =
      api_fetch net a_room ("/api/v1/rooms/" <> to_upper code <> "/ready")
        (with_body "PUT" (obj (field "ready" (bool ready) end)))

  pub start_room_game : String → Api (Shape started_game)
  start_room_game code =
      api_fetch net started_game ("/api/v1/rooms/" <> to_upper code <> "/start")
        (with_method "POST")

  pub leave_room : String → Api Unit
  leave_room code = do
    done ←
        api_fetch net nothing ("/api/v1/rooms/" <> to_upper code <> "/leave") (with_method "POST")
    pure tt
