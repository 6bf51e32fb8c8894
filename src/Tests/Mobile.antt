-- ===== src/Tests/Mobile.antt =====
-- Messages and events of mobile/src/hooks/usePvP.ts beside those of the web hook.
use ki_clash.Common.{◌≡◌, ◌≢◌, refl, String, some, [], ◌∷◌, arith, eq_iff, true}
use ki_clash.Pvp.{
  game, open_now, connecting, ready_at, round_result, match_result, Socket, GameMessage,
  server_error,
}
use ki_clash.Pvp
use ki_clash.Pvp.View
use ki_clash.Pvp.Score
use ki_clash.Mobile.Pvp.{State, initial, Closing}
use ki_clash.Mobile.Pvp.Agreement.{view, deliver, clients_agree}
use ki_clash.Tests.Pvp.{game_socket, won, over}
use ki_clash.Common.{List}

abbrev in_match : State
in_match = record initial { game_ws = some 0; sockets = game_socket ∷ [] }

abbrev on_the_web : Pvp.State
on_the_web = record Pvp.initial { game_ws = some 1; sockets = game_socket ∷ game_socket ∷ [] }

abbrev messages : List GameMessage
messages = round_result won ∷ server_error "late" ∷ match_result over ∷ round_result won ∷ []

agree_example :
    view (deliver 0 "g1" messages in_match)
    ≡ Pvp.View.view (Pvp.Score.deliver 1 messages on_the_web)
agree_example = clients_agree 0 1 "g1" messages in_match on_the_web refl refl

token_full : ◌≢◌ {A = String} "t1" ""
token_full = ground (arith, eq_iff "t1" "")

abbrev gone : Closing
gone = record { code = 1000; reason = "" }

view_example :
    Pvp.View.view (Pvp.Score.deliver 1 messages on_the_web)
    ≡ Pvp.View.follow true messages (Pvp.View.view on_the_web)
view_example = Pvp.View.view-deliver 1 messages on_the_web
