-- ===== src/Tests/Room.antt =====
-- The lobby of a room (web/src/components/room/RoomScreen.tsx) on one room and its players.
use ki_clash.Common.{false, true, none, some}
use ki_clash.Api.Types.{RoomPlayerData, RoomData, in_game, both_present}
use ki_clash.Game.{resolved}
use ki_clash.Room.{State, initial, polled}
use ki_clash.Room.Events.{IsOnce, start, next, polls}
use ki_clash.Room.Events.Once.{Reach-IsOnce}
use ki_clash.Room.Exits.{Screen}
use ki_clash.Pvp
use ki_clash.Pvp.{playing}
use ki_clash.Pvp.Page

abbrev host : RoomPlayerData
host = record { id = "p1"; name = "Mina"; character_id = some "haneul"; ready = true }

abbrev guest : RoomPlayerData
guest = record { id = "p2"; name = "Joon"; character_id = some "bora"; ready = true }

abbrev pub ready_room : RoomData
ready_room = record {
  code = "AB12";
  host = host;
  guest = some guest;
  status = both_present;
  game_id = none;
  created_at = 1;
  updated_at = 2;
}

abbrev pub live_room : RoomData
live_room = record ready_room { status = in_game; game_id = some "g1" }

lobby_example :
    IsOnce (polled false (resolved live_room) (polled false (resolved ready_room) initial))
lobby_example =
    Reach-IsOnce
      (next (next start (polls false (resolved ready_room))) (polls false (resolved live_room)))

abbrev starting : State
starting = polled false (resolved ready_room) initial

abbrev entered_room : Screen
entered_room = record {
  page = record Pvp.Page.initial { page_mode = Pvp.Page.room };
  lobby = starting;
}

abbrev busy_hook : Pvp.State
busy_hook = record Pvp.initial { phase = playing }
