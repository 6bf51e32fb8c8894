-- ===== src/Tests/MobileRoom.antt =====
-- The two lobbies of a room (mobile/src/components/RoomLobby.tsx and
-- web/src/components/room/RoomScreen.tsx) on the same answers.
use ki_clash.Common.{false, some, List, [], ◌∷◌}
use ki_clash.Api.Types.{StartedGame}
use ki_clash.Game.{resolved, rejected}
use ki_clash.Room
use ki_clash.Mobile.Room as MobileRoom
use ki_clash.Mobile.Room.Agreement.{Event, enters, polls, starts}
use ki_clash.Tests.Room.{ready_room, live_room}

abbrev started : StartedGame
started = record { game_id = "g1"; room = live_room }

abbrev events : List Event
events =
    enters (resolved ready_room)
    ∷ polls false (rejected (some "HTTP 502"))
    ∷ starts (resolved started)
    ∷ polls false (resolved live_room)
    ∷ []
