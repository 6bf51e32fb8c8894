-- ===== src/Mobile/Room/Agreement.antt =====
-- The lobby of mobile/src/components/RoomLobby.tsx beside that of
-- web/src/components/room/RoomScreen.tsx, given the same answers of the server.
use Prim.{tt}
use ki_clash.Common.{
  ◌+◌, ◌-◌, ◌≡◌, refl, arith, String, Bool, true, false, not, Option, none, some, List, [], ◌∷◌,
  ◌==◌, is_some, or_else, get_or_else, if◌then◌else◌,
}
use ki_clash.Api.Types.{RoomData, StartedGame}
use ki_clash.Game.{Settled, resolved, rejected}
use ki_clash.Room.{Mode, is_live, is_both_ready, is_not_found, Handoff}
use ki_clash.Room
use ki_clash.Mobile.Room as MobileRoom
use ki_clash.Mobile.Room.Core.{Core, show}

-- What the server answers, and the player's saves.
pub data Event : Type 0 where
  enters : Settled RoomData → Event
  polls : Bool → Settled RoomData → Event
  starts : Settled StartedGame → Event
  saves : Event
  saved : Settled RoomData → Event

-- On the web a game that was started is shown by the next poll.
abbrev pub on_web : Mode → Event → Room.State → Room.State
on_web mode (enters r) s = Room.entered mode r s
on_web mode (polls cancelled r) s = Room.polled cancelled r s
on_web mode (starts (resolved g)) s =
    Room.polled false (resolved g.room) (Room.start_settled (resolved tt) s)
on_web mode (starts (rejected e)) s = Room.start_settled (rejected e) s
on_web mode saves s = Room.save s
on_web mode (saved r) s = Room.saved "failed to set ready" r s

abbrev pub on_mobile : Mode → String → Event → MobileRoom.State → MobileRoom.State
on_mobile mode code (enters r) s = MobileRoom.entered mode (some code) r "" s
on_mobile mode code (polls cancelled r) s = MobileRoom.polled mode code cancelled r s
on_mobile mode code (starts r) s = MobileRoom.start_settled mode code r "" s
on_mobile mode code saves s = MobileRoom.save s
on_mobile mode code (saved r) s = MobileRoom.saved mode code "Failed to ready up" "set_ready" r "" s

-- The same events on what is common.
on_core : Event → Core → Core
unfolding show
on_core (enters (resolved r)) c = show r c
on_core (enters (rejected e)) c = c
on_core (polls cancelled (resolved r)) c = if cancelled then c else show r c
on_core (polls cancelled (rejected e)) c =
    if is_not_found e then record c { exit_timers = c.exit_timers + 1 } else c
on_core (starts (resolved g)) c = show g.room (record c { starts_pending = c.starts_pending - 1 })
on_core (starts (rejected e)) c = record c {
  starts_pending = c.starts_pending - 1;
  start_called = false;
}
on_core saves c =
    if not (is_some c.room)
    then c
    else if c.busy
    then c
    else record c { busy = true; saves_pending = c.saves_pending + 1 }
on_core (saved (resolved r)) c = record (show r c) {
  busy = false;
  saves_pending = c.saves_pending - 1;
}
on_core (saved (rejected e)) c = record c { busy = false; saves_pending = c.saves_pending - 1 }

unfoldable pub run_web : Mode → List Event → Room.State → Room.State
run_web mode [] s = s
run_web mode (e ∷ es) s = run_web mode es (on_web mode e s)

unfoldable pub run_mobile : Mode → String → List Event → MobileRoom.State → MobileRoom.State
run_mobile mode code [] s = s
run_mobile mode code (e ∷ es) s = run_mobile mode code es (on_mobile mode code e s)

-- Missing, or not empty.
abbrev pub is_filled : Option String → Bool
is_filled none = true
is_filled (some s) = not (s == "")

or_else_filled :
    (o : Option String) (d : String) → is_filled o ≡ true → or_else o d ≡ get_or_else o d
or_else_filled none d h = refl
or_else_filled (some s) d h = ground (arith, h)

-- Where no name, character or identifier of the game is an empty text, both lobbies hand over the same.
pub handoffs_agree :
    (id : Option String) (r : RoomData)
    → is_filled r.game_id ≡ true
    → is_filled (Room.name_of (Room.opponent id r)) ≡ true
    → is_filled (Room.character_of (Room.me id r)) ≡ true
    → is_filled (Room.character_of (Room.opponent id r)) ≡ true
    → MobileRoom.handoff id r ≡ Room.handoff id r
handoffs_agree id r g n o t =
    rw
      (
        or_else_filled _ "" g,
        or_else_filled _ "Opponent" n,
        or_else_filled _ "haneul" o,
        or_else_filled _ "bora" t,
      )
      refl
