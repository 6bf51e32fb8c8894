-- ===== src/Room.antt =====
-- web/src/components/room/RoomScreen.tsx: the lobby of a room, before a match between two players. A
-- handler that awaits is cut at its awaits, and sees the states of the last render.
pub mod Events
pub mod Agreement
pub mod Exits
use ki_clash.Common.{
  ℕ, ◌+◌, ◌-◌, String, Bool, true, false, not, ◌&&◌, Option, none, some, List, [], ◌∷◌, ◌++◌, ◌==◌,
  is_some, is_truthy, get_or_else, or_else, if◌then◌else◌,
}
use mathlib.Core.Option
use ki_clash.Common.Text.{◌<>◌, includes}
use ki_clash.Common.Json.{str}
use ki_clash.Api.Types.{
  RoomStatus, waiting, both_present, in_game, finished, RoomPlayerData, RoomData,
}
use ki_clash.Analytics.{EventName, pvp_room_created, pvp_room_joined, invite_copied, Properties}
use ki_clash.Game.{Settled, resolved, rejected}

pub data Mode : Type 0 where
  create join : Mode

-- The arguments of a call of `onGameStart`.
pub record Handoff : Type 0 where
  pub game_id : String
  pub opponent_name : String
  pub our_character_id : String
  pub opponent_character_id : String

-- The component's states and refs; and what it has set going: the calls of `onGameStart` and their
-- number of `onExit`, the timers that will call `onExit`, and the requests that have not settled.
pub record State : Type 0 where
  pub room : Option RoomData
  pub error : Option String
  pub copied : Bool
  pub busy : Bool
  pub start_called : Bool
  pub game_handed_off : Bool
  pub my_id : Option String
  pub handoffs : List Handoff
  pub exits : ℕ
  pub exit_timers : ℕ
  pub starts_pending : ℕ
  pub saves_pending : ℕ
  pub leaves_pending : ℕ
  pub tracked : List (EventName × Properties)

abbrev pub initial : State
initial = record {
  room = none;
  error = none;
  copied = false;
  busy = false;
  start_called = false;
  game_handed_off = false;
  my_id = none;
  handoffs = [];
  exits = 0;
  exit_timers = 0;
  starts_pending = 0;
  saves_pending = 0;
  leaves_pending = 0;
  tracked = [];
}

abbrev pub report : EventName → Properties → State → State
report event properties s = record s { tracked = s.tracked ++ (event, properties) ∷ [] }

abbrev pub is_in_game : RoomStatus → Bool
is_in_game in_game = true
is_in_game _ = false

abbrev pub is_both_present : RoomStatus → Bool
is_both_present both_present = true
is_both_present _ = false

-- `room.status === "in_game" && room.game_id`.
abbrev pub is_live : RoomData → Bool
is_live r = is_in_game r.status && is_truthy r.game_id

-- A test on a player that may be missing.
abbrev pub has_player : (RoomPlayerData → Bool) → Option RoomPlayerData → Bool
has_player test none = false
has_player test (some p) = test p

abbrev pub is_both_ready : RoomData → Bool
is_both_ready r =
    is_both_present r.status
    && r.host.ready
    && has_player (λ p. p.ready) r.guest
    && is_truthy r.host.character_id
    && has_player (λ p. is_truthy p.character_id) r.guest

-- `myId === room.host.id`.
abbrev pub is_host : Option String → RoomData → Bool
is_host none r = false
is_host (some id) r = id == r.host.id

abbrev pub me : Option String → RoomData → Option RoomPlayerData
me id r = if is_host id r then some r.host else r.guest

abbrev pub opponent : Option String → RoomData → Option RoomPlayerData
opponent id r = if is_host id r then r.guest else some r.host

abbrev pub character_of : Option RoomPlayerData → Option String
character_of none = none
character_of (some p) = p.character_id

abbrev pub name_of : Option RoomPlayerData → Option String
name_of none = none
name_of (some p) = some p.name

abbrev pub handoff : Option String → RoomData → Handoff
handoff id r = record {
  game_id = get_or_else r.game_id "";
  opponent_name = get_or_else (name_of (opponent id r)) "Opponent";
  our_character_id = get_or_else (character_of (me id r)) "haneul";
  opponent_character_id = get_or_else (character_of (opponent id r)) "bora";
}

-- The effect on the room: the game is handed over once, and otherwise started once.
unfoldable pub hand_off_or_start : RoomData → State → State
hand_off_or_start r s =
    if is_live r
    then (if s.game_handed_off
        then s
        else record s { game_handed_off = true; handoffs = s.handoffs ++ handoff s.my_id r ∷ [] })
    else if not s.start_called && is_both_ready r
    then record s { start_called = true; starts_pending = s.starts_pending + 1 }
    else s

unfoldable pub run_effect : State → State
unfolding hand_off_or_start
run_effect s = elim s.room [ none ↦ s | some r ↦ hand_off_or_start r s ]

-- `setRoom`, and the effect after the render.
unfoldable pub show_room : RoomData → State → State
unfolding hand_off_or_start
show_room r s = hand_off_or_start r (record s { room = some r })

-- What the initialisation calls next.
pub data Entering : Type 0 where
  creating : Entering
  joining : String → Entering

-- The initialisation after `ensureAuth`; `id` is what getPlayerId then reads.
unfoldable pub signed_in :
    Mode → Option String → Settled Unit → Option String → State → State × Option Entering
signed_in create code (resolved _) id s = (record s { my_id = id }, some creating)
signed_in join code (resolved _) id s =
    if is_truthy code
    then (record s { my_id = id }, some (joining (or_else code "")))
    else (record s { my_id = id; error = some "missing room code" }, none)
signed_in mode code (rejected e) id s =
    (record s { error = some (get_or_else e "failed to enter room") }, none)

abbrev pub entered_event : Mode → EventName
entered_event create = pvp_room_created
entered_event join = pvp_room_joined

-- The initialisation after `createRoom` or `joinRoom`.
unfoldable pub entered : Mode → Settled RoomData → State → State
unfolding show_room
entered mode (resolved r) s =
    show_room r (report (entered_event mode) (("code", str r.code) ∷ []) s)
entered mode (rejected e) s = record s { error = some (get_or_else e "failed to enter room") }

abbrev pub is_not_found : Option String → Bool
is_not_found none = false
is_not_found (some message) = includes message "not found"

-- `tick` has settled; `cancelled` is the flag of the effect that made it.
unfoldable pub polled : Bool → Settled RoomData → State → State
unfolding show_room
polled cancelled (resolved r) s = if cancelled then s else show_room r s
polled cancelled (rejected e) s =
    if is_not_found e
    then record s { error = some "the host left the room"; exit_timers = s.exit_timers + 1 }
    else s

-- `startRoomGame` has settled; what it resolves to is not used.
unfoldable pub start_settled : Settled Unit → State → State
start_settled (resolved _) s = record s { starts_pending = s.starts_pending - 1 }
start_settled (rejected e) s = record s {
  starts_pending = s.starts_pending - 1;
  start_called = false;
  error = some (get_or_else e "failed to start game");
}

-- handleCopy, once the clipboard has the link.
unfoldable pub copied_link : State → State
copied_link s = elim s.room [
  | none ↦ s
  | some r ↦
      report invite_copied
        (("surface", str "room") ∷ ("room_code", str r.code) ∷ ("method", str "clipboard") ∷ [])
        (record s { copied = true })
]

unfoldable pub copied_over : State → State
copied_over s = record s { copied = false }

-- handlePickCharacter and handleToggleReady up to their await.
unfoldable pub save : State → State
save s =
    if not (is_some s.room)
    then s
    else if s.busy
    then s
    else record s { busy = true; saves_pending = s.saves_pending + 1 }

-- The same after it, with the text of their `catch`.
unfoldable pub saved : String → Settled RoomData → State → State
unfolding show_room
saved failure (resolved r) s = record (show_room r s) {
  busy = false;
  saves_pending = s.saves_pending - 1;
}
saved failure (rejected e) s = record s {
  error = some (get_or_else e failure);
  busy = false;
  saves_pending = s.saves_pending - 1;
}

-- `onExit`, which is also the button of the error.
unfoldable pub exit : State → State
exit s = record s { exits = s.exits + 1 }

-- handleLeave up to its await.
unfoldable pub leave : State → State
unfolding exit
leave s = if is_some s.room then record s { leaves_pending = s.leaves_pending + 1 } else exit s

-- The same after it; the call's failure is caught.
unfoldable pub left : Settled Unit → State → State
unfolding exit
left r s = exit (record s { leaves_pending = s.leaves_pending - 1 })

-- A timer of a poll that found no room.
unfoldable pub exit_timer : State → State
unfolding exit
exit_timer s = exit (record s { exit_timers = s.exit_timers - 1 })
