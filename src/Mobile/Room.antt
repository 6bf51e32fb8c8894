-- ===== src/Mobile/Room.antt =====
-- mobile/src/components/RoomLobby.tsx: the lobby of a room on mobile. A handler that awaits is cut at its
-- awaits, and sees the states of the last render.
pub mod Core
pub mod Agreement
use ki_clash.Common.{
  ℕ, ◌+◌, ◌-◌, String, Bool, true, false, not, ◌&&◌, Option, none, some, List, [], ◌∷◌, ◌++◌, ◌==◌,
  eqb, is_some, is_truthy, or_else, if◌then◌else◌,
}
use ki_clash.Common.Upper.{to_upper}
use ki_clash.Common.Codes.{text_length}
use ki_clash.Common.Json.{str, str_or_null}
use ki_clash.Api.Types.{RoomData, StartedGame}
use ki_clash.Analytics.{Properties}
use ki_clash.Game.{Settled, resolved, rejected}
use ki_clash.Room.{
  Mode, create, join, Handoff, is_live, is_both_ready, me, opponent, character_of, name_of,
  Entering, creating, joining, is_not_found,
}

-- The component's states and refs; and what it has set going, as in Room.antt.
pub record State : Type 0 where
  pub room : Option RoomData
  pub error : Option String
  pub busy : Bool
  pub start_called : Bool
  pub game_handed_off : Bool
  pub my_id : Option String
  pub handoffs : List Handoff
  pub exits : ℕ
  pub exit_timers : ℕ
  pub starts_pending : ℕ
  pub saves_pending : ℕ
  pub leaves_pending : ℕ
  pub tracked : List (String × Properties)

abbrev pub initial : State
initial = record {
  room = none;
  error = none;
  busy = false;
  start_called = false;
  game_handed_off = false;
  my_id = none;
  handoffs = [];
  exits = 0;
  exit_timers = 0;
  starts_pending = 0;
  saves_pending = 0;
  leaves_pending = 0;
  tracked = [];
}

abbrev pub report : String → Properties → State → State
report event properties s = record s { tracked = s.tracked ++ (event, properties) ∷ [] }

abbrev pub mode_text : Mode → String
mode_text create = "create"
mode_text join = "join"

-- `errorMessage(e)`; `text` is what `String(e)` gives of a rejection that is no Error.
abbrev pub error_message : Option String → String → String
error_message none text = text
error_message (some message) text = message

-- A `catch`: the error shown, and the report with `more` of its properties.
abbrev pub fail : Mode → String → Properties → String → State → State
fail mode shown more message s =
    report "mobile_room_error"
      ((("mode", str (mode_text mode)) ∷ more) ++ ("message", str message) ∷ [])
      (record s { error = some (or_else (some message) shown) })

abbrev pub handoff : Option String → RoomData → Handoff
handoff id r = record {
  game_id = or_else r.game_id "";
  opponent_name = or_else (name_of (opponent id r)) "Opponent";
  our_character_id = or_else (character_of (me id r)) "haneul";
  opponent_character_id = or_else (character_of (opponent id r)) "bora";
}

-- The effect on the room: the game is handed over once, and otherwise started once.
unfoldable pub hand_off_or_start : RoomData → State → State
hand_off_or_start r s =
    if is_live r
    then (if s.game_handed_off
        then s
        else record s { game_handed_off = true; handoffs = s.handoffs ++ handoff s.my_id r ∷ [] })
    else if not s.start_called && is_both_ready r
    then record s { start_called = true; starts_pending = s.starts_pending + 1 }
    else s

unfoldable pub run_effect : State → State
unfolding hand_off_or_start
run_effect s = elim s.room [ none ↦ s | some r ↦ hand_off_or_start r s ]

-- `setRoom`, and the effect after the render.
unfoldable pub show_room : RoomData → State → State
unfolding hand_off_or_start
show_room r s = hand_off_or_start r (record s { room = some r })

-- The initialisation after `ensureAuth`; `id` is what getPlayerId then reads.
unfoldable pub signed_in :
    Mode → Option String → Settled Unit → String → Option String → State → State × Option Entering
signed_in create code (resolved _) text id s = (record s { my_id = id }, some creating)
signed_in join code (resolved _) text id s =
    let entered_code = to_upper (or_else code "") in
    if not (eqb (text_length entered_code) 4)
    then (record s { my_id = id; error = some "Enter a 4-character room code." }, none)
    else (record s { my_id = id }, some (joining entered_code))
signed_in mode code (rejected e) text id s = (
  fail mode "Failed to enter room"
      (("code", if is_truthy code then str_or_null code else str_or_null none) ∷ [])
      (error_message e text) s,
  none,
)

abbrev pub entered_event : Mode → String
entered_event create = "pvp_room_created"
entered_event join = "pvp_room_joined"

-- The initialisation after `createRoom` or `joinRoom`.
unfoldable pub entered : Mode → Option String → Settled RoomData → String → State → State
unfolding show_room
entered mode code (resolved r) text s =
    show_room r (report (entered_event mode) (("code", str r.code) ∷ []) s)
entered mode code (rejected e) text s =
    fail mode "Failed to enter room"
      (("code", if is_truthy code then str_or_null code else str_or_null none) ∷ [])
      (error_message e text) s

-- `tick` for the room of this code has settled; `cancelled` is the flag of the effect that made it.
unfoldable pub polled : Mode → String → Bool → Settled RoomData → State → State
unfolding show_room
polled mode code cancelled (resolved r) s = if cancelled then s else show_room r s
polled mode code cancelled (rejected e) s =
    if is_not_found e
    then record (report "mobile_room_error"
        (("mode", str (mode_text mode))
          ∷ ("code", str code)
          ∷ ("message", str "room not found while polling")
          ∷ [])
        (record s { error = some "The room is gone." })) { exit_timers = s.exit_timers + 1 }
    else s

-- `startRoomGame` for the room of this code has settled.
unfoldable pub start_settled : Mode → String → Settled StartedGame → String → State → State
unfolding show_room
start_settled mode code (resolved g) text s = show_room g.room (
    report "pvp_match_started"
      (("mode", str "room") ∷ ("code", str code) ∷ ("game_id", str g.game_id) ∷ [])
      (record s { starts_pending = s.starts_pending - 1 }))
start_settled mode code (rejected e) text s =
    fail mode "Failed to start game" (("code", str code) ∷ []) (error_message e text)
      (record s { starts_pending = s.starts_pending - 1; start_called = false })

-- handleShare, once the sheet has closed.
unfoldable pub shared : State → State
shared s = elim s.room [
  | none ↦ s
  | some r ↦
      report "invite_copied"
        (("surface", str "mobile_room")
          ∷ ("room_code", str r.code)
          ∷ ("method", str "native_share")
          ∷ [])
        s
]

-- handlePickCharacter and handleReady up to their await.
unfoldable pub save : State → State
save s =
    if not (is_some s.room)
    then s
    else if s.busy
    then s
    else record s { busy = true; saves_pending = s.saves_pending + 1 }

-- The same after it, with the text of their `catch` and the action that it reports.
unfoldable pub saved : Mode → String → String → String → Settled RoomData → String → State → State
unfolding show_room
saved mode code shown action (resolved r) text s = record (show_room r s) {
  busy = false;
  saves_pending = s.saves_pending - 1;
}
saved mode code shown action (rejected e) text s =
    fail mode shown (("code", str code) ∷ ("action", str action) ∷ []) (error_message e text)
      (record s { busy = false; saves_pending = s.saves_pending - 1 })

-- `onExit`, which is also the button of the error.
unfoldable pub exit : State → State
exit s = record s { exits = s.exits + 1 }

-- handleLeave up to its await.
unfoldable pub leave : State → State
unfolding exit
leave s = if is_some s.room then record s { leaves_pending = s.leaves_pending + 1 } else exit s

-- The same after it; the call's failure is caught.
unfoldable pub left : Settled Unit → State → State
unfolding exit
left r s = exit (record s { leaves_pending = s.leaves_pending - 1 })

-- A timer of a poll that found no room.
unfoldable pub exit_timer : State → State
unfolding exit
exit_timer s = exit (record s { exit_timers = s.exit_timers - 1 })
