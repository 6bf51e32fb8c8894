-- ===== src/Room/Exits.antt =====
-- The ways out of the lobby of a room (web/src/components/room/RoomScreen.tsx) to the page
-- (web/src/app/pvp/page.tsx), whose `handleRoomExit` is the lobby's `onExit`.
use ki_clash.Common.{ℕ, zero, suc, ◌+◌, ◌≡◌, ◌∙◌, arith, Bool, Option, String, true}
use ki_clash.Game.{rejected}
use ki_clash.Room.{State, is_not_found, polled, exit, exit_timer}
use ki_clash.Pvp
use ki_clash.Pvp.Page.{Page, start_quick_match, handle_room_exit}

-- The page with the lobby that it shows or last showed, whose timers and requests go on.
pub record Screen : Type 0 where
  pub page : Page
  pub lobby : State

abbrev pub poll_fails : Bool → Option String → Screen → Screen
poll_fails cancelled e q = record q { lobby = polled cancelled (rejected e) q.lobby }

-- The button of the lobby's error, and a timer of the lobby: each calls `onExit`.
abbrev pub back : Screen → Screen
back q = record { page = handle_room_exit q.page; lobby = exit q.lobby }

abbrev pub timer : Screen → Screen
timer q = record { page = handle_room_exit q.page; lobby = exit_timer q.lobby }

abbrev pub quick_match : Screen → Screen
quick_match q = record q { page = start_quick_match q.page }

-- Whatever the hook of the match then does.
abbrev pub hook_moves : Pvp.State → Screen → Screen
hook_moves h q = record q { page = record q.page { hook = h } }

abbrev pub poll_times : ℕ → Option String → State → State
poll_times zero e s = s
poll_times (suc n) e s = poll_times n e (polled true (rejected e) s)

-- Every poll that finds no room, a cancelled one too, sets a timer.
pub polls_set_timers :
    (n : ℕ) (e : Option String) (s : State)
    → is_not_found e ≡ true
    → (poll_times n e s).exit_timers ≡ s.exit_timers + n
unfolding polled
polls_set_timers zero e s h = omega arith
polls_set_timers (suc n) e s h =
    polls_set_timers n e (polled true (rejected e) s) h ∙ rw h (omega arith)
