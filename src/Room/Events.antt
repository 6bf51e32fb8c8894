-- ===== src/Room/Events.antt =====
-- What can happen to the lobby of web/src/components/room/RoomScreen.tsx, in any order: its requests
-- settle, its timers fire, the player clicks, and the page renders it again.
pub mod Effect
pub mod Once
use ki_clash.Common.{
  ℕ, ◌+◌, ◌≤◌, ◌<◌, ◌≡◌, refl, arith, String, Bool, true, false, Option, none, some, [], ◌∷◌, ap,
  sym, List, ◌-◌, not, is_some, ◌∙◌, Option-cases, Bool-cases, is_truthy, inl, inr, if◌then◌else◌,
  length, length-append,
}
use ki_clash.Api.Types.{RoomData}
use ki_clash.Game.{Settled, resolved, rejected}
use ki_clash.Analytics.{EventName, Properties}
use ki_clash.Room.{
  Mode, create, join, is_not_found, State, initial, is_live, handoff, hand_off_or_start, run_effect,
  signed_in, entered, polled, start_settled, copied_link, copied_over, save, saved, exit, leave,
  left, exit_timer, show_room,
}

pub data Step (s : State) : State → Type 0 where
  signs_in :
      (mode : Mode) (code : Option String) (r : Settled Unit) (id : Option String)
      → Step s (signed_in mode code r id s).0
  enters : (mode : Mode) (r : Settled RoomData) → Step s (entered mode r s)
  polls : (cancelled : Bool) (r : Settled RoomData) → Step s (polled cancelled r s)
  starts : (r : Settled Unit) → 0 < s.starts_pending → Step s (start_settled r s)
  saves :
      (failure : String) (r : Settled RoomData) → 0 < s.saves_pending → Step s (saved failure r s)
  leaves : (r : Settled Unit) → 0 < s.leaves_pending → Step s (left r s)
  times_out : 0 < s.exit_timers → Step s (exit_timer s)
  renders : Step s (run_effect s)
  clicks_save : Step s (save s)
  clicks_leave : Step s (leave s)
  clicks_back : Step s (exit s)
  copies : Step s (copied_link s)
  fades : Step s (copied_over s)

pub data Reach : State → Type 0 where
  start : Reach initial
  next : {s t : State} → Reach s → Step s t → Reach t

-- What the two guards and the flag `busy` are for.
pub record IsOnce (s : State) : Type 0 where
  pub handed : length s.handoffs ≡ (if s.game_handed_off then 1 else 0)
  pub live : (r : RoomData) → s.room ≡ some r → is_live r ≡ true → s.game_handed_off ≡ true
  pub one_start : s.starts_pending ≤ 1
  pub called : 0 < s.starts_pending → s.start_called ≡ true
  pub one_save : s.saves_pending ≡ (if s.busy then 1 else 0)
