-- ===== src/Mobile/Room/Core.antt =====
-- What the lobbies of mobile/src/components/RoomLobby.tsx and web/src/components/room/RoomScreen.tsx
-- have in common.
use ki_clash.Common.{
  ℕ, ◌+◌, ◌≡◌, refl, Bool, true, false, not, ◌&&◌, Option, some, [], ◌∷◌, if◌then◌else◌, Bool-cases,
  inl, inr, length, length-append,
}
use ki_clash.Api.Types.{RoomData}
use ki_clash.Room.{Mode, is_live, is_both_ready, is_not_found, Handoff}
use ki_clash.Room
use ki_clash.Mobile.Room as MobileRoom

-- What the two lobbies have in common, without the texts that they show and report.
pub record Core : Type 0 where
  pub room : Option RoomData
  pub busy : Bool
  pub start_called : Bool
  pub game_handed_off : Bool
  pub count : ℕ
  pub starts_pending : ℕ
  pub saves_pending : ℕ
  pub exit_timers : ℕ

abbrev pub web : Room.State → Core
web s = record {
  room = s.room;
  busy = s.busy;
  start_called = s.start_called;
  game_handed_off = s.game_handed_off;
  count = length s.handoffs;
  starts_pending = s.starts_pending;
  saves_pending = s.saves_pending;
  exit_timers = s.exit_timers;
}

abbrev pub mobile : MobileRoom.State → Core
mobile s = record {
  room = s.room;
  busy = s.busy;
  start_called = s.start_called;
  game_handed_off = s.game_handed_off;
  count = length s.handoffs;
  starts_pending = s.starts_pending;
  saves_pending = s.saves_pending;
  exit_timers = s.exit_timers;
}

-- The effect on the room, on what is common.
unfoldable pub effect : RoomData → Core → Core
effect r c =
    if is_live r
    then (if c.game_handed_off then c else record c { game_handed_off = true; count = c.count + 1 })
    else if not c.start_called && is_both_ready r
    then record c { start_called = true; starts_pending = c.starts_pending + 1 }
    else c

web-effect : (r : RoomData) (s : Room.State) → web (Room.hand_off_or_start r s) ≡ effect r (web s)
unfolding Room.hand_off_or_start effect
web-effect r s = elim (Bool-cases (is_live r)) [
  | inl live ↦ elim (Bool-cases s.game_handed_off) [
    | inl done ↦ simp (live, done) refl
    | inr new ↦ simp (live, new, length-append s.handoffs (Room.handoff s.my_id r ∷ [])) refl
  ]
  | inr not_live ↦ elim (Bool-cases (not s.start_called && is_both_ready r)) [
    | inl start ↦ simp (not_live, start) refl
    | inr wait ↦ simp (not_live, wait) refl
  ]
]

mobile-effect :
    (r : RoomData) (s : MobileRoom.State)
    → mobile (MobileRoom.hand_off_or_start r s) ≡ effect r (mobile s)
unfolding MobileRoom.hand_off_or_start effect
mobile-effect r s = elim (Bool-cases (is_live r)) [
  | inl live ↦ elim (Bool-cases s.game_handed_off) [
    | inl done ↦ simp (live, done) refl
    | inr new ↦ simp (live, new, length-append s.handoffs (MobileRoom.handoff s.my_id r ∷ [])) refl
  ]
  | inr not_live ↦ elim (Bool-cases (not s.start_called && is_both_ready r)) [
    | inl start ↦ simp (not_live, start) refl
    | inr wait ↦ simp (not_live, wait) refl
  ]
]

-- `setRoom`, on what is common.
unfoldable pub show : RoomData → Core → Core
unfolding effect
show r c = effect r (record c { room = some r })

pub web_if : (b : Bool) (s t : Room.State) → web (if b then s else t) ≡ (if b then web s else web t)
web_if true s t = refl
web_if false s t = refl

pub mobile_if :
    (b : Bool) (s t : MobileRoom.State)
    → mobile (if b then s else t) ≡ (if b then mobile s else mobile t)
mobile_if true s t = refl
mobile_if false s t = refl

pub web-show : (r : RoomData) (s : Room.State) → web (Room.show_room r s) ≡ show r (web s)
unfolding Room.show_room show
web-show r s = web-effect r (record s { room = some r })

pub mobile-show :
    (r : RoomData) (s : MobileRoom.State) → mobile (MobileRoom.show_room r s) ≡ show r (mobile s)
unfolding MobileRoom.show_room show
mobile-show r s = mobile-effect r (record s { room = some r })
