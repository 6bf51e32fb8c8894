-- ===== src/Room/Events/Effect.antt =====
-- The effect on the room in web/src/components/room/RoomScreen.tsx, and what it restores.
use ki_clash.Common.{
  ℕ, ◌≤◌, ◌<◌, ◌≡◌, refl, arith, String, Bool, true, false, Option, none, some, [], ◌∷◌, ap, sym,
  List, ◌∙◌, if◌then◌else◌, length, length-append,
}
use ki_clash.Api.Types.{RoomData}
use ki_clash.Game.{Settled, resolved, rejected}
use ki_clash.Analytics.{EventName, Properties}
use ki_clash.Room.{is_not_found, State, is_live, handoff, hand_off_or_start, polled, show_room}
use ki_clash.Room.Events.{IsOnce}

-- The same without the state of the room, whose effect is still to run.
pub record IsDue (s : State) : Type 0 where
  pub handed : length s.handoffs ≡ (if s.game_handed_off then 1 else 0)
  pub one_start : s.starts_pending ≤ 1
  pub called : 0 < s.starts_pending → s.start_called ≡ true
  pub one_save : s.saves_pending ≡ (if s.busy then 1 else 0)

abbrev has_live : Option RoomData → Bool
has_live none = false
has_live (some r) = is_live r

effect_room : (r : RoomData) (s : State) → (hand_off_or_start r s).room ≡ s.room
unfolding hand_off_or_start
effect_room r s = ground arith

effect_handed :
    (r : RoomData) (s : State)
    → length s.handoffs ≡ (if s.game_handed_off then 1 else 0)
    → length (hand_off_or_start r s).handoffs
      ≡ (if (hand_off_or_start r s).game_handed_off then 1 else 0)
unfolding hand_off_or_start
effect_handed r s h = ground (arith, length-append s.handoffs (handoff s.my_id r ∷ []))

effect_live :
    (r : RoomData) (s : State) → is_live r ≡ true → (hand_off_or_start r s).game_handed_off ≡ true
unfolding hand_off_or_start
effect_live r s h = ground arith

effect_one_start :
    (r : RoomData) (s : State)
    → s.starts_pending ≤ 1
    → (0 < s.starts_pending → s.start_called ≡ true)
    → (hand_off_or_start r s).starts_pending ≤ 1
unfolding hand_off_or_start
effect_one_start r s h k = ground arith

effect_called :
    (r : RoomData) (s : State)
    → (0 < s.starts_pending → s.start_called ≡ true)
    → 0 < (hand_off_or_start r s).starts_pending
    → (hand_off_or_start r s).start_called ≡ true
unfolding hand_off_or_start
effect_called r s k = ground arith

effect_one_save :
    (r : RoomData) (s : State)
    → s.saves_pending ≡ (if s.busy then 1 else 0)
    → (hand_off_or_start r s).saves_pending ≡ (if (hand_off_or_start r s).busy then 1 else 0)
unfolding hand_off_or_start
effect_one_save r s h = ground arith

-- The effect brings back what a new room may have broken.
pub effect-IsOnce :
    (r : RoomData) (s : State) → s.room ≡ some r → IsDue s → IsOnce (hand_off_or_start r s)
effect-IsOnce r s e h = record {
  handed = effect_handed r s h.handed;
  live = λ q f l. effect_live r s (ap (λ o. has_live o) (sym (effect_room r s ∙ e) ∙ f) ∙ l);
  one_start = effect_one_start r s h.one_start h.called;
  called = effect_called r s h.called;
  one_save = effect_one_save r s h.one_save;
}

pub due : (s : State) → IsOnce s → IsDue s
due s h = record {
  handed = h.handed;
  one_start = h.one_start;
  called = h.called;
  one_save = h.one_save;
}

pub show_room-IsOnce : (r : RoomData) (s : State) → IsDue s → IsOnce (show_room r s)
unfolding show_room
show_room-IsOnce r s h =
    effect-IsOnce r (record s { room = some r }) refl
      (record {
        handed = h.handed;
        one_start = h.one_start;
        called = h.called;
        one_save = h.one_save;
      })

-- The other states of the component do not count.
pub put :
    {s : State} {x i : Option String} {c : Bool} {e m l : ℕ} {ps : List (EventName × Properties)}
    → IsOnce s
    → IsOnce (record s {
      error = x;
      copied = c;
      my_id = i;
      exits = e;
      exit_timers = m;
      leaves_pending = l;
      tracked = ps;
    })
put h = record {
  handed = h.handed;
  live = h.live;
  one_start = h.one_start;
  called = h.called;
  one_save = h.one_save;
}

pub by_test :
    {s t : State} (b : Bool)
    → (b ≡ true → IsOnce s)
    → (b ≡ false → IsOnce t)
    → IsOnce (if b then s else t)
by_test true h k = h refl
by_test false h k = k refl

pub either : {s t : State} (b : Bool) → IsOnce s → IsOnce t → IsOnce (if b then s else t)
either true h k = h
either false h k = k

pub run_effect-IsOnce :
    (o : Option RoomData) (s : State)
    → s.room ≡ o
    → IsOnce s
    → IsOnce (elim o [ none ↦ s | some r ↦ hand_off_or_start r s ])
run_effect-IsOnce none s e h = h
run_effect-IsOnce (some r) s e h = effect-IsOnce r s e (due s h)

pub polled-IsOnce : (c : Bool) (r : Settled RoomData) (s : State) → IsOnce s → IsOnce (polled c r s)
unfolding polled
polled-IsOnce true (resolved r) s h = h
polled-IsOnce false (resolved r) s h = show_room-IsOnce r s (due s h)
polled-IsOnce c (rejected e) s h = either (is_not_found e) (put h) h
