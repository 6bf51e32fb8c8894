-- ===== src/Room/Events/Once.antt =====
-- What stays true of the lobby of web/src/components/room/RoomScreen.tsx in any order of its events.
use ki_clash.Common.{
  ℕ, ◌+◌, ◌≤◌, ◌<◌, ◌≡◌, refl, arith, String, Bool, false, Option, none, some, ◌-◌, not, is_some,
  Bool-cases, is_truthy, inl, inr, if◌then◌else◌,
}
use ki_clash.Api.Types.{RoomData}
use ki_clash.Game.{Settled, resolved, rejected}
use ki_clash.Room.{
  Mode, create, join, State, run_effect, signed_in, entered, start_settled, copied_link,
  copied_over, save, saved, exit, leave, left, exit_timer,
}
use ki_clash.Room.Events.{
  IsOnce, Step, Reach, start, next, signs_in, enters, polls, starts, saves, leaves, times_out,
  renders, clicks_save, clicks_leave, clicks_back, copies, fades,
}
use ki_clash.Room.Events.Effect.{
  due, show_room-IsOnce, put, either, polled-IsOnce, by_test, run_effect-IsOnce,
}

signed_in-IsOnce :
    (mode : Mode) (code : Option String) (r : Settled Unit) (id : Option String) (s : State)
    → IsOnce s
    → IsOnce (signed_in mode code r id s).0
unfolding signed_in
signed_in-IsOnce create code (resolved u) id s h = put h
signed_in-IsOnce join code (resolved u) id s h = elim (Bool-cases (is_truthy code)) [
  | inl e ↦ rw e (put h)
  | inr e ↦ rw e (put h)
]
signed_in-IsOnce create code (rejected e) id s h = put h
signed_in-IsOnce join code (rejected e) id s h = put h

stops : (n : ℕ) → 0 < n - 1 → n ≤ 1 → ⊥
stops n p h = omega arith

none_left : {A : Type 0} (n : ℕ) → 0 < n - 1 → n ≤ 1 → A
none_left n p h = elim (stops n p h) [ ]

start_settled-IsOnce :
    (r : Settled Unit) (s : State) → 0 < s.starts_pending → IsOnce s → IsOnce (start_settled r s)
unfolding start_settled
start_settled-IsOnce (resolved u) s p h = record {
  handed = h.handed;
  live = h.live;
  one_start = omega (arith, h.one_start);
  called = λ q. h.called p;
  one_save = h.one_save;
}
start_settled-IsOnce (rejected e) s p h = record {
  handed = h.handed;
  live = h.live;
  one_start = omega (arith, h.one_start);
  called = λ q. none_left s.starts_pending q h.one_start;
  one_save = h.one_save;
}

one_busy : (n : ℕ) (b : Bool) → 0 < n → n ≡ (if b then 1 else 0) → n - 1 ≡ 0
one_busy n b p e = ground arith

saved-IsOnce :
    (f : String) (r : Settled RoomData) (s : State)
    → 0 < s.saves_pending
    → IsOnce s
    → IsOnce (saved f r s)
unfolding saved
saved-IsOnce f (resolved r) s p h =
    let shown = show_room-IsOnce r s (due s h) in
    record {
      handed = shown.handed;
      live = shown.live;
      one_start = shown.one_start;
      called = shown.called;
      one_save = one_busy s.saves_pending s.busy p h.one_save;
    }
saved-IsOnce f (rejected e) s p h = record {
  handed = h.handed;
  live = h.live;
  one_start = h.one_start;
  called = h.called;
  one_save = one_busy s.saves_pending s.busy p h.one_save;
}

add_save : (s : State) → IsOnce s → s.busy ≡ false → s.saves_pending + 1 ≡ 1
add_save s h e = ground (arith, h.one_save)

save-IsOnce : (s : State) → IsOnce s → IsOnce (save s)
unfolding save
save-IsOnce s h = either (not (is_some s.room)) h (
    by_test s.busy (λ e. h)
      (λ e. record {
        handed = h.handed;
        live = h.live;
        one_start = h.one_start;
        called = h.called;
        one_save = add_save s h e;
      }))

with_room :
    (o : Option RoomData) (s : State) (t : RoomData → State)
    → IsOnce s
    → ((r : RoomData) → IsOnce (t r))
    → IsOnce (elim o [ none ↦ s | some r ↦ t r ])
with_room none s t h k = h
with_room (some r) s t h k = k r

Step-IsOnce : {s t : State} → Step s t → IsOnce s → IsOnce t
unfolding run_effect entered copied_link exit left exit_timer leave copied_over
Step-IsOnce {s} (signs_in mode code r id) h = signed_in-IsOnce mode code r id s h
Step-IsOnce {s} (enters mode (resolved r)) h = show_room-IsOnce r _ (due _ (put h))
Step-IsOnce {s} (enters mode (rejected e)) h = put h
Step-IsOnce {s} (polls c r) h = polled-IsOnce c r s h
Step-IsOnce {s} (starts r p) h = start_settled-IsOnce r s p h
Step-IsOnce {s} (saves f r p) h = saved-IsOnce f r s p h
Step-IsOnce {s} (leaves r p) h = put h
Step-IsOnce {s} (times_out p) h = put h
Step-IsOnce {s} renders h = run_effect-IsOnce s.room s refl h
Step-IsOnce {s} clicks_save h = save-IsOnce s h
Step-IsOnce {s} clicks_leave h = either (is_some s.room) (put h) (put h)
Step-IsOnce {s} clicks_back h = put h
Step-IsOnce {s} copies h = with_room s.room s _ h (λ r. put h)
Step-IsOnce {s} fades h = put h

-- Whatever the order of the lobby's events, rerenders and late answers included: onGameStart has
-- been called once if the game is marked as handed over and otherwise never, and it is marked as
-- soon as the room that is shown is live; at most one request to start is under way, and while it
-- is, the guard against a second is set; a save is under way exactly while the lobby is busy, and
-- only one.
pub Reach-IsOnce : {s : State} → Reach s → IsOnce s
Reach-IsOnce start = record {
  handed = refl;
  live = λ r e. cc;
  one_start = omega arith;
  called = λ p. elim p [ ];
  one_save = refl;
}
Reach-IsOnce (next r st) = Step-IsOnce st (Reach-IsOnce r)
