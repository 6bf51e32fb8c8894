-- ===== src/Board/Countdown.antt =====
-- web/src/components/Countdown.tsx: the effect with its frames. Times are in milliseconds, and the clock
-- does not go back; `left` is written out in milliseconds too.
use ki_clash.Common.{ℕ, ◌+◌, ◌-◌, ◌*◌, ◌/◌, Bool, true, false, not, ◌&&◌, ltb, eqb, if◌then◌else◌}

-- The refs; whether a frame is asked for; and the calls of `onBeat` and `onTimeout`.
pub record State : Type 0 where
  pub seconds : ℕ
  pub remaining : ℕ
  pub start_time : ℕ
  pub fired : Bool
  pub last_beat : ℕ
  pub frame : Bool
  pub beats : ℕ
  pub timeouts : ℕ

-- The effect, where the countdown is not paused, at the time `now`; its timer that resets the display
-- has run.
unfoldable pub run_effect : ℕ → State → State
run_effect now s = record s {
  start_time = now;
  fired = false;
  last_beat = s.seconds;
  beats = s.beats + 1;
  remaining = s.seconds * 1000;
  frame = true;
}

unfoldable pub clean_up : State → State
clean_up s = record s { frame = false }

abbrev pub left : ℕ → State → ℕ
left now s = s.seconds * 1000 - (now - s.start_time)

-- `Math.ceil(left)`, in seconds.
abbrev pub current_second : ℕ → State → ℕ
current_second now s = (left now s + 999) / 1000

abbrev pub beat : ℕ → State → State
beat now s =
    if ltb (current_second now s) s.last_beat && ltb 0 (current_second now s)
    then record s { last_beat = current_second now s; beats = s.beats + 1 }
    else s

abbrev pub time_out : ℕ → State → State
time_out left s =
    if eqb left 0 && not s.fired
    then record s { fired = true; beats = s.beats + 1; timeouts = s.timeouts + 1; frame = false }
    else s

-- `tick`, on a frame that was asked for; a frame that is cancelled does not come.
unfoldable pub tick : ℕ → State → State
tick now s =
    if s.frame then time_out (left now s) (beat now (record s { remaining = left now s })) else s

-- The effect after a render with a new `onBeat`, as the page makes one when the sound is toggled.
unfoldable pub beat_changes : ℕ → State → State
unfolding run_effect clean_up
beat_changes now s = run_effect now (clean_up s)
