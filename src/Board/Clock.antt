-- ===== src/Board/Clock.antt =====
-- Runs of the countdown of web/src/components/Countdown.tsx from frame to frame.
use ki_clash.Common.{
  ℕ, ◌+◌, ◌*◌, ◌≤◌, ◌<◌, ◌≡◌, ◌∙◌, refl, ap, arith, Bool, true, false, not, ◌&&◌, ◌||◌, leb, List,
  [], ◌∷◌, if◌then◌else◌, Bool-cases, inl, inr,
}
use ki_clash.Board.Countdown.{State, run_effect, clean_up, tick, beat_changes}

-- The frames at these times, one after the other.
unfoldable pub frames : List ℕ → State → State
unfolding tick
frames [] s = s
frames (t ∷ ts) s = frames ts (tick t s)

-- Whether a time comes at or after a bound.
abbrev pub is_reached : ℕ → List ℕ → Bool
is_reached bound [] = false
is_reached bound (t ∷ ts) = leb bound t || is_reached bound ts

tick_over : (t : ℕ) (s : State) → s.frame ≡ false → tick t s ≡ s
unfolding tick
tick_over t s h = elim (Bool-cases s.frame) [ inl e ↦ cc (e, h) | inr e ↦ simp e refl ]

frames_over : (ts : List ℕ) (s : State) → s.frame ≡ false → frames ts s ≡ s
unfolding frames
frames_over [] s h = refl
frames_over (t ∷ ts) s h = ap (frames ts) (tick_over t s h) ∙ frames_over ts s h

pub record IsTicking (bound timeouts : ℕ) (s : State) : Type 0 where
  pub frame : s.frame ≡ true
  pub fired : s.fired ≡ false
  pub due : bound ≡ s.start_time + s.seconds * 1000
  pub some_time : 0 < s.seconds
  pub same : s.timeouts ≡ timeouts

tick-IsTicking :
    (b n t : ℕ) (s : State) → IsTicking b n s → leb b t ≡ false → IsTicking b n (tick t s)
unfolding tick
tick-IsTicking b n t s h e = record {
  frame = ground (arith, h.frame, h.due, h.some_time);
  fired = ground (arith, h.frame, h.fired, h.due, h.some_time);
  due = ground (arith, h.due);
  some_time = ground (arith, h.some_time);
  same = ground (arith, h.frame, h.due, h.some_time, h.same);
}

tick_fires :
    (b n t : ℕ) (s : State)
    → IsTicking b n s
    → leb b t ≡ true
    → ((tick t s).timeouts ≡ n + 1) × ((tick t s).frame ≡ false)
unfolding tick
tick_fires b n t s h e =
    (ground (arith, h.frame, h.fired, h.due, h.same), ground (arith, h.frame, h.fired, h.due))

frames_fire :
    (ts : List ℕ) (b n : ℕ) (s : State)
    → IsTicking b n s
    → (frames ts s).timeouts ≡ n + (if is_reached b ts then 1 else 0)
unfolding frames
frames_fire [] b n s h = omega (arith, h.same)
frames_fire (t ∷ ts) b n s h = elim (Bool-cases (leb b t)) [
  | inl e ↦
      let (more, stopped) = tick_fires b n t s h e in
      ap (λ q. q.timeouts) (frames_over ts (tick t s) stopped) ∙ more ∙ rw e refl
  | inr e ↦ frames_fire ts b n (tick t s) (tick-IsTicking b n t s h e) ∙ rw e refl
]

run_effect-IsTicking :
    (now : ℕ) (s : State)
    → 0 < s.seconds
    → IsTicking (now + s.seconds * 1000) s.timeouts (run_effect now s)
unfolding run_effect
run_effect-IsTicking now s h = record {
  frame = refl;
  fired = refl;
  due = refl;
  some_time = h;
  same = refl;
}

countdown_fires :
    (now : ℕ) (ts : List ℕ) (s : State)
    → 0 < s.seconds
    → (frames ts (run_effect now s)).timeouts
      ≡ s.timeouts + (if is_reached (now + s.seconds * 1000) ts then 1 else 0)
countdown_fires now ts s h =
    frames_fire ts (now + s.seconds * 1000) s.timeouts (run_effect now s)
      (run_effect-IsTicking now s h)

-- The sound is toggled at each of these times, with frames in between.
unfoldable pub toggles : List (ℕ × List ℕ) → State → State
unfolding beat_changes
toggles [] s = s
toggles ((now, ts) ∷ rest) s = toggles rest (frames ts (beat_changes now s))

abbrev pub all_early : ℕ → List (ℕ × List ℕ) → Bool
all_early seconds [] = true
all_early seconds ((now, ts) ∷ rest) =
    not (is_reached (now + seconds * 1000) ts) && all_early seconds rest

frames_seconds : (ts : List ℕ) (s : State) → (frames ts s).seconds ≡ s.seconds
unfolding frames tick
frames_seconds [] s = refl
frames_seconds (t ∷ ts) s = frames_seconds ts (tick t s) ∙ ground arith

run_seconds :
    (now : ℕ) (ts : List ℕ) (s : State) → (frames ts (beat_changes now s)).seconds ≡ s.seconds
unfolding beat_changes run_effect clean_up
run_seconds now ts s = frames_seconds ts (run_effect now (clean_up s))

both : (a b : Bool) → (not a && b) ≡ true → (a ≡ false) × (b ≡ true)
both a b h = ground arith

-- Toggling the sound again and again, each time before the seconds have passed since the last,
-- keeps the time from running out.
pub toggles_hold :
    (runs : List (ℕ × List ℕ)) (s : State)
    → 0 < s.seconds
    → all_early s.seconds runs ≡ true
    → (toggles runs s).timeouts ≡ s.timeouts
unfolding toggles beat_changes clean_up
toggles_hold [] s h e = refl
toggles_hold ((now, ts) ∷ rest) s h e =
    let q = frames ts (beat_changes now s) in
    let same = run_seconds now ts s in
    let (early, later) =
      both (is_reached (now + s.seconds * 1000) ts) (all_early s.seconds rest) e in
    toggles_hold rest q (omega (arith, same, h)) (ap (λ n. all_early n rest) same ∙ later)
    ∙ countdown_fires now ts (clean_up s) h
    ∙ rw early (omega arith)

-- The beats that can still come, and those that came.
abbrev beats_left : State → ℕ
beats_left s = s.beats + s.last_beat + (if s.fired then 0 else 1)

tick_beats :
    (t : ℕ) (s : State)
    → 1 ≤ s.last_beat
    → (1 ≤ (tick t s).last_beat) × (beats_left (tick t s) ≤ beats_left s)
unfolding tick
tick_beats t s h = (ground (arith, h), ground (arith, h))

frames_beats : (ts : List ℕ) (s : State) → 1 ≤ s.last_beat → (frames ts s).beats + 1 ≤ beats_left s
unfolding frames
frames_beats [] s h = ground (arith, h)
frames_beats (t ∷ ts) s h =
    let (more, fewer) = tick_beats t s h in omega (arith, frames_beats ts (tick t s) more, fewer)

countdown_beats :
    (now : ℕ) (ts : List ℕ) (s : State)
    → 0 < s.seconds
    → (frames ts (run_effect now s)).beats ≤ s.beats + s.seconds + 1
unfolding run_effect
countdown_beats now ts s h = omega (arith, frames_beats ts (run_effect now s) h)

-- A run of the countdown, from its effect on: over any frames, the time runs out exactly once if
-- one of them comes at or after the seconds given, more than none, and otherwise never; and it
-- beats at most once more than there are seconds.
pub countdown_fires_once :
    (now : ℕ) (ts : List ℕ) (s : State)
    → 0 < s.seconds
    → ((frames ts (run_effect now s)).timeouts
        ≡ s.timeouts + (if is_reached (now + s.seconds * 1000) ts then 1 else 0))
      × ((frames ts (run_effect now s)).beats ≤ s.beats + s.seconds + 1)
countdown_fires_once now ts s h = (countdown_fires now ts s h, countdown_beats now ts s h)
