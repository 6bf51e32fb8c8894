-- ===== src/Finale/Stages.antt =====
-- How the end of a match goes on in web/src/components/finale/MatchFinale.tsx.
use ki_clash.Common.{ℕ, zero, suc, ◌≡◌, refl, ap, ◌∙◌, true, false, [], if◌then◌else◌}
use ki_clash.Finale.{
  Result, win, loss, draw, stats, State, run_effect, mount, bursts_of, next_timer, run, is_draw,
  shows_stats, shows_title,
}

-- When the button to play again comes, in milliseconds, and when the title does.
abbrev pub end_time : Result → ℕ
end_time r = if is_draw r then 2000 else 4300

abbrev pub title_time : Result → ℕ
title_time r = if is_draw r then 1300 else 3600

ended : Result → State
ended r = record {
  stage = stats;
  has_fired = true;
  timers = [];
  now = end_time r;
  bursts = bursts_of r;
}

five_timers : (r : Result) → run r 5 (mount r) ≡ ended r
unfolding run next_timer run_effect mount ended
five_timers win = refl
five_timers loss = refl
five_timers draw = refl

at_rest : (r : Result) (n : ℕ) → run r n (ended r) ≡ ended r
unfolding run next_timer ended
at_rest r zero = refl
at_rest r (suc n) = at_rest r n

title_slams :
    (r : Result)
    → (shows_title (run r 3 (mount r)) ≡ false)
      × (shows_title (run r 4 (mount r)) ≡ true)
      × ((run r 3 (mount r)).bursts ≡ [])
      × ((run r 4 (mount r)).bursts ≡ bursts_of r)
      × ((run r 4 (mount r)).now ≡ title_time r)
unfolding run next_timer run_effect mount
title_slams win = (refl, refl, refl, refl, refl)
title_slams loss = (refl, refl, refl, refl, refl)
title_slams draw = (refl, refl, refl, refl, refl)

button_late : (r : Result) → shows_stats (run r 4 (mount r)) ≡ false
unfolding run next_timer run_effect mount
button_late win = refl
button_late loss = refl
button_late draw = refl

-- Where the result stays: the title comes with the fourth timer, after 3,600 milliseconds, or 1,300
-- for a draw, and the button to play again with the fifth, 700 milliseconds later, and stays.
pub finale_times :
    (r : Result) (n : ℕ)
    → ((run r 4 (mount r)).now ≡ title_time r)
      × (shows_title (run r 3 (mount r)) ≡ false)
      × (shows_title (run r 4 (mount r)) ≡ true)
      × (shows_stats (run r 4 (mount r)) ≡ false)
      × (shows_stats (run r n (run r 5 (mount r))) ≡ true)
      × ((run r n (run r 5 (mount r))).now ≡ end_time r)
      × ((run r n (run r 5 (mount r))).bursts ≡ bursts_of r)
unfolding ended
finale_times r n =
    let (hidden, slams, none_before, burst, time) = title_slams r in
    let rests = ap (run r n) (five_timers r) ∙ at_rest r n in
    (
      time,
      hidden,
      slams,
      button_late r,
      ap shows_stats rests,
      ap (λ s. s.now) rests,
      ap (λ s. s.bursts) rests,
    )
