-- ===== src/Finale/Once.antt =====
-- The end of a match in web/src/components/finale/MatchFinale.tsx where its result may change: the confetti
-- is fired once, and the button to play again comes.
use ki_clash.Common.{ℕ, ◌≤◌, ◌≡◌, arith, true, List, [], ◌∷◌}
use ki_clash.Finale.Timers.{IsOn}
use ki_clash.Finale.{Result, stats, State, next_timer, rerender, shows_stats}

-- The events of the component: its next timer, and a render for another result.
pub data Event : Type 0 where
  timer : Event
  result_is : Result → Event

-- The result with the component, after some events.
abbrev pub after : List Event → Result → State → Result × State
after [] r s = (r, s)
after (timer ∷ es) r s = after es r (next_timer r s)
after (result_is r' ∷ es) r s = after es r' (rerender r r' s)

record IsGoing (s : State) : Type 0 where
  k : ℕ
  few : k ≤ 5
  on : IsOn k s

shown : (s : State) → s.stage ≡ stats → shows_stats s ≡ true
shown s e = ground arith
