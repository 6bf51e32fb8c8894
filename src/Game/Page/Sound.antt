-- ===== src/Game/Page/Sound.antt =====
-- The calls that the page of web/src/app/play/page.tsx waits for, and the data that it draws.
use ki_clash.Common.{ℕ, String, true, false, ◌≡◌, refl, Option, List, [], ◌∷◌, ◌++◌, arith, is_some}
use ki_clash.Api.Types.{Action, Difficulty, GameState, SubmitActionResponse}
use ki_clash.Characters.{Character}
use ki_clash.Game.Page.{
  System, started, Step, choose, pick, act, reveal_over, round_over, play_again, auth_settles,
  create_settles, action_settles, Reach, opened, next, is_loading, needs_game, Fits, Shows, IsSound,
}
use ki_clash.Game.{
  playing, revealing, round_end, State, initial, Settled, Pending, signing_in, creating, submitting,
  select_difficulty, start_game, signed_in, game_created, play_action, action_answered,
  continue_from_reveal, continue_from_round, back_to_lobby,
}

idle_rests : (s : State) (ps : List Pending) → Fits s ps → is_loading s.phase ≡ false → ps ≡ []
idle_rests s [] h k = refl
idle_rests s (p ∷ []) h k = cc (h.0)
idle_rests s (p ∷ q ∷ ps) h k = absurd h

-- Where a call settles it is the only one.
pub settles_alone :
    (s : State) (before : List Pending) (p : Pending) (after : List Pending)
    → Fits s (before ++ p ∷ after)
    → (before ++ after ≡ [])
      × (is_loading s.phase ≡ true)
      × (needs_game p ≡ true → is_some s.game_state ≡ true)
settles_alone s [] p [] h = (refl, h.0, h.1)
settles_alone s [] p (q ∷ after) h = absurd h
settles_alone s (q ∷ []) p after h = absurd h
settles_alone s (q ∷ q' ∷ before) p after h = absurd h

module _ (s : State) where
  select_difficulty-IsSound :
      (d : Difficulty) → IsSound (record { state = select_difficulty d s; pending = [] })
  unfolding select_difficulty
  select_difficulty-IsSound d = ground arith

  start_game-IsSound :
      (id : String) (ai : Option Character) → IsSound (started (start_game id ai s) [])
  unfolding start_game
  start_game-IsSound id ai = ground arith

  play_action-IsSound :
      (a : Action) → s.phase ≡ playing → Shows s → IsSound (started (play_action a s) [])
  unfolding play_action
  play_action-IsSound a h i = ground arith

  reveal_over-IsSound :
      s.phase ≡ revealing
      → Shows s
      → IsSound (record { state = continue_from_reveal s; pending = [] })
  unfolding continue_from_reveal
  reveal_over-IsSound h i = ground arith

  round_over-IsSound :
      s.phase ≡ round_end
      → Shows s
      → IsSound (record { state = continue_from_round s; pending = [] })
  unfolding continue_from_round
  round_over-IsSound h i = ground arith

  back_to_lobby-IsSound : IsSound (record { state = back_to_lobby s; pending = [] })
  unfolding back_to_lobby
  back_to_lobby-IsSound = ground arith

  signed_in-IsSound :
      (id ai : String) (name : Option String) (r : Settled Unit)
      → is_loading s.phase ≡ true
      → IsSound (started (signed_in id ai name r s) [])
  unfolding signed_in
  signed_in-IsSound id ai name r h = ground arith

  game_created-IsSound :
      (id ai : String) (r : Settled GameState)
      → IsSound (record { state = game_created id ai r s; pending = [] })
  unfolding game_created
  game_created-IsSound id ai r = ground arith

  action_answered-IsSound :
      (id : String) (a : Action) (turn : Option ℕ) (r : Settled SubmitActionResponse)
      → is_some s.game_state ≡ true
      → IsSound (record { state = action_answered id a turn r s; pending = [] })
  unfolding action_answered
  action_answered-IsSound id a turn r h = ground arith

Step-IsSound : {s t : System} → Step s t → IsSound s → IsSound t
Step-IsSound {s} (choose d h) (fit, i) =
    rw (idle_rests s.state s.pending fit (ground arith)) (select_difficulty-IsSound s.state d)
Step-IsSound {s} (pick id ai h) (fit, i) =
    rw (idle_rests s.state s.pending fit (ground arith)) (start_game-IsSound s.state id ai)
Step-IsSound {s} (act a h) (fit, i) =
    rw (idle_rests s.state s.pending fit (ground arith)) (play_action-IsSound s.state a h i)
Step-IsSound {s} (reveal_over h) (fit, i) =
    rw (idle_rests s.state s.pending fit (ground arith)) (reveal_over-IsSound s.state h i)
Step-IsSound {s} (round_over h) (fit, i) =
    rw (idle_rests s.state s.pending fit (ground arith)) (round_over-IsSound s.state h i)
Step-IsSound {s} (play_again h) (fit, i) =
    rw (idle_rests s.state s.pending fit (ground arith)) (back_to_lobby-IsSound s.state)
Step-IsSound {s} (auth_settles id ai name r before after e) (fit, i) =
    let (empty, busy, _) = settles_alone s.state before (signing_in id ai) after (rw e at fit) in
    rw empty (signed_in-IsSound s.state id ai name r busy)
Step-IsSound {s} (create_settles id ai r before after e) (fit, i) =
    let (empty, busy, _) = settles_alone s.state before (creating id ai) after (rw e at fit) in
    rw empty (game_created-IsSound s.state id ai r)
Step-IsSound {s} (action_settles id a turn r before after e) (fit, i) =
    let (empty, busy, has) =
      settles_alone s.state before (submitting id a turn) after (rw e at fit) in
    rw empty (action_answered-IsSound s.state id a turn r (has refl))

-- On every reachable page a call is under way exactly in the phase loading, and then only one, and
-- each phase has the data that its screen draws.
pub Reach-IsSound : {sys : System} → Reach sys → IsSound sys
unfolding initial
Reach-IsSound opened = ground arith
Reach-IsSound (next r st) = Step-IsSound st (Reach-IsSound r)
