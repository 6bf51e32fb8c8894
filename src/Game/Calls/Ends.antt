-- ===== src/Game/Calls/Ends.antt =====
-- How startGame and playAction of web/src/hooks/useGame.ts end.
use ki_clash.Api.Calls.Settles.{create_ai_game_settles, submit_action_settles, ensure_auth_settles}
use ki_clash.Common.{Option-cases}
use ki_clash.Game.Calls.{
  settled_of, Running, resume, resume_if, begun, after, run_start_game, run_play_action,
}
use ki_clash.Common.{
  ℕ, String, true, ◌≡◌, ◌≢◌, refl, Option, none, some, arith, is_some, ◌⊎◌, inl, inr,
}
use mathlib.Core.Option
use ki_clash.Api.Types.{Action, GameState, SubmitActionResponse}
use ki_clash.Api.Storage.{World, Result, ok, thrown, exhausted, get_display_name}
use ki_clash.Api.Client.{Network, ensure_auth}
use ki_clash.Api.Calls.{create_ai_game, submit_action}
use ki_clash.Characters.{Character}
use ki_clash.Game.{
  lobby, loading, playing, revealing, round_end, match_end, State, Settled, resolved, rejected,
  signing_in, creating, submitting, start_game, signed_in, game_created, play_action,
  action_answered,
}

settles : {A : Type 0} (r : Result A) → r ≢ exhausted → (r' : Settled A) × (settled_of r ≡ some r')
settles (ok a) h = (resolved a, refl)
settles (thrown e) h = (rejected (some e), refl)
settles exhausted h = absurd (h refl)

-- A match has begun, or the lobby shows an error; nothing is awaited.
abbrev pub Started : Running → Type 0
Started run =
    (run.pending ≡ none)
    × (((run.state.phase ≡ playing)
          × (is_some run.state.game_state ≡ true)
          × (run.state.error ≡ none))
        ⊎ ((run.state.phase ≡ lobby) × (is_some run.state.error ≡ true)))

-- The turn's result is shown, or the same game again with an error; nothing is awaited.
abbrev pub Played : Option GameState → Running → Type 0
Played before run =
    (run.pending ≡ none)
    × (((run.state.error ≡ none)
          × (is_some run.state.last_turn ≡ true)
          × ((run.state.phase ≡ revealing)
              ⊎ (run.state.phase ≡ round_end)
              ⊎ (run.state.phase ≡ match_end)))
        ⊎ ((run.state.phase ≡ playing)
            × (is_some run.state.error ≡ true)
            × (run.state.game_state ≡ before)))

module _ (s : State) (w : World) where
  game_created_ends :
      (id ai : String) (r : Settled GameState)
      → s.error ≡ none
      → Started (record { state = game_created id ai r s; pending = none; world = w })
  unfolding game_created
  game_created_ends id ai (resolved g) h = ground arith
  game_created_ends id ai (rejected e) h = ground arith

  action_answered_ends :
      (id : String) (a : Action) (turn : Option ℕ) (r : Settled SubmitActionResponse)
      → s.error ≡ none
      → Played s.game_state
          (record { state = action_answered id a turn r s; pending = none; world = w })
  unfolding action_answered
  action_answered_ends id a turn r h = ground arith

missing_game : (s : State) → is_some s.game_state ≡ true → s.game_state ≡ none → ⊥
missing_game s h e = ground arith

play_action_lem :
    (a : Action) (s : State) (g : GameState)
    → s.game_state ≡ some g
    → play_action a s ≡ (
      record s { error = none; phase = loading },
      some (submitting g.game_id a (Option.map (λ r. r.turn_number) g.current_round)),
    )
unfolding play_action
play_action_lem a s g e = ground arith

module _ (net : Network) where
  creating_ends :
      (id ai : String) (run : Running)
      → run.state.error ≡ none
      → Started (resume net (creating id ai) run)
  unfolding resume
  creating_ends id ai run h =
      let call = create_ai_game net run.state.difficulty run.world in
      let (r, e) = settles call.0 (create_ai_game_settles net run.state.difficulty run.world) in
      rw e (game_created_ends run.state call.1 id ai r h)

  after_auth :
      (id ai : String) (name : Option String) (r : Settled Unit) (s : State) (w : World)
      → s.error ≡ none
      → Started (after net (begun net (signed_in id ai name r s) w))
  unfolding resume_if signed_in
  after_auth id ai name (resolved u) s w h = creating_ends id ai _ h
  after_auth id ai name (rejected e) s w h = ground arith

  signing_in_ends :
      (id ai : String) (run : Running)
      → run.state.error ≡ none
      → Started (after net (resume net (signing_in id ai) run))
  unfolding resume
  signing_in_ends id ai run h =
      let call = ensure_auth net run.world in
      let (r, e) = settles call.0 (ensure_auth_settles net run.world) in
      rw e (after_auth id ai (get_display_name call.1) r run.state call.1 h)

  -- startGame ends, whatever the server does: nothing is awaited any more, and the page is in a
  -- match that has a game and shows no error, or back in the lobby with an error to show.
  pub run_start_game_ends :
      (id : String) (pick : Option Character) (s : State) (w : World)
      → Started (run_start_game net id pick s w)
  unfolding run_start_game start_game resume_if
  run_start_game_ends id none s w = ground arith
  run_start_game_ends id (some ai) s w = signing_in_ends id ai.id _ refl

  submitting_ends :
      (id : String) (a : Action) (turn : Option ℕ) (run : Running)
      → run.state.error ≡ none
      → Played run.state.game_state (resume net (submitting id a turn) run)
  unfolding resume
  submitting_ends id a turn run h =
      let call = submit_action net id a run.world in
      let (r, e) = settles call.0 (submit_action_settles net id a run.world) in
      rw e (action_answered_ends run.state call.1 id a turn r h)

  -- With a game, playAction ends, whatever the server does: nothing is awaited any more, and the
  -- page shows the turn, the round or the match, or the same game again with an error.
  pub run_play_action_ends :
      (a : Action) (s : State) (w : World)
      → is_some s.game_state ≡ true
      → Played s.game_state (run_play_action net a s w)
  unfolding run_play_action resume_if
  run_play_action_ends a s w h = elim (Option-cases s.game_state) [
    | inl missing ↦ absurd (missing_game s h missing)
    | inr (g, found) ↦ rw (play_action_lem a s g found) (submitting_ends g.game_id a _ _ refl)
  ]
