-- ===== src/Game/Calls.antt =====
-- The hook's handlers run to their end against web/src/lib/api.ts: each waiting part makes its call
-- and goes on with how the call settles.
pub mod Ends
use ki_clash.Common.{
  ℕ, zero, suc, ◌+◌, ◌≤◌, String, Bool, true, false, not, ◌≡◌, ◌≢◌, refl, Option, none, some, arith,
  is_some, ◌⊎◌, inl, inr,
}
use ki_clash.Api.Types.{Action, GameState, SubmitActionResponse, submitted, game}
use ki_clash.Api.Storage.{World, Result, ok, thrown, exhausted, get_display_name}
use ki_clash.Api.Client.{Network, ensure_auth}
use ki_clash.Api.Client.Fetch.{api_fetch_settles}
use ki_clash.Api.Client.Session.{ensure_auth_settled, Settled as AuthSettled}
use ki_clash.Api.Calls.{create_ai_game, submit_action}
use ki_clash.Characters.{Character}
use ki_clash.Game.{
  lobby, loading, playing, revealing, round_end, match_end, State, Settled, resolved, rejected,
  Pending, signing_in, creating, submitting, start_game, signed_in, game_created, play_action,
  action_answered, show_response, start_failed,
}

-- How a call settles, as the awaiting code sees it; none if it never does. What api.ts throws is an
-- Error.
abbrev pub settled_of : {A : Type 0} → Result A → Option (Settled A)
settled_of (ok a) = some (resolved a)
settled_of (thrown e) = some (rejected (some e))
settled_of exhausted = none

-- Where a handler is, and the world it acts on.
pub record Running : Type 0 where
  pub state : State
  pub pending : Option Pending
  pub world : World

-- The hook goes on if the call has settled, and waits on otherwise.
abbrev pub go_on :
    {A : Type 0}
    → Option (Settled A)
    → (Settled A → State × Option Pending)
    → Running
    → World
    → Running
go_on none k run w = record run { world = w }
go_on (some r) k run w = record { state = (k r).0; pending = (k r).1; world = w }

module _ (net : Network) where
  -- One waiting part: its call, and what follows it.
  pub resume : Pending → Running → Running
  resume (signing_in id ai) run =
      let settled = ensure_auth net run.world in
      go_on (settled_of settled.0) (λ r. signed_in id ai (get_display_name settled.1) r run.state)
        run settled.1
  resume (creating id ai) run =
      let settled = create_ai_game net run.state.difficulty run.world in
      go_on (settled_of settled.0) (λ r. (game_created id ai r run.state, none)) run settled.1
  resume (submitting id a turn) run =
      let settled = submit_action net id a run.world in
      go_on (settled_of settled.0) (λ r. (action_answered id a turn r run.state, none)) run
        settled.1

  pub resume_if : Option Pending → Running → Running
  resume_if none run = run
  resume_if (some p) run = resume p run

  abbrev pub begun : State × Option Pending → World → Running
  begun (s, p) w = record { state = s; pending = p; world = w }

  abbrev pub after : Running → Running
  after run = resume_if run.pending run

  -- startGame from its call to its end: at most two awaits.
  pub run_start_game : String → Option Character → State → World → Running
  run_start_game id pick s w = after (after (begun (start_game id pick s) w))

  -- playAction from its call to its end: one await.
  pub run_play_action : Action → State → World → Running
  run_play_action a s w = after (begun (play_action a s) w)
