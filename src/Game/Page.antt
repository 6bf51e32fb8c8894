-- ===== src/Game/Page.antt =====
-- web/src/app/play/page.tsx around the hook: which handler each screen offers, the timers that call
-- continueFromReveal and continueFromRound, and the calls under way. A call may settle at any time.
pub mod Sound
pub mod Edges
use mathlib.Core.List.{Memᴰ}
use ki_clash.Common.{
  ℕ, suc, zero, ◌+◌, String, Bool, true, false, ◌≡◌, ◌≢◌, refl, Option, none, some, List, [], ◌∷◌,
  ◌++◌, arith, length, is_some, ◌⊎◌, inl, inr, length-append,
}
use ki_clash.Api.Types.{Action, Difficulty, GameState, SubmitActionResponse}
use ki_clash.Characters.{Character}
use ki_clash.Game.{
  GamePhase, lobby, character_select, loading, playing, revealing, round_end, match_end, State,
  initial, Settled, resolved, rejected, Pending, signing_in, creating, submitting,
  select_difficulty, start_game, signed_in, game_created, play_action, show_response,
  action_answered, continue_from_reveal, continue_from_round, back_to_lobby, start_failed, track,
}

pub record System : Type 0 where
  pub state : State
  pub pending : List Pending

abbrev pub also : Option Pending → List Pending → List Pending
also none ps = ps
also (some p) ps = ps ++ p ∷ []

abbrev pub started : State × Option Pending → List Pending → System
started (s, p) ps = record { state = s; pending = also p ps }

-- One event: a handler that the current screen offers, a timer of the current screen, or a call that
-- settles, whatever its result.
pub data Step (sys : System) : System → Type 0 where
  choose :
      (d : Difficulty)
      → sys.state.phase ≡ lobby
      → Step sys (record sys { state = select_difficulty d sys.state })
  pick :
      (id : String) (ai : Option Character)
      → sys.state.phase ≡ character_select
      → Step sys (started (start_game id ai sys.state) sys.pending)
  act :
      (a : Action)
      → sys.state.phase ≡ playing
      → Step sys (started (play_action a sys.state) sys.pending)
  reveal_over :
      sys.state.phase ≡ revealing → Step sys (record sys { state = continue_from_reveal sys.state })
  round_over :
      sys.state.phase ≡ round_end → Step sys (record sys { state = continue_from_round sys.state })
  play_again :
      sys.state.phase ≡ match_end → Step sys (record sys { state = back_to_lobby sys.state })
  auth_settles :
      (id ai : String) (name : Option String) (r : Settled Unit) (before after : List Pending)
      → sys.pending ≡ before ++ signing_in id ai ∷ after
      → Step sys (started (signed_in id ai name r sys.state) (before ++ after))
  create_settles :
      (id ai : String) (r : Settled GameState) (before after : List Pending)
      → sys.pending ≡ before ++ creating id ai ∷ after
      → Step sys (record { state = game_created id ai r sys.state; pending = before ++ after })
  action_settles :
      (id : String) (a : Action) (turn : Option ℕ) (r : Settled SubmitActionResponse)
      (before after : List Pending)
      → sys.pending ≡ before ++ submitting id a turn ∷ after
      → Step sys
          (record { state = action_answered id a turn r sys.state; pending = before ++ after })

pub data Reach : System → Type 0 where
  opened : Reach (record { state = initial; pending = [] })
  next : {s t : System} → Reach s → Step s t → Reach t

-- Whether a phase draws the board.
abbrev pub draws_board : GamePhase → Bool
draws_board playing = true
draws_board revealing = true
draws_board round_end = true
draws_board _ = false

abbrev pub is_loading : GamePhase → Bool
is_loading loading = true
is_loading _ = false

abbrev pub needs_game : Pending → Bool
needs_game (submitting _ _ _) = true
needs_game _ = false

-- A call is under way exactly in the phase `loading`, and then only one.
abbrev pub Fits : State → List Pending → Type 0
Fits s [] = is_loading s.phase ≡ false
Fits s (p ∷ []) = (is_loading s.phase ≡ true) × (needs_game p ≡ true → is_some s.game_state ≡ true)
Fits s (p ∷ q ∷ ps) = ⊥

-- What each screen draws is there.
pub record Shows (s : State) : Type 0 where
  pub board : draws_board s.phase ≡ true → is_some s.game_state ≡ true
  pub turn : s.phase ≡ revealing → is_some s.last_turn ≡ true
  pub round : s.phase ≡ round_end → is_some s.last_round ≡ true
  pub result : s.phase ≡ match_end → is_some s.match_result ≡ true

abbrev pub IsSound : System → Type 0
IsSound sys = Fits sys.state sys.pending × Shows sys.state
