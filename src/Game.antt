-- ===== src/Game.antt =====
-- web/src/hooks/useGame.ts: the hook of a match against the computer. A handler that awaits is cut at
-- its awaits: each part is a function of the state, and what it captured waits as a `Pending` value.
pub mod Page
pub mod Calls
pub mod Screen
use ki_clash.Common.{ℕ, String, Option, none, some, List, [], ◌∷◌, ◌++◌, or_else, get_or_else}
use mathlib.Core.Option
use ki_clash.Common.Json.{Json, num, str, num_or_null}
use ki_clash.Api.Types.{
  Action, Difficulty, easy, GameState, TurnResult, RoundResult, MatchResult, RoundWinner, p1, p2,
  draw, SubmitActionResponse, action_name, difficulty_name,
}
use ki_clash.Analytics.{
  EventName, difficulty_selected, play_start, action_submitted, match_finish, Properties,
}
use ki_clash.Characters.{Character}

pub data GamePhase : Type 0 where
  lobby character_select loading playing revealing round_end match_end : GamePhase

-- The hook's states and its ref; `tracked` has the events that it reported, in order.
pub record State : Type 0 where
  pub phase : GamePhase
  pub game_state : Option GameState
  pub last_turn : Option TurnResult
  pub last_round : Option RoundResult
  pub match_result : Option MatchResult
  pub player_name : String
  pub player_character_id : Option String
  pub ai_character_id : Option String
  pub error : Option String
  pub difficulty : Difficulty
  pub tracked : List (EventName × Properties)

unfoldable pub initial : State
initial = record {
  phase = lobby;
  game_state = none;
  last_turn = none;
  last_round = none;
  match_result = none;
  player_name = "Player";
  player_character_id = none;
  ai_character_id = none;
  error = none;
  difficulty = easy;
  tracked = [];
}

-- How an awaited call settles: a rejection has the message of the Error, or is not an Error.
pub data Settled (A : Type 0) : Type 0 where
  resolved : A → Settled A
  rejected : Option String → Settled A

-- A handler that waits for a call, with what it captured.
pub data Pending : Type 0 where
  signing_in : String → String → Pending
  creating : String → String → Pending
  submitting : String → Action → Option ℕ → Pending

abbrev pub track : EventName → Properties → State → State
track event properties s = record s { tracked = s.tracked ++ (event, properties) ∷ [] }

abbrev pub winner_name : RoundWinner → String
winner_name p1 = "p1"
winner_name p2 = "p2"
winner_name draw = "draw"

unfoldable pub select_difficulty : Difficulty → State → State
select_difficulty difficulty s =
    let chosen = record s { difficulty = difficulty } in
    record (track difficulty_selected
      (("mode", str "ai") ∷ ("difficulty", str (difficulty_name difficulty)) ∷ []) chosen) {
        phase = character_select;
      }

-- The `catch` of startGame.
abbrev pub start_failed : Option String → State → State
start_failed e s = record s { error = some (get_or_else e "Failed to start game"); phase = lobby }

-- startGame up to its first await. `pick` is what getRandomCharacterExcluding returned.
unfoldable pub start_game : String → Option Character → State → State × Option Pending
start_game character_id pick s =
    let shown = record s {
      error = none;
      phase = loading;
      player_character_id = some character_id;
    } in
    elim pick [
      | none ↦
          (start_failed (some "Cannot read properties of undefined (reading 'id')") shown, none)
      | some ai ↦
          (record shown { ai_character_id = some ai.id }, some (signing_in character_id ai.id))
    ]

-- startGame after ensureAuth; `display_name` is what getDisplayName then reads.
unfoldable pub signed_in :
    String → String → Option String → Settled Unit → State → State × Option Pending
signed_in character_id ai_id display_name (resolved _) s =
    (record s { player_name = or_else display_name "Player" }, some (creating character_id ai_id))
signed_in character_id ai_id display_name (rejected e) s = (start_failed e s, none)

-- startGame after createAIGame.
unfoldable pub game_created : String → String → Settled GameState → State → State
game_created character_id ai_id (resolved game) s =
    record (track play_start
      (("mode", str "ai")
        ∷ ("difficulty", str (difficulty_name s.difficulty))
        ∷ ("character_id", str character_id)
        ∷ ("ai_character_id", str ai_id)
        ∷ ("game_id", str game.game_id)
        ∷ [])
      s) {
        game_state = some game;
        last_turn = none;
        last_round = none;
        match_result = none;
        phase = playing;
      }
game_created character_id ai_id (rejected e) s = start_failed e s

-- playAction up to its await.
unfoldable pub play_action : Action → State → State × Option Pending
play_action action s = elim s.game_state [
  | none ↦ (s, none)
  | some game ↦ (
    record s { error = none; phase = loading },
    some (submitting game.game_id action (Option.map (λ r. r.turn_number) game.current_round)),
  )
]

-- What playAction shows of a response.
abbrev pub show_response : Option MatchResult → Option RoundResult → GameState → State → State
show_response (some result) round game s =
    record (track match_finish
      (("mode", str "ai")
        ∷ ("game_id", str game.game_id)
        ∷ ("winner", str (winner_name result.winner))
        ∷ ("rounds_won_p1", num result.rounds_won_p1)
        ∷ ("rounds_won_p2", num result.rounds_won_p2)
        ∷ ("total_turns", num result.total_turns)
        ∷ [])
      (record s { match_result = some result; last_round = round })) { phase = match_end }
show_response none (some round) game s = record s { last_round = some round; phase = round_end }
show_response none none game s = record s { phase = revealing }

-- playAction after submitAction.
unfoldable pub action_answered :
    String → Action → Option ℕ → Settled SubmitActionResponse → State → State
action_answered game_id action turn_number (resolved response) s =
    let reported =
      track action_submitted
        (("mode", str "ai")
          ∷ ("action", str (action_name action))
          ∷ ("game_id", str game_id)
          ∷ ("turn_number", num_or_null turn_number)
          ∷ [])
        s in
    show_response response.match_result response.round_result response.game_state (record reported {
      last_turn = some response.turn_result;
      game_state = some response.game_state;
    })
action_answered game_id action turn_number (rejected e) s = record s {
  error = some (get_or_else e "Failed to submit action");
  phase = playing;
}

unfoldable pub continue_from_reveal : State → State
continue_from_reveal s = record s { phase = playing }

unfoldable pub continue_from_round : State → State
continue_from_round s = record s { last_turn = none; last_round = none; phase = playing }

unfoldable pub back_to_lobby : State → State
back_to_lobby s = record s {
  game_state = none;
  last_turn = none;
  last_round = none;
  match_result = none;
  player_character_id = none;
  ai_character_id = none;
  error = none;
  phase = lobby;
}
