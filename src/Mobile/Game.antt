-- ===== src/Mobile/Game.antt =====
-- mobile/src/hooks/useGame.ts: the hook of a match against the computer. It has no lobby and
-- reports nothing; its calls settle as those of Game.antt.
use ki_clash.Common.{
  ◌≡◌, String, Bool, true, false, ◌||◌, Option, none, some, is_some, is_truthy, get_or_else,
  or_else, arith, if◌then◌else◌,
}
use ki_clash.Api.Types.{
  Action, Difficulty, easy, GameState, TurnResult, RoundResult, MatchResult, SubmitActionResponse,
}
use ki_clash.Characters.{Character}
use ki_clash.Game.{Settled, resolved, rejected}

pub data GamePhase : Type 0 where
  character_select loading playing revealing round_end match_end : GamePhase

pub record State : Type 0 where
  pub phase : GamePhase
  pub game_state : Option GameState
  pub last_turn : Option TurnResult
  pub last_round : Option RoundResult
  pub match_result : Option MatchResult
  pub player_name : String
  pub player_character_id : Option String
  pub ai_character_id : Option String
  pub error : Option String
  pub difficulty : Difficulty

abbrev pub initial : State
initial = record {
  phase = character_select;
  game_state = none;
  last_turn = none;
  last_round = none;
  match_result = none;
  player_name = "You";
  player_character_id = none;
  ai_character_id = none;
  error = none;
  difficulty = easy;
}

pub init_game : Difficulty → State → State
init_game difficulty s = record s { difficulty = difficulty; phase = character_select }

-- The `catch` of startGame: the phase stays.
abbrev pub start_failed : Option String → State → State
start_failed e s = record s { error = some (get_or_else e "Failed to start game") }

-- startGame up to its first await, with what getRandomCharacterExcluding returned; the flag says
-- whether it goes on.
pub start_game : String → Option Character → State → State × Bool
start_game character_id pick s =
    let shown = record s {
      error = none;
      phase = loading;
      player_character_id = some character_id;
    } in
    elim pick [
      | none ↦
          (start_failed (some "Cannot read properties of undefined (reading 'id')") shown, false)
      | some ai ↦ (record shown { ai_character_id = some ai.id }, true)
    ]

-- startGame after ensureAuth and getDisplayName, which give the stored name.
pub signed_in : Settled (Option String) → State → State × Bool
signed_in (resolved name) s =
    (record s { player_name = if is_truthy name then or_else name "" else s.player_name }, true)
signed_in (rejected e) s = (start_failed e s, false)

-- startGame after createAIGame.
pub game_created : Settled GameState → State → State
game_created (resolved game) s = record s {
  game_state = some game;
  last_turn = none;
  last_round = none;
  match_result = none;
  phase = playing;
}
game_created (rejected e) s = start_failed e s

-- startGame, whose calls settle as given.
abbrev pub then_if : State × Bool → (State → State) → State
then_if (s, true) f = f s
then_if (s, false) f = s

pub run_start_game :
    String → Option Character → Settled (Option String) → Settled GameState → State → State
unfolding start_game signed_in game_created
run_start_game character_id pick auth created s =
    then_if (start_game character_id pick s)
      (λ t. then_if (signed_in auth t) (game_created created))

abbrev pub show_response : Option MatchResult → Option RoundResult → State → State
show_response (some result) round s = record s {
  match_result = some result;
  last_round = round;
  phase = match_end;
}
show_response none (some round) s = record s { last_round = some round; phase = round_end }
show_response none none s = record s { phase = revealing }

-- playAction, whose call settles as given.
pub run_play_action : Action → Settled SubmitActionResponse → State → State
run_play_action action (resolved r) s = elim s.game_state [
  | none ↦ s
  | some game ↦
      show_response r.match_result r.round_result
        (record s { error = none; game_state = some r.game_state; last_turn = some r.turn_result })
]
run_play_action action (rejected e) s = elim s.game_state [
  | none ↦ s
  | some game ↦ record s { error = some (get_or_else e "Failed to submit action"); phase = playing }
]

pub continue_from_reveal : State → State
continue_from_reveal s = record s { last_turn = none; phase = playing }

pub continue_from_round : State → State
continue_from_round s = record s { last_turn = none; last_round = none; phase = playing }

abbrev pub is_rejected : {A : Type 0} → Settled A → Bool
is_rejected (resolved _) = false
is_rejected (rejected _) = true

-- When a call of startGame fails, the mobile hook shows an error and stays in the phase loading,
-- where nothing is awaited any more; when none fails it is in a match that has a game and shows no
-- error.
pub run_start_game_stays :
    (id : String) (ai : Character) (auth : Settled (Option String)) (created : Settled GameState)
    (s : State)
    → let failed = is_rejected auth || is_rejected created in
      let t = run_start_game id (some ai) auth created s in
      (t.phase ≡ (if failed then loading else playing))
      × (is_some t.error ≡ failed)
      × ((if failed then true else is_some t.game_state) ≡ true)
unfolding run_start_game
run_start_game_stays id ai auth created s = ground arith
