-- ===== src/Mobile/Pvp.antt =====
-- mobile/src/hooks/usePvP.ts. Its messages, phases and sockets are those of Pvp.antt; it reports events
-- by their texts, and its handlers know the identifier of the game.
pub mod Handlers
pub mod Agreement
pub mod Rejoin
use ki_clash.Common.{
  ℕ, ◌+◌, String, Bool, true, false, Option, none, some, List, [], ◌∷◌, ◌++◌, ◌==◌, length,
  is_truthy, or_else, if◌then◌else◌,
}
use ki_clash.Common.Text.{◌<>◌, show}
use ki_clash.Common.Json.{num, str, str_or_null}
use ki_clash.Api.Types.{Action, action_name}
use ki_clash.Analytics.{Properties}
use ki_clash.Pvp.{
  PvpPhase, lobby, searching, matched, playing, waiting, revealing, round_end, match_end,
  TurnResultData, RoundResultData, MatchResultData, GameStateData, GameMessage, waiting_for_action,
  action_confirmed, turn_result, round_result, match_result, opponent_disconnected,
  opponent_reconnected, server_error, QueueMessage, match_found, matchmaking_timeout, connecting,
  matchmaking, game, Socket, close, close_ref, ready_at, is_open, is_connecting, transmit,
}
use ki_clash.Pvp.Handlers.{leave_queue, action_body}

pub record State : Type 0 where
  pub phase : PvpPhase
  pub opponent_name : Option String
  pub game_state : Option GameStateData
  pub turn_result : Option TurnResultData
  pub round_result : Option RoundResultData
  pub match_result : Option MatchResultData
  pub rounds_won_you : ℕ
  pub rounds_won_opponent : ℕ
  pub error : Option String
  pub matchmaking_ws : Option ℕ
  pub game_ws : Option ℕ
  pub sockets : List Socket
  pub tracked : List (String × Properties)

abbrev pub initial : State
initial = record {
  phase = lobby;
  opponent_name = none;
  game_state = none;
  turn_result = none;
  round_result = none;
  match_result = none;
  rounds_won_you = 0;
  rounds_won_opponent = 0;
  error = none;
  matchmaking_ws = none;
  game_ws = none;
  sockets = [];
  tracked = [];
}

abbrev pub report : String → Properties → State → State
report event properties s = record s { tracked = s.tracked ++ (event, properties) ∷ [] }

-- `CloseEvent`.
pub record Closing : Type 0 where
  pub code : ℕ
  pub reason : String

abbrev pub reason_or_null : String → Option String
reason_or_null r = if r == "" then none else some r

-- How `await ensureAuth()` and `await getToken()` end: with the token that is stored, if there is one,
-- or with the text that errorMessage makes of what was thrown.
pub data SignedIn : Type 0 where
  signed_in : Option String → SignedIn
  failed : String → SignedIn
