-- ===== src/Pvp/View.antt =====
-- What a player sees of a match between players, as the messages of the game's socket make it: the
-- description that the web hook and the mobile hook share.
use ki_clash.Common.{
  sym, ℕ, ◌+◌, ◌≡◌, refl, String, Bool, true, false, not, Option, none, some, List, [], ◌∷◌, ◌==◌,
  if◌then◌else◌, ◌∙◌, Bool-cases, inl, inr, ap,
}
use ki_clash.Common.Text.{◌<>◌, show}
use ki_clash.Pvp.{
  PvpPhase, playing, waiting, revealing, round_end, match_end, GameStateData, TurnResultData,
  RoundResultData, MatchResultData, GameMessage, waiting_for_action, action_confirmed, turn_result,
  round_result, match_result, opponent_disconnected, opponent_reconnected, server_error, State,
  ready_at, is_open,
}
use ki_clash.Pvp.Sockets.{close_not_open}
use ki_clash.Pvp.Handlers.{on_game_message}
use ki_clash.Pvp.Score.{deliver, deliver_open, is_result, sockets_kept, deaf}

-- The values that the hooks return.
pub record View : Type 0 where
  pub phase : PvpPhase
  pub opponent_name : Option String
  pub game_state : Option GameStateData
  pub turn_result : Option TurnResultData
  pub round_result : Option RoundResultData
  pub match_result : Option MatchResultData
  pub rounds_won_you : ℕ
  pub rounds_won_opponent : ℕ
  pub error : Option String

abbrev pub view : State → View
view s = record {
  phase = s.phase;
  opponent_name = s.opponent_name;
  game_state = s.game_state;
  turn_result = s.turn_result;
  round_result = s.round_result;
  match_result = s.match_result;
  rounds_won_you = s.rounds_won_you;
  rounds_won_opponent = s.rounds_won_opponent;
  error = s.error;
}

-- A point for the winner of a round.
abbrev pub point : String → View → View
point winner v =
    if winner == "you"
    then record v { rounds_won_you = v.rounds_won_you + 1 }
    else if winner == "opponent"
    then record v { rounds_won_opponent = v.rounds_won_opponent + 1 }
    else v

abbrev pub react : GameMessage → View → View
react (waiting_for_action d) v = record v {
  game_state = some (record {
    turn = d.turn;
    round_number = d.round_number;
    your_ki = d.p1_ki;
    opponent_ki = d.p2_ki;
    time_limit = d.time_limit;
  });
  phase = playing;
}
react action_confirmed v = record v { phase = waiting }
react (turn_result r) v = record v { turn_result = some r; phase = revealing }
react (round_result r) v = record (point r.winner v) { round_result = some r; phase = round_end }
react (match_result r) v = record v { match_result = some r; phase = match_end }
react (opponent_disconnected seconds) v = record v {
  error = some ("Opponent disconnected. Waiting " <> show seconds <> "s...");
}
react opponent_reconnected v = record v { error = none }
react (server_error message) v = record v { error = some message }
react _ v = v

-- The messages in order, up to the match's result; nothing when the socket is not open.
abbrev pub follow : Bool → List GameMessage → View → View
follow false ms v = v
follow true [] v = v
follow true (m ∷ ms) v = follow (not (is_result m)) ms (react m v)

pub follow_none : (live : Bool) (v : View) → follow live [] v ≡ v
follow_none true v = refl
follow_none false v = refl

pub react-on_game_message :
    (i : ℕ) (m : GameMessage) (s : State) → view (on_game_message i m s) ≡ react m (view s)
unfolding on_game_message
react-on_game_message i (round_result r) s = elim (Bool-cases (r.winner == "you")) [
  | inl you ↦ rw (you) refl
  | inr other ↦ elim (Bool-cases (r.winner == "opponent")) [
    | inl opponent ↦ rw (other, opponent) refl
    | inr draw ↦ rw (other, draw) refl
  ]
]
react-on_game_message i m s = refl

open_after :
    (i : ℕ) (m : GameMessage) (s : State)
    → is_open (ready_at i s.sockets) ≡ true
    → is_open (ready_at i (on_game_message i m s).sockets) ≡ not (is_result m)
unfolding on_game_message
open_after i (match_result r) s h = close_not_open i s.sockets
open_after i (round_result r) s h = rw (sockets_kept i (round_result r) s refl) h
open_after i m s h = h

-- The web hook shows what the messages of its game socket say, in order, up to the match's result,
-- and nothing of what comes after it.
pub view-deliver :
    (i : ℕ) (ms : List GameMessage) (s : State)
    → view (deliver i ms s) ≡ follow (is_open (ready_at i s.sockets)) ms (view s)
unfolding deliver
view-deliver i [] s = sym (follow_none (is_open (ready_at i s.sockets)) (view s))
view-deliver i (m ∷ ms) s = elim (Bool-cases (is_open (ready_at i s.sockets))) [
  | inl live ↦
      ap view (deliver_open i m ms s live)
      ∙ view-deliver i ms (on_game_message i m s)
      ∙ rw (open_after i m s live, react-on_game_message i m s, live) refl
  | inr shut ↦ ap view (deaf i (m ∷ ms) s shut) ∙ rw shut refl
]
