-- ===== src/Mobile/Pvp/Handlers.antt =====
-- The handlers of mobile/src/hooks/usePvP.ts: of the two sockets, and those that the screen calls. One
-- that awaits is cut at its await.
use ki_clash.Common.{
  ℕ, ◌+◌, String, Option, none, some, [], ◌∷◌, ◌++◌, ◌==◌, length, is_truthy, or_else,
  if◌then◌else◌,
}
use ki_clash.Common.Text.{◌<>◌, show}
use ki_clash.Common.Json.{num, str, str_or_null}
use ki_clash.Api.Types.{Action, action_name}
use ki_clash.Pvp.{
  lobby, searching, matched, playing, waiting, revealing, round_end, match_end, RoundResultData,
  GameMessage, waiting_for_action, action_confirmed, turn_result, round_result, match_result,
  opponent_disconnected, opponent_reconnected, server_error, QueueMessage, match_found,
  matchmaking_timeout, connecting, matchmaking, game, close, close_ref, ready_at, is_open,
  is_connecting, transmit,
}
use ki_clash.Pvp.Handlers.{leave_queue, action_body}
use ki_clash.Mobile.Pvp.{State, report, Closing, reason_or_null, SignedIn, signed_in, failed}

unfoldable pub find_match : State → State
find_match s = record s { error = none }

unfoldable pub join_game : State → State
join_game s = record s { error = none }

module _ (ws_base : String) where
  unfoldable pub connect_to_game : String → String → State → State
  connect_to_game game_id token s = record s {
    game_ws = some (length s.sockets);
    sockets =
        s.sockets
        ++ record {
          url = ws_base <> "/api/v1/ws/game/" <> game_id <> "?token=" <> token;
          purpose = game;
          ready = connecting;
          sent = [];
        }
          ∷ [];
  }

  -- `ws.onmessage` of the search, whose handlers keep the token.
  unfoldable pub on_queue_message : ℕ → String → QueueMessage → State → State
  unfolding connect_to_game
  on_queue_message i token (match_found game_id opponent_name) s =
      let found =
        record (report "play_start"
          (("mode", str "pvp_quick_match")
            ∷ ("game_id", str game_id)
            ∷ ("opponent_name", str opponent_name)
            ∷ [])
          (record s { opponent_name = some opponent_name; phase = matched })) {
            sockets = close i s.sockets;
            matchmaking_ws = none;
          } in
      if is_truthy (some token) then connect_to_game game_id token found else found
  on_queue_message i token matchmaking_timeout s =
      record (report "mobile_matchmaking_timeout" []
        (record s { error = some "No opponents found. Try AI mode!" })) {
          phase = lobby;
          sockets = close i s.sockets;
          matchmaking_ws = none;
        }
  on_queue_message i token _ s = s

  unfoldable pub find_match_signed_in : SignedIn → State → State
  find_match_signed_in (signed_in token) s =
      if is_truthy token
      then record (report "pvp_quick_match_started" (("client", str "mobile") ∷ [])
          (record s { phase = searching })) {
            matchmaking_ws = some (length s.sockets);
            sockets =
                s.sockets
                ++ record {
                  url = ws_base <> "/api/v1/ws/matchmaking?token=" <> or_else token "";
                  purpose = matchmaking (or_else token "");
                  ready = connecting;
                  sent = [];
                }
                  ∷ [];
          }
      else record s { error = some "Not authenticated" }
  find_match_signed_in (failed message) s =
      record (report "mobile_pvp_error"
        (("surface", str "quick_match") ∷ ("message", str message) ∷ [])
        (record s { error = some (or_else (some message) "Failed to find match") })) {
          phase = lobby;
        }

  unfoldable pub join_game_signed_in : String → Option String → SignedIn → State → State
  unfolding connect_to_game
  join_game_signed_in game_id name (signed_in token) s =
      if is_truthy token
      then connect_to_game game_id (or_else token "") (
          report "pvp_match_started"
            (("mode", str "room")
              ∷ ("game_id", str game_id)
              ∷ ("opponent_name", str (or_else name "Opponent"))
              ∷ [])
            (record s {
              sockets = close_ref s.game_ws (close_ref s.matchmaking_ws s.sockets);
              opponent_name = some (or_else name "Opponent");
              game_state = none;
              turn_result = none;
              round_result = none;
              match_result = none;
              rounds_won_you = 0;
              rounds_won_opponent = 0;
              phase = matched;
            }))
      else record s { error = some "Not authenticated" }
  join_game_signed_in game_id name (failed message) s =
      record (report "mobile_pvp_error"
        (("surface", str "join_game") ∷ ("game_id", str game_id) ∷ ("message", str message) ∷ [])
        (record s { error = some (or_else (some message) "Failed to join game") })) {
          phase = lobby;
        }

-- The score after a round.
unfoldable pub score_round : RoundResultData → State → State
score_round r s =
    if r.winner == "you"
    then record s { rounds_won_you = s.rounds_won_you + 1 }
    else if r.winner == "opponent"
    then record s { rounds_won_opponent = s.rounds_won_opponent + 1 }
    else s

-- `ws.onmessage` of the game `game_id` on socket `i`.
unfoldable pub on_game_message : ℕ → String → GameMessage → State → State
unfolding score_round
on_game_message i game_id (waiting_for_action d) s = record s {
  game_state = some (record {
    turn = d.turn;
    round_number = d.round_number;
    your_ki = d.p1_ki;
    opponent_ki = d.p2_ki;
    time_limit = d.time_limit;
  });
  phase = playing;
}
on_game_message i game_id action_confirmed s = record s { phase = waiting }
on_game_message i game_id (turn_result r) s = record s { turn_result = some r; phase = revealing }
on_game_message i game_id (round_result r) s =
    record (score_round r (record s { round_result = some r })) { phase = round_end }
on_game_message i game_id (match_result r) s =
    record (report "match_finish"
      (("mode", str "pvp")
        ∷ ("game_id", str game_id)
        ∷ ("winner", str r.winner)
        ∷ ("rounds_won_p1", num r.rounds_won_p1)
        ∷ ("rounds_won_p2", num r.rounds_won_p2)
        ∷ ("total_turns", num r.total_turns)
        ∷ [])
      (record s { match_result = some r })) {
        phase = match_end;
        sockets = close i s.sockets;
        game_ws = none;
      }
on_game_message i game_id (opponent_disconnected seconds) s = record s {
  error = some ("Opponent disconnected. Waiting " <> show seconds <> "s...");
}
on_game_message i game_id opponent_reconnected s = record s { error = none }
on_game_message i game_id (server_error message) s =
    report "mobile_ws_game_error" (("game_id", str game_id) ∷ ("message", str message) ∷ [])
      (record s { error = some message })
on_game_message i game_id GameMessage.pong s = s
on_game_message i game_id GameMessage.other s = s

unfoldable pub on_game_open : String → State → State
on_game_open game_id = report "mobile_ws_game_open" (("game_id", str game_id) ∷ [])

unfoldable pub on_game_error : String → State → State
on_game_error game_id s =
    record (report "mobile_ws_game_error" (("game_id", str game_id) ∷ [])
      (record s { error = some "Game connection error" })) { phase = lobby }

unfoldable pub on_game_close : String → Closing → State → State
on_game_close game_id e s =
    record (report "mobile_ws_game_close"
      (("game_id", str game_id)
        ∷ ("code", num e.code)
        ∷ ("reason", str_or_null (reason_or_null e.reason))
        ∷ [])
      s) { game_ws = none }

unfoldable pub on_queue_open : State → State
on_queue_open = report "mobile_ws_matchmaking_open" []

unfoldable pub on_queue_error : State → State
on_queue_error s =
    record (report "mobile_ws_matchmaking_error" []
      (record s { error = some "Connection error" })) { phase = lobby }

unfoldable pub on_queue_close : Closing → State → State
on_queue_close e s =
    record (report "mobile_ws_matchmaking_close"
      (("code", num e.code) ∷ ("reason", str_or_null (reason_or_null e.reason)) ∷ []) s) {
        matchmaking_ws = none;
      }

-- `send` on a socket that still connects throws, and the rest does not run.
unfoldable pub cancel_search : State → State
cancel_search s = elim s.matchmaking_ws [
  | none ↦ record s { phase = lobby }
  | some i ↦ if is_connecting (ready_at i s.sockets) then s else record s {
    sockets = close i (transmit i leave_queue s.sockets);
    matchmaking_ws = none;
    phase = lobby;
  }
]

unfoldable pub submit_action : Action → State → State
submit_action action s = elim s.game_ws [
  | none ↦ s
  | some i ↦
      if is_open (ready_at i s.sockets)
      then report "action_submitted"
          (("mode", str "pvp") ∷ ("action", str (action_name action)) ∷ [])
          (record s { sockets = transmit i (action_body action) s.sockets })
      else s
]

unfoldable pub continue_from_reveal : State → State
continue_from_reveal s = record s { turn_result = none }

unfoldable pub continue_from_round : State → State
continue_from_round s = record s { turn_result = none; round_result = none }

unfoldable pub back_to_lobby : State → State
back_to_lobby s = record s {
  sockets = close_ref s.matchmaking_ws (close_ref s.game_ws s.sockets);
  phase = lobby;
  opponent_name = none;
  game_state = none;
  turn_result = none;
  round_result = none;
  match_result = none;
  rounds_won_you = 0;
  rounds_won_opponent = 0;
  error = none;
}

unfoldable pub clean_up : State → State
clean_up s = record s { sockets = close_ref s.game_ws (close_ref s.matchmaking_ws s.sockets) }
