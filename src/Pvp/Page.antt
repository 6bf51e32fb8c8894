-- ===== src/Pvp/Page.antt =====
-- web/src/app/pvp/page.tsx: the page around the hook of web/src/hooks/usePvP.ts and the lobby of a
-- room. A state of the hook is a part of the page's, and a handler that awaits the hook ends there.
pub mod Codes
pub mod Joins
pub mod Ends
use ki_clash.Common.{
  ℕ, ◌+◌, String, Bool, true, false, not, ◌&&◌, ◌||◌, Option, none, some, List, [], ◌∷◌, ◌++◌, ◌==◌,
  eqb, is_some, or_else, get_or_else, if◌then◌else◌,
}
use ki_clash.Common.Upper.{to_upper}
use ki_clash.Common.Codes.{keep_code, slice, text_length, trim}
use ki_clash.Pvp.{
  PvpPhase, lobby, searching, matched, playing, waiting, revealing, round_end, match_end,
  TurnResultData, ready_at, is_connecting,
}
use ki_clash.Pvp
use ki_clash.Pvp.Handlers.{find_match, join_game, cancel_search, back_to_lobby}
use ki_clash.Room.{Mode, create, join}

-- `readInitialRoomCode` in the browser; `param` reads a parameter of the page's address.
unfoldable pub read_initial_room_code : (String → Option String) → String
read_initial_room_code param =
    slice 4 (keep_code (to_upper (or_else (param "room") (or_else (param "code") ""))))

pub data PageMode : Type 0 where
  menu room pvp : PageMode

pub data Side : Type 0 where
  player enemy : Side

-- The page's states and refs. `actions` has the calls of triggerAction, `effects` those of
-- setArenaEffect, `enemy_timer` the opponent's action that the timer will fire, and `match_ends` the
-- number of calls of onMatchEnd.
pub record Page : Type 0 where
  pub hook : Pvp.State
  pub page_mode : PageMode
  pub room_mode : Mode
  pub join_code_input : String
  pub player_char : String
  pub opponent_char : String
  pub prev_phase : PvpPhase
  pub actions : List String
  pub effects : List (String × Side)
  pub enemy_timer : Option String
  pub match_ends : ℕ

abbrev pub initial : Page
initial = record {
  hook = Pvp.initial;
  page_mode = menu;
  room_mode = create;
  join_code_input = "";
  player_char = "haneul";
  opponent_char = "bora";
  prev_phase = lobby;
  actions = [];
  effects = [];
  enemy_timer = none;
  match_ends = 0;
}

abbrev pub is_lobby : PvpPhase → Bool
is_lobby lobby = true
is_lobby _ = false

abbrev pub is_revealing : PvpPhase → Bool
is_revealing revealing = true
is_revealing _ = false

abbrev pub is_match_end : PvpPhase → Bool
is_match_end match_end = true
is_match_end _ = false

abbrev pub is_pvp : PageMode → Bool
is_pvp pvp = true
is_pvp _ = false

unfoldable pub visible_page_mode : Page → PageMode
visible_page_mode p = if is_lobby p.hook.phase && is_pvp p.page_mode then menu else p.page_mode

unfoldable pub arena_outcome : Option TurnResultData → Option String
arena_outcome none = none
arena_outcome (some r) =
    if r.outcome == "you_win"
    then some "p1_wins_round"
    else if r.outcome == "you_lose"
    then some "p2_wins_round"
    else if (r.outcome == "clash")
        || (r.outcome == "blocked")
        || (r.outcome == "dodged")
        || (r.outcome == "neutral")
    then some r.outcome
    else none

-- What the page gives TurnReveal; the Ki that it leaves at 0 has no field here.
pub record RevealTurn : Type 0 where
  pub p1_action : String
  pub p2_action : String
  pub outcome : String

unfoldable pub reveal_turn : Option TurnResultData → Option RevealTurn
unfolding arena_outcome
reveal_turn none = none
reveal_turn (some r) = some (record {
  p1_action = r.your_action;
  p2_action = r.opponent_action;
  outcome = get_or_else (arena_outcome (some r)) "neutral";
})

-- The part of the effect for a turn's result that has just come.
abbrev pub reveal : TurnResultData → Page → Page
reveal r p = record p {
  actions = p.actions ++ r.your_action ∷ [];
  effects = p.effects ++ (r.your_action, player) ∷ [];
  enemy_timer = some r.opponent_action;
}

abbrev pub reveal_result : Option TurnResultData → Page → Page
reveal_result none p = p
reveal_result (some r) p = reveal r p

-- The effect on the phase.
unfoldable pub run_effect : Page → Page
run_effect p =
    let seen = record p { prev_phase = p.hook.phase } in
    let shown =
      if is_revealing p.hook.phase && not (is_revealing p.prev_phase)
      then reveal_result p.hook.turn_result seen
      else seen in
    if is_match_end p.hook.phase && not (is_match_end p.prev_phase)
    then record shown { match_ends = shown.match_ends + 1 }
    else shown

-- The timer of the opponent's effect.
unfoldable pub enemy_effect : Page → Page
enemy_effect p = elim p.enemy_timer [
  | none ↦ p
  | some a ↦ record p { effects = p.effects ++ (a, enemy) ∷ []; enemy_timer = none }
]

-- The effect that reads the address, and its timer.
unfoldable pub open_link : (String → Option String) → Page → Page
unfolding read_initial_room_code
open_link param p =
    let code = read_initial_room_code param in
    if not (eqb (text_length code) 4)
    then p
    else record p { join_code_input = code; room_mode = join; page_mode = room }

-- `onChange` of the code's input.
unfoldable pub type_code : String → Page → Page
type_code value p = record p { join_code_input = keep_code (to_upper value) }

unfoldable pub start_quick_match : Page → Page
unfolding find_match
start_quick_match p = record p {
  player_char = "haneul";
  opponent_char = "bora";
  page_mode = pvp;
  hook = find_match p.hook;
}

unfoldable pub start_create_room : Page → Page
start_create_room p = record p { room_mode = create; page_mode = room }

unfoldable pub start_join_room : Page → Page
start_join_room p =
    if not (eqb (text_length (trim p.join_code_input)) 4)
    then p
    else record p { room_mode = join; page_mode = room }

-- The call of joinGame goes on in the hook with the game and the name.
unfoldable pub handle_room_game_start : String → String → Page → Page
handle_room_game_start our_char opp_char p = record p {
  player_char = our_char;
  opponent_char = opp_char;
  page_mode = pvp;
  hook = join_game p.hook;
}

unfoldable pub handle_room_exit : Page → Page
handle_room_exit p = record p { join_code_input = ""; page_mode = menu }

-- `initialCode`, for the lobby of a room.
abbrev pub initial_code : Page → Option String
initial_code p = if p.join_code_input == "" then none else some p.join_code_input

-- The button that cancels the search; where cancelSearch throws, the rest does not run.
unfoldable pub cancel : Page → Page
unfolding cancel_search
cancel p = elim p.hook.matchmaking_ws [
  | none ↦ record p { hook = cancel_search p.hook; page_mode = menu }
  | some i ↦
      if is_connecting (ready_at i p.hook.sockets)
      then p
      else record p { hook = cancel_search p.hook; page_mode = menu }
]

-- `onPlayAgain` of the finale.
unfoldable pub play_again : Page → Page
play_again p = record p { hook = back_to_lobby p.hook; page_mode = menu }
