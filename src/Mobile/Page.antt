-- ===== src/Mobile/Page.antt =====
-- mobile/app/pvp.tsx: the screen around the hook of mobile/src/hooks/usePvP.ts and the lobby of
-- mobile/src/components/RoomLobby.tsx. A handler that awaits the hook ends there.
pub mod Agreement
use ki_clash.Common.{
  ℕ, String, Bool, true, false, not, ◌&&◌, Option, none, some, eqb, if◌then◌else◌,
}
use ki_clash.Common.Upper.{to_upper}
use ki_clash.Common.Codes.{keep_code, slice, text_length, trim}
use ki_clash.Pvp.{ready_at, is_connecting}
use ki_clash.Pvp.Page.{PageMode, menu, room, pvp, is_lobby, is_pvp}
use ki_clash.Room.{Mode, create, join}
use ki_clash.Mobile.Pvp
use ki_clash.Mobile.Pvp.Handlers.{find_match, join_game, cancel_search, back_to_lobby}

-- The hook and the screen's states.
pub record Page : Type 0 where
  pub hook : Pvp.State
  pub page_mode : PageMode
  pub room_mode : Mode
  pub join_code : String
  pub player_char : String
  pub opponent_char : String

abbrev pub initial : Page
initial = record {
  hook = Pvp.initial;
  page_mode = menu;
  room_mode = create;
  join_code = "";
  player_char = "haneul";
  opponent_char = "bora";
}

unfoldable pub visible_mode : Page → PageMode
visible_mode p = if is_lobby p.hook.phase && is_pvp p.page_mode then menu else p.page_mode

-- `onChangeText` of the code's input.
unfoldable pub type_code : String → Page → Page
type_code value p = record p { join_code = slice 4 (keep_code (to_upper value)) }

unfoldable pub start_quick_match : Page → Page
unfolding find_match
start_quick_match p = record p {
  player_char = "haneul";
  opponent_char = "bora";
  page_mode = pvp;
  hook = find_match p.hook;
}

unfoldable pub start_create_room : Page → Page
start_create_room p = record p { room_mode = create; page_mode = room }

unfoldable pub start_join_room : Page → Page
start_join_room p =
    let code = to_upper (trim p.join_code) in
    if not (eqb (text_length code) 4)
    then p
    else record p { join_code = code; room_mode = join; page_mode = room }

-- The call of joinGame goes on in the hook with the game and the name.
unfoldable pub handle_room_game_start : String → String → Page → Page
unfolding join_game
handle_room_game_start our_char opp_char p = record p {
  player_char = our_char;
  opponent_char = opp_char;
  page_mode = pvp;
  hook = join_game p.hook;
}

-- `onExit` of the lobby.
unfoldable pub exit_room : Page → Page
exit_room p = record p { join_code = ""; page_mode = menu }

-- The button that cancels the search; where cancelSearch throws, the rest does not run.
unfoldable pub cancel : Page → Page
unfolding cancel_search
cancel p = elim p.hook.matchmaking_ws [
  | none ↦ record p { hook = cancel_search p.hook; page_mode = menu }
  | some i ↦
      if is_connecting (ready_at i p.hook.sockets)
      then p
      else record p { hook = cancel_search p.hook; page_mode = menu }
]

unfoldable pub back_to_menu : Page → Page
back_to_menu p = record p { hook = back_to_lobby p.hook; page_mode = menu }
