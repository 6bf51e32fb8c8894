-- ===== src/Mobile/Page/Agreement.antt =====
-- The screen of mobile/app/pvp.tsx and the page of web/src/app/pvp/page.tsx, with the same done on both.
use Prim.{tt}
use ki_clash.Common.{
  ℕ, ◌≤◌, ◌≡◌, refl, sym, ap, ◌∙◌, arith, String, Bool, false, ◌&&◌, Option, none, some, List,
  if◌then◌else◌,
}
use mathlib.Core.Path.{subst}
use ki_clash.Common.Upper.{to_upper}
use ki_clash.Common.Codes.{
  IsCode, keep_code, keep_code-IsCode, slice-IsCode, slice_fixes, text_length, trim, trim_fixes,
  upper_fixes,
}
use ki_clash.Pvp.{Socket, ready_at, is_connecting, lobby}
use ki_clash.Pvp
use ki_clash.Pvp.Handlers
use ki_clash.Mobile.Pvp.Handlers.{find_match, join_game, back_to_lobby}
use ki_clash.Pvp.Page.{PageMode, menu, room, is_lobby, is_pvp}
use ki_clash.Pvp.Page as Web
use ki_clash.Mobile.Pvp as MobilePvp
use ki_clash.Mobile.Page.{
  Page, initial, visible_mode, type_code, start_quick_match, start_create_room, start_join_room,
  handle_room_game_start, exit_room, cancel, back_to_menu,
}

-- Whether cancelSearch throws: the search's socket is still connecting.
abbrev pub throws : Option ℕ → List Socket → Bool
throws none sockets = false
throws (some i) sockets = is_connecting (ready_at i sockets)

abbrev pub web_throws : Web.Page → Bool
web_throws p = throws p.hook.matchmaking_ws p.hook.sockets

abbrev pub mobile_throws : Page → Bool
mobile_throws q = throws q.hook.matchmaking_ws q.hook.sockets

-- The same on both: the hooks may do what they do, but are in the same phase.
pub data Both : Web.Page → Page → Type 0 where
  opened : Both Web.initial initial
  hooks_move :
      {p : Web.Page} {q : Page} (h : Pvp.State) (k : MobilePvp.State)
      → h.phase ≡ k.phase
      → Both p q
      → Both (record p { hook = h }) (record q { hook = k })
  types :
      {p : Web.Page} {q : Page} (value : String)
      → text_length (keep_code (to_upper value)) ≤ 4
      → Both p q
      → Both (Web.type_code value p) (type_code value q)
  quick :
      {p : Web.Page} {q : Page} → Both p q → Both (Web.start_quick_match p) (start_quick_match q)
  creates :
      {p : Web.Page} {q : Page} → Both p q → Both (Web.start_create_room p) (start_create_room q)
  joins : {p : Web.Page} {q : Page} → Both p q → Both (Web.start_join_room p) (start_join_room q)
  room_starts :
      {p : Web.Page} {q : Page} (our opponent : String)
      → Both p q
      → Both (Web.handle_room_game_start our opponent p) (handle_room_game_start our opponent q)
  room_exits : {p : Web.Page} {q : Page} → Both p q → Both (Web.handle_room_exit p) (exit_room q)
  cancels :
      {p : Web.Page} {q : Page}
      → web_throws p ≡ mobile_throws q
      → Both p q
      → Both (Web.cancel p) (cancel q)
  again : {p : Web.Page} {q : Page} → Both p q → Both (Web.play_again p) (back_to_menu q)

record Agree (p : Web.Page) (q : Page) : Type 0 where
  phase : p.hook.phase ≡ q.hook.phase
  page_mode : p.page_mode ≡ q.page_mode
  room_mode : p.room_mode ≡ q.room_mode
  code : p.join_code_input ≡ q.join_code
  player_char : p.player_char ≡ q.player_char
  opponent_char : p.opponent_char ≡ q.opponent_char
  is_code : IsCode q.join_code

type_code-Agree :
    (v : String) (p : Web.Page) (q : Page)
    → text_length (keep_code (to_upper v)) ≤ 4
    → Agree p q
    → Agree (Web.type_code v p) (type_code v q)
unfolding type_code Web.type_code
type_code-Agree v p q short k = record {
  phase = k.phase;
  page_mode = k.page_mode;
  room_mode = k.room_mode;
  code = sym (slice_fixes 4 _ short);
  player_char = k.player_char;
  opponent_char = k.opponent_char;
  is_code = slice-IsCode 4 _ (keep_code-IsCode (to_upper v));
}

joined_code : (s : String) → IsCode s → to_upper (trim s) ≡ s
joined_code s h = ap to_upper (trim_fixes s h) ∙ upper_fixes s h

start_join_room-Agree :
    (p : Web.Page) (q : Page) → Agree p q → Agree (Web.start_join_room p) (start_join_room q)
unfolding start_join_room Web.start_join_room
start_join_room-Agree p q k =
    let trimmed = trim_fixes q.join_code k.is_code in
    let joined = joined_code q.join_code k.is_code in
    let same = ap trim k.code in
    record {
      phase = ground (arith, k.phase);
      page_mode = ground (arith, trimmed, joined, same, k.page_mode);
      room_mode = ground (arith, trimmed, joined, same, k.room_mode);
      code = ground (arith, trimmed, joined, same, k.code);
      player_char = ground (arith, k.player_char);
      opponent_char = ground (arith, k.opponent_char);
      is_code = subst IsCode (ground (arith, joined)) k.is_code;
    }

cancel-Agree :
    (p : Web.Page) (q : Page)
    → web_throws p ≡ mobile_throws q
    → Agree p q
    → Agree (Web.cancel p) (cancel q)
unfolding cancel Web.cancel
cancel-Agree p q same k = record {
  phase = ground (arith, same, k.phase);
  page_mode = ground (arith, same, k.page_mode);
  room_mode = ground (arith, k.room_mode);
  code = ground (arith, k.code);
  player_char = ground (arith, k.player_char);
  opponent_char = ground (arith, k.opponent_char);
  is_code = subst IsCode (ground arith) k.is_code;
}

Both-Agree : {p : Web.Page} {q : Page} → Both p q → Agree p q
unfolding find_match join_game back_to_lobby Handlers.find_match Handlers.join_game
    Handlers.back_to_lobby start_quick_match Web.start_quick_match start_create_room
    Web.start_create_room handle_room_game_start Web.handle_room_game_start exit_room
    Web.handle_room_exit back_to_menu Web.play_again
Both-Agree opened = record {
  phase = refl;
  page_mode = refl;
  room_mode = refl;
  code = refl;
  player_char = refl;
  opponent_char = refl;
  is_code = tt;
}
Both-Agree (hooks_move h l e b) =
    let k = Both-Agree b in
    record {
      phase = e;
      page_mode = k.page_mode;
      room_mode = k.room_mode;
      code = k.code;
      player_char = k.player_char;
      opponent_char = k.opponent_char;
      is_code = k.is_code;
    }
Both-Agree (types v short b) = type_code-Agree v _ _ short (Both-Agree b)
Both-Agree (quick b) =
    let k = Both-Agree b in
    record {
      phase = k.phase;
      page_mode = refl;
      room_mode = k.room_mode;
      code = k.code;
      player_char = refl;
      opponent_char = refl;
      is_code = k.is_code;
    }
Both-Agree (creates b) =
    let k = Both-Agree b in
    record {
      phase = k.phase;
      page_mode = refl;
      room_mode = refl;
      code = k.code;
      player_char = k.player_char;
      opponent_char = k.opponent_char;
      is_code = k.is_code;
    }
Both-Agree (joins b) = start_join_room-Agree _ _ (Both-Agree b)
Both-Agree (room_starts our opponent b) =
    let k = Both-Agree b in
    record {
      phase = k.phase;
      page_mode = refl;
      room_mode = k.room_mode;
      code = k.code;
      player_char = refl;
      opponent_char = refl;
      is_code = k.is_code;
    }
Both-Agree (room_exits b) =
    let k = Both-Agree b in
    record {
      phase = k.phase;
      page_mode = refl;
      room_mode = k.room_mode;
      code = refl;
      player_char = k.player_char;
      opponent_char = k.opponent_char;
      is_code = tt;
    }
Both-Agree (cancels same b) = cancel-Agree _ _ same (Both-Agree b)
Both-Agree (again b) =
    let k = Both-Agree b in
    record {
      phase = refl;
      page_mode = refl;
      room_mode = k.room_mode;
      code = k.code;
      player_char = k.player_char;
      opponent_char = k.opponent_char;
      is_code = k.is_code;
    }

visible_same :
    (a b : Pvp.PvpPhase) (m n : PageMode)
    → a ≡ b
    → m ≡ n
    → (if is_lobby a && is_pvp m then menu else m) ≡ (if is_lobby b && is_pvp n then menu else n)
visible_same a b m n h k = rw (h, k) refl

-- The page of matches between players on the web and its screen on mobile, where the same is typed,
-- of which at most four capitals and digits are kept in upper case, and clicked on both and their
-- hooks go through the same phases: they then show the same mode, and have the same code of a room,
-- the same way into it and the same characters.
pub pages_agree :
    {p : Web.Page} {q : Page}
    → Both p q
    → (Web.visible_page_mode p ≡ visible_mode q)
      × (p.room_mode ≡ q.room_mode)
      × (p.join_code_input ≡ q.join_code)
      × (p.player_char ≡ q.player_char)
      × (p.opponent_char ≡ q.opponent_char)
unfolding visible_mode Web.visible_page_mode
pages_agree {p} {q} b =
    let k = Both-Agree b in
    (
      visible_same p.hook.phase q.hook.phase p.page_mode q.page_mode k.phase k.page_mode,
      k.room_mode,
      k.code,
      k.player_char,
      k.opponent_char,
    )
