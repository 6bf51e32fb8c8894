-- ===== src/Pvp/Page/Joins.antt =====
-- The code that web/src/app/pvp/page.tsx gives the lobby of a room.
use Prim.{tt}
use ki_clash.Common.{
  ◌≡◌, sym, ap, ◌∙◌, refl, ◌≢◌, arith, String, Option, some, Bool-cases, inl, inr, eqb,
}
use mathlib.Core.Path.{subst}
use ki_clash.Common.Codes.{IsCode, text_length, keep_code-IsCode, trim, trim_fixes}
use ki_clash.Game.{resolved}
use ki_clash.Room
use ki_clash.Room.{joining, signed_in, Mode, create, join}
use ki_clash.Pvp
use ki_clash.Pvp.Page.{
  Page, menu, room, initial, run_effect, enemy_effect, open_link, type_code, start_quick_match,
  start_create_room, start_join_room, handle_room_game_start, handle_room_exit,
  read_initial_room_code, cancel, play_again, initial_code, visible_page_mode,
}
use ki_clash.Pvp.Page.Codes.{code_not_empty, read_initial_room_code-IsCode}

-- The page's events, in any order; the menu's input and buttons need the menu. What the hook does in
-- between is any state of it.
pub data Step (p : Page) : Page → Type 0 where
  hook_moves : (h : Pvp.State) → Step p (record p { hook = h })
  renders : Step p (run_effect p)
  enemy_fires : Step p (enemy_effect p)
  link_opens : (param : String → Option String) → Step p (open_link param p)
  types : (value : String) → visible_page_mode p ≡ menu → Step p (type_code value p)
  quick : visible_page_mode p ≡ menu → Step p (start_quick_match p)
  creates : visible_page_mode p ≡ menu → Step p (start_create_room p)
  joins : visible_page_mode p ≡ menu → Step p (start_join_room p)
  room_starts : (our opponent : String) → Step p (handle_room_game_start our opponent p)
  room_exits : Step p (handle_room_exit p)
  cancels : Step p (cancel p)
  again : Step p (play_again p)

pub data Reach : Page → Type 0 where
  opened : Reach initial
  next : {p q : Page} → Reach p → Step p q → Reach q

pub record IsReady (p : Page) : Type 0 where
  pub code : IsCode p.join_code_input
  pub whole : p.page_mode ≡ room → p.room_mode ≡ join → text_length p.join_code_input ≡ 4

-- An event that leaves the code and the room's mode, and does not show the room.
keeps :
    (p q : Page)
    → IsReady p
    → q.join_code_input ≡ p.join_code_input
    → q.room_mode ≡ p.room_mode
    → (q.page_mode ≡ room → p.page_mode ≡ room)
    → IsReady q
keeps p q k code mode shown = record {
  code = subst IsCode (sym code) k.code;
  whole = λ e f. ap text_length code ∙ k.whole (shown e) (sym mode ∙ f);
}

run_effect-IsReady : (p : Page) → IsReady p → IsReady (run_effect p)
unfolding run_effect
run_effect-IsReady p k = keeps p (run_effect p) k (ground arith) (ground arith) (λ e. ground arith)

not_in_room : (p : Page) → visible_page_mode p ≡ menu → p.page_mode ≢ room
unfolding visible_page_mode
not_in_room p h e = ground arith

type_code-IsReady : (v : String) (p : Page) → visible_page_mode p ≡ menu → IsReady (type_code v p)
unfolding type_code
type_code-IsReady v p m = record {
  code = keep_code-IsCode _;
  whole = λ e f. elim (not_in_room p m e) [ ];
}

open_link-IsReady :
    (param : String → Option String) (p : Page) → IsReady p → IsReady (open_link param p)
unfolding open_link
open_link-IsReady param p k =
    let (code, _) = read_initial_room_code-IsCode param in
    elim (Bool-cases (eqb (text_length (read_initial_room_code param)) 4)) [
      | inl e ↦ simp e (record { code = code; whole = λ _ _. ground (arith, e) })
      | inr e ↦ simp e k
    ]

start_join_room-IsReady : (p : Page) → IsReady p → IsReady (start_join_room p)
unfolding start_join_room
start_join_room-IsReady p k = elim (Bool-cases (eqb (text_length (trim p.join_code_input)) 4)) [
  | inl e ↦ simp e (record {
    code = k.code;
    whole = λ _ _. ground (arith, e, trim_fixes p.join_code_input k.code);
  })
  | inr e ↦ simp e k
]

enemy_effect-IsReady : (p : Page) → IsReady p → IsReady (enemy_effect p)
unfolding enemy_effect
enemy_effect-IsReady p k =
    keeps p (enemy_effect p) k (ground arith) (ground arith) (λ e. ground arith)

cancel-IsReady : (p : Page) → IsReady p → IsReady (cancel p)
unfolding cancel
cancel-IsReady p k = keeps p (cancel p) k (ground arith) (ground arith) (λ e. ground arith)

step-IsReady : {p q : Page} → Step p q → IsReady p → IsReady q
unfolding type_code start_quick_match start_create_room handle_room_game_start handle_room_exit
    play_again
step-IsReady (hook_moves h) k = record { code = k.code; whole = k.whole }
step-IsReady renders k = run_effect-IsReady _ k
step-IsReady enemy_fires k = enemy_effect-IsReady _ k
step-IsReady (link_opens param) k = open_link-IsReady param _ k
step-IsReady (types v m) k = type_code-IsReady v _ m
step-IsReady (quick m) k = record { code = k.code; whole = λ e. cc }
step-IsReady (creates m) k = record { code = k.code; whole = λ e f. cc }
step-IsReady (joins m) k = start_join_room-IsReady _ k
step-IsReady (room_starts our opponent) k = record { code = k.code; whole = λ e. cc }
step-IsReady room_exits k = record { code = tt; whole = λ e. cc }
step-IsReady cancels k = cancel-IsReady _ k
step-IsReady again k = record { code = k.code; whole = λ e. cc }

pub Reach-IsReady : {p : Page} → Reach p → IsReady p
Reach-IsReady opened = record { code = tt; whole = λ e f. cc }
Reach-IsReady (next r st) = step-IsReady st (Reach-IsReady r)

-- Whatever is typed, clicked and opened on the page, and in whatever order: whenever it shows the
-- lobby to join a room, the lobby has a code of exactly four capitals or digits, and joins with it
-- after signing in; the error for a missing code is not shown.
pub lobby_joins :
    {p : Page} (s : Room.State) (id : Option String)
    → Reach p
    → p.page_mode ≡ room
    → p.room_mode ≡ join
    → ((signed_in p.room_mode (initial_code p) (resolved tt) id s).1
        ≡ some (joining p.join_code_input))
      × IsCode p.join_code_input
      × (text_length p.join_code_input ≡ 4)
unfolding signed_in
lobby_joins {p} s id r e f =
    let k = Reach-IsReady r in
    let l = k.whole e f in
    (rw (f, code_not_empty p.join_code_input l, code_not_empty p.join_code_input l) refl, k.code, l)
