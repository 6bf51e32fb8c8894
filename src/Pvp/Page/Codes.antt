-- ===== src/Pvp/Page/Codes.antt =====
-- The code of a room in the address of web/src/app/pvp/page.tsx, as RoomScreen.tsx copies it.
use Prim.{tt}
use ki_clash.Common.{
  ◌≤◌, ◌≡◌, arith, String, Option, some, ◌==◌, false, eq_iff, Bool-cases, inl, inr,
}
use ki_clash.Common.Codes.{
  IsCode, text_length, keep_code-IsCode, keep_code_fixes, slice-IsCode, length-slice, slice_fixes,
  upper_fixes,
}
use ki_clash.Game.{resolved}
use ki_clash.Room
use ki_clash.Room.{Mode, joining, signed_in}
use ki_clash.Pvp.Page.{Page, read_initial_room_code, open_link, initial_code, room}

pub read_initial_room_code-IsCode :
    (param : String → Option String)
    → IsCode (read_initial_room_code param) × (text_length (read_initial_room_code param) ≤ 4)
unfolding read_initial_room_code
read_initial_room_code-IsCode param = (slice-IsCode 4 _ (keep_code-IsCode _), length-slice 4 _)

pub code_not_empty : (code : String) → text_length code ≡ 4 → (code == "") ≡ false
code_not_empty code h = elim (Bool-cases (code == "")) [
  | inl e ↦ cc (h, (eq_iff code "").0 e)
  | inr e ↦ e
]

pub read_own_code :
    (param : String → Option String) (code : String)
    → param "room" ≡ some code
    → IsCode code
    → text_length code ≡ 4
    → read_initial_room_code param ≡ code
unfolding read_initial_room_code
read_own_code param code e h l =
    rw (e, code_not_empty code l, upper_fixes code h, keep_code_fixes code h)
      (slice_fixes 4 code (omega (arith, l)))

-- A link with the code of a room, four capitals or digits, as its parameter room opens the lobby,
-- which after signing in joins the room of that very code.
pub link_joins :
    (param : String → Option String) (code : String) (p : Page) (id : Option String)
    (s : Room.State)
    → param "room" ≡ some code
    → IsCode code
    → text_length code ≡ 4
    → ((open_link param p).page_mode ≡ room)
      × ((signed_in
            (open_link param p).room_mode
            (initial_code (open_link param p))
            (resolved tt)
            id
            s).1
          ≡ some (joining code))
unfolding open_link signed_in
link_joins param code p id s e h l =
    ground (arith, read_own_code param code e h l, code_not_empty code l)
