-- ===== src/Tests/PvpPage.antt =====
-- The page of matches between players (web/src/app/pvp/page.tsx) on concrete links and phases.
use Prim.{tt}
use ki_clash.Common.{
  ◌≡◌, ◌+◌, ◌++◌, refl, none, some, String, Option, List, [], ◌∷◌, ◌==◌, if◌then◌else◌,
}
use ki_clash.Common.Codes.{IsCode, text_length, keep_code, slice}
use ki_clash.Common.Upper.{to_upper}
use ki_clash.Game.{resolved}
use ki_clash.Room
use ki_clash.Room.{join, joining, signed_in}
use ki_clash.Pvp
use ki_clash.Pvp.{playing, match_end, lobby, revealing}
use ki_clash.Pvp.Page.{Page, initial, open_link, initial_code, read_initial_room_code}
use ki_clash.Pvp.Page.Joins.{opened, next, link_opens, lobby_joins}
use ki_clash.Pvp.Page.Ends.{run, reveals, effect_once_per_entry}

abbrev param : String → Option String
param k = if k == "room" then some "AB12" else none

abbrev linked : Page
linked = open_link param initial

code_example :
    ((signed_in linked.room_mode (initial_code linked) (resolved tt) none Room.initial).1
      ≡ some (joining linked.join_code_input))
    × IsCode linked.join_code_input
    × (text_length linked.join_code_input ≡ 4)
unfolding open_link read_initial_room_code keep_code slice to_upper
code_example = lobby_joins Room.initial none (next opened (link_opens param)) refl refl

abbrev seen : List Pvp.State
seen =
    record Pvp.initial { phase = playing }
    ∷ record Pvp.initial { phase = match_end }
    ∷ record Pvp.initial { phase = match_end }
    ∷ []

ends_example :
    ((run seen initial).match_ends ≡ 0 + 1)
    × ((run seen initial).actions ≡ [] ++ reveals lobby seen)
ends_example = effect_once_per_entry seen initial
