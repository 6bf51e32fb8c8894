-- ===== src/Tests/MobilePage.antt =====
-- The screens of mobile/app/pvp.tsx and web/src/app/pvp/page.tsx, where a player joins a room.
use ki_clash.Common.{◌≡◌, ◌≤◌, refl, arith}
use ki_clash.Common.Upper.{to_upper}
use ki_clash.Common.Codes.{keep_code, slice, text_length}
use ki_clash.Pvp.Page as Web
use ki_clash.Mobile.Page.{Page, initial, visible_mode, type_code, start_join_room}
use ki_clash.Mobile.Page.Agreement.{opened, types, joins, pages_agree}

abbrev web_page : Web.Page
web_page = Web.start_join_room (Web.type_code "ab12" Web.initial)

abbrev mobile_page : Page
mobile_page = start_join_room (type_code "ab12" initial)

four_kept : text_length (keep_code (to_upper "ab12")) ≤ 4
unfolding to_upper keep_code
four_kept = omega arith

-- Three characters of which the web keeps five and mobile four.
expands :
    ((Web.type_code "ßß1" Web.initial).join_code_input ≡ "SSSS1")
    × ((type_code "ßß1" initial).join_code ≡ "SSSS")
unfolding Web.type_code type_code to_upper keep_code slice
expands = (refl, refl)

pages_example :
    (Web.visible_page_mode web_page ≡ visible_mode mobile_page)
    × (web_page.room_mode ≡ mobile_page.room_mode)
    × (web_page.join_code_input ≡ mobile_page.join_code)
    × (web_page.player_char ≡ mobile_page.player_char)
    × (web_page.opponent_char ≡ mobile_page.opponent_char)
pages_example = pages_agree (joins (types "ab12" four_kept opened))
