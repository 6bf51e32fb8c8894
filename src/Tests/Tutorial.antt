-- ===== src/Tests/Tutorial.antt =====
-- The lesson of web/src/hooks/useTutorial.ts, on its page.
use ki_clash.Common.{◌≡◌, refl, true, ◌%◌}
use ki_clash.Api.Types.{charge}
use ki_clash.Tutorial.{State, initial, complete, start_tutorial}
use ki_clash.Tutorial.Page.{Click, starts, card, card_enabled, is_enabled, click}
use ki_clash.Tutorial.Page.Script.{Reach, opened, next, stop, only, page_follows_script}

abbrev charged : State
charged = click (card charge) (click starts initial)

start_enabled : is_enabled starts initial ≡ true
unfolding is_enabled
start_enabled = refl

charge_enabled : is_enabled (card charge) (click starts initial) ≡ true
unfolding is_enabled click start_tutorial card_enabled
charge_enabled = refl

charged_reached : Reach 2 charged
charged_reached = next (next opened starts start_enabled) (card charge) charge_enabled

script_example :
    (charged ≡ stop (2 % 11))
    × (is_enabled (only (2 % 11)) charged ≡ true)
    × ((c : Click) → is_enabled c charged ≡ true → c ≡ only (2 % 11))
    × (2 % 11 ≡ 10 → charged.phase ≡ complete)
script_example = page_follows_script 2 charged charged_reached
