-- ===== src/Tests/Animation.antt =====
-- An attack of web/src/hooks/useActionAnimation.ts that breaks off a charge.
use ki_clash.Common.{◌≡◌, some, none, ◌+◌, ltb, if◌then◌else◌}
use ki_clash.Animation.{charge, attack, default_options, initial, State, trigger_action, advance}
use ki_clash.Animation.Lifecycle.{Reach, mounted, triggers, passes, phase_at, phase-advance}

abbrev charging : State
charging = advance 500 (trigger_action default_options charge initial)

charging_reached : Reach charging
charging_reached = passes 500 (triggers default_options charge mounted)

attack_example :
    ((advance 700 (trigger_action default_options attack charging)).phase
      ≡ phase_at default_options 700)
    × ((advance 700 (trigger_action default_options attack charging)).action
        ≡ (if ltb 700 (600 + 800 + 600) then some attack else none))
attack_example = phase-advance default_options attack 700 charging charging_reached
