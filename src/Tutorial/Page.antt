-- ===== src/Tutorial/Page.antt =====
-- The page around the hook of the tutorial, web/src/app/tutorial/page.tsx: its buttons, and the card of
-- web/src/components/ActionCard.tsx for each action. mobile/app/tutorial.tsx has the same ones.
pub mod Script
use ki_clash.Common.{Bool, true, false, ◌&&◌, ◌||◌, none, some, List, [], ◌∷◌, is_some}
use ki_clash.Api.Types.{Action, charge, block, attack, energy_wave, teleport}
use ki_clash.Board.{can_afford}
use ki_clash.Tutorial.{
  intro, playing, revealing, explanation, complete, TutorialPhase, State, current_step,
  start_tutorial, submit_action, continue_from_reveal, continue_from_explanation, restart,
}

-- What can be clicked, in some phase or other.
pub data Click : Type 0 where
  starts reveals explains restarts : Click
  card : Action → Click

abbrev pub is_action : Action → Action → Bool
is_action charge charge = true
is_action block block = true
is_action attack attack = true
is_action energy_wave energy_wave = true
is_action teleport teleport = true
is_action _ _ = false

-- `highlightActions.includes(action)`.
abbrev pub includes_action : List Action → Action → Bool
includes_action [] a = false
includes_action (b ∷ bs) a = is_action b a || includes_action bs a

abbrev pub is_phase : TutorialPhase → TutorialPhase → Bool
is_phase intro intro = true
is_phase playing playing = true
is_phase revealing revealing = true
is_phase explanation explanation = true
is_phase complete complete = true
is_phase _ _ = false

-- A card that is there, not dimmed, and that the player's ki pays for.
unfoldable pub card_enabled : Action → State → Bool
card_enabled action s = elim (current_step s) [
  | none ↦ false
  | some step ↦
      is_phase s.phase playing
      && includes_action step.highlight_actions action
      && can_afford s.player_ki action
]

-- The button of each phase but the choice of an action is there.
abbrev pub start_shown : State → Bool
start_shown s = is_phase s.phase intro

abbrev pub reveal_shown : State → Bool
reveal_shown s =
    is_phase s.phase revealing
    && is_some (current_step s)
    && is_some s.player_action
    && is_some s.ai_action

abbrev pub explanation_shown : State → Bool
explanation_shown s = is_phase s.phase explanation && is_some (current_step s)

abbrev pub complete_shown : State → Bool
complete_shown s = is_phase s.phase complete

-- Whether what is clicked is there and not disabled.
unfoldable pub is_enabled : Click → State → Bool
is_enabled starts s = start_shown s
is_enabled (card action) s = card_enabled action s
is_enabled reveals s = reveal_shown s
is_enabled explains s = explanation_shown s
is_enabled restarts s = complete_shown s

unfoldable pub click : Click → State → State
click starts s = start_tutorial s
click (card action) s = submit_action action s
click reveals s = continue_from_reveal s
click explains s = continue_from_explanation s
click restarts s = restart s
