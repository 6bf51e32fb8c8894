-- ===== src/Tutorial.antt =====
-- web/src/hooks/useTutorial.ts: the scripted lesson.
pub mod Invariant
pub mod Lesson
pub mod Page
use ki_clash.Common.{
  ℕ, ◌+◌, ◌-◌, String, Option, none, some, List, [], ◌∷◌, length, get_elem?, leb, if◌then◌else◌,
}
use ki_clash.Api.Types.{Action, charge, block, attack, energy_wave, teleport}

pub record TutorialStep : Type 0 where
  pub step : ℕ
  pub title : String
  pub instruction : String
  pub expected_action : Action
  pub ai_action : Action
  pub explanation : String
  pub highlight_actions : List Action

abbrev step_1 : TutorialStep
step_1 = record {
  step = 1;
  title = "Step 1: Charge Your Ki";
  instruction = "Tap CHARGE to build up ki energy. You need ki to attack!";
  expected_action = charge;
  ai_action = charge;
  explanation =
      "Both fighters charged! You gained +1 ki. Ki is your fuel — you need it for Attack (1 ki) and Ki Burst (3 ki).";
  highlight_actions = charge ∷ [];
}

abbrev step_2 : TutorialStep
step_2 = record {
  step = 2;
  title = "Step 2: Attack!";
  instruction = "Now you have ki! Tap ATTACK to strike. The AI is charging — they're vulnerable!";
  expected_action = attack;
  ai_action = charge;
  explanation =
      "Your Attack hit while they were Charging! That wins the round. Attack costs 1 ki and beats anyone who's Charging.";
  highlight_actions = attack ∷ [];
}

abbrev step_3 : TutorialStep
step_3 = record {
  step = 3;
  title = "Step 3: Block & Counter";
  instruction = "The AI will Attack this time. Tap BLOCK to defend yourself!";
  expected_action = block;
  ai_action = attack;
  explanation =
      "You blocked the Attack! Block costs 0 ki and stops basic Attacks. But watch out — Ki Burst pierces through Block!";
  highlight_actions = block ∷ [];
}

-- `TUTORIAL_STEPS`.
abbrev pub tutorial_steps : List TutorialStep
tutorial_steps = step_1 ∷ step_2 ∷ step_3 ∷ []

pub data TutorialPhase : Type 0 where
  intro playing revealing explanation complete : TutorialPhase

pub record State : Type 0 where
  pub phase : TutorialPhase
  pub step_index : ℕ
  pub player_ki : ℕ
  pub ai_ki : ℕ
  pub player_action : Option Action
  pub ai_action : Option Action

abbrev pub initial : State
initial = record {
  phase = intro;
  step_index = 0;
  player_ki = 0;
  ai_ki = 0;
  player_action = none;
  ai_action = none;
}

abbrev pub current_step : State → Option TutorialStep
current_step s = get_elem? tutorial_steps s.step_index

unfoldable pub start_tutorial : State → State
start_tutorial s = record s {
  step_index = 0;
  player_ki = 0;
  ai_ki = 0;
  player_action = none;
  ai_action = none;
  phase = playing;
}

-- The player's ki after an action: each test of the source is on the action, so one of them passes at
-- most, and `Math.max(0, ki - cost)` is the subtraction that stops at 0.
unfoldable pub ki_of_player : Action → ℕ → ℕ
ki_of_player charge ki = ki + 1
ki_of_player attack ki = ki - 1
ki_of_player energy_wave ki = ki - 3
ki_of_player teleport ki = ki - 1
ki_of_player block ki = ki

-- The computer's: the source has no case for its other actions.
unfoldable pub ki_of_ai : Action → ℕ → ℕ
ki_of_ai charge ki = ki + 1
ki_of_ai attack ki = ki - 1
ki_of_ai _ ki = ki

unfoldable pub submit_action : Action → State → State
unfolding ki_of_player ki_of_ai
submit_action action s = elim (current_step s) [
  | none ↦ s
  | some step ↦ record s {
    player_action = some action;
    ai_action = some step.ai_action;
    player_ki = ki_of_player action s.player_ki;
    ai_ki = ki_of_ai step.ai_action s.ai_ki;
    phase = revealing;
  }
]

unfoldable pub continue_from_reveal : State → State
continue_from_reveal s = record s { phase = explanation }

unfoldable pub continue_from_explanation : State → State
continue_from_explanation s =
    if leb (length tutorial_steps) (s.step_index + 1)
    then record s { phase = complete }
    else record s {
      step_index = s.step_index + 1;
      player_action = none;
      ai_action = none;
      phase = playing;
    }

unfoldable pub restart : State → State
restart s = record s {
  phase = intro;
  step_index = 0;
  player_ki = 0;
  ai_ki = 0;
  player_action = none;
  ai_action = none;
}
