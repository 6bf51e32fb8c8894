-- ===== src/Tutorial/Lesson.antt =====
-- The lesson as the player takes it: three rounds of an action, its reveal and its explanation.
use ki_clash.Common.{ℕ, ◌+◌, ◌≤◌, ◌≡◌, refl, some, arith}
use ki_clash.Api.Types.{Action, charge, block, attack, energy_wave, teleport}
use ki_clash.Tutorial.{
  TutorialStep, playing, complete, State, current_step, start_tutorial, ki_of_player, submit_action,
  continue_from_reveal, continue_from_explanation,
}

-- One round.
abbrev pub round : Action → State → State
round a s = continue_from_explanation (continue_from_reveal (submit_action a s))

-- The lesson with the player's three actions.
abbrev pub lesson : Action → Action → Action → State → State
lesson a b c s = round c (round b (round a (start_tutorial s)))

-- Whatever the player's three actions, the lesson starts from any state and is complete after
-- exactly three rounds; the computer has one ki left.
pub lesson_completes :
    (a b c : Action) (s : State)
    → ((round a (start_tutorial s)).phase ≡ playing)
      × ((round b (round a (start_tutorial s))).phase ≡ playing)
      × ((lesson a b c s).phase ≡ complete)
      × ((lesson a b c s).step_index ≡ 2)
      × ((lesson a b c s).ai_ki ≡ 1)
unfolding start_tutorial submit_action continue_from_reveal continue_from_explanation
lesson_completes a b c s = (refl, refl, refl, refl, refl)

-- What an action costs.
abbrev pub cost : Action → ℕ
cost charge = 0
cost block = 0
cost attack = 1
cost energy_wave = 3
cost teleport = 1

abbrev pub gain : Action → ℕ
gain charge = 1
gain _ = 0

-- An affordable action changes ki by exactly its gain and its cost.
pub ki_of_player_exact :
    (a : Action) (ki : ℕ) → cost a ≤ ki → ki_of_player a ki + cost a ≡ ki + gain a
unfolding ki_of_player
ki_of_player_exact a ki h = ground arith

abbrev pub CanPay : State → Type 0
CanPay s =
    (step : TutorialStep)
    → current_step s ≡ some step
    → (cost step.expected_action ≤ s.player_ki) × (cost step.ai_action ≤ s.ai_ki)

-- Following the expected actions, both fighters can pay for theirs in each round, so the floor at 0
-- is never used, and the player ends with no ki.
pub script_affordable :
    (s : State)
    → CanPay (start_tutorial s)
      × CanPay (round charge (start_tutorial s))
      × CanPay (round attack (round charge (start_tutorial s)))
      × ((lesson charge attack block s).player_ki ≡ 0)
unfolding start_tutorial submit_action continue_from_reveal continue_from_explanation
script_affordable s = (λ st h. ground arith, λ st h. ground arith, λ st h. ground arith, refl)
