-- ===== src/Tutorial/Invariant.antt =====
-- The tutorial's handlers in any order.
use ki_clash.Common.{ℕ, zero, suc, ◌<◌, ◌≡◌, refl, some, arith, get_elem?, is_some, true}
use ki_clash.Api.Types.{Action}
use ki_clash.Tutorial.{
  TutorialStep, tutorial_steps, revealing, State, initial, current_step, start_tutorial,
  ki_of_player, ki_of_ai, submit_action, continue_from_reveal, continue_from_explanation, restart,
}

-- A call of one of the hook's functions, in whatever phase.
pub data Step (s : State) : State → Type 0 where
  start : Step s (start_tutorial s)
  submit : (a : Action) → Step s (submit_action a s)
  reveal_seen : Step s (continue_from_reveal s)
  explanation_seen : Step s (continue_from_explanation s)
  again : Step s (restart s)

pub data Reach : State → Type 0 where
  opened : Reach initial
  next : {s t : State} → Reach s → Step s t → Reach t

-- The index names a step of the lesson, and what is revealed is the pair of actions of that step.
pub record IsValid (s : State) : Type 0 where
  pub within : s.step_index < 3
  pub shown : s.phase ≡ revealing → is_some s.player_action ≡ true
  pub scripted :
      (step : TutorialStep)
      → s.phase ≡ revealing
      → current_step s ≡ some step
      → s.ai_action ≡ some step.ai_action

current_step-some :
    (s : State) → s.step_index < 3 → (step : TutorialStep) × (current_step s ≡ some step)
current_step-some s h = by_index s.step_index h
  where
    by_index : (n : ℕ) → n < 3 → (step : TutorialStep) × (get_elem? tutorial_steps n ≡ some step)
    by_index zero k = (_, refl)
    by_index (suc zero) k = (_, refl)
    by_index (suc (suc zero)) k = (_, refl)
    by_index (suc (suc (suc n))) k = absurd (omega arith)

-- In a valid state the guard of submitAction never stops it.
submit_action_lem :
    (a : Action) (s : State) (step : TutorialStep)
    → current_step s ≡ some step
    → submit_action a s ≡ record s {
      player_action = some a;
      ai_action = some step.ai_action;
      player_ki = ki_of_player a s.player_ki;
      ai_ki = ki_of_ai step.ai_action s.ai_ki;
      phase = revealing;
    }
unfolding submit_action
submit_action_lem a s step e = ground arith

submit-IsValid : (a : Action) (s : State) → IsValid s → IsValid (submit_action a s)
submit-IsValid a s v =
    let (step, e) = current_step-some s v.within in
    rw (submit_action_lem a s step e)
      (record { within = v.within; shown = λ _. refl; scripted = λ step' _ e'. ground arith })

Step-IsValid : {s t : State} → Step s t → IsValid s → IsValid t
unfolding start_tutorial continue_from_reveal continue_from_explanation restart
Step-IsValid {s} start v = record { within = omega arith; shown = λ h. cc; scripted = λ st h. cc }
Step-IsValid {s} (submit a) v = submit-IsValid a s v
Step-IsValid {s} reveal_seen v = record {
  within = v.within;
  shown = λ h. cc;
  scripted = λ st h. cc;
}
Step-IsValid {s} explanation_seen v = record {
  within = ground arith;
  shown = λ h. ground arith;
  scripted = λ st h. ground arith;
}
Step-IsValid {s} again v = record { within = omega arith; shown = λ h. cc; scripted = λ st h. cc }

-- Whatever functions of the tutorial hook are called, and in whatever order, there is a current
-- step, and a reveal shows the player's action beside the action that the current step scripts.
pub Reach-IsValid : {s : State} → Reach s → IsValid s
Reach-IsValid opened = record { within = omega arith; shown = λ h. cc; scripted = λ st h. cc }
Reach-IsValid (next r st) = Step-IsValid st (Reach-IsValid r)
