-- ===== src/Board.antt =====
-- web/src/components/GameBoard.tsx and ActionCard.tsx: the cards of the actions, the choice of one and
-- its confirmation. The countdown beside them is in Board/Countdown.antt.
pub mod Countdown
pub mod Choices
pub mod Clock
use ki_clash.Common.{
  ℕ, String, Bool, true, false, not, ◌&&◌, ◌||◌, Option, none, some, List, [], ◌∷◌, ◌++◌, leb, ◌==◌,
  if◌then◌else◌,
}
use ki_clash.Api.Types.{Action, charge, block, attack, energy_wave, teleport, action_name}

-- An action's card, without its icon and colours.
pub record ActionConfig : Type 0 where
  pub label : String
  pub korean : String
  pub cost : ℕ
  pub description : String

abbrev pub action_config : Action → ActionConfig
action_config charge = record {
  label = "Charge";
  korean = "기 모으기";
  cost = 0;
  description = "+1 Ki";
}
action_config block = record {
  label = "Block";
  korean = "막기";
  cost = 0;
  description = "Blocks Attack";
}
action_config attack = record {
  label = "Attack";
  korean = "파";
  cost = 1;
  description = "Hits Charge";
}
action_config energy_wave = record {
  label = "Ki Burst";
  korean = "기폭";
  cost = 3;
  description = "Pierces Block";
}
action_config teleport = record {
  label = "Teleport";
  korean = "순간이동";
  cost = 1;
  description = "Dodges attacks";
}

abbrev pub actions : List Action
actions = charge ∷ block ∷ attack ∷ energy_wave ∷ teleport ∷ []

abbrev pub can_afford : ℕ → Action → Bool
can_afford ki action = leb (action_config action).cost ki

-- The board's state, and the calls of `onSubmit`.
pub record State : Type 0 where
  pub selected : Option Action
  pub submitted : List Action

abbrev pub initial : State
initial = record { selected = none; submitted = [] }

-- `onSubmit(action); setSelected(null)`.
abbrev pub submit : Action → State → State
submit action s = record { selected = none; submitted = s.submitted ++ action ∷ [] }

abbrev pub is_selected : Action → Option Action → Bool
is_selected action none = false
is_selected action (some a) = action_name a == action_name action

unfoldable pub handle_select : Bool → Action → State → State
handle_select disabled action s =
    if disabled
    then s
    else if is_selected action s.selected
    then submit action s
    else record s { selected = some action }

-- A card's `onClick`.
unfoldable pub click_card : ℕ → Bool → Action → State → State
unfolding handle_select
click_card player_ki disabled action s =
    if disabled || not (can_afford player_ki action) then s else handle_select disabled action s

unfoldable pub handle_confirm : Bool → State → State
handle_confirm disabled s = elim s.selected [
  | none ↦ s
  | some action ↦ if disabled then s else submit action s
]

unfoldable pub handle_timeout : State → State
handle_timeout s = submit charge s
