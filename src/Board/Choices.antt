-- ===== src/Board/Choices.antt =====
-- What the board of web/src/components/GameBoard.tsx submits.
use Prim.{tt}
use ki_clash.Common.{
  All-append, ◌||◌, ℕ, ◌≡◌, ◌≤◌, refl, arith, Bool, true, false, not, Option, none, some, List, [],
  ◌∷◌, All, if◌then◌else◌,
}
use ki_clash.Api.Types.{Action, charge}
use ki_clash.Board.{
  State, initial, action_config, can_afford, click_card, handle_select, handle_confirm,
  handle_timeout, submit, is_selected,
}

-- What the player and the countdown do.
pub data Event : Type 0 where
  clicks : Action → Event
  confirms : Event
  times_out : Event

abbrev pub on_event : ℕ → Bool → Event → State → State
on_event ki disabled (clicks action) s = click_card ki disabled action s
on_event ki disabled confirms s = handle_confirm disabled s
on_event ki disabled times_out s = handle_timeout s

unfoldable pub run : ℕ → Bool → List Event → State → State
run ki disabled [] s = s
run ki disabled (e ∷ es) s = run ki disabled es (on_event ki disabled e s)

abbrev pub is_affordable : ℕ → Option Action → Bool
is_affordable ki none = true
is_affordable ki (some a) = can_afford ki a

pub record IsAffordable (ki : ℕ) (s : State) : Type 0 where
  pub selected : is_affordable ki s.selected ≡ true
  pub submitted : All (λ a. (action_config a).cost ≤ ki) s.submitted

-- One branch of a test or the other.
by_test :
    {ki : ℕ} {s t : State} (b : Bool)
    → (b ≡ true → IsAffordable ki s)
    → (b ≡ false → IsAffordable ki t)
    → IsAffordable ki (if b then s else t)
by_test true h k = h refl
by_test false h k = k refl

submit-IsAffordable :
    (ki : ℕ) (a : Action) (s : State)
    → can_afford ki a ≡ true
    → IsAffordable ki s
    → IsAffordable ki (submit a s)
submit-IsAffordable ki a s e h = record {
  selected = refl;
  submitted = All-append _ s.submitted (a ∷ []) h.submitted (ground (arith, e), tt);
}

charge_free : (ki : ℕ) → can_afford ki charge ≡ true
charge_free ki = ground arith

not_refused : (d a : Bool) → (d || not a) ≡ false → a ≡ true
not_refused d a h = ground arith

confirm-IsAffordable :
    (ki : ℕ) (disabled : Bool) (o : Option Action) (s : State)
    → IsAffordable ki s
    → is_affordable ki o ≡ true
    → IsAffordable ki (elim o [ none ↦ s | some action ↦ if disabled then s else submit action s ])
confirm-IsAffordable ki disabled none s h e = h
confirm-IsAffordable ki disabled (some a) s h e =
    by_test disabled (λ _. h) (λ _. submit-IsAffordable ki a s e h)

event-IsAffordable :
    (ki : ℕ) (disabled : Bool) (e : Event) (s : State)
    → IsAffordable ki s
    → IsAffordable ki (on_event ki disabled e s)
unfolding click_card handle_select handle_confirm handle_timeout
event-IsAffordable ki disabled (clicks a) s h =
    by_test (disabled || not (can_afford ki a)) (λ e. h)
      (λ e.
        let free = not_refused disabled (can_afford ki a) e in
        by_test disabled (λ _. h)
          (λ _.
            by_test (is_selected a s.selected) (λ _. submit-IsAffordable ki a s free h)
              (λ _. record { selected = free; submitted = h.submitted })))
event-IsAffordable ki disabled confirms s h =
    confirm-IsAffordable ki disabled s.selected s h h.selected
event-IsAffordable ki disabled times_out s h = submit-IsAffordable ki charge s (charge_free ki) h

run-IsAffordable :
    (ki : ℕ) (disabled : Bool) (es : List Event) (s : State)
    → IsAffordable ki s
    → IsAffordable ki (run ki disabled es s)
unfolding run
run-IsAffordable ki disabled [] s h = h
run-IsAffordable ki disabled (e ∷ es) s h =
    run-IsAffordable ki disabled es (on_event ki disabled e s)
      (event-IsAffordable ki disabled e s h)

-- Whatever cards the player clicks, with whatever confirmations and timeouts in between: every
-- action that the board submits costs no more ki than the player has.
pub submitted_affordable :
    (ki : ℕ) (disabled : Bool) (es : List Event)
    → All (λ a. (action_config a).cost ≤ ki) (run ki disabled es initial).submitted
submitted_affordable ki disabled es =
    (run-IsAffordable ki disabled es initial (record { selected = refl; submitted = tt })).submitted
