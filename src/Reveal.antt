-- ===== src/Reveal.antt =====
-- web/src/components/TurnReveal.tsx with the page that shows it, web/src/app/play/page.tsx or
-- web/src/app/pvp/page.tsx: the stages of a reveal and the shake that the page adds. A timer has the
-- milliseconds that are left of it.
pub mod Stages
use ki_clash.Common.{
  ℕ, zero, suc, ◌+◌, ◌-◌, String, Bool, true, false, not, List, [], ◌∷◌, ◌++◌, map, leb, ◌==◌, ◌||◌,
  if◌then◌else◌,
}
use ki_clash.Animation.{default_options}
use ki_clash.Api.Types.{TurnOutcome, p1_wins_round, p2_wins_round, clash, blocked, dodged, neutral}

pub data RevealStage : Type 0 where
  face_down flipping paused outcome : RevealStage

abbrev pub get_shake_class : TurnOutcome → String
get_shake_class p1_wins_round = "animate-shake-strong"
get_shake_class p2_wins_round = "animate-shake-strong"
get_shake_class clash = "animate-shake-medium"
get_shake_class blocked = "animate-shake-light"
get_shake_class dodged = "animate-shake-light"
get_shake_class neutral = ""

-- The component's state and timers; the page's class and the timers that reset it; the timers that only
-- render the page; the clock, and the calls of `onOutcomeRevealed`.
pub record State : Type 0 where
  pub stage : RevealStage
  pub timers : List (ℕ × RevealStage)
  pub shake_class : String
  pub shake_timers : List ℕ
  pub page_timers : List ℕ
  pub now : ℕ
  pub outcomes : ℕ

-- The effect, for a turn that is shown.
unfoldable pub run_effect : State → State
run_effect s = record s {
  timers = (0, face_down) ∷ (300, flipping) ∷ (1100, paused) ∷ (2100, outcome) ∷ [];
}

-- Where the turn begins to be shown.
abbrev pub mounted : State
mounted = record {
  stage = face_down;
  timers = [];
  shake_class = "";
  shake_timers = [];
  page_timers = [];
  now = 0;
  outcomes = 0;
}

abbrev pub wait : ℕ → ℕ × RevealStage → ℕ × RevealStage
wait d (left, stage) = (left - d, stage)

module _ (is_fresh : Bool) (result : TurnOutcome) where
  -- The page is rendered again. Where it makes the turn's object anew (`is_fresh`), the effect runs again.
  unfoldable pub rerender : State → State
  unfolding run_effect
  rerender s = if is_fresh then run_effect s else s

  -- `setShakeClass`: the page is rendered if the class changes.
  unfoldable pub set_shake_class : String → State → State
  unfolding rerender
  set_shake_class class s =
      if s.shake_class == class then s else rerender (record s { shake_class = class })

  -- handleOutcomeRevealed of the page.
  unfoldable pub handle_outcome_revealed : State → State
  unfolding set_shake_class
  handle_outcome_revealed s =
      if get_shake_class result == ""
      then s
      else let shaken = set_shake_class (get_shake_class result) s in
        record shaken { shake_timers = shaken.shake_timers ++ 500 ∷ [] }

  -- A timer of the component, after `d` milliseconds.
  unfoldable pub fire : ℕ → RevealStage → List (ℕ × RevealStage) → State → State
  unfolding handle_outcome_revealed
  fire d outcome rest s = handle_outcome_revealed (record s {
    stage = outcome;
    timers = map (wait d) rest;
    shake_timers = map (λ c. c - d) s.shake_timers;
    page_timers = map (λ c. c - d) s.page_timers;
    now = s.now + d;
    outcomes = s.outcomes + 1;
  })
  fire d stage rest s = record s {
    stage = stage;
    timers = map (wait d) rest;
    shake_timers = map (λ c. c - d) s.shake_timers;
    page_timers = map (λ c. c - d) s.page_timers;
    now = s.now + d;
  }

  -- A timer of the page, after `d` milliseconds.
  unfoldable pub reset_shake : ℕ → List ℕ → State → State
  unfolding set_shake_class
  reset_shake d rest s = set_shake_class "" (record s {
    timers = map (wait d) s.timers;
    shake_timers = map (λ c. c - d) rest;
    page_timers = map (λ c. c - d) s.page_timers;
    now = s.now + d;
  })

  -- A timer that renders the page and does nothing else to the reveal, after `d` milliseconds.
  unfoldable pub render_page : ℕ → List ℕ → State → State
  unfolding rerender
  render_page d rest s = rerender (record s {
    timers = map (wait d) s.timers;
    shake_timers = map (λ c. c - d) s.shake_timers;
    page_timers = map (λ c. c - d) rest;
    now = s.now + d;
  })

  -- The effects of the commit that shows the turn: the component's, and the page's, which starts the
  -- animation of the arena and the player's effect, and so renders the page at once; the opponent's
  -- effect and each phase of the animation (useActionAnimation.ts) render it later.
  unfoldable pub show_turn : State → State
  unfolding run_effect rerender
  show_turn s =
      let shown = rerender (run_effect s) in
      record shown {
        page_timers =
            140
            ∷ default_options.windup_ms
            ∷ (default_options.windup_ms + default_options.impact_ms)
            ∷ (default_options.windup_ms + default_options.impact_ms + default_options.recover_ms)
            ∷ [];
      }

  -- The next timer of the component and the page's that resets its class.
  abbrev pub next_of : List (ℕ × RevealStage) → List ℕ → State → State
  next_of [] [] s = s
  next_of ((d, stage) ∷ rest) [] s = fire d stage rest s
  next_of [] (c ∷ rest) s = reset_shake c rest s
  next_of ((d, stage) ∷ rest) (c ∷ others) s =
      if leb d c then fire d stage rest s else reset_shake c others s

  -- Whether a timer of the two lists comes at `p` or before.
  abbrev pub comes_by : ℕ → List (ℕ × RevealStage) → List ℕ → Bool
  comes_by p [] [] = false
  comes_by p ((d, stage) ∷ rest) [] = leb d p
  comes_by p [] (c ∷ others) = leb c p
  comes_by p ((d, stage) ∷ rest) (c ∷ others) = leb d p || leb c p

  -- The next timer of all.
  abbrev pub next_timer : List ℕ → State → State
  next_timer [] s = next_of s.timers s.shake_timers s
  next_timer (p ∷ rest) s =
      if comes_by p s.timers s.shake_timers
      then next_of s.timers s.shake_timers s
      else render_page p rest s

  unfoldable pub run : ℕ → State → State
  run zero s = s
  run (suc n) s = run n (next_timer s.page_timers s)
