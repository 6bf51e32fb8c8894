-- ===== src/Reveal/Stages.antt =====
-- How long the stages of a turn's reveal are shown, on the page of a match against the computer and on
-- that of a match between players.
use ki_clash.Common.{
  ℕ, zero, suc, ◌+◌, ◌*◌, ◌≡◌, refl, ap, ◌∙◌, sym, arith, true, false, [], ◌∷◌, ◌==◌,
}
use ki_clash.Api.Types.{TurnOutcome, p1_wins_round, p2_wins_round, clash, blocked, dodged, neutral}
use ki_clash.Reveal.{
  face_down, flipping, paused, outcome, get_shake_class, State, run_effect, mounted, rerender,
  show_turn, render_page, set_shake_class, handle_outcome_revealed, fire, reset_shake, run,
}

-- The page renders with a new object, just as the outcome comes, at the time `t`.
abbrev revealed : TurnOutcome → ℕ → ℕ → State
revealed result t n = record {
  stage = outcome;
  timers = (0, face_down) ∷ (300, flipping) ∷ (1100, paused) ∷ (2100, outcome) ∷ [];
  shake_class = get_shake_class result;
  shake_timers = 500 ∷ [];
  page_timers = [];
  now = t;
  outcomes = n;
}

first :
    (result : TurnOutcome)
    → (get_shake_class result == "") ≡ false
    → run true result 15 (show_turn true result mounted) ≡ revealed result 4100 1
unfolding run fire handle_outcome_revealed set_shake_class rerender run_effect show_turn render_page
first p1_wins_round h = refl
first p2_wins_round h = refl
first clash h = refl
first blocked h = refl
first dodged h = refl
first neutral h = cc h

period : (t : ℕ) → t + 0 + 300 + 200 + 0 + 300 + 800 + 1000 ≡ t + 2600
period t = omega arith

cycle :
    (result : TurnOutcome) (t n : ℕ)
    → (get_shake_class result == "") ≡ false
    → run true result 7 (revealed result t n) ≡ revealed result (t + 2600) (n + 1)
unfolding run fire reset_shake handle_outcome_revealed set_shake_class rerender run_effect
cycle p1_wins_round t n h = ap (λ u. revealed p1_wins_round u (n + 1)) (period t)
cycle p2_wins_round t n h = ap (λ u. revealed p2_wins_round u (n + 1)) (period t)
cycle clash t n h = ap (λ u. revealed clash u (n + 1)) (period t)
cycle blocked t n h = ap (λ u. revealed blocked u (n + 1)) (period t)
cycle dodged t n h = ap (λ u. revealed dodged u (n + 1)) (period t)
cycle neutral t n h = cc h

-- Seven timers more, so many times.
abbrev pub sevens : TurnOutcome → ℕ → State → State
sevens result zero s = s
sevens result (suc k) s = sevens result k (run true result 7 s)

none_later : (t n : ℕ) → (t + 2600 * 0 ≡ t) × (n + 0 ≡ n)
none_later t n = (omega arith, omega arith)

later : (t n k : ℕ) → (t + 2600 + 2600 * k ≡ t + 2600 * suc k) × (n + 1 + k ≡ n + suc k)
later t n k = (omega arith, omega arith)

sevens-revealed :
    (result : TurnOutcome) (k t n : ℕ)
    → (get_shake_class result == "") ≡ false
    → sevens result k (revealed result t n) ≡ revealed result (t + 2600 * k) (n + k)
sevens-revealed result zero t n h = rw (none_later t n).0 (rw (none_later t n).1 refl)
sevens-revealed result (suc k) t n h =
    ap (sevens result k) (cycle result t n h)
    ∙ sevens-revealed result k (t + 2600) (n + 1) h
    ∙ rw ((later t n k).0, (later t n k).1) refl

-- The first outcome, of any turn.
late :
    (result : TurnOutcome)
    → let start = show_turn true result mounted in
      ((run true result 14 start).outcomes ≡ 0)
      × ((run true result 15 start).stage ≡ outcome)
      × ((run true result 15 start).now ≡ 4100)
unfolding run fire handle_outcome_revealed set_shake_class rerender run_effect show_turn render_page
late p1_wins_round = (refl, refl, refl)
late result = (refl, refl, refl)

gone :
    (result : TurnOutcome) (t n : ℕ)
    → ((run true result 1 (revealed result t n)).stage ≡ face_down)
      × ((run true result 1 (revealed result t n)).now ≡ t)
unfolding run fire
gone result t n = (refl, omega arith)

-- On the page of a match between players, which makes the turn's object anew with every render, the
-- animation of the arena and the opponent's effect start the reveal over, so that the first outcome
-- comes only 4,100 milliseconds after the turn where nothing but the page's own timers renders it.
-- An outcome that shakes the page then hides itself: the cards are turned back at the very time at
-- which it comes, and the reveal starts over without end, with the outcome again every 2,600
-- milliseconds.
pub pvp_outcome_late :
    (result : TurnOutcome) (k : ℕ)
    → let start = show_turn true result mounted in
      let shown = sevens result k (run true result 15 start) in
      ((run true result 14 start).outcomes ≡ 0)
      × ((run true result 15 start).stage ≡ outcome)
      × ((run true result 15 start).now ≡ 4100)
      × ((get_shake_class result == "") ≡ false
          → (shown.stage ≡ outcome)
            × (shown.outcomes ≡ 1 + k)
            × (shown.now ≡ 4100 + 2600 * k)
            × ((run true result 1 shown).stage ≡ face_down)
            × ((run true result 1 shown).now ≡ shown.now))
pvp_outcome_late result k =
    let (none_before, stage, now) = late result in
    (
      none_before,
      stage,
      now,
      λ h.
          let same = ap (sevens result k) (first result h) ∙ sevens-revealed result k 4100 1 h in
          let (hidden, at_once) = gone result (4100 + 2600 * k) (1 + k) in
          (
            ap (λ s. s.stage) same,
            ap (λ s. s.outcomes) same,
            ap (λ s. s.now) same,
            ap (λ s. (run true result 1 s).stage) same ∙ hidden,
            ap (λ s. (run true result 1 s).now) same ∙ at_once ∙ sym (ap (λ s. s.now) same),
          ),
    )

abbrev emptied : State → State
emptied s = record s { timers = [] }
