-- ===== src/Finale/Timers.antt =====
-- What the timers that are left to the end of a match, web/src/components/finale/MatchFinale.tsx, still do:
-- where their stages are the end of the schedule, they stay so.
use ki_clash.Common.{
  ℕ, zero, suc, ◌+◌, ◌-◌, ◌≤◌, ◌≡◌, refl, sym, ap, ◌∙◌, arith, Bool, true, false, List, [], ◌∷◌,
  map, ◌⊎◌, inl, inr, Bool-cases,
}
use mathlib.Core.Path.{subst}
use ki_clash.Finale.{
  Result, Stage, vignette, zoom, flash, shake, stats, State, run_effect, unseen, mount, bursts_of,
  is_shake, next_timer, run, wait,
}

-- The stages that the timers still set, which are a part of the schedule at its end.
abbrev pub stages_left : ℕ → List Stage
stages_left zero = []
stages_left (suc zero) = stats ∷ []
stages_left (suc (suc zero)) = shake ∷ stats ∷ []
stages_left (suc (suc (suc zero))) = flash ∷ shake ∷ stats ∷ []
stages_left (suc (suc (suc (suc zero)))) = zoom ∷ flash ∷ shake ∷ stats ∷ []
stages_left (suc (suc (suc (suc (suc n))))) = vignette ∷ zoom ∷ flash ∷ shake ∷ stats ∷ []

abbrev pub stages : List (ℕ × Stage) → List Stage
stages [] = []
stages ((d, stage) ∷ rest) = stage ∷ stages rest

-- No confetti yet, or that of one result.
abbrev pub AtMostOnce : State → Type 0
AtMostOnce s =
    ((s.has_fired ≡ false) × (s.bursts ≡ []))
    ⊎ ((s.has_fired ≡ true) × ((r : Result) × (s.bursts ≡ bursts_of r)))

pub record IsOn (k : ℕ) (s : State) : Type 0 where
  pub left : stages s.timers ≡ stages_left k
  pub once : AtMostOnce s
  pub late : k ≤ 1 → s.has_fired ≡ true
  pub over : k ≡ 0 → s.stage ≡ stats

stages-wait : (d : ℕ) (ts : List (ℕ × Stage)) → stages (map (wait d) ts) ≡ stages ts
stages-wait d [] = refl
stages-wait d ((e, stage) ∷ ts) = ap (λ rest. stage ∷ rest) (stages-wait d ts)

run_effect-timers : (r : Result) (s : State) → (run_effect r s).timers ≡ s.timers
unfolding run_effect
run_effect-timers r s = ground arith

run_effect-stage : (r : Result) (s : State) → (run_effect r s).stage ≡ s.stage
unfolding run_effect
run_effect-stage r s = ground arith

run_effect-shake : (r : Result) (s : State) → s.stage ≡ shake → (run_effect r s).has_fired ≡ true
unfolding run_effect
run_effect-shake r s h = ground arith

run_effect-keeps : (r : Result) (s : State) → s.has_fired ≡ true → (run_effect r s).has_fired ≡ true
unfolding run_effect
run_effect-keeps r s h = ground arith

run_effect-once : (r : Result) (s : State) → AtMostOnce s → AtMostOnce (run_effect r s)
unfolding run_effect
run_effect-once r s (inl (none_yet, empty)) = elim (Bool-cases (is_shake s.stage)) [
  | inl e ↦ rw (e, none_yet, empty) (inr (refl, (r, refl)))
  | inr e ↦ rw e (inl (none_yet, empty))
]
run_effect-once r s (inr (fired, burst)) = elim (Bool-cases (is_shake s.stage)) [
  | inl e ↦ rw (e, fired) (inr (refl, burst))
  | inr e ↦ rw e (inr (fired, burst))
]

pub run_effect-IsOn :
    (k : ℕ) (r : Result) (s : State)
    → stages s.timers ≡ stages_left k
    → AtMostOnce s
    → (k ≤ 1 → (s.has_fired ≡ true) ⊎ (s.stage ≡ shake))
    → (k ≡ 0 → s.stage ≡ stats)
    → IsOn k (run_effect r s)
run_effect-IsOn k r s left once late over = record {
  left = ap stages (run_effect-timers r s) ∙ left;
  once = run_effect-once r s once;
  late = λ q. elim (late q) [ inl e ↦ run_effect-keeps r s e | inr e ↦ run_effect-shake r s e ];
  over = λ q. run_effect-stage r s ∙ over q;
}

abbrev stage_at : ℕ → Stage
stage_at zero = stats
stage_at (suc zero) = shake
stage_at (suc (suc zero)) = flash
stage_at (suc (suc (suc zero))) = zoom
stage_at (suc (suc (suc (suc n)))) = vignette

first_left : (k : ℕ) → k ≤ 4 → stages_left (suc k) ≡ stage_at k ∷ stages_left k
first_left zero b = refl
first_left (suc zero) b = refl
first_left (suc (suc zero)) b = refl
first_left (suc (suc (suc zero))) b = refl
first_left (suc (suc (suc (suc zero)))) b = refl
first_left (suc (suc (suc (suc (suc n))))) b = absurd (omega arith)

same_first : (a b : Stage) (xs ys : List Stage) → a ∷ xs ≡ b ∷ ys → (a ≡ b) × (xs ≡ ys)
same_first a b xs ys h = (cc h, cc h)

none_left : (k : ℕ) → [] ≡ stages_left k → k ≡ 0
none_left zero h = refl
none_left (suc zero) h = cc h
none_left (suc (suc zero)) h = cc h
none_left (suc (suc (suc zero))) h = cc h
none_left (suc (suc (suc (suc zero)))) h = cc h
none_left (suc (suc (suc (suc (suc n))))) h = cc h

one_left :
    (j : ℕ) (stage : Stage) (fired : Bool)
    → j ≤ 1
    → stage ≡ stage_at j
    → (suc j ≤ 1 → fired ≡ true)
    → (fired ≡ true) ⊎ (stage ≡ shake)
one_left zero stage fired b e h = inl (h (omega arith))
one_left (suc zero) stage fired b e h = inr e
one_left (suc (suc n)) stage fired b e h = absurd (omega arith)

last_stage : (j : ℕ) (stage : Stage) → stage ≡ stage_at j → j ≡ 0 → stage ≡ stats
last_stage zero stage e h = e
last_stage (suc j) stage e h = absurd (omega arith)

-- The first of the timers takes one stage off, or there is none.
timer-IsOn :
    (k j : ℕ) (r : Result) (ts : List (ℕ × Stage)) (s : State)
    → k ≤ 5
    → j ≡ k - 1
    → s.timers ≡ ts
    → IsOn k s
    → IsOn j (elim ts [
      | [] ↦ s
      | (d, stage) ∷ rest ↦
          run_effect r (record s { stage = stage; timers = map (wait d) rest; now = s.now + d })
    ])
timer-IsOn k j r [] s b m e h =
    let none : k ≡ 0 = none_left k (sym (ap stages e) ∙ h.left) in
    let same : k ≡ j = omega arith in subst (λ i. IsOn i s) same h
timer-IsOn zero j r ((d, stage) ∷ rest) s b m e h = cc (sym (ap stages e) ∙ h.left)
timer-IsOn (suc i) j r ((d, stage) ∷ rest) s b m e h =
    let (first, others) =
      same_first stage (stage_at i) (stages rest) (stages_left i)
        (sym (ap stages e) ∙ h.left ∙ first_left i (omega arith)) in
    let same : i ≡ j = omega arith in
    let next = record s { stage = stage; timers = map (wait d) rest; now = s.now + d } in
    subst (λ k. IsOn k (run_effect r next)) same
      (run_effect-IsOn i r next (stages-wait d rest ∙ others) h.once
        (λ q. one_left i stage s.has_fired q first h.late) (last_stage i stage first))

pub next_timer-IsOn :
    (k j : ℕ) (r : Result) (s : State) → k ≤ 5 → j ≡ k - 1 → IsOn k s → IsOn j (next_timer r s)
unfolding next_timer
next_timer-IsOn k j r s b m h = timer-IsOn k j r s.timers s b m refl h

pub mount-IsOn : (r : Result) → IsOn 5 (mount r)
unfolding mount
mount-IsOn r =
    run_effect-IsOn 5 r (unseen r) refl (inl (refl, refl)) (λ q. absurd (omega arith))
      (λ q. absurd (omega arith))

pub run-IsOn :
    (n k j : ℕ) (r : Result) (s : State) → k ≤ 5 → j ≡ k - n → IsOn k s → IsOn j (run r n s)
unfolding run
run-IsOn zero k j r s b m h = let same : k ≡ j = omega arith in subst (λ i. IsOn i s) same h
run-IsOn (suc n) k j r s b m h =
    run-IsOn n (k - 1) j r (next_timer r s) (omega arith) (omega arith)
      (next_timer-IsOn k (k - 1) r s b refl h)
