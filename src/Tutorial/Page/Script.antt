-- ===== src/Tutorial/Page/Script.antt =====
-- The page of web/src/app/tutorial/page.tsx leaves the player one way through the lesson.
use ki_clash.Common.{
  ℕ, zero, suc, ◌<◌, ◌%◌, ◌≡◌, refl, arith, true, eqb, List, [], ◌∷◌, get_elem?, get_or_else, sym,
  ap, ◌∙◌,
}
use ki_clash.Api.Types.{charge, block, attack, energy_wave, teleport}
use ki_clash.Tutorial.{
  complete, State, initial, start_tutorial, submit_action, continue_from_reveal,
  continue_from_explanation, restart,
}
use ki_clash.Tutorial.Page.{
  Click, starts, reveals, explains, restarts, card, card_enabled, is_enabled, click,
}

-- The states that `n` clicks on what is enabled can lead to.
pub data Reach : ℕ → State → Type 0 where
  opened : Reach 0 initial
  next :
      {n : ℕ} {s : State}
      → Reach n s
      → (c : Click) → is_enabled c s ≡ true
      → Reach (suc n) (click c s)

-- The clicks of the lesson, and the one that leads back to its start.
abbrev pub script : List Click
script =
    starts
    ∷ card charge
    ∷ reveals
    ∷ explains
    ∷ card attack
    ∷ reveals
    ∷ explains
    ∷ card block
    ∷ reveals
    ∷ explains
    ∷ restarts
    ∷ []

abbrev pub only : ℕ → Click
only k = get_or_else (get_elem? script k) starts

abbrev pub run : List Click → ℕ → State → State
run [] k s = s
run (c ∷ cs) zero s = s
run (c ∷ cs) (suc k) s = run cs k (click c s)

-- The state after the first `k` clicks of the script.
abbrev pub stop : ℕ → State
stop k = run script k initial

abbrev pub code : Click → ℕ
code starts = 0
code reveals = 1
code explains = 2
code restarts = 3
code (card charge) = 4
code (card block) = 5
code (card attack) = 6
code (card energy_wave) = 7
code (card teleport) = 8

abbrev pub OnlyOne : Click → State → Type 0
OnlyOne d s = (c : Click) → is_enabled c s ≡ eqb (code c) (code d)

-- What can happen after `k` clicks of the script.
abbrev AlongAt : ℕ → Type 0
AlongAt k = OnlyOne (only k) (stop k) × (click (only k) (stop k) ≡ stop (suc k % 11))

along : (k : ℕ) → k < 11 → AlongAt k
unfolding is_enabled click start_tutorial card_enabled submit_action continue_from_reveal
    continue_from_explanation restart
along zero h = (λ c. ground arith, refl)
along (suc zero) h = (λ c. ground arith, refl)
along (suc (suc zero)) h = (λ c. ground arith, refl)
along (suc (suc (suc zero))) h = (λ c. ground arith, refl)
along (suc (suc (suc (suc zero)))) h = (λ c. ground arith, refl)
along (suc (suc (suc (suc (suc zero))))) h = (λ c. ground arith, refl)
along (suc (suc (suc (suc (suc (suc zero)))))) h = (λ c. ground arith, refl)
along (suc (suc (suc (suc (suc (suc (suc zero))))))) h = (λ c. ground arith, refl)
along (suc (suc (suc (suc (suc (suc (suc (suc zero)))))))) h = (λ c. ground arith, refl)
along (suc (suc (suc (suc (suc (suc (suc (suc (suc zero))))))))) h = (λ c. ground arith, refl)
along (suc (suc (suc (suc (suc (suc (suc (suc (suc (suc zero)))))))))) h = (λ c. ground arith, refl)
along (suc (suc (suc (suc (suc (suc (suc (suc (suc (suc (suc n))))))))))) h = absurd (omega arith)

abbrev coded : ℕ → Click
coded n =
    get_or_else
      (get_elem?
        (starts
          ∷ reveals
          ∷ explains
          ∷ restarts
          ∷ card charge
          ∷ card block
          ∷ card attack
          ∷ card energy_wave
          ∷ card teleport
          ∷ [])
        n)
      starts

coded-code : (c : Click) → coded (code c) ≡ c
coded-code c = ground arith

same_click : (c d : Click) → eqb (code c) (code d) ≡ true → c ≡ d
same_click c d h =
    let e : code c ≡ code d = ground arith in sym (coded-code c) ∙ ap coded e ∙ coded-code d

same_code : (n : ℕ) → eqb n n ≡ true
same_code n = ground arith

wraps : (n : ℕ) → suc (n % 11) % 11 ≡ suc n % 11
wraps n = omega arith

below : (n : ℕ) → n % 11 < 11
below n = omega arith

stays : {n : ℕ} {s : State} → Reach n s → s ≡ stop (n % 11)
stays opened = refl
stays (next {n} {s} r c h) =
    let at = along (n % 11) (below n) in
    let e : s ≡ stop (n % 11) = stays r in
    let d : c ≡ only (n % 11) = same_click c _ (sym (at.0 c) ∙ ap (is_enabled c) (sym e) ∙ h) in
    ap (λ c'. click c' s) d ∙ ap (click (only (n % 11))) e ∙ at.1 ∙ ap stop (wraps n)

completes : (k : ℕ) → k ≡ 10 → (stop k).phase ≡ complete
unfolding click start_tutorial submit_action continue_from_reveal continue_from_explanation restart
completes k h = rw h refl

-- The page of the tutorial leaves one way through the lesson: after any number of clicks on what is
-- enabled, exactly one button or card is enabled, that of the script of eleven clicks, whose last
-- starts it again, and the hook is where the script has it, so that every tenth of eleven clicks
-- completes the lesson.
pub page_follows_script :
    (n : ℕ) (s : State)
    → Reach n s
    → (s ≡ stop (n % 11))
      × (is_enabled (only (n % 11)) s ≡ true)
      × ((c : Click) → is_enabled c s ≡ true → c ≡ only (n % 11))
      × (n % 11 ≡ 10 → s.phase ≡ complete)
page_follows_script n s r =
    let at = along (n % 11) (below n) in
    let e = stays r in
    (
      e,
      ap (is_enabled (only (n % 11))) e ∙ at.0 (only (n % 11)) ∙ same_code _,
      λ c h. same_click c _ (sym (at.0 c) ∙ ap (is_enabled c) (sym e) ∙ h),
      λ q. ap (λ s'. s'.phase) e ∙ completes (n % 11) q,
    )
