-- ===== src/Ads/Counting.antt =====
-- How the matches are counted, and when the interstitial is shown.
use ki_clash.Common.{
  ap, ◌∙◌, ℕ, zero, suc, ◌+◌, ◌%◌, ◌≡◌, refl, Bool, true, false, eqb, arith, List, [], ◌∷◌, ◌++◌,
}
use ki_clash.Ads.{
  on_match_end, dismiss_interstitial, Page, Event, match_ends, plays_again, toggles_mute, dismisses,
  on_event, run,
}

-- The runs of the effect that count: each end of a match, and each toggle of the sound while a match's
-- result is shown.
abbrev pub counted_runs : Bool → List Event → ℕ
counted_runs at_end [] = 0
counted_runs at_end (match_ends ∷ es) = suc (counted_runs true es)
counted_runs at_end (plays_again ∷ es) = counted_runs false es
counted_runs true (toggles_mute ∷ es) = suc (counted_runs true es)
counted_runs false (toggles_mute ∷ es) = counted_runs false es
counted_runs at_end (dismisses ∷ es) = counted_runs at_end es

step_counts :
    (e : Event) (es : List Event) (p : Page)
    → p.ads.ad_free ≡ false
    → ((on_event e p).ads.ad_free ≡ false)
      × ((on_event e p).ads.match_count + counted_runs (on_event e p).at_end es
          ≡ p.ads.match_count + counted_runs p.at_end (e ∷ es))
unfolding on_event on_match_end dismiss_interstitial
step_counts e es p h = ground arith

-- Without an ad-free pass, the count of matches grows by one for each end of a match, and also for
-- each time that the sound is toggled while a match's result is shown.
pub match_count_counts_runs :
    (es : List Event) (p : Page)
    → p.ads.ad_free ≡ false
    → (run es p).ads.match_count ≡ p.ads.match_count + counted_runs p.at_end es
unfolding run
match_count_counts_runs [] p h = omega arith
match_count_counts_runs (e ∷ es) p h =
    let (free, grown) = step_counts e es p h in
    omega (arith, match_count_counts_runs es (on_event e p) free, grown)

ad_free_step :
    (e : Event) (p : Page)
    → p.ads.ad_free ≡ true
    → p.ads.show_interstitial ≡ false
    → (on_event e p).ads ≡ p.ads
unfolding on_event on_match_end dismiss_interstitial
ad_free_step e p h k = ground arith

-- With an ad-free pass, and no interstitial shown, no event shows an interstitial or counts a
-- match.
pub ad_free_never_shows :
    (es : List Event) (p : Page)
    → p.ads.ad_free ≡ true
    → p.ads.show_interstitial ≡ false
    → (run es p).ads ≡ p.ads
unfolding run
ad_free_never_shows [] p h k = refl
ad_free_never_shows (e ∷ es) p h k =
    let same = ad_free_step e p h k in
    ad_free_never_shows es (on_event e p) (ap (λ a. a.ad_free) same ∙ h)
      (ap (λ a. a.show_interstitial) same ∙ k)
    ∙ same

-- Matches played to their end one after the other, each interstitial dismissed.
abbrev pub matches : ℕ → List Event
matches zero = []
matches (suc n) = match_ends ∷ dismisses ∷ plays_again ∷ matches n

one_match :
    (p : Page)
    → p.ads.ad_free ≡ false
    → ((run (matches 1) p).ads.ad_free ≡ false)
      × ((run (matches 1) p).ads.show_interstitial ≡ false)
      × ((run (matches 1) p).ads.match_count ≡ suc p.ads.match_count)
unfolding run on_event on_match_end dismiss_interstitial
one_match p h = ground arith

last_match :
    (p : Page)
    → p.ads.ad_free ≡ false
    → p.ads.show_interstitial ≡ false
    → (run (match_ends ∷ []) p).ads.show_interstitial ≡ eqb (suc p.ads.match_count % 2) 0
unfolding run on_event on_match_end
last_match p h k = ground arith

-- Matches played one after the other without an ad-free pass, each interstitial dismissed and the
-- sound not toggled: exactly every second match ends with an interstitial.
pub interstitial_every_second :
    (n : ℕ) (p : Page)
    → p.ads.ad_free ≡ false
    → p.ads.show_interstitial ≡ false
    → (run (matches n ++ match_ends ∷ []) p).ads.show_interstitial
      ≡ eqb ((p.ads.match_count + suc n) % 2) 0
unfolding run
interstitial_every_second zero p h k = ground (arith, last_match p h k)
interstitial_every_second (suc n) p h k =
    let (free, hidden, counted) = one_match p h in
    interstitial_every_second n (run (matches 1) p) free hidden
    ∙ ap (λ m. eqb (m % 2) 0) (omega (arith, counted))

-- Toggling the sound once while a match's result is shown brings the interstitial of the next match
-- already: after an even number of matches, one more shows none, and the toggle then shows it.
pub mute_shows_early :
    (p : Page)
    → p.ads.ad_free ≡ false
    → p.ads.match_count % 2 ≡ 0
    → p.ads.show_interstitial ≡ false
    → ((run (match_ends ∷ []) p).ads.show_interstitial ≡ false)
      × ((run (match_ends ∷ toggles_mute ∷ []) p).ads.show_interstitial ≡ true)
unfolding run on_event on_match_end
mute_shows_early p h k l = ground arith
