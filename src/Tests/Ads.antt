-- ===== src/Tests/Ads.antt =====
-- The advertisements of the web client over a few matches.
use ki_clash.Common.{◌≡◌, refl, true, false, [], ◌∷◌}
use ki_clash.Ads.{initial, Page, match_ends, toggles_mute, run}
use ki_clash.Ads.Counting.{mute_shows_early}

abbrev fresh : Page
fresh = record { ads = initial; at_end = false; muted = false }

abbrev free : Page
free = record fresh { ads = record initial { ad_free = true } }

mute_example :
    ((run (match_ends ∷ []) fresh).ads.show_interstitial ≡ false)
    × ((run (match_ends ∷ toggles_mute ∷ []) fresh).ads.show_interstitial ≡ true)
unfolding initial
mute_example = mute_shows_early fresh refl refl refl
