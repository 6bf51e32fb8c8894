-- ===== src/Ads.antt =====
-- web/src/hooks/useAdTiming.ts, and the effect of web/src/app/play/page.tsx that calls onMatchEnd: it
-- runs again whenever one of its dependencies changes, among them `play`, which toggling the sound
-- makes anew, and `onMatchEnd`.
pub mod Counting
use ki_clash.Common.{ℕ, ◌+◌, ◌%◌, Bool, true, false, not, eqb, List, [], ◌∷◌, if◌then◌else◌}
use ki_clash.Api.Types.{AdFreeStatus}
use ki_clash.Api.Storage.{Result, ok, thrown, exhausted, World}
use ki_clash.Api.Client.{Network, ensure_auth}
use ki_clash.Api.Calls.{get_ad_free_status}
use ki_clash.Api.Storage.{Api, ◌>>=◌, ◌>>◌, pure}

pub record AdTiming : Type 0 where
  pub show_interstitial : Bool
  pub ad_free : Bool
  pub match_count : ℕ

unfoldable pub initial : AdTiming
initial = record { show_interstitial = false; ad_free = false; match_count = 0 }

abbrev pub show_ads : AdTiming → Bool
show_ads s = not s.ad_free

unfoldable pub on_match_end : AdTiming → AdTiming
on_match_end s =
    if s.ad_free
    then s
    else let counted = record s { match_count = s.match_count + 1 } in
      if eqb (counted.match_count % 2) 0
      then record counted { show_interstitial = true }
      else counted

unfoldable pub dismiss_interstitial : AdTiming → AdTiming
dismiss_interstitial s = record s { show_interstitial = false }

-- `check`, after its calls: a failure leaves the state.
unfoldable pub checked : Result AdFreeStatus → AdTiming → AdTiming
checked (ok status) s = record s { ad_free = status.ad_free }
checked (thrown e) s = s
checked exhausted s = s

module _ (net : Network) where
  pub check : Api AdFreeStatus
  check = do ensure_auth net; get_ad_free_status net

  -- The check on mount, run to its end.
  pub run_check : AdTiming → World → AdTiming
  run_check s w = checked (check w).0 s

-- The page, as far as the effect reads it: whether a match's result is shown, and the mute flag.
pub record Page : Type 0 where
  pub ads : AdTiming
  pub at_end : Bool
  pub muted : Bool

-- The effect's body.
abbrev pub run_effect : Page → Page
run_effect p = if p.at_end then record p { ads = on_match_end p.ads } else p

pub data Event : Type 0 where
  match_ends plays_again toggles_mute dismisses : Event

-- An event, and the effect where a dependency changes.
unfoldable pub on_event : Event → Page → Page
on_event match_ends p = run_effect (record p { at_end = true })
on_event plays_again p = run_effect (record p { at_end = false })
on_event toggles_mute p = run_effect (record p { muted = not p.muted })
on_event dismisses p = record p { ads = dismiss_interstitial p.ads }

unfoldable pub run : List Event → Page → Page
run [] p = p
run (e ∷ es) p = run es (on_event e p)
