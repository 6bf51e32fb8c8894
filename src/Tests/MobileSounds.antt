-- ===== src/Tests/MobileSounds.antt =====
-- A sound of mobile/src/hooks/useSoundEffects.ts, and a report of mobile/src/lib/analytics.ts.
use Prim.{tt}
use ki_clash.Common.{
  ℕ, ◌≡◌, refl, arith, all, String, true, Option, none, some, List, [], ◌∷◌, length, All, ◌==◌,
  if◌then◌else◌,
}
use ki_clash.Common.Integers.{ℤ, pos, negsuc, ◌+ℤ◌}
use ki_clash.Common.Json.{Json, num, str}
use ki_clash.Analytics.Route.{accepted, post, get_field, is_event}
use ki_clash.Mobile.Sounds.{mix_samples, pcm_to_wav, sample_rate}
use ki_clash.Mobile.Sounds.Wave.{read_wav, wav_reads_back}
use ki_clash.Mobile.Sounds.Mixing.{IsAmplitude, longer, sample_at, mix_samples_bounded}
use ki_clash.Mobile.Analytics.{Phone, track_event, get_session_id}
use ki_clash.Mobile.Analytics.Reports.{logged, mobile_report_accepted}
use ki_clash.Tests.MobileApi.{texts, empty}
use ki_clash.Tests.Route.{header}

abbrev tone : List ℤ
tone = pos 30000 ∷ negsuc 20000 ∷ pos 5 ∷ []

abbrev noise : List ℤ
noise = pos 9000 ∷ negsuc 20000 ∷ []

mixed : mix_samples tone noise ≡ pos 32767 ∷ negsuc 32766 ∷ pos 5 ∷ []
unfolding mix_samples
mixed = refl

wav_example : read_wav (pcm_to_wav tone) ≡ some (sample_rate, tone)
wav_example = wav_reads_back tone (omega arith, (omega arith, (omega arith, tt))) (omega arith)

mix_example :
    All IsAmplitude (mix_samples tone noise)
    × (length (mix_samples tone noise) ≡ longer (length tone) (length noise))
    × (mix_samples tone noise ≡ mix_samples noise tone)
    × ((i : ℕ)
        → IsAmplitude (sample_at tone i +ℤ sample_at noise i)
        → sample_at (mix_samples tone noise) i ≡ sample_at tone i +ℤ sample_at noise i)
mix_example = mix_samples_bounded tone noise

-- The events that the app reports.
abbrev mobile_events : List String
mobile_events =
    "mobile_ws_game_open" ∷ "mobile_ws_game_close" ∷ "mobile_ws_game_error"
    ∷ "mobile_ws_matchmaking_open" ∷ "mobile_ws_matchmaking_close" ∷ "mobile_ws_matchmaking_error"
    ∷ "mobile_matchmaking_timeout" ∷ "mobile_pvp_error" ∷ "mobile_room_error" ∷ "pvp_room_created"
    ∷ "pvp_room_joined" ∷ "pvp_match_started" ∷ "pvp_quick_match_started" ∷ "play_start"
    ∷ "action_submitted" ∷ "match_finish" ∷ "invite_copied" ∷ []

events_valid : all is_event mobile_events ≡ true
unfolding is_event
events_valid = refl

abbrev phone : Phone
phone = record { web_url = none; now = "2026-01-05T10:00:00Z"; fresh_id = "1-abc" }

abbrev parse : String → Option Json
parse raw =
    if raw == "report"
    then some
        (track_event texts phone "mobile_ws_game_close" (("code", num 1006) ∷ []) empty.store).0.1
    else none

report_example :
    (post parse header "report"
      ≡ accepted (
          logged header phone "mobile_ws_game_close"
            (("code", num 1006) ∷ [])
            (get_session_id texts phone empty.store).0
            none))
    × (get_field "client"
          (logged header phone "mobile_ws_game_close"
            (("code", num 1006) ∷ [])
            (get_session_id texts phone empty.store).0
            none).properties
        ≡ some (str "mobile"))
unfolding is_event
report_example =
    mobile_report_accepted texts phone empty.store parse header "report" "mobile_ws_game_close"
      (("code", num 1006) ∷ []) refl (omega arith) refl
