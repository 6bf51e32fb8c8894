-- ===== src/Analytics/Laws.antt =====
-- What a reported event carries, and when a daily return is reported.
use ki_clash.Common.{
  ◌⊎◌, ◌↔◌, Option-cases, ◌≡◌, ◌≢◌, refl, String, none, some, [], arith, ◌==◌, eq_iff, is_truthy,
  or_else, or_none, not, ◌&&◌, inl, inr, Bool-cases,
}
use ki_clash.Common.Objects
use ki_clash.Api.Storage.{Storage, put}
use ki_clash.Analytics.{
  current_campaign_properties, Properties, Properties, Browser, last_visit_key, get_session_id,
  current_campaign_properties, payload_properties, deliver, track_event, track_daily_return,
}

-- The properties given with an event win over the campaign's; the campaign's others stay.
pub payload_properties-get :
    (b : Browser) (properties : Properties) (k : String)
    → Objects.get k (payload_properties b properties)
      ≡ or_none (Objects.last k properties) (Objects.get k (current_campaign_properties b))
unfolding payload_properties
payload_properties-get b properties k =
    Objects.get-assign k (current_campaign_properties b) properties

-- Once an event has been reported, later events carry the same session identifier, and store
-- nothing new, if the browser's fresh identifiers are not empty.
pub get_session_id_stable :
    (b b' : Browser) (st : Storage)
    → b.fresh_id ≢ ""
    → get_session_id b' (get_session_id b st).1 ≡ get_session_id b st
unfolding get_session_id
get_session_id_stable b b' st h = ground (arith, eq_iff b.fresh_id "")

visit_is_stored :
    (b : Browser) (st : Storage)
    → (st' : Storage) × ((track_daily_return b (some st)).1 ≡ some (put last_visit_key b.today st'))
unfolding track_daily_return track_event
visit_is_stored b st =
    elim (Bool-cases
      (is_truthy (st last_visit_key) && not (or_else (st last_visit_key) "" == b.today))) [
        | inl back ↦ ((get_session_id b st).1, rw back refl)
        | inr same ↦ (st, rw same refl)
      ]

same_day_sends_nothing :
    (b : Browser) (day : String) (st : Storage)
    → day ≡ b.today
    → (track_daily_return b (some (put last_visit_key day st))).0 ≡ []
unfolding track_daily_return track_event
same_day_sends_nothing b day st h = ground (arith, eq_iff day b.today)

-- On one day a return is reported at most once: after one visit, another visit on that day sends
-- nothing.
pub track_daily_return_once :
    (b b' : Browser) (st : Storage)
    → b.today ≡ b'.today
    → (track_daily_return b' (track_daily_return b (some st)).1).0 ≡ []
track_daily_return_once b b' st h =
    let (st', stored) = visit_is_stored b st in rw stored (same_day_sends_nothing b' b.today st' h)

-- A visit sends no report exactly when no day is stored, or the empty text, or today.
pub track_daily_return_reports :
    (b : Browser) (st : Storage)
    → ((track_daily_return b (some st)).0 ≡ []) ↔ (
        (st last_visit_key ≡ none)
        ⊎ (st last_visit_key ≡ some "")
        ⊎ (st last_visit_key ≡ some b.today))
unfolding track_daily_return track_event deliver
track_daily_return_reports b st = elim (Option-cases (st last_visit_key)) [
  | inl first ↦ (λ h. inl first, λ h. rw first refl)
  | inr (day, h) ↦ (
    λ q. ground (arith, eq_iff day "", eq_iff day b.today),
    λ q. ground (arith, eq_iff day "", eq_iff day b.today),
  )
]
