-- ===== src/Analytics.antt =====
-- web/src/lib/analytics.ts: the event that the client reports, and what it stores in the browser.
pub mod Laws
pub mod Campaign
pub mod Route
use ki_clash.Common.{
  String, Bool, true, false, not, ◌&&◌, Option, none, some, List, [], ◌∷◌, ◌==◌, is_truthy, or_else,
  if◌then◌else◌,
}
use ki_clash.Common.Text.{◌<>◌}
use ki_clash.Common.Json.{Json, null, str, obj, str_or_null, fields}
use ki_clash.Common.Objects
use ki_clash.Api.Storage.{Storage, put}

pub data EventName : Type 0 where
  page_view landing_view promo_link_opened promo_cta_clicked promo_link_copied : EventName
  return_next_day difficulty_selected play_start action_submitted match_finish : EventName
  pvp_quick_match_started pvp_room_created pvp_room_joined pvp_match_started : EventName
  invite_copied shop_view founder_pass_checkout_started founder_pass_checkout_failed : EventName
  founder_pass_checkout_success : EventName

abbrev pub event_text : EventName → String
event_text page_view = "page_view"
event_text landing_view = "landing_view"
event_text promo_link_opened = "promo_link_opened"
event_text promo_cta_clicked = "promo_cta_clicked"
event_text promo_link_copied = "promo_link_copied"
event_text return_next_day = "return_next_day"
event_text difficulty_selected = "difficulty_selected"
event_text play_start = "play_start"
event_text action_submitted = "action_submitted"
event_text match_finish = "match_finish"
event_text pvp_quick_match_started = "pvp_quick_match_started"
event_text pvp_room_created = "pvp_room_created"
event_text pvp_room_joined = "pvp_room_joined"
event_text pvp_match_started = "pvp_match_started"
event_text invite_copied = "invite_copied"
event_text shop_view = "shop_view"
event_text founder_pass_checkout_started = "founder_pass_checkout_started"
event_text founder_pass_checkout_failed = "founder_pass_checkout_failed"
event_text founder_pass_checkout_success = "founder_pass_checkout_success"

-- `AnalyticsProperties`; a key whose value is undefined is left out.
abbrev pub Properties : Type 0
Properties = List (String × Json)

abbrev pub session_key : String
session_key = "jjan_analytics_session_id"

abbrev pub last_visit_key : String
last_visit_key = "jjan_last_visit_date"

abbrev pub campaign_keys : List String
campaign_keys = "promo" ∷ "ref" ∷ "utm_source" ∷ "utm_medium" ∷ "utm_campaign" ∷ "utm_content" ∷ []

-- What the browser tells the page while one event is reported: the address, the referrer, the
-- clock, a fresh identifier (of `crypto.randomUUID` or of the clock and a random number), and
-- whether `sendBeacon` exists and accepts the data.
pub record Browser : Type 0 where
  pub pathname : String
  pub search : String
  pub params : List (String × String)
  pub referrer : String
  pub now : String
  pub today : String
  pub fresh_id : String
  pub has_beacon : Bool
  pub beacon_accepts : Bool

-- A report as it leaves the page.
pub data Delivery : Type 0 where
  beacon : Json → Delivery
  post : Json → Delivery

-- `getSessionId`: the identifier, and the storage after it.
unfoldable pub get_session_id : Browser → Storage → String × Storage
get_session_id b st =
    if is_truthy (st session_key)
    then (or_else (st session_key) "", st)
    else (b.fresh_id, put session_key b.fresh_id st)

-- The loop of `currentCampaignProperties`.
campaign_from : List String → Browser → Properties → Properties
campaign_from [] b values = values
campaign_from (key ∷ keys) b values = campaign_from keys b (
    let value = Objects.get key b.params in
    if is_truthy value then Objects.put key (str (or_else value "")) values else values)

unfoldable pub current_campaign_properties : Browser → Properties
unfolding campaign_from
current_campaign_properties b = campaign_from campaign_keys b []

-- The properties of the payload.
unfoldable pub payload_properties : Browser → Properties → Properties
payload_properties b properties = Objects.assign (current_campaign_properties b) properties

unfoldable pub build_payload : Browser → EventName → Properties → String → Option String → Json
build_payload b event properties session player = obj (
    fields (
      ("event", str (event_text event))
      ∷ ("properties", obj (fields (payload_properties b properties)))
      ∷ ("session_id", str session)
      ∷ ("player_id", str_or_null player)
      ∷ ("path", str (b.pathname <> b.search))
      ∷ ("referrer", if b.referrer == "" then null else str b.referrer)
      ∷ ("timestamp", str b.now)
      ∷ []))

-- A beacon first; a request where there is no beacon, or it is not accepted.
unfoldable pub deliver : Browser → Json → List Delivery
deliver b body =
    if b.has_beacon
    then (if b.beacon_accepts then beacon body ∷ [] else beacon body ∷ post body ∷ [])
    else post body ∷ []

-- `trackEvent`; outside a browser it does nothing.
unfoldable pub track_event :
    Browser → EventName → Properties → Option Storage → List Delivery × Option Storage
track_event b event properties none = ([], none)
track_event b event properties (some st) =
    let (session, st') = get_session_id b st in
    (deliver b (build_payload b event properties session (st' "ki_clash_player_id")), some st')

visited_on : String → List Delivery × Option Storage → List Delivery × Option Storage
visited_on today (sent, none) = (sent, none)
visited_on today (sent, some st) = (sent, some (put last_visit_key today st))

-- `trackDailyReturn`.
unfoldable pub track_daily_return : Browser → Option Storage → List Delivery × Option Storage
unfolding visited_on
track_daily_return b none = ([], none)
track_daily_return b (some st) =
    let previous = st last_visit_key in
    visited_on b.today (
      if is_truthy previous && not (or_else previous "" == b.today)
      then track_event b return_next_day (("previous_visit_date", str_or_null previous) ∷ [])
          (some st)
      else ([], some st))
