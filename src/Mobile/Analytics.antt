-- ===== src/Mobile/Analytics.antt =====
-- mobile/src/lib/analytics.ts: the events that the app reports, with the session's identifier in the
-- secure store. What is thrown is caught there, so a report ends or is never sent.
pub mod Reports
use ki_clash.Common.{String, Option, none, some, List, [], ◌∷◌, is_truthy, or_else, if◌then◌else◌}
use ki_clash.Common.Text.{◌<>◌}
use ki_clash.Common.Json.{Json, null, str, obj, str_or_null, fields}
use ki_clash.Common.Objects
use ki_clash.Analytics.{Properties}
use ki_clash.Mobile.Api.{SecureStore}

abbrev pub session_key : String
session_key = "jjan_analytics_session_id"

-- EXPO_PUBLIC_WEB_URL of the build, and for one report the time, and the identifier that is made of it
-- and a random number.
pub record Phone : Type 0 where
  pub web_url : Option String
  pub now : String
  pub fresh_id : String

unfoldable pub web_base : Phone → String
web_base phone = or_else phone.web_url "https://jjan.daeseon.ai"

-- The properties of a report, in which the app's own is the last.
abbrev pub with_client : Properties → Properties
with_client properties = Objects.put "client" (str "mobile") properties

unfoldable pub report_body : Phone → String → Properties → String → Option String → Json
report_body phone event properties session player = obj (
    fields (
      ("event", str event)
      ∷ ("properties", obj (fields (with_client properties)))
      ∷ ("session_id", str session)
      ∷ ("player_id", str_or_null player)
      ∷ ("path", str "mobile")
      ∷ ("referrer", null)
      ∷ ("timestamp", str phone.now)
      ∷ []))

module _ (secure : SecureStore) where
  -- The identifier, and the store after it.
  unfoldable pub get_session_id : Phone → secure.Store → String × secure.Store
  get_session_id phone st =
      let existing = secure.get_item session_key st in
      if is_truthy existing
      then (or_else existing "", st)
      else (phone.fresh_id, secure.set_item session_key phone.fresh_id st)

  -- The address and the body of the request, and the store after it.
  unfoldable pub track_event :
      Phone → String → Properties → secure.Store → (String × Json) × secure.Store
  unfolding get_session_id report_body web_base
  track_event phone event properties st =
      let (session, after) = get_session_id phone st in
      let player = secure.get_item "ki_clash_player_id" st in
      (
        (
          web_base phone <> "/api/analytics/events",
          report_body phone event properties session player,
        ),
        after,
      )
