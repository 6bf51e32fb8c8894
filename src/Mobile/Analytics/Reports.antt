-- ===== src/Mobile/Analytics/Reports.antt =====
-- The reports of mobile/src/lib/analytics.ts, as web/src/app/api/analytics/events/route.ts takes them.
use ki_clash.Common.{
  ap, sym, ◌∙◌, Bool-cases, inl, inr, eq_iff, ◌≡◌, ◌≤◌, refl, arith, String, true, false, Option,
  some, [], ◌∷◌, ◌==◌, get_or_else, if◌then◌else◌,
}
use ki_clash.Common.Codes.{slice, text_length, slice_fixes}
use ki_clash.Common.Json.{Json, str, fields, str_or_null}
use ki_clash.Common.Objects
use ki_clash.Analytics.{Properties}
use ki_clash.Analytics.Route.{
  Headers, accepted, Payload, payload, as_string, client_ip, get_field, take_report, take_event,
  post, max_body_bytes, is_event,
}
use ki_clash.Analytics.Route.Reports.{short_enough}
use ki_clash.Mobile.Api.{SecureStore}
use ki_clash.Mobile.Analytics.{Phone, with_client, report_body, track_event, get_session_id}

-- What is logged of a report of the app.
abbrev pub logged : Headers → Phone → String → Properties → String → Option String → Payload
logged header phone event properties session player = record {
  event = event;
  properties = fields (with_client properties);
  session_id = slice 300 session;
  player_id = as_string (some (str_or_null player));
  path = "mobile";
  referrer = "";
  timestamp = slice 300 phone.now;
  ip_hash_source = if client_ip header == "" then "missing" else "present";
  user_agent = slice 180 (get_or_else (header "user-agent") "");
}

event_length : (s : String) → is_event s ≡ true → text_length s ≤ 300
unfolding is_event
event_length s h = ground (arith, h)

event_full : (s : String) → is_event s ≡ true → (s == "") ≡ false
unfolding is_event
event_full s h = elim (Bool-cases (s == "")) [
  | inl e ↦ cc (sym h ∙ ap is_event ((eq_iff s "").0 e))
  | inr e ↦ e
]

report_taken :
    (header : Headers) (phone : Phone) (event : String) (properties : Properties) (session : String)
    (player : Option String)
    → is_event event ≡ true
    → take_report header (report_body phone event properties session player)
      ≡ accepted (logged header phone event properties session player)
unfolding take_report take_event payload report_body slice
report_taken header phone event properties session player h =
    rw (slice_fixes 300 event (event_length event h), event_full event h, h) refl

fields-get : (k : String) (o : Properties) → get_field k (fields o) ≡ Objects.get k o
unfolding Objects.get
fields-get k [] = refl
fields-get k ((j, v) ∷ o) = rw (fields-get k o) refl

client_logged :
    (properties : Properties)
    → get_field "client" (fields (with_client properties)) ≡ some (str "mobile")
client_logged properties =
    fields-get "client" (with_client properties)
    ∙ Objects.get-put "client" "client" (str "mobile") properties
    ∙ refl

-- A report of the mobile client, of any event of 2 to 80 of the characters that the route allows,
-- is accepted by the route if its text is within the limit and parses to what the client built, and
-- what is logged names the client mobile, whatever properties were given.
pub mobile_report_accepted :
    (secure : SecureStore) (phone : Phone) (st : secure.Store) (parse : String → Option Json)
    (header : Headers) (raw event : String) (properties : Properties)
    → is_event event ≡ true
    → text_length raw ≤ max_body_bytes
    → parse raw ≡ some (track_event secure phone event properties st).0.1
    → (post parse header raw
        ≡ accepted (
            logged header phone event properties
              (get_session_id secure phone st).0
              (secure.get_item "ki_clash_player_id" st)))
      × (get_field "client"
            (logged header phone event properties
              (get_session_id secure phone st).0
              (secure.get_item "ki_clash_player_id" st)).properties
          ≡ some (str "mobile"))
unfolding post track_event
mobile_report_accepted secure phone st parse header raw event properties h short e = (
  rw (short_enough (text_length raw) short, e) (report_taken header phone event properties _ _ h),
  client_logged properties,
)
