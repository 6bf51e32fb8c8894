-- ===== src/Analytics/Route/Reports.antt =====
-- The reports that web/src/lib/analytics.ts sends, as the route
-- web/src/app/api/analytics/events/route.ts takes them.
use ki_clash.Common.{
  ℕ, Bool-cases, inl, inr, eq_iff, ◌≡◌, ◌≤◌, refl, arith, String, true, false, Option, some, ◌==◌,
  get_or_else, ltb, if◌then◌else◌,
}
use ki_clash.Common.Codes.{slice, text_length}
use ki_clash.Common.Json.{Json, null, str, fields, str_or_null}
use ki_clash.Common.Text.{◌<>◌}
use ki_clash.Analytics.{
  Browser, EventName, event_text, Properties, build_payload, payload_properties, page_view,
}
use ki_clash.Analytics.Route.{
  Headers, accepted, crashed, Payload, payload, as_string, client_ip, take_report, take_event, post,
  max_body_bytes, is_event,
}

-- What is logged of a report.
abbrev pub logged : Headers → Browser → EventName → Properties → String → Option String → Payload
logged header b event properties session player = record {
  event = event_text event;
  properties = fields (payload_properties b properties);
  session_id = slice 300 session;
  player_id = as_string (some (str_or_null player));
  path = slice 300 (b.pathname <> b.search);
  referrer = slice 300 b.referrer;
  timestamp = slice 300 b.now;
  ip_hash_source = if client_ip header == "" then "missing" else "present";
  user_agent = slice 180 (get_or_else (header "user-agent") "");
}

known_event :
    (event : EventName)
    → (slice 300 (event_text event) ≡ event_text event)
      × (is_event (event_text event) ≡ true)
      × ((event_text event == "") ≡ false)
unfolding slice is_event
known_event page_view = (refl, refl, refl)
known_event e = (refl, refl, refl)

pub short_enough : (n : ℕ) → n ≤ max_body_bytes → ltb max_body_bytes n ≡ false
short_enough n h = ground (arith, h)

referrer_text : (r : String) → as_string (some (if r == "" then null else str r)) ≡ slice 300 r
unfolding slice
referrer_text r = elim (Bool-cases (r == "")) [
  | inl e ↦ rw (e, (eq_iff r "").0 e) refl
  | inr e ↦ rw e refl
]

report_taken :
    (header : Headers) (b : Browser) (event : EventName) (properties : Properties)
    (session : String) (player : Option String)
    → take_report header (build_payload b event properties session player)
      ≡ accepted (logged header b event properties session player)
unfolding take_report take_event payload build_payload
report_taken header b event properties session player =
    let (whole, valid, full) = known_event event in
    rw (whole, full, valid, referrer_text b.referrer) refl

-- A report that the client builds, of any of its events, is accepted by the route if its text is
-- within the limit and parses to what the client built: the event and the properties are logged
-- whole, and the other texts up to their limits.
pub report_accepted :
    (parse : String → Option Json) (header : Headers) (raw : String) (b : Browser)
    (event : EventName) (properties : Properties) (session : String) (player : Option String)
    → text_length raw ≤ max_body_bytes
    → parse raw ≡ some (build_payload b event properties session player)
    → post parse header raw ≡ accepted (logged header b event properties session player)
unfolding post take_report
report_accepted parse header raw b event properties session player short e =
    rw (short_enough (text_length raw) short, e)
      (report_taken header b event properties session player)

-- A body within the limit that parses to null makes the route throw.
null_body_crashes :
    (parse : String → Option Json) (header : Headers) (raw : String)
    → text_length raw ≤ max_body_bytes
    → parse raw ≡ some null
    → post parse header raw ≡ crashed
unfolding post take_report take_event
null_body_crashes parse header raw short e = rw (short_enough (text_length raw) short, e) refl
