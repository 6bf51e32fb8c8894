-- ===== src/Analytics/Route/Bounds.antt =====
-- What the route web/src/app/api/analytics/events/route.ts lets into the log.
use Prim.{tt}
use mathlib.Core.Path.{subst}
use ki_clash.Common.{
  ap, sym, ◌∙◌, ◌≡◌, ◌≤◌, refl, arith, String, Bool, true, false, Option, none, some, ◌==◌, not,
  ◌||◌, ltb, if◌then◌else◌,
}
use ki_clash.Common.Codes.{text_length, length-slice}
use ki_clash.Common.Json.{Json, null, str}
use ki_clash.Analytics.Route.{
  Headers, Outcome, refused, accepted, Payload, payload, as_string, member, is_event, read_member,
  take_event, take_report, post, max_body_bytes,
}

pub record IsBounded (p : Payload) : Type 0 where
  pub event : is_event p.event ≡ true
  pub session_id : text_length p.session_id ≤ 300
  pub player_id : text_length p.player_id ≤ 300
  pub path : text_length p.path ≤ 300
  pub referrer : text_length p.referrer ≤ 300
  pub timestamp : text_length p.timestamp ≤ 300
  pub user_agent : text_length p.user_agent ≤ 180

length-as_string : (o : Option Json) → text_length (as_string o) ≤ 300
length-as_string (some (str s)) = length-slice 300 s
length-as_string o = omega arith

payload-IsBounded :
    (header : Headers) (body : Json)
    → is_event (as_string (member "event" body)) ≡ true
    → IsBounded (payload header body)
unfolding payload
payload-IsBounded header body h = record {
  event = h;
  session_id = length-as_string (member "session_id" body);
  player_id = length-as_string (member "player_id" body);
  path = length-as_string (member "path" body);
  referrer = length-as_string (member "referrer" body);
  timestamp = length-as_string (member "timestamp" body);
  user_agent = length-slice 180 _;
}

abbrev is_accepted : Outcome → Bool
is_accepted (accepted p) = true
is_accepted _ = false

-- The branches that accept nothing were not taken.
not_taken :
    (b : Bool) (x y : Outcome) (p : Payload)
    → is_accepted x ≡ false
    → (if b then x else y) ≡ accepted p
    → (b ≡ false) × (y ≡ accepted p)
not_taken true x y p e h = (cc (e, ap is_accepted h), cc (e, ap is_accepted h))
not_taken false x y p e h = (refl, h)

is_event_of : (e : Bool) (n : Bool) → (e || not n) ≡ false → n ≡ true
is_event_of e n h = ground arith

same_payload : (q p : Payload) → accepted q ≡ accepted p → q ≡ p
same_payload q p h = cc h

read_value :
    (body : Json) (value : Option Json)
    → read_member "event" body ≡ some value
    → value ≡ member "event" body
read_value null value e = cc e
read_value body value e = cc e

take_event-IsBounded :
    (header : Headers) (body : Json) (read : Option (Option Json)) (p : Payload)
    → read_member "event" body ≡ read
    → take_event header body read ≡ accepted p
    → IsBounded p
unfolding take_event
take_event-IsBounded header body none p e h = cc h
take_event-IsBounded header body (some value) p e h =
    let (valid, done) =
      not_taken ((as_string value == "") || not (is_event (as_string value)))
        (refused 400 "invalid_event") _ p refl h in
    let same : value ≡ member "event" body = read_value body value e in
    subst IsBounded (same_payload _ p done) (
      payload-IsBounded header body
        (ap (λ v. is_event (as_string v)) (sym same) ∙ is_event_of _ _ valid))

take_report-IsBounded :
    (header : Headers) (body : Json) (p : Payload)
    → take_report header body ≡ accepted p
    → IsBounded p
unfolding take_report
take_report-IsBounded header body p h = take_event-IsBounded header body _ p refl h

after_parse :
    (o : Option Json) (header : Headers) (p : Payload)
    → elim o [ none ↦ refused 400 "invalid_json" | some body ↦ take_report header body ]
      ≡ accepted p
    → IsBounded p
after_parse none header p h = subst (λ b. if b then IsBounded p else Unit) (ap is_accepted h) tt
after_parse (some body) header p h = take_report-IsBounded header body p h

-- What the route accepts, from any body and headers, is within bounds: the event has between 2 and
-- 80 characters of those allowed, each other text at most 300, those within the properties apart,
-- the user agent at most 180, and the body at most 16,384.
pub post-IsBounded :
    (parse : String → Option Json) (header : Headers) (raw : String) (p : Payload)
    → post parse header raw ≡ accepted p
    → IsBounded p × (text_length raw ≤ max_body_bytes)
unfolding post
post-IsBounded parse header raw p h =
    let (short, taken) =
      not_taken (ltb max_body_bytes (text_length raw)) (refused 413 "payload_too_large") _ p refl
        h in
    (after_parse (parse raw) header p taken, ground (arith, short))
