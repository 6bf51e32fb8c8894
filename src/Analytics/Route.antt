-- ===== src/Analytics/Route.antt =====
-- web/src/app/api/analytics/events/route.ts: the route that takes the reports of
-- web/src/lib/analytics.ts and writes each to the log. JSON.parse and the headers are parameters.
pub mod Bounds
pub mod Reports
use Prim.Native.Char.{Char, code}
use Prim.Native.String
use ki_clash.Common.{
  ℕ, String, Bool, true, false, not, ◌&&◌, ◌||◌, Option, none, some, ◌==◌, eqb, leb, ltb, or_else,
  get_or_else, if◌then◌else◌,
}
use ki_clash.Common.Codes.{slice, text_length, trim}
use ki_clash.Common.Json.{Json, null, bool, num, str, arr, obj, Fields, end, field}

abbrev pub max_body_bytes : ℕ
max_body_bytes = 16384

pub record Payload : Type 0 where
  pub event : String
  pub properties : Fields
  pub session_id : String
  pub player_id : String
  pub path : String
  pub referrer : String
  pub timestamp : String
  pub ip_hash_source : String
  pub user_agent : String

-- The answer with its status and what was logged; or the exception of a handler that throws.
pub data Outcome : Type 0 where
  refused : ℕ → String → Outcome
  accepted : Payload → Outcome
  crashed : Outcome

abbrev pub as_record : Option Json → Fields
as_record (some (obj fs)) = fs
as_record _ = end

abbrev pub as_string : Option Json → String
as_string (some (str s)) = slice 300 s
as_string _ = ""

abbrev pub get_field : String → Fields → Option Json
get_field k end = none
get_field k (field j v fs) = if j == k then some v else get_field k fs

-- `body.k` on a value that is not null: undefined for what is no object.
abbrev pub member : String → Json → Option Json
member k (obj fs) = get_field k fs
member k _ = none

abbrev pub is_event_char : Char → Bool
is_event_char c =
    (leb 97 (code c) && leb (code c) 122)
    || (leb 48 (code c) && leb (code c) 57)
    || eqb (code c) 95
    || eqb (code c) 58
    || eqb (code c) 45

abbrev pub are_event_chars : String → Bool
are_event_chars String.[] = true
are_event_chars (String.◌∷◌ c s) = is_event_char c && are_event_chars s

-- `/^[a-z0-9_:-]{2,80}$/.test(event)`.
unfoldable pub is_event : String → Bool
is_event s = leb 2 (text_length s) && leb (text_length s) 80 && are_event_chars s

-- `s.split(",")[0]`.
unfoldable pub before_comma : String → String
before_comma String.[] = String.[]
before_comma (String.◌∷◌ c s) =
    let rest = before_comma s in if eqb (code c) 44 then String.[] else String.◌∷◌ c rest

abbrev pub Headers : Type 0
Headers = String → Option String

unfoldable pub client_ip : Headers → String
unfolding before_comma
client_ip header =
    or_else (some (trim (before_comma (get_or_else (header "x-forwarded-for") ""))))
      (or_else (header "x-real-ip") "")

unfoldable pub payload : Headers → Json → Payload
unfolding client_ip
payload header body = record {
  event = as_string (member "event" body);
  properties = as_record (member "properties" body);
  session_id = as_string (member "session_id" body);
  player_id = as_string (member "player_id" body);
  path = as_string (member "path" body);
  referrer = as_string (member "referrer" body);
  timestamp = as_string (member "timestamp" body);
  ip_hash_source = if client_ip header == "" then "missing" else "present";
  user_agent = slice 180 (get_or_else (header "user-agent") "");
}

-- `body.k` on any value: null has no members, and reading one throws, which is none.
abbrev pub read_member : String → Json → Option (Option Json)
read_member k null = none
read_member k body = some (member k body)

-- The handler once the body is parsed and its event is read, or that threw. A body whose event was
-- read is not null, so that `payload` throws nowhere.
unfoldable pub take_event : Headers → Json → Option (Option Json) → Outcome
unfolding payload is_event
take_event header body none = crashed
take_event header body (some value) =
    let event = as_string value in
    if (event == "") || not (is_event event)
    then refused 400 "invalid_event"
    else accepted (payload header body)

unfoldable pub take_report : Headers → Json → Outcome
unfolding take_event
take_report header body = take_event header body (read_member "event" body)

unfoldable pub post : (String → Option Json) → Headers → String → Outcome
unfolding take_report
post parse header raw =
    if ltb max_body_bytes (text_length raw)
    then refused 413 "payload_too_large"
    else elim (parse raw) [
      | none ↦ refused 400 "invalid_json"
      | some body ↦ take_report header body
    ]
