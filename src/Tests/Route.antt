-- ===== src/Tests/Route.antt =====
-- The route of the reports (web/src/app/api/analytics/events/route.ts) on one report.
use ki_clash.Common.{◌≡◌, ◌≤◌, refl, arith, String, Option, none, some, ◌==◌, if◌then◌else◌}
use ki_clash.Common.Json.{Json, null}
use ki_clash.Common.Codes.{text_length}
use ki_clash.Analytics.{play_start, build_payload}
use ki_clash.Analytics.Route.{Headers, Payload, accepted, post, max_body_bytes}
use ki_clash.Analytics.Route.Bounds.{IsBounded, post-IsBounded}
use ki_clash.Analytics.Route.Reports.{logged, report_accepted}
use ki_clash.Tests.Analytics.{monday, given}

abbrev pub header : Headers
header k = if k == "x-real-ip" then some "192.0.2.7" else none

abbrev report : Json
report = build_payload monday play_start given "s1" (some "p1")

-- A parser that knows two bodies.
abbrev parse : String → Option Json
parse raw = if raw == "report" then some report else if raw == "null" then some null else none

abbrev line : Payload
line = logged header monday play_start given "s1" (some "p1")

taken : post parse header "report" ≡ accepted line
taken =
    report_accepted parse header "report" monday play_start given "s1" (some "p1") (omega arith)
      refl

accepted_example : post parse header "report" ≡ accepted line
accepted_example =
    report_accepted parse header "report" monday play_start given "s1" (some "p1") (omega arith)
      refl

bounds_example : IsBounded line × (text_length "report" ≤ max_body_bytes)
bounds_example = post-IsBounded parse header "report" line taken
