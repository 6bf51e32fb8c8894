-- ===== src/Tests/Analytics.antt =====
-- Reports of web/src/lib/analytics.ts from one browser on two days.
use ki_clash.Common.{◌≢◌, true, none, some, [], ◌∷◌, arith, eq_iff, if◌then◌else◌, ◌==◌}
use ki_clash.Common.Json.{str}
use ki_clash.Api.Storage.{Storage}
use ki_clash.Analytics.{Browser, Properties}

abbrev pub monday : Browser
monday = record {
  pathname = "/";
  search = "?ref=friend";
  params = ("ref", "friend") ∷ [];
  referrer = "";
  now = "2024-01-01T10:00:00.000Z";
  today = "2024-01-01";
  fresh_id = "id1";
  has_beacon = true;
  beacon_accepts = true;
}

abbrev visited : Storage
visited k = if k == "jjan_last_visit_date" then some "2023-12-31" else none

abbrev pub given : Properties
given = ("mode", str "ai") ∷ []

id_full : monday.fresh_id ≢ ""
id_full = ground (arith, eq_iff "id1" "")
