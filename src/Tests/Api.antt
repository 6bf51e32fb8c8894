-- ===== src/Tests/Api.antt =====
-- Calls of web/src/lib/api.ts against the servers of Tests/Server.antt.
use ki_clash.Common.{◌+◌, ◌≤◌, ◌≡◌, ◌≢◌, refl, String, some, length}
use ki_clash.Api.Types.{a_room}
use ki_clash.Api.Storage.{exhausted, get_token}
use ki_clash.Api.Client.{api_fetch, is_stale}
use ki_clash.Api.Client.Fetch.{plain, api_fetch_settles}
use ki_clash.Api.Client.Session.{renewed, api_fetch_heals}
use ki_clash.Api.Calls.{no_options}
use ki_clash.Tests.Server.{guest, with_old_token, returning, refusal, opened, expiring, refusing}

abbrev room : String
room = "/api/v1/rooms/AB12"

api_fetch_settles_example :
    ((api_fetch refusing a_room room no_options returning).0 ≢ exhausted)
    × (length (api_fetch refusing a_room room no_options returning).1.sent
        ≤ length returning.sent + 3)
api_fetch_settles_example = api_fetch_settles refusing a_room room no_options returning

heals_example :
    (api_fetch expiring a_room room no_options returning
      ≡ plain expiring a_room room no_options
          (renewed expiring room no_options guest with_old_token returning))
    × (get_token (renewed expiring room no_options guest with_old_token returning)
        ≡ some guest.access_token)
unfolding is_stale
heals_example =
    api_fetch_heals expiring a_room room no_options returning with_old_token (refusal a_room) guest
      refl refl refl (record { res = opened; answers = refl; good = refl; body = refl })
