-- ===== src/Tests/Server.antt =====
-- A browser and servers to run web/src/lib/api.ts against.
use ki_clash.Common.{none, some, List, [], length, eqb, if◌then◌else◌, ◌==◌}
use ki_clash.Api.Types.{Schema, token, TokenResponse}
use ki_clash.Api.Storage.{Request, World, Storage}
use ki_clash.Api.Client.{Response, Reply, answer, rejected, Network}

abbrev pub guest : TokenResponse
guest = record {
  access_token = "t1";
  refresh_token = "r1";
  token_type = "bearer";
  player_id = "p1";
  display_name = "Guest";
}

abbrev pub with_old_token : Storage
with_old_token k = if k == "ki_clash_token" then some "t0" else none

-- A browser with a token that has run out, and one with none.
abbrev pub returning : World
returning = record { storage = some with_old_token; sent = [] }

abbrev pub newcomer : World
newcomer = record { storage = some (λ k. none); sent = [] }

-- The first request is refused, the guest endpoint opens a session, all else succeeds with no body.
abbrev pub refusal : (s : Schema) → Response s
refusal s = record { status = 401; json = none; message = some "Token expired" }

abbrev pub opened : Response token
opened = record { status = 200; json = some guest; message = none }

abbrev pub no_content : (s : Schema) → Response s
no_content s = record { status = 204; json = none; message = none }

abbrev pub reply : (s : Schema) → List Request → Reply s
reply token sent = answer opened
reply s sent = answer (if eqb (length sent) 1 then refusal s else no_content s)

abbrev pub expiring : Network
expiring = record { api_url = none; reply = reply }

-- Every request succeeds with no body.
abbrev pub silent : Network
silent = record { api_url = some ""; reply = λ s sent. answer (no_content s) }

-- No request gets through.
abbrev pub offline : Network
offline = record {
  api_url = some "https://api.example";
  reply = λ s sent. rejected "Failed to fetch";
}

-- Every request is refused.
abbrev pub refusing : Network
refusing = record { api_url = none; reply = λ s sent. answer (refusal s) }
