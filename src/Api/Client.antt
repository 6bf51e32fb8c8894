-- ===== src/Api/Client.antt =====
-- The HTTP helpers of web/src/lib/api.ts, from `apiFetch` to `ensureAuth`, over a network that is a
-- parameter: what the server answers may depend on every request sent so far.
pub mod Ends
pub mod Fetch
pub mod Session
use ki_clash.Common.{
  ℕ, zero, suc, String, Bool, true, false, not, ◌&&◌, Option, none, some, List, [], ◌∷◌, ◌==◌, eqb,
  leb, ltb, is_truthy, or_else, if◌then◌else◌,
}
use ki_clash.Common.Text.{◌<>◌, show}
use ki_clash.Common.Json.{Json}
use ki_clash.Common.Objects
use ki_clash.Api.Types.{Schema, token, Shape, TokenResponse}
use ki_clash.Api.Storage.{
  Request, ok, thrown, exhausted, Api, ◌>>=◌, ◌>>◌, pure, raise, set_item, get_token, set_tokens,
  is_logged_in, logout,
}

-- `RequestInit`, as far as the client fills it in.
pub record Options : Type 0 where
  pub method : Option String
  pub headers : List (String × String)
  pub body : Option Json

-- What a `Response` gives: its status, what `json()` gives if it resolves, and the text that
-- `body?.error?.message` reads in an error's body, if there is one.
pub record Response (s : Schema) : Type 0 where
  pub status : ℕ
  pub json : Option (Shape s)
  pub message : Option String

-- A `fetch` that resolves, or rejects with a message.
pub data Reply (s : Schema) : Type 0 where
  answer : Response s → Reply s
  rejected : String → Reply s

-- The server and the network, and the variable NEXT_PUBLIC_API_URL of the build.
pub record Network : Type 0 where
  pub api_url : Option String
  pub reply : (s : Schema) → List Request → Reply s

abbrev pub guest_path : String
guest_path = "/api/v1/auth/guest"

-- `res.ok`.
abbrev pub is_ok : ℕ → Bool
is_ok status = leb 200 status && ltb status 300

unfoldable pub auth_headers : Option String → List (String × String) → List (String × String)
auth_headers t given =
    let headers = Objects.assign (("Content-Type", "application/json") ∷ []) given in
    if is_truthy t then Objects.put "Authorization" ("Bearer " <> or_else t "") headers else headers

-- How the body of a settled response is read.
unfoldable pub read_response : (s : Schema) → Response s → Api (Shape s)
read_response s res w =
    if not (is_ok res.status)
    then (thrown (or_else res.message ("API error: " <> show res.status)), w)
    else elim res.json [
      | none ↦ (thrown "Unexpected end of JSON input", w)
      | some body ↦ (ok body, w)
    ]

-- The test of the retry.
unfoldable pub is_stale : ℕ → Bool → String → Bool
is_stale status allow_auth_retry path =
    eqb status 401 && allow_auth_retry && not (path == guest_path)

-- Two levels of calls are all that the code makes.
abbrev pub fetch_fuel : ℕ
fetch_fuel = 2

module _ (net : Network) where
  api_base : String
  api_base = or_else net.api_url "http://localhost:8000"

  pub build_request : Option String → String → Options → Request
  unfolding api_base auth_headers
  build_request t path options = record {
    url = api_base <> path;
    method = options.method;
    headers = auth_headers t options.headers;
    body = options.body;
  }

  resolve : (s : Schema) → Reply s → Api (Response s)
  resolve s (answer res) = pure res
  resolve s (rejected e) = raise e

  -- `await fetch(…)`, with the token that is stored when it is called.
  pub send : (s : Schema) → String → Options → Api (Response s)
  unfolding resolve
  send s path options w =
      let sent = build_request (get_token w) path options ∷ w.sent in
      resolve s (net.reply s sent) (record w { sent = sent })

  -- `createGuestSession` over the `apiFetch` that it calls.
  pub guest_session_by : (String → Options → Api TokenResponse) → Api TokenResponse
  unfolding set_tokens
  guest_session_by fetch = do
    session ← fetch guest_path (record { method = some "POST"; headers = []; body = none })
    set_tokens session.access_token session.refresh_token
    set_item "ki_clash_player_id" session.player_id
    set_item "ki_clash_display_name" session.display_name
    pure session

  -- The recursion takes fuel; `api_fetch_internal` calls itself at two places.
  pub api_fetch_internal : ℕ → (s : Schema) → String → Options → Bool → Api (Shape s)
  api_fetch_internal zero s path options allow_auth_retry = λ w. (exhausted, w)
  api_fetch_internal (suc fuel) s path options allow_auth_retry =
      let guest = λ (p : String) (o : Options). api_fetch_internal fuel token p o true in
      let again = api_fetch_internal fuel s path options false in
      do
        res ← send s path options
        if is_stale res.status allow_auth_retry path
            then (do logout; session ← guest_session_by guest; again)
            else read_response s res

  pub api_fetch : (s : Schema) → String → Options → Api (Shape s)
  api_fetch s path options = api_fetch_internal fetch_fuel s path options true

  pub create_guest_session : Api TokenResponse
  create_guest_session = guest_session_by (api_fetch token)

  pub ensure_auth : Api Unit
  ensure_auth w =
      if not (is_logged_in w) then (do session ← create_guest_session; pure tt) w else (ok tt, w)
