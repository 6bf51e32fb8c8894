-- ===== src/Mobile/Api.antt =====
-- mobile/src/lib/api.ts: the client of the server on mobile. The package expo-secure-store is a
-- parameter, and so is the network, as in Api/Client.antt; the types of the answers are those of the
-- web client.
pub mod Session
pub mod Calls
use ki_clash.Common.{
  String, Bool, true, false, not, Option, none, some, List, [], ◌∷◌, is_some, is_truthy, or_else,
  or_none, if◌then◌else◌,
}
use ki_clash.Common.Text.{◌<>◌, show}
use ki_clash.Common.Upper.{to_upper}
use ki_clash.Common.Json.{Json, bool, str, obj, end, field}
use ki_clash.Api.Types.{
  Action, Difficulty, Schema, token, game, submitted, profile, history, leaderboard, my_rank,
  ad_free, created_room, a_room, started_game, nothing, Shape, TokenResponse, action_name,
  difficulty_name,
}
use ki_clash.Api.Storage.{Request, Result, ok, thrown, exhausted}
use ki_clash.Api.Client.{Options, Response, Reply, answer, rejected, is_ok, auth_headers}
use ki_clash.Api.Calls.{no_options, with_method, with_body}

-- The calls of expo-secure-store that the client makes: items are texts under keys.
pub record SecureStore : Type 1 where
  pub Store : Type 0
  pub get_item : String → Store → Option String
  pub set_item : String → String → Store → Store
  pub delete_item : String → Store → Store

-- The server and the network, and the variable EXPO_PUBLIC_API_URL of the build. `detail` is the text
-- of `body?.detail` in an error's body, if there is one.
pub record Network : Type 0 where
  pub api_url : Option String
  pub reply : (s : Schema) → List Request → Reply s
  pub detail : List Request → Option String

-- The store, and the requests sent, the newest first.
pub record World (S : Type 0) : Type 0 where
  pub store : S
  pub sent : List Request

abbrev pub Call : Type 0 → Type 0 → Type 0
Call S A = World S → Result A × World S

abbrev pub continue : {S A B : Type 0} → Result A → World S → (A → Call S B) → Result B × World S
continue (ok a) w f = f a w
continue (thrown e) w f = (thrown e, w)
continue exhausted w f = (exhausted, w)

infixl 5 ◌>>=◌ ◌>>◌
abbrev pub ◌>>=◌ : {S A B : Type 0} → Call S A → (A → Call S B) → Call S B
◌>>=◌ m f w = continue (m w).0 (m w).1 f

abbrev pub ◌>>◌ : {S B : Type 0} → Call S Unit → Call S B → Call S B
m >> k = m >>= λ _. k

abbrev pub pure : {S A : Type 0} → A → Call S A
pure a w = (ok a, w)

module _ (secure : SecureStore) where
  abbrev pub read_item : String → World secure.Store → Option String
  read_item k w = secure.get_item k w.store

  abbrev pub set_item : String → String → Call secure.Store Unit
  set_item k v w = (ok tt, record w { store = secure.set_item k v w.store })

  abbrev pub delete_item : String → Call secure.Store Unit
  delete_item k w = (ok tt, record w { store = secure.delete_item k w.store })

  unfoldable pub get_token : World secure.Store → Option String
  get_token = read_item "ki_clash_token"

  unfoldable pub set_tokens : String → String → Call secure.Store Unit
  set_tokens access refresh = do
    set_item "ki_clash_token" access
    set_item "ki_clash_refresh" refresh

  unfoldable pub get_player_id : World secure.Store → Option String
  get_player_id = read_item "ki_clash_player_id"

  unfoldable pub get_display_name : World secure.Store → Option String
  get_display_name = read_item "ki_clash_display_name"

  unfoldable pub is_logged_in : World secure.Store → Bool
  unfolding get_token
  is_logged_in w = is_some (get_token w)

  unfoldable pub logout : Call secure.Store Unit
  logout = do
    delete_item "ki_clash_token"
    delete_item "ki_clash_refresh"
    delete_item "ki_clash_player_id"
    delete_item "ki_clash_display_name"

module _ (secure : SecureStore) (net : Network) where
  unfoldable pub build_request : Option String → String → Options → Request
  unfolding auth_headers
  build_request t path options = record {
    url = or_else net.api_url "http://localhost:8000" <> path;
    method = options.method;
    headers = auth_headers t options.headers;
    body = options.body;
  }

  -- The body of a settled response.
  abbrev pub read_body : (s : Schema) → Response s → Call secure.Store (Shape s)
  read_body s res w =
      if not (is_ok res.status)
      then (
        thrown
            (or_else res.message (or_else (net.detail w.sent) ("API error: " <> show res.status))),
        w,
      )
      else elim res.json [
        | none ↦ (thrown "Unexpected end of JSON input", w)
        | some body ↦ (ok body, w)
      ]

  abbrev pub settle : (s : Schema) → Reply s → Call secure.Store (Shape s)
  settle s (answer res) = read_body s res
  settle s (rejected e) = λ w. (thrown e, w)

  unfoldable pub api_fetch : (s : Schema) → String → Options → Call secure.Store (Shape s)
  unfolding get_token build_request
  api_fetch s path options w =
      let sent = build_request (get_token secure w) path options ∷ w.sent in
      settle s (net.reply s sent) (record w { sent = sent })

  unfoldable pub create_guest_session : Call secure.Store TokenResponse
  unfolding api_fetch set_tokens
  create_guest_session = do
    session ← api_fetch token "/api/v1/auth/guest" (with_method "POST")
    set_tokens secure session.access_token session.refresh_token
    set_item secure "ki_clash_player_id" session.player_id
    set_item secure "ki_clash_display_name" session.display_name
    pure session

  unfoldable pub ensure_auth : Call secure.Store Unit
  unfolding is_logged_in create_guest_session
  ensure_auth w =
      if not (is_logged_in secure w)
      then (do session ← create_guest_session; pure tt) w
      else (ok tt, w)
