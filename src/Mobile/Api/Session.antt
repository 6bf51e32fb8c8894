-- ===== src/Mobile/Api/Session.antt =====
-- What becomes of a session of mobile/src/lib/api.ts, over any store that keeps what is put into it.
use Prim.{tt}
use ki_clash.Common.{
  All, ◌≡◌, ◌≢◌, ◌==◌, eq_refl, refl, ap, ◌∙◌, arith, String, Bool, true, false, not, Option, none,
  some, List, [], ◌∷◌, is_truthy,
}
use ki_clash.Common.Text.{◌<>◌}
use ki_clash.Common.Objects
use ki_clash.Common.Json.{Json}
use ki_clash.Api.Types.{Schema, token, Shape, TokenResponse}
use ki_clash.Api.Storage.{Request, Result, ok}
use ki_clash.Api.Client.{Options, Reply, answer, rejected, is_ok, auth_headers}
use ki_clash.Api.Calls.{with_method}
use ki_clash.Mobile.Api.{
  SecureStore, Network, World, Call, ◌>>◌, get_token, is_logged_in, get_player_id, get_display_name,
  build_request, api_fetch, create_guest_session, ensure_auth, settle, set_tokens,
}

-- What the client relies on: an item that was put is read back, and the others stay.
pub record IsStore (secure : SecureStore) : Type 0 where
  pub same :
      (k v : String) (st : secure.Store) → secure.get_item k (secure.set_item k v st) ≡ some v
  pub other :
      (j k v : String) (st : secure.Store)
      → j ≢ k
      → secure.get_item j (secure.set_item k v st) ≡ secure.get_item j st

-- One method of the client: what it asks for.
pub record Method : Type 0 where
  pub schema : Schema
  pub path : String
  pub method : Option String
  pub body : Option Json

abbrev pub options_of : Method → Options
options_of m = record { method = m.method; headers = []; body = m.body }

abbrev pub refuses : {s : Schema} → Reply s → Bool
refuses (answer res) = not (is_ok res.status)
refuses (rejected e) = true

abbrev pub is_done : {A : Type 0} → Result A → Bool
is_done (ok a) = true
is_done _ = false

module _ (secure : SecureStore) (net : Network) where
  -- A screen that signs in and then calls a method.
  unfoldable pub attempt : (m : Method) → Call secure.Store (Shape m.schema)
  attempt m = do ensure_auth secure net; api_fetch secure net m.schema m.path (options_of m)

  -- The same for one method after the other: whether each call resolved, and the store at the end.
  unfoldable pub attempts : List Method → World secure.Store → List Bool × World secure.Store
  attempts [] w = ([], w)
  attempts (m ∷ ms) w =
      let (done, last) = attempts ms (attempt m w).1 in (is_done (attempt m w).0 ∷ done, last)

  settle_refused :
      (s : Schema) (r : Reply s) (w : World secure.Store)
      → refuses r ≡ true
      → (is_done (settle secure net s r w).0 ≡ false) × ((settle secure net s r w).1 ≡ w)
  settle_refused s (answer res) w h = ground (arith, h)
  settle_refused s (rejected e) w h = (refl, refl)

  -- The server answers no request that carries the token `t`.
  abbrev pub Refuses : String → Type 0
  Refuses t =
      (s : Schema) (r : Request) (sent : List Request)
      → Objects.get "Authorization" r.headers ≡ some ("Bearer " <> t)
      → refuses (net.reply s (r ∷ sent)) ≡ true

  carries :
      (m : Method) (t : String)
      → is_truthy (some t) ≡ true
      → Objects.get "Authorization"
          (build_request secure net (some t) m.path (options_of m)).headers
        ≡ some ("Bearer " <> t)
  unfolding build_request auth_headers Objects.put Objects.get Objects.assign
  carries m t h = rw h (ap (λ x. some ("Bearer " <> x)) (ground (arith, h)))

  refused_attempt :
      (m : Method) (t : String) (w : World secure.Store)
      → get_token secure w ≡ some t
      → is_truthy (some t) ≡ true
      → Refuses t
      → (is_done (attempt m w).0 ≡ false) × ((attempt m w).1.store ≡ w.store)
  unfolding attempt ensure_auth is_logged_in api_fetch
  refused_attempt m t w e f h =
      let sent = build_request secure net (some t) m.path (options_of m) ∷ w.sent in
      let (fails, same) =
        settle_refused m.schema (net.reply m.schema sent) (record w { sent = sent })
          (h m.schema _ w.sent (carries m t f)) in
      rw (e, e) (fails, ap (λ q. q.store) same)

  -- On mobile, where the server answers no request that carries the stored token, a screen that
  -- signs in and then calls a method fails every time, however often, and the store stays as it is,
  -- that token included.
  pub stale_token_stays :
      (ms : List Method) (t : String) (w : World secure.Store)
      → get_token secure w ≡ some t
      → is_truthy (some t) ≡ true
      → Refuses t
      → All (λ done. done ≡ false) (attempts ms w).0 × ((attempts ms w).1.store ≡ w.store)
  unfolding attempts get_token
  stale_token_stays [] t w e f h = (tt, refl)
  stale_token_stays (m ∷ ms) t w e f h =
      let (fails, same) = refused_attempt m t w e f h in
      let (rest, last) =
        stale_token_stays ms t (attempt m w).1
          (ap (λ st. secure.get_item "ki_clash_token" st) same ∙ e) f h in
      ((fails, rest), last ∙ same)

-- The items of a session, as they are written one after the other.
module _ (secure : SecureStore) (laws : IsStore secure) where
  skip :
      (j k v w : String) (st : secure.Store)
      → (j == k) ≡ false
      → secure.get_item j st ≡ some w
      → secure.get_item j (secure.set_item k v st) ≡ some w
  skip j k v w st e h = laws.other j k v st (λ same. cc (same, e, eq_refl k)) ∙ h

  abbrev pub signed_in : TokenResponse → secure.Store → secure.Store
  signed_in s st = secure.set_item "ki_clash_display_name" s.display_name (
      secure.set_item "ki_clash_player_id" s.player_id (
        secure.set_item "ki_clash_refresh" s.refresh_token
          (secure.set_item "ki_clash_token" s.access_token st)))

  stored :
      (net : Network) (s : TokenResponse) (message : Option String) (w : World secure.Store)
      → get_token secure w ≡ none
      → net.reply token
          (build_request secure net none "/api/v1/auth/guest" (with_method "POST") ∷ w.sent)
        ≡ answer (record { status = 200; json = some s; message = message })
      → (ensure_auth secure net w).1.store ≡ signed_in s w.store
  unfolding ensure_auth is_logged_in create_guest_session api_fetch set_tokens
  stored net s message w e h = rw (e, h) refl

  -- Over any store that reads back what was put and keeps its other items: where no token is stored
  -- and the server opens a guest session, ensureAuth leaves the token, the player's identifier and
  -- the name of that session to be read.
  pub guest_signs_in :
      (net : Network) (s : TokenResponse) (message : Option String) (w : World secure.Store)
      → get_token secure w ≡ none
      → net.reply token
          (build_request secure net none "/api/v1/auth/guest" (with_method "POST") ∷ w.sent)
        ≡ answer (record { status = 200; json = some s; message = message })
      → let after = (ensure_auth secure net w).1 in
        (get_token secure after ≡ some s.access_token)
        × (get_player_id secure after ≡ some s.player_id)
        × (get_display_name secure after ≡ some s.display_name)
  unfolding get_token get_player_id get_display_name
  guest_signs_in net s message w e h =
      let st = stored net s message w e h in
      (
        ap (secure.get_item "ki_clash_token") st
            ∙ skip "ki_clash_token" "ki_clash_display_name" _ _ _ refl (
                skip "ki_clash_token" "ki_clash_player_id" _ _ _ refl
                  (skip "ki_clash_token" "ki_clash_refresh" _ _ _ refl (laws.same _ _ _))),
        ap (secure.get_item "ki_clash_player_id") st
            ∙ skip "ki_clash_player_id" "ki_clash_display_name" _ _ _ refl (laws.same _ _ _),
        ap (secure.get_item "ki_clash_display_name") st ∙ laws.same _ _ _,
      )
