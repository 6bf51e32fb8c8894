-- ===== src/Api/Client/Session.antt =====
-- The session that `createGuestSession`, `ensureAuth` and the retry of `apiFetch` leave behind.
use mathlib.Core.Path.{fun_ext}
use ki_clash.Common.{
  ◌≡◌, refl, ◌≢◌, String, true, false, Option, none, some, [], ◌∷◌, inl, inr, arith, Bool-cases,
  or_else, Option-cases,
}
use ki_clash.Common.Text.{◌<>◌, show}
use ki_clash.Api.Types.{Schema, token, Shape, TokenResponse}
use ki_clash.Api.Storage.{
  World, Result, ok, thrown, exhausted, Storage, put, delete, Api, ◌>>◌, continue, logout,
  get_token, is_logged_in, set_tokens, set_item, pure,
}
use ki_clash.Api.Client.Fetch.{
  plain, fetch_once_more, api_fetch-eq-fetch_once_more, plain-Ends, create_guest_session-eq,
}
use ki_clash.Api.Client.{
  Options, Response, answer, Network, guest_path, is_ok, build_request, read_response, send,
  guest_session_by, is_stale, api_fetch, ensure_auth, resolve,
}

-- The storage with a session written to its four keys.
abbrev pub store_session : TokenResponse → Storage → Storage
store_session session st = put "ki_clash_display_name" session.display_name (
    put "ki_clash_player_id" session.player_id
      (put "ki_clash_refresh" session.refresh_token (put "ki_clash_token" session.access_token st)))

abbrev pub without_session : Storage → Storage
without_session st =
    delete "ki_clash_display_name"
      (delete "ki_clash_player_id" (delete "ki_clash_refresh" (delete "ki_clash_token" st)))

-- A new session covers what `logout` removed.
store-without_session :
    (session : TokenResponse) (st : Storage)
    → store_session session (without_session st) ≡ store_session session st
store-without_session session st = fun_ext (λ j. ground arith)

abbrev pub guest_options : Options
guest_options = record { method = some "POST"; headers = []; body = none }

logout_lem :
    (w : World) (st : Storage)
    → w.storage ≡ some st
    → logout w ≡ (ok tt, record w { storage = some (without_session st) })
unfolding logout
logout_lem w st h = rw h

-- A call that resolves leaves a token; one that rejects leaves the storage as it was.
abbrev pub Settled : {A : Type 0} → World → Result A → World → Type 0
Settled w (ok a) w' = is_logged_in w' ≡ true
Settled w (thrown e) w' = w'.storage ≡ w.storage
Settled w exhausted w' = ⊥

-- The part of `createGuestSession` after its request.
remember : TokenResponse → Api TokenResponse
unfolding set_tokens
remember session = do
  set_tokens session.access_token session.refresh_token
  set_item "ki_clash_player_id" session.player_id
  set_item "ki_clash_display_name" session.display_name
  pure session

after_guest :
    (w : World) (r : Result TokenResponse) (w' : World)
    → w'.storage ≡ w.storage
    → r ≢ exhausted
    → Settled w (continue r w' remember).0 (continue r w' remember).1
unfolding remember is_logged_in
after_guest w (ok session) w' h k = elim (Option-cases w'.storage) [
  | inl e ↦ rw e (rw e at h)
  | inr (st, e) ↦ rw e refl
]
after_guest w (thrown e) w' h k = h
after_guest w exhausted w' h k = absurd (k refl)

discard :
    (w : World) (r : Result TokenResponse) (w' : World)
    → Settled w r w'
    → Settled w (continue r w' (λ _. pure tt)).0 (continue r w' (λ _. pure tt)).1
discard w (ok session) w' h = h
discard w (thrown e) w' h = h
discard w exhausted w' h = h

module _ (net : Network) where
  -- The world after a request, as the server sees it.
  abbrev pub asked : Option String → String → Options → World → World
  asked t path options w = record w { sent = build_request net t path options ∷ w.sent }

  -- An answer that starts no retry is read at once, and the request is the only one.
  pub api_fetch_answered :
      (s : Schema) (path : String) (options : Options) (w : World) (res : Response s)
      → net.reply s (asked (get_token w) path options w).sent ≡ answer res
      → is_stale res.status true path ≡ false
      → api_fetch net s path options w ≡ read_response s res (asked (get_token w) path options w)
  unfolding fetch_once_more send
  api_fetch_answered s path options w res h k =
      rw (api_fetch-eq-fetch_once_more net s path options) (rw (h, resolve, k) refl)

  -- An answer outside 200..299 that starts no retry rejects, with the server's message if it has
  -- one that is not empty, and leaves the storage as it was.
  pub api_fetch_error :
      (s : Schema) (path : String) (options : Options) (w : World) (res : Response s)
      → net.reply s (asked (get_token w) path options w).sent ≡ answer res
      → is_stale res.status true path ≡ false
      → is_ok res.status ≡ false
      → api_fetch net s path options w ≡ (
        thrown (or_else res.message ("API error: " <> show res.status)),
        asked (get_token w) path options w,
      )
  unfolding read_response
  api_fetch_error s path options w res h k bad =
      rw (api_fetch_answered s path options w res h k) (rw bad refl)

  plain_ok :
      (s : Schema) (path : String) (options : Options) (w : World) (res : Response s)
      (body : Shape s)
      → net.reply s (asked (get_token w) path options w).sent ≡ answer res
      → is_ok res.status ≡ true
      → res.json ≡ some body
      → plain net s path options w ≡ (ok body, asked (get_token w) path options w)
  unfolding plain send read_response
  plain_ok s path options w res body h k j = ground arith

  -- What the guest endpoint answers when all is well.
  pub record Opens (w : World) (session : TokenResponse) : Type 0 where
    pub res : Response token
    pub answers : net.reply token (asked (get_token w) guest_path guest_options w).sent ≡ answer res
    pub good : is_ok res.status ≡ true
    pub body : res.json ≡ some session

  guest_ok :
      (w : World) (st : Storage) (session : TokenResponse)
      → w.storage ≡ some st
      → Opens w session
      → guest_session_by net (plain net token) w ≡ (
        ok session,
        record (asked (get_token w) guest_path guest_options w) {
          storage = some (store_session session st);
        },
      )
  unfolding guest_session_by set_tokens
  guest_ok w st session h o =
      rw (plain_ok token guest_path guest_options w o.res session o.answers o.good o.body, h)

  -- The world of the retry: a new session, and two requests more.
  abbrev pub renewed : String → Options → TokenResponse → Storage → World → World
  renewed path options session st w =
      let dropped = record (asked (get_token w) path options w) {
        storage = some (without_session st);
      } in
      record (asked none guest_path guest_options dropped) {
        storage = some (store_session session st);
      }

  -- After a 401, and once the guest endpoint has opened a session, apiFetch does what one request
  -- does in the world where the old session is replaced by the new, and the token that this request
  -- carries is the new one.
  pub api_fetch_heals :
      (s : Schema) (path : String) (options : Options) (w : World) (st : Storage) (res : Response s)
      (session : TokenResponse)
      → w.storage ≡ some st
      → net.reply s (asked (get_token w) path options w).sent ≡ answer res
      → is_stale res.status true path ≡ true
      → Opens
          (record (asked (get_token w) path options w) { storage = some (without_session st) })
          session
      → (api_fetch net s path options w
          ≡ plain net s path options (renewed path options session st w))
        × (get_token (renewed path options session st w) ≡ some session.access_token)
  unfolding fetch_once_more send get_token
  api_fetch_heals s path options w st res session h a stale o = (
    rw (api_fetch-eq-fetch_once_more net s path options) (
        rw (a, resolve, stale)
          (rw
            (
              logout_lem (asked (get_token w) path options w) st h,
              guest_ok _ (without_session st) session refl o,
              store-without_session session st,
            )
            refl)),
    refl,
  )

  plain_storage :
      (s : Schema) (path : String) (options : Options) (w : World)
      → (plain net s path options w).1.storage ≡ w.storage
  unfolding plain send read_response
  plain_storage s path options w = ground arith

  guest_session_settled :
      (w : World)
      → Settled w
          (guest_session_by net (plain net token) w).0
          (guest_session_by net (plain net token) w).1
  unfolding guest_session_by remember
  guest_session_settled w =
      after_guest w _ _ (plain_storage token guest_path guest_options w)
        ((plain-Ends net token guest_path guest_options).settles w)

  -- ensureAuth settles in one of two ways: it resolves, and a token is stored; or it rejects, and
  -- the storage is as it was.
  pub ensure_auth_settled : (w : World) → Settled w (ensure_auth net w).0 (ensure_auth net w).1
  unfolding ensure_auth
  ensure_auth_settled w = elim (Bool-cases (is_logged_in w)) [
    | inl known ↦ rw (known) known
    | inr unknown ↦
        rw (unknown, create_guest_session-eq net) (discard w _ _ (guest_session_settled w))
  ]
