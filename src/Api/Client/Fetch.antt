-- ===== src/Api/Client/Fetch.antt =====
-- `apiFetch` of web/src/lib/api.ts for every server: its end, its requests, and its recursion.
use ki_clash.Common.{
  ℕ, suc, ◌+◌, ◌≤◌, ◌≡◌, refl, if◌then◌else◌, ◌≢◌, String, Bool, true, false, arith, length,
}
use mathlib.Core.Path.{fun_ext}
use ki_clash.Api.Types.{Schema, token, Shape}
use ki_clash.Api.Storage.{World, exhausted, set_tokens, Api, ◌>>=◌, ◌>>◌, logout}
use ki_clash.Api.Client.Ends.{
  Ends, Ends-bind, Ends-weaken, pure-Ends, set_item-Ends, logout-Ends, read_response-Ends,
}
use ki_clash.Api.Client.{
  Options, Response, Network, guest_path, read_response, send, guest_session_by,
  create_guest_session, is_stale, api_fetch_internal, api_fetch,
}

module _ (net : Network) where
  -- One request and the reading of its answer, with no retry.
  unfoldable pub plain : (s : Schema) → String → Options → Api (Shape s)
  plain s path options = send net s path options >>= read_response s

  -- `apiFetch` without recursion: a request, and after a 401 a new session and one more request.
  unfoldable pub fetch_once_more : (s : Schema) → String → Options → Bool → Api (Shape s)
  unfolding plain
  fetch_once_more s path options retry = do
    res ← send net s path options
    if is_stale res.status retry path
        then (do logout; session ← guest_session_by net (plain token); plain s path options)
        else read_response s res

  once :
      (fuel : ℕ) (s : Schema) (path : String) (options : Options)
      → api_fetch_internal net (suc fuel) s path options false ≡ plain s path options
  unfolding api_fetch_internal is_stale plain
  once fuel s path options = fun_ext (λ w. ground arith)

  once_guest :
      (fuel : ℕ) (options : Options)
      → api_fetch_internal net (suc fuel) token guest_path options true
        ≡ plain token guest_path options
  unfolding api_fetch_internal is_stale plain
  once_guest fuel options = fun_ext (λ w. ground arith)

  guest_once :
      (fuel : ℕ)
      → guest_session_by net (λ p o. api_fetch_internal net (suc fuel) token p o true)
        ≡ guest_session_by net (plain token)
  unfolding guest_session_by
  guest_once fuel = rw (once_guest fuel _)

  unroll :
      (fuel : ℕ) (s : Schema) (path : String) (options : Options) (retry : Bool)
      → api_fetch_internal net (suc fuel) s path options retry ≡ do
        res ← send net s path options
        if is_stale res.status retry path
            then (do
              logout
              session ← guest_session_by net (λ p o. api_fetch_internal net fuel token p o true)
              api_fetch_internal net fuel s path options false)
            else read_response s res
  unfolding api_fetch_internal
  unroll fuel s path options retry = refl

  -- Whatever the server answers, two levels of the recursion are enough: with any more fuel it is a
  -- request, and after a 401 a new session and one more request.
  pub api_fetch_internal-eq-fetch_once_more :
      (fuel : ℕ) (s : Schema) (path : String) (options : Options) (retry : Bool)
      → api_fetch_internal net (suc (suc fuel)) s path options retry
        ≡ fetch_once_more s path options retry
  unfolding fetch_once_more
  api_fetch_internal-eq-fetch_once_more fuel s path options retry =
      rw (unroll (suc fuel)) (simp (guest_once fuel, once fuel))

  send-Ends : (s : Schema) (path : String) (options : Options) → Ends 1 (send net s path options)
  unfolding send
  send-Ends s path options = record { settles = λ w. ground arith; sends = λ w. ground arith }

  pub plain-Ends : (s : Schema) (path : String) (options : Options) → Ends 1 (plain s path options)
  unfolding plain
  plain-Ends s path options = Ends-bind (send-Ends s path options) (read_response-Ends s)

  guest-Ends : Ends 1 (guest_session_by net (plain token))
  unfolding guest_session_by set_tokens
  guest-Ends = Ends-bind (plain-Ends _ _ _) (λ session.
      Ends-bind (Ends-bind (set_item-Ends _ _) (λ _. set_item-Ends _ _)) (λ _.
        Ends-bind (set_item-Ends _ _)
          (λ _. Ends-bind (set_item-Ends _ _) (λ _. pure-Ends session))))

  after_answer-Ends :
      (s : Schema) (path : String) (options : Options) (stale : Bool) (res : Response s)
      → Ends 2 (
          if stale
          then (do logout; session ← guest_session_by net (plain token); plain s path options)
          else read_response s res)
  after_answer-Ends s path options true res =
      Ends-bind logout-Ends (λ _. Ends-bind guest-Ends (λ _. plain-Ends s path options))
  after_answer-Ends s path options false res = Ends-weaken (read_response-Ends s res)

  fetch_once_more-Ends :
      (s : Schema) (path : String) (options : Options) (retry : Bool)
      → Ends 3 (fetch_once_more s path options retry)
  unfolding fetch_once_more
  fetch_once_more-Ends s path options retry =
      Ends-bind (send-Ends s path options)
        (λ res. after_answer-Ends s path options (is_stale res.status retry path) res)

  pub api_fetch-eq-fetch_once_more :
      (s : Schema) (path : String) (options : Options)
      → api_fetch net s path options ≡ fetch_once_more s path options true
  unfolding api_fetch
  api_fetch-eq-fetch_once_more s path options =
      api_fetch_internal-eq-fetch_once_more 0 s path options true

  -- Whatever the server answers, apiFetch settles, after at most three requests.
  pub api_fetch_settles :
      (s : Schema) (path : String) (options : Options) (w : World)
      → ((api_fetch net s path options w).0 ≢ exhausted)
        × (length (api_fetch net s path options w).1.sent ≤ length w.sent + 3)
  api_fetch_settles s path options w =
      rw (api_fetch-eq-fetch_once_more s path options)
        (let e = fetch_once_more-Ends s path options true in (e.settles w, e.sends w))

  pub create_guest_session-eq : create_guest_session net ≡ guest_session_by net (plain token)
  unfolding create_guest_session api_fetch
  create_guest_session-eq = guest_once 1
