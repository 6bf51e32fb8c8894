-- ===== src/Pvp/Events/Stale.antt =====
-- The handlers that a closed socket leaves behind, and the search that is cancelled too early.
use ki_clash.Common.{ap, ℕ, ◌≡◌, ◌≢◌, refl, true, false, none, some, arith, get_elem?, ◌↔◌}
use ki_clash.Api.Types.{Action}
use ki_clash.Pvp.{lobby, searching, closed, game, Socket, State, ready_at, is_open, is_connecting}
use ki_clash.Pvp.Sockets.{ready_at-modify_ne}
use ki_clash.Pvp.Handlers.{on_game_close, cancel_search, submit_action}
use ki_clash.Pvp.Events.{set_ready, on_close}

-- When another game socket than the hook's closes, the hook forgets its own: the socket is still
-- open, and every action that the player then picks is dropped.
pub stale_close_drops_actions :
    (s : State) (i j : ℕ) (k : Socket) (a : Action)
    → s.game_ws ≡ some j
    → is_open (ready_at j s.sockets) ≡ true
    → get_elem? s.sockets i ≡ some k
    → k.purpose ≡ game
    → i ≢ j
    → let t = on_close k.purpose (set_ready i closed s) in
      (is_open (ready_at j t.sockets) ≡ true) × (t.game_ws ≡ none) × (submit_action a t ≡ t)
unfolding on_game_close submit_action
stale_close_drops_actions s i j k a ref live there use_ other = rw use_ (
  rw (ready_at-modify_ne (λ k. record k { ready = closed }) i j s.sockets other) live,
  refl,
  refl,
)

-- Cancelling a search goes back to the lobby exactly when the search's socket is not still
-- connecting; it changes nothing at all exactly while the socket connects.
pub cancel_search_connecting :
    (s : State) (i : ℕ)
    → s.phase ≡ searching
    → s.matchmaking_ws ≡ some i
    → (((cancel_search s).phase ≡ lobby) ↔ (is_connecting (ready_at i s.sockets) ≡ false))
      × ((cancel_search s ≡ s) ↔ (is_connecting (ready_at i s.sockets) ≡ true))
unfolding cancel_search
cancel_search_connecting s i phase ref = (
  (λ e. ground arith, λ e. ground arith),
  (λ e. let q = ap (λ t. t.phase) e in ground arith, λ e. ground arith),
)
