-- ===== src/Pvp/Events.antt =====
-- What can happen to the hook of web/src/hooks/usePvP.ts: the browser's events on every socket that it
-- has made, and the page's calls. A call that awaits goes on in an event of its own.
pub mod Refs
pub mod Shows
pub mod Refers
pub mod Invariant
pub mod Stale
use ki_clash.Common.{
  ℕ, ◌≡◌, ◌≢◌, refl, String, Bool, true, false, Option, none, some, List, [], ◌∷◌, get_elem?,
}
use ki_clash.Api.Types.{Action}
use ki_clash.Game.{Settled}
use ki_clash.Pvp.{
  GameMessage, QueueMessage, Ready, connecting, open_now, closed, Purpose, matchmaking, game,
  Socket, State, initial, modify, ready_at, is_open,
}
use ki_clash.Pvp.Handlers.{
  on_queue_message, find_match, find_match_signed_in, join_game, join_game_signed_in,
  on_game_message, on_game_error, on_game_close, on_queue_error, on_queue_close, cancel_search,
  submit_action, continue_from_reveal, continue_from_round, back_to_lobby, clean_up,
}

-- The browser moves a socket to another state.
abbrev pub set_ready : ℕ → Ready → State → State
set_ready i r s = record s { sockets = modify i (λ k. record k { ready = r }) s.sockets }

-- A socket's `onerror` and `onclose`, by what it was made for.
abbrev pub on_error : Purpose → State → State
on_error game s = on_game_error s
on_error (matchmaking token) s = on_queue_error s

abbrev pub on_close : Purpose → State → State
on_close game s = on_game_close s
on_close (matchmaking token) s = on_queue_close s

module _ (ws_base : String) where
  pub data Step (s : State) : State → Type 0 where
    -- the browser, on a socket `k` at place `i`
    opens : (i : ℕ) → ready_at i s.sockets ≡ connecting → Step s (set_ready i open_now s)
    queue_says :
        (i : ℕ) (k : Socket) (token : String) (m : QueueMessage)
        → get_elem? s.sockets i ≡ some k
        → k.purpose ≡ matchmaking token
        → k.ready ≡ open_now
        → Step s (on_queue_message ws_base i token m s)
    game_says :
        (i : ℕ) (k : Socket) (m : GameMessage)
        → get_elem? s.sockets i ≡ some k
        → k.purpose ≡ game
        → k.ready ≡ open_now
        → Step s (on_game_message i m s)
    fails :
        (i : ℕ) (k : Socket)
        → get_elem? s.sockets i ≡ some k
        → k.ready ≢ closed
        → Step s (on_error k.purpose s)
    closes :
        (i : ℕ) (k : Socket)
        → get_elem? s.sockets i ≡ some k
        → k.ready ≢ closed
        → Step s (on_close k.purpose (set_ready i closed s))
    -- the page
    finds : Step s (find_match s)
    find_goes_on :
        (r : Settled Unit) (token : Option String) → Step s (find_match_signed_in ws_base r token s)
    joins : Step s (join_game s)
    join_goes_on :
        (id : String) (name : Option String) (r : Settled Unit) (token : Option String)
        → Step s (join_game_signed_in ws_base id name r token s)
    cancels : Step s (cancel_search s)
    submits : (a : Action) → Step s (submit_action a s)
    reveal_seen : Step s (continue_from_reveal s)
    round_seen : Step s (continue_from_round s)
    leaves : Step s (back_to_lobby s)
    unmounts : Step s (clean_up s)

  pub data Reach : State → Type 0 where
    start : Reach initial
    next : {s t : State} → Reach s → Step s t → Reach t
