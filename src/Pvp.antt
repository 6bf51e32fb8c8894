-- ===== src/Pvp.antt =====
-- The browser's side of the two connections of web/src/hooks/usePvP.ts: the data of its messages, the
-- sockets, and the state of the hook. The handlers are in Pvp/Handlers.antt.
pub mod Handlers
pub mod Sockets
pub mod Events
pub mod Score
pub mod View
pub mod Page
use ki_clash.Common.{
  ℕ, zero, suc, String, Bool, true, false, Option, none, some, List, [], ◌∷◌, ◌++◌, length,
  get_elem?,
}
use ki_clash.Common.Json.{Json}
use ki_clash.Analytics.{EventName, Properties}

pub data PvpPhase : Type 0 where
  lobby searching matched playing waiting revealing round_end match_end : PvpPhase

pub record TurnResultData : Type 0 where
  pub turn_number : ℕ
  pub your_action : String
  pub opponent_action : String
  pub outcome : String
  pub your_ki : ℕ
  pub opponent_ki : ℕ

pub record RoundResultData : Type 0 where
  pub round_number : ℕ
  pub winner : String
  pub total_turns : ℕ

pub record MatchResultData : Type 0 where
  pub winner : String
  pub rounds_won_p1 : ℕ
  pub rounds_won_p2 : ℕ
  pub total_turns : ℕ

pub record GameStateData : Type 0 where
  pub turn : ℕ
  pub round_number : ℕ
  pub your_ki : ℕ
  pub opponent_ki : ℕ
  pub time_limit : ℕ

-- The data of a `waiting_for_action`, as the server names it.
pub record TurnData : Type 0 where
  pub turn : ℕ
  pub round_number : ℕ
  pub p1_ki : ℕ
  pub p2_ki : ℕ
  pub time_limit : ℕ

-- The messages of the game socket, by their `type`; `other` has any other.
pub data GameMessage : Type 0 where
  waiting_for_action : TurnData → GameMessage
  action_confirmed : GameMessage
  turn_result : TurnResultData → GameMessage
  round_result : RoundResultData → GameMessage
  match_result : MatchResultData → GameMessage
  opponent_disconnected : ℕ → GameMessage
  opponent_reconnected : GameMessage
  server_error : String → GameMessage
  pong other : GameMessage

pub data QueueMessage : Type 0 where
  queue_joined : QueueMessage
  match_found : String → String → QueueMessage
  matchmaking_timeout : QueueMessage
  pong other : QueueMessage

-- `readyState` of a WebSocket.
pub data Ready : Type 0 where
  connecting open_now closing closed : Ready

-- What a socket's handlers captured: the token of the search, or nothing that they use.
pub data Purpose : Type 0 where
  matchmaking : String → Purpose
  game : Purpose

pub record Socket : Type 0 where
  pub url : String
  pub purpose : Purpose
  pub ready : Ready
  pub sent : List Json

-- The hook's states and refs. A ref to a socket is its place in `sockets`, which holds every socket
-- that the hook has made, oldest first; their handlers stay attached.
pub record State : Type 0 where
  pub phase : PvpPhase
  pub opponent_name : Option String
  pub game_state : Option GameStateData
  pub turn_result : Option TurnResultData
  pub round_result : Option RoundResultData
  pub match_result : Option MatchResultData
  pub rounds_won_you : ℕ
  pub rounds_won_opponent : ℕ
  pub error : Option String
  pub matchmaking_ws : Option ℕ
  pub game_ws : Option ℕ
  pub sockets : List Socket
  pub tracked : List (EventName × Properties)

abbrev pub initial : State
initial = record {
  phase = lobby;
  opponent_name = none;
  game_state = none;
  turn_result = none;
  round_result = none;
  match_result = none;
  rounds_won_you = 0;
  rounds_won_opponent = 0;
  error = none;
  matchmaking_ws = none;
  game_ws = none;
  sockets = [];
  tracked = [];
}

-- The sockets with one of them changed.
abbrev pub modify : ℕ → (Socket → Socket) → List Socket → List Socket
modify i f [] = []
modify zero f (k ∷ ks) = f k ∷ ks
modify (suc i) f (k ∷ ks) = k ∷ modify i f ks

-- `close()` starts the closing handshake of a socket that is connecting or open.
abbrev pub shut : Ready → Ready
shut closed = closed
shut _ = closing

abbrev pub close : ℕ → List Socket → List Socket
close i = modify i (λ k. record k { ready = shut k.ready })

-- `ref.current?.close()`.
abbrev pub close_ref : Option ℕ → List Socket → List Socket
close_ref none ks = ks
close_ref (some i) ks = close i ks

abbrev pub ready_of : Option Socket → Ready
ready_of none = closed
ready_of (some k) = k.ready

abbrev pub ready_at : ℕ → List Socket → Ready
ready_at i ks = ready_of (get_elem? ks i)

abbrev pub is_open : Ready → Bool
is_open open_now = true
is_open _ = false

abbrev pub is_connecting : Ready → Bool
is_connecting connecting = true
is_connecting _ = false

-- A message goes out on an open socket; a closing or closed one drops it. (A connecting one throws:
-- the callers say what follows.)
abbrev pub transmit : ℕ → Json → List Socket → List Socket
transmit i body =
    modify i
      (λ k. elim (is_open k.ready) [ true ↦ record k { sent = k.sent ++ body ∷ [] } | false ↦ k ])
