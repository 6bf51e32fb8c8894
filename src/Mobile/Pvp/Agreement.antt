-- ===== src/Mobile/Pvp/Agreement.antt =====
-- The messages of one game socket, as the mobile hook and the web hook take them.
use ki_clash.Common.{
  arith, ℕ, ◌≡◌, refl, sym, ap, ◌∙◌, String, true, false, not, List, [], ◌∷◌, ◌==◌, if◌then◌else◌,
  Bool-cases, inl, inr,
}
use ki_clash.Pvp.{GameMessage, round_result, match_result, ready_at, is_open, close}
use ki_clash.Pvp
use ki_clash.Pvp.Sockets.{close_not_open}
use ki_clash.Pvp.Score
use ki_clash.Pvp.View.{View, react, follow, follow_none, view-deliver}
use ki_clash.Pvp.View
use ki_clash.Mobile.Pvp.{State}
use ki_clash.Mobile.Pvp.Handlers.{on_game_message}

abbrev pub view : State → View
view s = record {
  phase = s.phase;
  opponent_name = s.opponent_name;
  game_state = s.game_state;
  turn_result = s.turn_result;
  round_result = s.round_result;
  match_result = s.match_result;
  rounds_won_you = s.rounds_won_you;
  rounds_won_opponent = s.rounds_won_opponent;
  error = s.error;
}

-- The messages go to the socket's handler while the socket is open.
pub deliver : ℕ → String → List GameMessage → State → State
deliver i id [] s = s
deliver i id (m ∷ ms) s =
    deliver i id ms (if is_open (ready_at i s.sockets) then on_game_message i id m s else s)

deaf :
    (i : ℕ) (id : String) (ms : List GameMessage) (s : State)
    → is_open (ready_at i s.sockets) ≡ false
    → deliver i id ms s ≡ s
unfolding deliver
deaf i id [] s h = refl
deaf i id (m ∷ ms) s h = rw h (deaf i id ms s h)

deliver_open :
    (i : ℕ) (id : String) (m : GameMessage) (ms : List GameMessage) (s : State)
    → is_open (ready_at i s.sockets) ≡ true
    → deliver i id (m ∷ ms) s ≡ deliver i id ms (on_game_message i id m s)
unfolding deliver
deliver_open i id m ms s h = rw h refl

react-on_game_message :
    (i : ℕ) (id : String) (m : GameMessage) (s : State)
    → view (on_game_message i id m s) ≡ react m (view s)
unfolding on_game_message
react-on_game_message i id (round_result r) s = elim (Bool-cases (r.winner == "you")) [
  | inl you ↦ rw you refl
  | inr other ↦ elim (Bool-cases (r.winner == "opponent")) [
    | inl opponent ↦ rw (other, opponent) refl
    | inr draw ↦ rw (other, draw) refl
  ]
]
react-on_game_message i id m s = refl

open_after :
    (i : ℕ) (id : String) (m : GameMessage) (s : State)
    → is_open (ready_at i s.sockets) ≡ true
    → is_open (ready_at i (on_game_message i id m s).sockets) ≡ not (Pvp.Score.is_result m)
unfolding on_game_message
open_after i id (match_result r) s h = close_not_open i s.sockets
open_after i id (round_result r) s h = ground arith
open_after i id m s h = h

-- The mobile hook shows what the messages of its game socket say, in order, up to the match's result.
pub view-deliver_mobile :
    (i : ℕ) (id : String) (ms : List GameMessage) (s : State)
    → view (deliver i id ms s) ≡ follow (is_open (ready_at i s.sockets)) ms (view s)
unfolding deliver
view-deliver_mobile i id [] s = sym (follow_none (is_open (ready_at i s.sockets)) (view s))
view-deliver_mobile i id (m ∷ ms) s = elim (Bool-cases (is_open (ready_at i s.sockets))) [
  | inl live ↦
      ap view (deliver_open i id m ms s live)
      ∙ view-deliver_mobile i id ms (on_game_message i id m s)
      ∙ rw (open_after i id m s live, react-on_game_message i id m s, live) refl
  | inr shut ↦ ap view (deaf i id (m ∷ ms) s shut) ∙ rw shut refl
]

-- A player sees the same on both clients: where a web hook and a mobile hook show the same and have
-- their game sockets both open or both not, the same messages leave them showing the same.
pub clients_agree :
    (i j : ℕ) (id : String) (ms : List GameMessage) (s : State) (w : Pvp.State)
    → view s ≡ Pvp.View.view w
    → is_open (ready_at i s.sockets) ≡ is_open (ready_at j w.sockets)
    → view (deliver i id ms s) ≡ Pvp.View.view (Pvp.Score.deliver j ms w)
clients_agree i j id ms s w same socket =
    view-deliver_mobile i id ms s ∙ rw (same, socket) refl ∙ sym (view-deliver j ms w)
