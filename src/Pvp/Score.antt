-- ===== src/Pvp/Score.antt =====
-- The messages of one game socket, in order: the score, and the end of the match.
use ki_clash.Common.{
  ℕ, suc, ◌+◌, ◌≡◌, ◌≢◌, refl, String, Bool, true, false, none, some, List, [], ◌∷◌, arith, ◌==◌,
  inl, inr, ap, ◌∙◌, Bool-cases, eq_iff, if◌then◌else◌,
}
use ki_clash.Pvp.{
  match_end, MatchResultData, GameMessage, waiting_for_action, round_result, match_result, State,
  ready_at, is_open,
}
use ki_clash.Pvp.Sockets.{close_not_open}
use ki_clash.Pvp.Handlers.{on_game_message}

-- The browser hands a message to the socket's handler while the socket is open.
unfoldable pub deliver : ℕ → List GameMessage → State → State
deliver i [] s = s
deliver i (m ∷ ms) s =
    deliver i ms (if is_open (ready_at i s.sockets) then on_game_message i m s else s)

-- The rounds that a side wins in the messages before the first match result.
abbrev pub wins : String → List GameMessage → ℕ
wins side [] = 0
wins side (match_result r ∷ ms) = 0
wins side (round_result r ∷ ms) = if r.winner == side then suc (wins side ms) else wins side ms
wins side (_ ∷ ms) = wins side ms

-- A socket that is not open delivers nothing.
pub deaf :
    (i : ℕ) (ms : List GameMessage) (s : State)
    → is_open (ready_at i s.sockets) ≡ false
    → deliver i ms s ≡ s
unfolding deliver
deaf i [] s h = refl
deaf i (m ∷ ms) s h = rw h (deaf i ms s h)

pub deliver_open :
    (i : ℕ) (m : GameMessage) (ms : List GameMessage) (s : State)
    → is_open (ready_at i s.sockets) ≡ true
    → deliver i (m ∷ ms) s ≡ deliver i ms (on_game_message i m s)
unfolding deliver
deliver_open i m ms s h = rw h refl

deliver_result :
    (i : ℕ) (r : MatchResultData) (ms : List GameMessage) (s : State)
    → is_open (ready_at i s.sockets) ≡ true
    → deliver i (match_result r ∷ ms) s ≡ on_game_message i (match_result r) s
unfolding on_game_message
deliver_result i r ms s h =
    deliver_open i (match_result r) ms s h
    ∙ deaf i ms (on_game_message i (match_result r) s) (close_not_open i s.sockets)

-- After a match result on an open socket the match is over: it is shown, the hook has no game
-- socket, and no later message on the socket changes anything.
pub match_result_last :
    (i : ℕ) (r : MatchResultData) (ms : List GameMessage) (s : State)
    → is_open (ready_at i s.sockets) ≡ true
    → (deliver i (match_result r ∷ ms) s ≡ on_game_message i (match_result r) s)
      × ((deliver i (match_result r ∷ ms) s).phase ≡ match_end)
      × ((deliver i (match_result r ∷ ms) s).match_result ≡ some r)
      × ((deliver i (match_result r ∷ ms) s).game_ws ≡ none)
unfolding on_game_message
match_result_last i r ms s h =
    let e = deliver_result i r ms s h in
    (e, ap (λ t. t.phase) e, ap (λ t. t.match_result) e, ap (λ t. t.game_ws) e)

abbrev pub is_result : GameMessage → Bool
is_result (match_result _) = true
is_result _ = false

-- Any other message leaves the sockets alone.
pub sockets_kept :
    (i : ℕ) (m : GameMessage) (s : State)
    → is_result m ≡ false
    → (on_game_message i m s).sockets ≡ s.sockets
unfolding on_game_message
sockets_kept i (round_result r) s h = ground arith
sockets_kept i (match_result r) s h = cc
sockets_kept i m s h = refl

you-ne-opponent : ◌≢◌ {A = String} "you" "opponent"
you-ne-opponent = ground (arith, eq_iff "you" "opponent")

score_step :
    (i : ℕ) (m : GameMessage) (ms : List GameMessage) (s : State)
    → is_result m ≡ false
    → ((on_game_message i m s).rounds_won_you + wins "you" ms
        ≡ s.rounds_won_you + wins "you" (m ∷ ms))
      × ((on_game_message i m s).rounds_won_opponent + wins "opponent" ms
          ≡ s.rounds_won_opponent + wins "opponent" (m ∷ ms))
unfolding on_game_message
score_step i (round_result r) ms s h =
    ground (arith, eq_iff r.winner "you", eq_iff r.winner "opponent", you-ne-opponent)
score_step i (match_result r) ms s h = cc
score_step i m ms s h = (refl, refl)

score_of_result :
    (i : ℕ) (m : GameMessage) (ms : List GameMessage) (s : State)
    → is_result m ≡ true
    → is_open (ready_at i s.sockets) ≡ true
    → ((deliver i (m ∷ ms) s).rounds_won_you ≡ s.rounds_won_you + wins "you" (m ∷ ms))
      × ((deliver i (m ∷ ms) s).rounds_won_opponent
          ≡ s.rounds_won_opponent + wins "opponent" (m ∷ ms))
unfolding on_game_message
score_of_result i (match_result r) ms s h k =
    rw (deliver_result i r ms s k) (omega arith, omega arith)
score_of_result i (waiting_for_action d) ms s h k = cc
score_of_result i _ ms s h k = cc

-- After any messages on an open game socket, each side's count has grown by the rounds that the
-- messages before the first match result give it, and a draw counts for none.
pub score_counts_wins :
    (i : ℕ) (ms : List GameMessage) (s : State)
    → is_open (ready_at i s.sockets) ≡ true
    → ((deliver i ms s).rounds_won_you ≡ s.rounds_won_you + wins "you" ms)
      × ((deliver i ms s).rounds_won_opponent ≡ s.rounds_won_opponent + wins "opponent" ms)
unfolding deliver
score_counts_wins i [] s h = (omega arith, omega arith)
score_counts_wins i (m ∷ ms) s h = elim (Bool-cases (is_result m)) [
  | inl result ↦ score_of_result i m ms s result h
  | inr kept ↦ rw (deliver_open i m ms s h) (
      let ih = score_counts_wins i ms (on_game_message i m s) (rw (sockets_kept i m s kept) h) in
      omega (arith, ih.0, ih.1, (score_step i m ms s kept).0, (score_step i m ms s kept).1))
]
