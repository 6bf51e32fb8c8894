-- ===== src/Pvp/Events/Refers.antt =====
-- The refs of web/src/hooks/usePvP.ts under every handler.
use ki_clash.Pvp.Events.Refs.{Refers, Refers-kept, Refers-game, Refers-search}
use ki_clash.Common.{
  ℕ, ◌≡◌, refl, String, Option, none, arith, is_truthy, or_else, ◌∙◌, Bool-cases, Option-cases, inl,
  inr,
}
use ki_clash.Api.Types.{Action}
use ki_clash.Game.{Settled, resolved, rejected}
use ki_clash.Pvp.{
  GameMessage, round_result, match_result, waiting_for_action, QueueMessage, match_found,
  matchmaking_timeout, queue_joined, Ready, Purpose, matchmaking, game, State, close, close_ref,
  transmit,
}
use ki_clash.Pvp.Sockets.{
  kind_at, kind_at-modify, kind_at-close, kind_at-close_ref, kind_at-transmit,
}
use ki_clash.Pvp.Handlers.{
  on_queue_message, find_match_signed_in, join_game_signed_in, on_game_message, on_game_error,
  on_game_close, on_queue_error, on_queue_close, cancel_search, submit_action, back_to_lobby,
  clean_up, leave_queue, action_body,
}
use ki_clash.Pvp.Events.{set_ready, on_error, on_close}

module _ (s : State) where
  pub game_message-Refers : (i : ℕ) (m : GameMessage) → Refers s → Refers (on_game_message i m s)
  unfolding on_game_message
  game_message-Refers i (match_result r) h = record {
    to_game = λ j e. cc;
    to_search = λ j e. kind_at-close i j s.sockets ∙ h.to_search j e;
  }
  game_message-Refers i (round_result r) h = record {
    to_game = λ j e. ground (arith, h.to_game j);
    to_search = λ j e. ground (arith, h.to_search j);
  }
  game_message-Refers i (waiting_for_action d) h = record {
    to_game = h.to_game;
    to_search = h.to_search;
  }
  game_message-Refers i m h = record { to_game = h.to_game; to_search = h.to_search }

  pub queue_message-Refers :
      (ws_base : String) (i : ℕ) (token : String) (m : QueueMessage)
      → Refers s
      → Refers (on_queue_message ws_base i token m s)
  unfolding on_queue_message
  queue_message-Refers ws_base i token queue_joined h = h
  queue_message-Refers ws_base i token (match_found id name) h =
      let dropped : Refers (record s { sockets = close i s.sockets; matchmaking_ws = none }) =
        record {
          to_game = λ j e. kind_at-close i j s.sockets ∙ h.to_game j e;
          to_search = λ j e. cc;
        } in
      record {
        to_game =
            (Refers-game (record s { sockets = close i s.sockets; matchmaking_ws = none }) _ refl
              dropped).to_game;
        to_search = λ j e. cc;
      }
  queue_message-Refers ws_base i token matchmaking_timeout h = record {
    to_game = λ j e. kind_at-close i j s.sockets ∙ h.to_game j e;
    to_search = λ j e. cc;
  }
  queue_message-Refers ws_base i token m h = h

  pub find_goes_on-Refers :
      (ws_base : String) (r : Settled Unit) (token : Option String)
      → Refers s
      → Refers (find_match_signed_in ws_base r token s)
  unfolding find_match_signed_in
  find_goes_on-Refers ws_base (resolved u) token h = elim (Bool-cases (is_truthy token)) [
    | inl there ↦ rw there (
        let h' = Refers-search s _ (or_else token "") refl h in
        record { to_game = h'.to_game; to_search = h'.to_search })
    | inr missing ↦ rw missing (record { to_game = h.to_game; to_search = h.to_search })
  ]
  find_goes_on-Refers ws_base (rejected e) token h = record {
    to_game = h.to_game;
    to_search = h.to_search;
  }

  pub join_goes_on-Refers :
      (ws_base id : String) (name : Option String) (r : Settled Unit) (token : Option String)
      → Refers s
      → Refers (join_game_signed_in ws_base id name r token s)
  unfolding join_game_signed_in
  join_goes_on-Refers ws_base id name (resolved u) token h = elim (Bool-cases (is_truthy token)) [
    | inl there ↦ rw there (
        let h' = Refers-game s _ refl h in
        record { to_game = h'.to_game; to_search = h'.to_search })
    | inr missing ↦ rw missing (record { to_game = h.to_game; to_search = h.to_search })
  ]
  join_goes_on-Refers ws_base id name (rejected e) token h = record {
    to_game = h.to_game;
    to_search = h.to_search;
  }

  closed_sent :
      (i j : ℕ) → kind_at j (close i (transmit i leave_queue s.sockets)) ≡ kind_at j s.sockets
  closed_sent i j =
      kind_at-close i j (transmit i leave_queue s.sockets)
      ∙ kind_at-transmit i j leave_queue s.sockets

  cancel_kind : (i : ℕ) → kind_at i (cancel_search s).sockets ≡ kind_at i s.sockets
  unfolding cancel_search
  cancel_kind i = elim (Option-cases s.matchmaking_ws) [
    | inl e ↦ ground arith
    | inr (j, e) ↦ ground (arith, closed_sent j i)
  ]

  pub cancel-Refers : Refers s → Refers (cancel_search s)
  unfolding cancel_search
  cancel-Refers h = record {
    to_game = λ i e. cancel_kind i ∙ h.to_game i (ground arith);
    to_search = λ i e. cancel_kind i ∙ h.to_search i (ground arith);
  }

  submit_kind : (a : Action) (i : ℕ) → kind_at i (submit_action a s).sockets ≡ kind_at i s.sockets
  unfolding submit_action
  submit_kind a i = elim (Option-cases s.game_ws) [
    | inl e ↦ ground arith
    | inr (j, e) ↦ ground (arith, kind_at-transmit j i (action_body a) s.sockets)
  ]

  pub submit-Refers : (a : Action) → Refers s → Refers (submit_action a s)
  unfolding submit_action
  submit-Refers a h = record {
    to_game = λ i e. submit_kind a i ∙ h.to_game i (ground arith);
    to_search = λ i e. submit_kind a i ∙ h.to_search i (ground arith);
  }

  pub back-Refers : Refers s → Refers (back_to_lobby s)
  unfolding back_to_lobby
  back-Refers h =
      let same = λ (i : ℕ).
        kind_at-close_ref s.matchmaking_ws i (close_ref s.game_ws s.sockets)
        ∙ kind_at-close_ref s.game_ws i s.sockets in
      record {
        to_game = λ i e. same i ∙ h.to_game i e;
        to_search = λ i e. same i ∙ h.to_search i e;
      }

  pub clean_up-Refers : Refers s → Refers (clean_up s)
  unfolding clean_up
  clean_up-Refers h =
      let same = λ (i : ℕ).
        kind_at-close_ref s.game_ws i (close_ref s.matchmaking_ws s.sockets)
        ∙ kind_at-close_ref s.matchmaking_ws i s.sockets in
      record {
        to_game = λ i e. same i ∙ h.to_game i e;
        to_search = λ i e. same i ∙ h.to_search i e;
      }

  pub set_ready-Refers : (i : ℕ) (r : Ready) → Refers s → Refers (set_ready i r s)
  set_ready-Refers i r h = Refers-kept s _ h (λ j. kind_at-modify _ i j s.sockets (λ k. refl))

  pub on_error-Refers : (p : Purpose) → Refers s → Refers (on_error p s)
  unfolding on_game_error on_queue_error
  on_error-Refers game h = record { to_game = h.to_game; to_search = h.to_search }
  on_error-Refers (matchmaking t) h = record { to_game = h.to_game; to_search = h.to_search }

  pub on_close-Refers : (p : Purpose) → Refers s → Refers (on_close p s)
  unfolding on_game_close on_queue_close
  on_close-Refers game h = record { to_game = λ i e. cc; to_search = h.to_search }
  on_close-Refers (matchmaking t) h = record { to_game = h.to_game; to_search = λ i e. cc }
