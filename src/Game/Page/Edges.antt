-- ===== src/Game/Page/Edges.antt =====
-- The order of the phases: the flow that the hook documents, and its error paths.
use ki_clash.Common.{ℕ, String, true, ◌≡◌, refl, Option, none, some, arith}
use ki_clash.Api.Types.{Action, GameState, MatchResult, RoundResult, SubmitActionResponse}
use ki_clash.Game.Page.{
  System, Step, choose, pick, act, reveal_over, round_over, play_again, auth_settles,
  create_settles, action_settles, is_loading, Reach,
}
use ki_clash.Game.Page.Sound.{Reach-IsSound, settles_alone}
use ki_clash.Game.{
  GamePhase, lobby, character_select, loading, playing, revealing, round_end, match_end, State,
  Settled, resolved, rejected, signing_in, creating, submitting, select_difficulty, start_game,
  signed_in, game_created, play_action, show_response, action_answered, continue_from_reveal,
  continue_from_round, back_to_lobby,
}

-- The flow lobby → character_select → loading → playing → loading → revealing, round_end or match_end
-- → playing or lobby, with the two ways back on an error.
infix 40 ◌⟶◌
pub data ◌⟶◌ : GamePhase → GamePhase → Type 0 where
  chosen : lobby ⟶ character_select
  starting : character_select ⟶ loading
  no_opponent : character_select ⟶ lobby
  signed : loading ⟶ loading
  begun : loading ⟶ playing
  not_started : loading ⟶ lobby
  submitted : playing ⟶ loading
  revealed : loading ⟶ revealing
  round_won : loading ⟶ round_end
  match_won : loading ⟶ match_end
  next_turn : revealing ⟶ playing
  next_round : round_end ⟶ playing
  again : match_end ⟶ lobby

ruleset edges = (
  chosen, starting, no_opponent, signed, begun, not_started, submitted, revealed, round_won,
  match_won, next_turn, next_round, again,
)

loads : (p : GamePhase) → is_loading p ≡ true → p ≡ loading
loads loading h = refl
loads _ h = cc

module _ (s : State) where
  signed_in_edge :
      (id ai : String) (name : Option String) (r : Settled Unit)
      → s.phase ≡ loading
      → loading ⟶ (signed_in id ai name r s).0.phase
  unfolding signed_in
  signed_in_edge id ai name (resolved u) h = rw h signed
  signed_in_edge id ai name (rejected e) h = not_started

  game_created_edge :
      (id ai : String) (r : Settled GameState) → loading ⟶ (game_created id ai r s).phase
  unfolding game_created
  game_created_edge id ai (resolved g) = begun
  game_created_edge id ai (rejected e) = not_started

  show_response_edge :
      (m : Option MatchResult) (r : Option RoundResult) (g : GameState)
      → loading ⟶ (show_response m r g s).phase
  show_response_edge (some m) r g = match_won
  show_response_edge none (some r) g = round_won
  show_response_edge none none g = revealed

action_answered_edge :
    (s : State) (id : String) (a : Action) (turn : Option ℕ) (r : Settled SubmitActionResponse)
    → loading ⟶ (action_answered id a turn r s).phase
unfolding action_answered
action_answered_edge s id a turn (resolved r) =
    show_response_edge _ r.match_result r.round_result r.game_state
action_answered_edge s id a turn (rejected e) = begun

-- Every step on a reachable page follows an edge of the documented flow of phases.
pub Step-⟶ : {s t : System} → Reach s → Step s t → s.state.phase ⟶ t.state.phase
unfolding select_difficulty start_game signed_in game_created play_action action_answered
    continue_from_reveal continue_from_round back_to_lobby
Step-⟶ r (choose d h) = rw h chosen
Step-⟶ r (pick id none h) = rw h no_opponent
Step-⟶ r (pick id (some ai) h) = rw h starting
Step-⟶ {s} r (act a h) = grind (arith, edges, (Reach-IsSound r).1)
Step-⟶ r (reveal_over h) = rw h next_turn
Step-⟶ r (round_over h) = rw h next_round
Step-⟶ r (play_again h) = rw h again
Step-⟶ {s} r (auth_settles id ai name result before after e) =
    let (_, busy, _) =
      settles_alone s.state before (signing_in id ai) after (rw e at (Reach-IsSound r).0) in
    rw (loads s.state.phase busy)
      (signed_in_edge (record s.state { phase = loading }) id ai name result refl)
Step-⟶ {s} r (create_settles id ai result before after e) =
    let (_, busy, _) =
      settles_alone s.state before (creating id ai) after (rw e at (Reach-IsSound r).0) in
    rw (loads s.state.phase busy)
      (game_created_edge (record s.state { phase = loading }) id ai result)
Step-⟶ {s} r (action_settles id a turn result before after e) =
    let (_, busy, _) =
      settles_alone s.state before (submitting id a turn) after (rw e at (Reach-IsSound r).0) in
    rw (loads s.state.phase busy)
      (action_answered_edge (record s.state { phase = loading }) id a turn result)
