-- ===== src/Pvp/Events/Shows.antt =====
-- What the phases of web/src/hooks/usePvP.ts show, under every handler.
use ki_clash.Pvp.Events.Refs.{Shows}
use ki_clash.Common.{ℕ, String, Option, arith}
use ki_clash.Api.Types.{Action}
use ki_clash.Game.{Settled}
use ki_clash.Pvp.{GameMessage, QueueMessage, Purpose, State}
use ki_clash.Pvp.Handlers.{
  on_queue_message, find_match_signed_in, join_game_signed_in, on_game_message, on_game_error,
  on_game_close, on_queue_error, on_queue_close, cancel_search, submit_action,
}
use ki_clash.Pvp.Events.{on_error, on_close}

module _ (s : State) where
  pub game_message-Shows : (i : ℕ) (m : GameMessage) → Shows s → Shows (on_game_message i m s)
  unfolding on_game_message
  game_message-Shows i m h = ground arith

  pub queue_message-Shows :
      (ws_base : String) (i : ℕ) (token : String) (m : QueueMessage)
      → Shows s
      → Shows (on_queue_message ws_base i token m s)
  unfolding on_queue_message
  queue_message-Shows ws_base i token m h = ground arith

  pub find_goes_on-Shows :
      (ws_base : String) (r : Settled Unit) (token : Option String)
      → Shows s
      → Shows (find_match_signed_in ws_base r token s)
  unfolding find_match_signed_in
  find_goes_on-Shows ws_base r token h = ground arith

  pub join_goes_on-Shows :
      (ws_base id : String) (name : Option String) (r : Settled Unit) (token : Option String)
      → Shows s
      → Shows (join_game_signed_in ws_base id name r token s)
  unfolding join_game_signed_in
  join_goes_on-Shows ws_base id name r token h = ground arith

  pub cancel-Shows : Shows s → Shows (cancel_search s)
  unfolding cancel_search
  cancel-Shows h = ground arith

  pub submit-Shows : (a : Action) → Shows s → Shows (submit_action a s)
  unfolding submit_action
  submit-Shows a h = ground arith

  pub on_error-Shows : (p : Purpose) → Shows s → Shows (on_error p s)
  unfolding on_game_error on_queue_error
  on_error-Shows p h = ground arith

  pub on_close-Shows : (p : Purpose) → Shows s → Shows (on_close p s)
  unfolding on_game_close on_queue_close
  on_close-Shows p h = ground arith
