-- ===== src/Pvp/Events/Invariant.antt =====
-- What holds of the hook between any two events, whatever the order of the events.
use ki_clash.Pvp.Events.Refs.{Shows, Refers}
use ki_clash.Pvp.Events.Shows.{
  game_message-Shows, queue_message-Shows, find_goes_on-Shows, join_goes_on-Shows, cancel-Shows,
  submit-Shows, on_error-Shows, on_close-Shows,
}
use ki_clash.Pvp.Events.Refers.{
  game_message-Refers, queue_message-Refers, find_goes_on-Refers, join_goes_on-Refers,
  cancel-Refers, submit-Refers, back-Refers, clean_up-Refers, set_ready-Refers, on_error-Refers,
  on_close-Refers,
}
use ki_clash.Common.{String}
use ki_clash.Pvp.{open_now, closed, State}
use ki_clash.Pvp.Handlers.{
  find_match, join_game, continue_from_reveal, continue_from_round, back_to_lobby, clean_up,
}
use ki_clash.Pvp.Events.{
  set_ready, Step, opens, queue_says, game_says, fails, closes, finds, find_goes_on, joins,
  join_goes_on, cancels, submits, reveal_seen, round_seen, leaves, unmounts, Reach, start, next,
}

module _ (ws_base : String) where
  Step-Shows : {s t : State} → Step ws_base s t → Shows s → Shows t
  unfolding find_match join_game clean_up continue_from_reveal continue_from_round back_to_lobby
  Step-Shows (opens i e) h = record { board = h.board; over = h.over; released = h.released }
  Step-Shows {s} (queue_says i k token m e p o) h = queue_message-Shows s ws_base i token m h
  Step-Shows {s} (game_says i k m e p o) h = game_message-Shows s i m h
  Step-Shows {s} (fails i k e o) h = on_error-Shows s k.purpose h
  Step-Shows {s} (closes i k e o) h =
      on_close-Shows (set_ready i closed s) k.purpose
        (record { board = h.board; over = h.over; released = h.released })
  Step-Shows finds h = record { board = h.board; over = h.over; released = h.released }
  Step-Shows {s} (find_goes_on r token) h = find_goes_on-Shows s ws_base r token h
  Step-Shows joins h = record { board = h.board; over = h.over; released = h.released }
  Step-Shows {s} (join_goes_on id name r token) h = join_goes_on-Shows s ws_base id name r token h
  Step-Shows {s} cancels h = cancel-Shows s h
  Step-Shows {s} (submits a) h = submit-Shows s a h
  Step-Shows reveal_seen h = record { board = h.board; over = h.over; released = h.released }
  Step-Shows round_seen h = record { board = h.board; over = h.over; released = h.released }
  Step-Shows leaves h = record { board = λ e. cc; over = λ e. cc; released = λ e. cc }
  Step-Shows unmounts h = record { board = h.board; over = h.over; released = h.released }

  Step-Refers : {s t : State} → Step ws_base s t → Refers s → Refers t
  unfolding find_match join_game clean_up continue_from_reveal continue_from_round
  Step-Refers {s} (opens i e) h = set_ready-Refers s i open_now h
  Step-Refers {s} (queue_says i k token m e p o) h = queue_message-Refers s ws_base i token m h
  Step-Refers {s} (game_says i k m e p o) h = game_message-Refers s i m h
  Step-Refers {s} (fails i k e o) h = on_error-Refers s k.purpose h
  Step-Refers {s} (closes i k e o) h =
      on_close-Refers (set_ready i closed s) k.purpose (set_ready-Refers s i closed h)
  Step-Refers finds h = record { to_game = h.to_game; to_search = h.to_search }
  Step-Refers {s} (find_goes_on r token) h = find_goes_on-Refers s ws_base r token h
  Step-Refers joins h = record { to_game = h.to_game; to_search = h.to_search }
  Step-Refers {s} (join_goes_on id name r token) h = join_goes_on-Refers s ws_base id name r token h
  Step-Refers {s} cancels h = cancel-Refers s h
  Step-Refers {s} (submits a) h = submit-Refers s a h
  Step-Refers reveal_seen h = record { to_game = h.to_game; to_search = h.to_search }
  Step-Refers round_seen h = record { to_game = h.to_game; to_search = h.to_search }
  Step-Refers {s} leaves h = back-Refers s h
  Step-Refers {s} unmounts h = clean_up-Refers s h

  -- Whatever the browser, the server and the page do, and in whatever order: the board of the phase
  -- playing has a game state, the end of a match has its result and no game socket, and each ref
  -- that is set names a socket that was made for its use.
  pub Reach-invariant : {s : State} → Reach ws_base s → Shows s × Refers s
  Reach-invariant start = (
    record { board = λ e. cc; over = λ e. cc; released = λ e. cc },
    record { to_game = λ i e. cc; to_search = λ i e. cc },
  )
  Reach-invariant (next r st) =
      let (shows, refers) = Reach-invariant r in (Step-Shows st shows, Step-Refers st refers)
