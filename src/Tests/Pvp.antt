-- ===== src/Tests/Pvp.antt =====
-- Messages and events of web/src/hooks/usePvP.ts.
use ki_clash.Common.{◌≡◌, ◌+◌, refl, true, some, none, [], ◌∷◌, arith}
use ki_clash.Api.Types.{block}
use ki_clash.Game.{resolved}
use ki_clash.Pvp.{
  State, initial, Socket, game, open_now, closed, round_result, match_result, RoundResultData,
  MatchResultData, ready_at, is_open,
}
use ki_clash.Pvp.Handlers.{submit_action, find_match_signed_in}
use ki_clash.Pvp.Score.{deliver, score_counts_wins}
use ki_clash.Pvp.Events.{start, next, find_goes_on, set_ready, on_close}
use ki_clash.Pvp.Events.Refs.{Shows, Refers}
use ki_clash.Pvp.Events.Invariant.{Reach-invariant}
use ki_clash.Pvp.Events.Stale.{stale_close_drops_actions}

abbrev pub game_socket : Socket
game_socket = record {
  url = "/api/v1/ws/game/g1?token=t1";
  purpose = game;
  ready = open_now;
  sent = [];
}

abbrev in_match : State
in_match = record initial { game_ws = some 1; sockets = game_socket ∷ game_socket ∷ [] }

abbrev pub won : RoundResultData
won = record { round_number = 1; winner = "you"; total_turns = 4 }

abbrev pub over : MatchResultData
over = record { winner = "you"; rounds_won_p1 = 1; rounds_won_p2 = 0; total_turns = 4 }

score_example :
    ((deliver 1
        (round_result won ∷ match_result over ∷ round_result won ∷ [])
        in_match).rounds_won_you
      ≡ 0 + 1)
    × ((deliver 1
          (round_result won ∷ match_result over ∷ round_result won ∷ [])
          in_match).rounds_won_opponent
        ≡ 0 + 0)
score_example =
    score_counts_wins 1 (round_result won ∷ match_result over ∷ round_result won ∷ []) in_match refl

abbrev seeking : State
seeking = find_match_signed_in "" (resolved tt) (some "t1") initial

invariant_example : Shows seeking × Refers seeking
invariant_example = Reach-invariant "" (next start (find_goes_on (resolved tt) (some "t1")))

stale_example :
    let t = on_close game (set_ready 0 closed in_match) in
    (is_open (ready_at 1 t.sockets) ≡ true) × (t.game_ws ≡ none) × (submit_action block t ≡ t)
stale_example =
    stale_close_drops_actions in_match 0 1 game_socket block refl refl refl refl (omega arith)
