-- ===== src/Tests/Reveal.antt =====
-- A reveal (web/src/components/TurnReveal.tsx) of a hit and of a turn without effect.
use ki_clash.Common.{◌≡◌, ◌+◌, ◌*◌, true, false, ◌==◌}
use ki_clash.Api.Types.{p1_wins_round}
use ki_clash.Reveal.{face_down, outcome, get_shake_class, mounted, show_turn, run}
use ki_clash.Reveal.Stages.{sevens, pvp_outcome_late}

late_example :
    let start = show_turn true p1_wins_round mounted in
    let seen = sevens p1_wins_round 2 (run true p1_wins_round 15 start) in
    ((run true p1_wins_round 14 start).outcomes ≡ 0)
    × ((run true p1_wins_round 15 start).stage ≡ outcome)
    × ((run true p1_wins_round 15 start).now ≡ 4100)
    × ((get_shake_class p1_wins_round == "") ≡ false
        → (seen.stage ≡ outcome)
          × (seen.outcomes ≡ 1 + 2)
          × (seen.now ≡ 4100 + 2600 * 2)
          × ((run true p1_wins_round 1 seen).stage ≡ face_down)
          × ((run true p1_wins_round 1 seen).now ≡ seen.now))
late_example = pvp_outcome_late p1_wins_round 2
