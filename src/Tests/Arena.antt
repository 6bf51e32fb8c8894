-- ===== src/Tests/Arena.antt =====
-- What the arena shows, on small runs: the overlay of web/src/components/arena/pixi/PixiFxOverlay.tsx and
-- the page around it, the effects of effects.ts, a fighter's image, and the end of a match.
use mathlib.Core.Option
use ki_clash.Common.{
  String, ◌≡◌, refl, arith, Bool, true, false, none, some, List, [], ◌∷◌, ◌++◌, ◌==◌,
}
use ki_clash.Api.Types.{TurnResult, clash, p1_wins_round}
use ki_clash.Api.Types
use ki_clash.Overlay.{OverlayEffect, charge, attack, player, enemy, mount}
use ki_clash.Overlay.Queue.{
  Event, renders, inits_done, hides, run, asked, ever_done, call_of, no_effect_lost,
}
use ki_clash.Game.{loading}
use ki_clash.Game.Screen.{State, initial, fx_kind, hex_to_num}
use ki_clash.Game.Screen.Replays.{two_turns, old_effect_replayed}
use ki_clash.Effects.{Fighter, Arena}
use ki_clash.Effects
use ki_clash.Effects.Restoring.{settled, effect_settles}
use ki_clash.Effects.Overlaps.{recoiled, second_attack_displaces}
use ki_clash.Finale
use ki_clash.Finale.Once.{after}
use ki_clash.Tests.Game.{some_game, in_match}
use ki_clash.Tests.Particles.{naturals}

abbrev first_effect : OverlayEffect
first_effect = record { kind = charge; side = player; nonce = 1 }

abbrev second_effect : OverlayEffect
second_effect = record { kind = attack; side = enemy; nonce = 2 }

abbrev events : List Event
events = renders (some first_effect) ∷ hides true ∷ inits_done ∷ renders (some second_effect) ∷ []

queue_example :
    let s = run events (mount 1 2 (some first_effect)) in
    (ever_done events ≡ true
      → (s.fired ≡ call_of (some first_effect) ++ asked (some 1) events) × (s.pending ≡ []))
    × (ever_done events ≡ false
        → (s.fired ≡ []) × (s.pending ≡ call_of (some first_effect) ++ asked (some 1) events))
queue_example = no_effect_lost 1 2 (some first_effect) events

abbrev turn : TurnResult
turn = record {
  turn_number = 1;
  p1_action = Types.charge;
  p2_action = Types.energy_wave;
  outcome = p1_wins_round;
  p1_ki_after = 1;
  p2_ki_after = 0;
}

abbrev sent : State
sent = record initial {
  hook = record in_match { player_character_id = some "haneul"; ai_character_id = some "bora" };
  prev_phase = loading;
}

replay_example :
    Option.map (λ o. o.pending) (two_turns turn some_game turn some_game sent).overlay
    ≡ some ((fx_kind Types.energy_wave, enemy) ∷ (fx_kind Types.charge, player) ∷ [])
replay_example = old_effect_replayed turn turn some_game some_game sent refl refl refl

sky : hex_to_num (some "#60A5FA") ≡ 6333946
unfolding hex_to_num
sky = refl

no_color : hex_to_num none ≡ 16777215
unfolding hex_to_num
no_color = refl

abbrev standing : Fighter naturals
standing = record {
  x = 2;
  scale_x = 1;
  scale_y = 1;
  alpha = 1;
  rotation = 0;
  filters = Effects.aura ∷ [];
}

abbrev arena : Arena naturals
arena = record { player = standing; enemy = standing; fx_filters = []; sprites = 0; running = [] }

alone_example :
    Effects.frames naturals
      (500 ∷ 400 ∷ 600 ∷ [])
      (Effects.trigger_effect naturals Effects.energy_wave Effects.player arena)
    ≡ settled naturals Effects.energy_wave Effects.player arena
alone_example =
    effect_settles naturals Effects.energy_wave Effects.player arena (500 ∷ 400 ∷ 600 ∷ []) refl
      (record { alpha = refl; rotation = refl }) (omega arith)

displaces_example :
    let mid =
      Effects.frame naturals 300
        (Effects.trigger_effect naturals Effects.attack Effects.player arena) in
    let after =
      Effects.frames naturals
        (400 ∷ 400 ∷ [])
        (Effects.trigger_effect naturals Effects.attack Effects.player mid) in
    (after.enemy.x ≡ recoiled naturals Effects.player 300 2) × (after.running ≡ [])
displaces_example =
    second_attack_displaces naturals Effects.player arena 300 (400 ∷ 400 ∷ []) refl (omega arith)
      (omega arith)

abbrev no_windup : String → Bool
no_windup src = src == "/fighters/bora/windup.png"
