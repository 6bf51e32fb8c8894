-- ===== src/Game/Screen.antt =====
-- web/src/app/play/page.tsx: the effect of the page on the phase, with the sounds, the fighter's animation
-- and the effects of the arena that it starts, and the overlay of the arena that the page mounts.
pub mod Replays
use Prim.Native.Char.{Char, code}
use Prim.Native.String
use mathlib.Core.Option
use ki_clash.Common.{
  ℕ, zero, suc, ◌+◌, ◌-◌, ◌*◌, String, Bool, true, false, not, ◌&&◌, Option, none, some, List, [],
  ◌∷◌, ◌++◌, eqb, leb, is_some, is_truthy, get_or_else, if◌then◌else◌,
}
use ki_clash.Api.Types.{
  Action, TurnOutcome, p1_wins_round, p2_wins_round, TurnResult, RoundResult, MatchResult,
  RoundWinner, p1, p2, draw,
}
use ki_clash.Api.Types
use ki_clash.Api.Storage.{Storage}
use ki_clash.Characters.{Character, get_character}
use ki_clash.Animation.{ActionKind, api_to_action}
use ki_clash.Sounds
use ki_clash.Sounds.{SoundName, reveal, round_win, round_lose}
use ki_clash.Overlay
use ki_clash.Overlay.{FxKind, FxSide, player, enemy, OverlayEffect, mount, rerender}
use ki_clash.Game
use ki_clash.Game.{
  GamePhase, lobby, character_select, loading, playing, revealing, round_end, match_end,
}
use ki_clash.Game.Page.{draws_board, is_loading}

abbrev pub outcome_sound : TurnOutcome → SoundName
outcome_sound p1_wins_round = Sounds.hit
outcome_sound p2_wins_round = Sounds.hit
outcome_sound Types.clash = Sounds.clash
outcome_sound Types.blocked = Sounds.block
outcome_sound Types.dodged = Sounds.dodge
outcome_sound Types.neutral = Sounds.charge

-- An action as the kind of an effect.
abbrev pub fx_kind : Action → FxKind
fx_kind Types.charge = Overlay.charge
fx_kind Types.block = Overlay.block
fx_kind Types.attack = Overlay.attack
fx_kind Types.energy_wave = Overlay.energy_wave
fx_kind Types.teleport = Overlay.teleport

abbrev hex_digit : Char → Option ℕ
hex_digit c =
    if leb 48 (code c) && leb (code c) 57
    then some (code c - 48)
    else if leb 97 (code c) && leb (code c) 102
    then some (code c - 87)
    else if leb 65 (code c) && leb (code c) 70
    then some (code c - 55)
    else none

-- The digits that a text begins with, after a number that was read.
hex_from : ℕ → String → ℕ
hex_from n String.[] = n
hex_from n (String.◌∷◌ c s) = elim (hex_digit c) [ none ↦ n | some d ↦ hex_from (n * 16 + d) s ]

-- `s.replace("#", "")`: the first one goes.
drop_hash : String → String
drop_hash String.[] = String.[]
drop_hash (String.◌∷◌ c s) =
    let rest = drop_hash s in if eqb (code c) 35 then s else String.◌∷◌ c rest

-- `hexToNum`; a text without digits is no number, and that and 0 are false.
unfoldable pub hex_to_num : Option String → ℕ
unfolding hex_from drop_hash
hex_to_num hex =
    let n = hex_from 0 (drop_hash (get_or_else hex "")) in if eqb n 0 then 16777215 else n

-- A sound that a timer will play, with the mute flag of the render that made its `play`.
pub record SoundTimer : Type 0 where
  pub delay : ℕ
  pub name : SoundName
  pub muted : Bool

-- The hook and the page's states, refs and timers. `overlay` is the overlay while the page shows the
-- arena; `actions` has the calls of triggerArenaAction, and `match_ends` their number for onMatchEnd.
pub record State : Type 0 where
  pub hook : Game.State
  pub sounds : Sounds.State
  pub prev_phase : GamePhase
  pub arena_effect : Option OverlayEffect
  pub effect_nonce : ℕ
  pub enemy_fx_timer : Option FxKind
  pub overlay : Option Overlay.State
  pub actions : List ActionKind
  pub sound_timers : List SoundTimer
  pub match_ends : ℕ

abbrev pub initial : State
initial = record {
  hook = Game.initial;
  sounds = Sounds.initial;
  prev_phase = lobby;
  arena_effect = none;
  effect_nonce = 0;
  enemy_fx_timer = none;
  overlay = none;
  actions = [];
  sound_timers = [];
  match_ends = 0;
}

-- The colour of a fighter, for the overlay.
unfoldable pub color_num : Option String → ℕ
unfolding hex_to_num get_character
color_num none = hex_to_num none
color_num (some id) = hex_to_num (Option.map (λ c. c.color) (get_character id))

unfoldable pub shows_arena : Game.State → Bool
shows_arena h =
    draws_board h.phase
    && is_some h.game_state
    && is_truthy h.player_character_id
    && is_truthy h.ai_character_id

abbrev with_arena : Option Overlay.State → ℕ → ℕ → Option OverlayEffect → Overlay.State
with_arena none player_color enemy_color effect = mount player_color enemy_color effect
with_arena (some o) player_color enemy_color effect = rerender player_color enemy_color effect o

-- A render as it reaches the overlay, whose effects run before the page's.
unfoldable pub commit : State → State
unfolding shows_arena color_num
commit p = record p {
  overlay =
      if shows_arena p.hook
      then some (
          with_arena p.overlay (color_num p.hook.player_character_id)
            (color_num p.hook.ai_character_id) p.arena_effect)
      else none;
}

unfoldable pub fire_effect : FxKind → FxSide → State → State
fire_effect kind side p = record p {
  effect_nonce = p.effect_nonce + 1;
  arena_effect = some (record { kind = kind; side = side; nonce = p.effect_nonce + 1 });
}

-- `setTimeout(() => play(name), delay)`.
abbrev pub play_later : ℕ → SoundName → State → State
play_later delay name p = record p {
  sound_timers =
      p.sound_timers ++ record { delay = delay; name = name; muted = p.sounds.muted } ∷ [];
}

-- The part of the effect for a turn that has just been answered.
unfoldable pub reveal_turn : Option TurnResult → State → State
unfolding fire_effect api_to_action
reveal_turn none p = p
reveal_turn (some r) p =
    let sounding = play_later 300 (outcome_sound r.outcome) p in
    let acting = record sounding { actions = p.actions ++ api_to_action r.p1_action ∷ [] } in
    record (fire_effect (fx_kind r.p1_action) player acting) {
      enemy_fx_timer = some (fx_kind r.p2_action);
    }

abbrev pub is_result : GamePhase → Bool
is_result revealing = true
is_result round_end = true
is_result match_end = true
is_result _ = false

abbrev pub winner_sound : RoundWinner → SoundName
winner_sound p1 = round_win
winner_sound p2 = round_lose
winner_sound draw = round_lose

-- The part for the end of a round.
unfoldable pub round_sound : GamePhase → Option RoundResult → State → State
round_sound round_end (some r) p = play_later 600 (winner_sound r.winner) p
round_sound _ _ p = p

-- The part for the end of a match.
unfoldable pub match_sound : GamePhase → Option MatchResult → State → State
match_sound match_end (some r) p = record (play_later 1500 (winner_sound r.winner) p) {
  match_ends = p.match_ends + 1;
}
match_sound _ _ p = p

-- The effect on the phase, which runs again whenever the turn, the round, the match's result or `play`
-- is another.
unfoldable pub run_effect : State → State
unfolding reveal_turn round_sound match_sound
run_effect p =
    let seen = record p { prev_phase = p.hook.phase } in
    let heard = record seen { sounds = Sounds.play p.sounds.muted reveal p.sounds } in
    let revealed =
      if is_loading p.prev_phase && is_result p.hook.phase
      then reveal_turn p.hook.last_turn heard
      else seen in
    match_sound p.hook.phase p.hook.match_result
      (round_sound p.hook.phase p.hook.last_round revealed)

-- A render in which a dependency of the effect has changed, and the one that the effect's new states
-- bring about.
unfoldable pub update : State → State
unfolding commit run_effect
update p = commit (run_effect (commit p))

-- The timer of the opponent's effect.
unfoldable pub enemy_fires : State → State
unfolding commit fire_effect
enemy_fires p = elim p.enemy_fx_timer [
  | none ↦ p
  | some kind ↦ commit (fire_effect kind enemy (record p { enemy_fx_timer = none }))
]

-- A timer of a sound.
unfoldable pub sound_fires : SoundTimer → State → State
sound_fires t p = record p { sounds = Sounds.play t.muted t.name p.sounds }

-- The sound is toggled, which makes another `play`.
unfoldable pub mute_toggled : Storage → State → State
unfolding update
mute_toggled st p = update (record p { sounds = (Sounds.toggle_mute (p.sounds, st)).0 })
