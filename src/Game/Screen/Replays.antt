-- ===== src/Game/Screen/Replays.antt =====
-- The effects of web/src/app/play/page.tsx from one turn to the next: the page leaves out the arena while
-- a call is under way, and keeps the last effect for the next overlay.
use mathlib.Core.Option
use ki_clash.Common.{
  ℕ, ◌+◌, ◌≡◌, refl, ap, ◌∙◌, arith, true, false, Option, none, some, [], ◌∷◌, is_truthy, eqb,
}
use ki_clash.Api.Types.{GameState, TurnResult}
use ki_clash.Overlay
use ki_clash.Overlay.{OverlayEffect, Call, player, enemy, mount, rerender, build, trigger}
use ki_clash.Overlay.Queue.{eqb_refl}
use ki_clash.Sounds
use ki_clash.Sounds.{reveal}
use ki_clash.Game
use ki_clash.Game.{loading, playing, revealing, continue_from_reveal}
use ki_clash.Game.Screen.{
  State, color_num, fx_kind, shows_arena, commit, fire_effect, reveal_turn, run_effect, round_sound,
  match_sound, update, enemy_fires,
}

-- The answer with a turn, and a turn that is sent; each is rendered.
abbrev pub answer : TurnResult → GameState → State → State
answer r g p = update (record p {
  hook = record p.hook { last_turn = some r; game_state = some g; phase = revealing };
})

abbrev pub play_on : State → State
play_on p = update (record p { hook = continue_from_reveal p.hook })

abbrev pub send : State → State
send p = update (record p { hook = record p.hook { phase = loading } })

-- The page after a turn, with the opponent's effect, and the next turn as it is answered.
abbrev pub two_turns : TurnResult → GameState → TurnResult → GameState → State → State
two_turns r g r' g' p = answer r' g' (send (play_on (enemy_fires (answer r g p))))

-- Two pages that differ in their overlays alone.
abbrev SameButOverlay : State → State → Type 0
SameButOverlay p q = (o : Option Overlay.State) × (p ≡ record q { overlay = o })

-- The page that shows a turn's answer.
abbrev turned : TurnResult → GameState → State → State
turned r g p = reveal_turn (some r) (record p {
  hook = record p.hook { last_turn = some r; game_state = some g; phase = revealing };
  sounds = Sounds.play p.sounds.muted reveal p.sounds;
  prev_phase = revealing;
})

answer-turned :
    (r : TurnResult) (g : GameState) (p : State)
    → p.prev_phase ≡ loading
    → SameButOverlay (answer r g p) (turned r g p)
unfolding update commit run_effect reveal_turn round_sound match_sound fire_effect
answer-turned r g p h = ((answer r g p).overlay, rw h refl)

-- The page after the opponent's effect.
abbrev fought : TurnResult → GameState → State → State
fought r g p =
    fire_effect (fx_kind r.p2_action) enemy (record (turned r g p) { enemy_fx_timer = none })

enemy_fought :
    (r : TurnResult) (g : GameState) (p : State) (o : Option Overlay.State)
    → SameButOverlay (enemy_fires (record (turned r g p) { overlay = o })) (fought r g p)
unfolding enemy_fires commit reveal_turn fire_effect
enemy_fought r g p o = (_, refl)

-- The page that waits for the next answer.
abbrev waiting : State → State
waiting p = record p {
  hook = record (continue_from_reveal p.hook) { phase = loading };
  prev_phase = loading;
  overlay = none;
}

send_waits :
    (p : State) (o : Option Overlay.State)
    → p.prev_phase ≡ revealing
    → send (play_on (record p { overlay = o })) ≡ waiting p
unfolding update commit run_effect round_sound match_sound continue_from_reveal shows_arena
send_waits p o h = rw h refl

next_nonce : (n : ℕ) → eqb (n + 1) n ≡ false
next_nonce n = ground arith

queued :
    (n player_color enemy_color : ℕ) (e f : OverlayEffect)
    → e.nonce ≡ n
    → f.nonce ≡ n + 1
    → (rerender player_color enemy_color (some f) (mount player_color enemy_color (some e))).pending
      ≡ (e.kind, e.side) ∷ (f.kind, f.side) ∷ []
unfolding rerender mount build Overlay.fire_effect trigger
queued n player_color enemy_color e f h k =
    rw (h, k, next_nonce n, eqb_refl player_color, eqb_refl enemy_color) refl

abbrev answered : TurnResult → GameState → State → Game.State
answered r g p = record p.hook { last_turn = some r; game_state = some g; phase = revealing }

abbrev player_effect : TurnResult → State → OverlayEffect
player_effect r p = record { kind = fx_kind r.p1_action; side = player; nonce = p.effect_nonce + 1 }

-- A new overlay gets the effect that is there, and then the turn's.
answer_mounts :
    (r : TurnResult) (g : GameState) (p : State)
    → p.prev_phase ≡ loading
    → p.overlay ≡ none
    → shows_arena (answered r g p) ≡ true
    → let player_color = color_num p.hook.player_character_id in
      let enemy_color = color_num p.hook.ai_character_id in
      (answer r g p).overlay
      ≡ some (
          rerender player_color enemy_color
            (some (player_effect r p))
            (mount player_color enemy_color p.arena_effect))
unfolding update commit run_effect reveal_turn round_sound match_sound fire_effect
answer_mounts r g p h i j = rw (h, i, j) refl

shown :
    (r : TurnResult) (g : GameState) (p : State)
    → is_truthy p.hook.player_character_id ≡ true
    → is_truthy p.hook.ai_character_id ≡ true
    → shows_arena (answered r g p) ≡ true
unfolding shows_arena
shown r g p h i = rw (h, i) refl

-- On the page of a match against the computer, a turn's effects begin with the opponent's of the
-- turn before: the overlay that is mounted for the second of two turns gets that one, and only then
-- the player's.
pub old_effect_replayed :
    (r r' : TurnResult) (g g' : GameState) (p : State)
    → p.prev_phase ≡ loading
    → is_truthy p.hook.player_character_id ≡ true
    → is_truthy p.hook.ai_character_id ≡ true
    → Option.map (λ o. o.pending) (two_turns r g r' g' p).overlay
      ≡ some ((fx_kind r.p2_action, enemy) ∷ (fx_kind r'.p1_action, player) ∷ [])
unfolding reveal_turn fire_effect continue_from_reveal
old_effect_replayed r r' g g' p h i j =
    let (o, first) = answer-turned r g p h in
    let (o', second) = enemy_fought r g p o in
    let q = waiting (fought r g p) in
    let waits : send (play_on (enemy_fires (answer r g p))) ≡ q =
      ap (λ u. send (play_on (enemy_fires u))) first
      ∙ ap (λ u. send (play_on u)) second
      ∙ send_waits (fought r g p) o' refl in
    let mounts = answer_mounts r' g' q refl refl (shown r' g' q i j) in
    ap (λ u. Option.map (λ v. v.pending) (answer r' g' u).overlay) waits
    ∙ ap (Option.map (λ v. v.pending)) mounts
    ∙ ap some (queued ((turned r g p).effect_nonce + 1) _ _ _ (player_effect r' q) refl refl)
