-- ===== src/Pvp/Page/Ends.antt =====
-- The effect on the phase of web/src/app/pvp/page.tsx, along what the hook shows.
use ki_clash.Common.{
  ℕ, suc, ◌+◌, ◌≡◌, refl, arith, String, Bool, true, false, not, ◌&&◌, Option, none, some, List, [],
  ◌∷◌, ◌++◌, if◌then◌else◌, sym, ◌∙◌,
}
use mathlib.Core.List.{append_assoc, append-nil}
use ki_clash.Pvp.{PvpPhase, match_end, revealing, TurnResultData}
use ki_clash.Pvp
use ki_clash.Pvp.Page.{
  Page, player, enemy, run_effect, enemy_effect, is_match_end, is_revealing, reveal_result,
}

-- The page is rendered with each of these states of the hook.
unfoldable pub run : List Pvp.State → Page → Page
unfolding run_effect
run [] p = p
run (h ∷ hs) p = run hs (run_effect (record p { hook = h }))

-- How often a list of phases, after a first one, comes to the end of a match.
abbrev pub entries : PvpPhase → List Pvp.State → ℕ
entries prev [] = 0
entries prev (h ∷ hs) =
    if is_match_end h.phase && not (is_match_end prev)
    then suc (entries h.phase hs)
    else entries h.phase hs

abbrev pub action_of : Option TurnResultData → List String
action_of none = []
action_of (some r) = r.your_action ∷ []

-- The player's actions of the turns that a list of states comes to reveal.
abbrev pub reveals : PvpPhase → List Pvp.State → List String
reveals prev [] = []
reveals prev (h ∷ hs) =
    if is_revealing h.phase && not (is_revealing prev)
    then action_of h.turn_result ++ reveals h.phase hs
    else reveals h.phase hs

effect_prev : (p : Page) → (run_effect p).prev_phase ≡ p.hook.phase
unfolding run_effect
effect_prev p = ground arith

effect_match_ends :
    (p : Page)
    → (run_effect p).match_ends ≡ (
        if is_match_end p.hook.phase && not (is_match_end p.prev_phase)
        then suc p.match_ends
        else p.match_ends)
unfolding run_effect
effect_match_ends p = ground arith

reveal_actions :
    (o : Option TurnResultData) (p : Page) → (reveal_result o p).actions ≡ p.actions ++ action_of o
reveal_actions none p = sym (append-nil p.actions)
reveal_actions (some r) p = refl

effect_actions :
    (p : Page)
    → (run_effect p).actions ≡ (
        if is_revealing p.hook.phase && not (is_revealing p.prev_phase)
        then p.actions ++ action_of p.hook.turn_result
        else p.actions)
unfolding run_effect
effect_actions p =
    ground (arith, reveal_actions p.hook.turn_result (record p { prev_phase = p.hook.phase }))

count_entry : (b : Bool) (m n : ℕ) → (if b then suc m else m) + n ≡ m + (if b then suc n else n)
count_entry b m n = ground arith

list_entry :
    (b : Bool) (xs ys zs : List String)
    → (if b then xs ++ ys else xs) ++ zs ≡ xs ++ (if b then ys ++ zs else zs)
list_entry true xs ys zs = append_assoc xs ys zs
list_entry false xs ys zs = refl

match_ends-run :
    (hs : List Pvp.State) (p : Page)
    → (run hs p).match_ends ≡ p.match_ends + entries p.prev_phase hs
unfolding run
match_ends-run [] p = omega arith
match_ends-run (h ∷ hs) p =
    let q = record p { hook = h } in
    match_ends-run hs (run_effect q)
    ∙ rw (effect_match_ends q, effect_prev q)
        (count_entry (is_match_end h.phase && not (is_match_end p.prev_phase)) p.match_ends
          (entries h.phase hs))

actions-run :
    (hs : List Pvp.State) (p : Page) → (run hs p).actions ≡ p.actions ++ reveals p.prev_phase hs
unfolding run
actions-run [] p = sym (append-nil p.actions)
actions-run (h ∷ hs) p =
    let q = record p { hook = h } in
    actions-run hs (run_effect q)
    ∙ rw (effect_actions q, effect_prev q)
        (list_entry (is_revealing h.phase && not (is_revealing p.prev_phase)) p.actions
          (action_of h.turn_result) (reveals h.phase hs))

-- Over any sequence of states of the hook, with any number of rerenders in each: the page calls
-- onMatchEnd once for each time that the phase becomes match_end, and plays the player's action
-- once for each time that it becomes revealing with a turn's result.
pub effect_once_per_entry :
    (hs : List Pvp.State) (p : Page)
    → ((run hs p).match_ends ≡ p.match_ends + entries p.prev_phase hs)
      × ((run hs p).actions ≡ p.actions ++ reveals p.prev_phase hs)
effect_once_per_entry hs p = (match_ends-run hs p, actions-run hs p)

pub reveal_both :
    (p : Page) (r : TurnResultData)
    → p.hook.phase ≡ revealing
    → is_revealing p.prev_phase ≡ false
    → p.hook.turn_result ≡ some r
    → (enemy_effect (run_effect p)).effects
      ≡ p.effects ++ (r.your_action, player) ∷ (r.opponent_action, enemy) ∷ []
unfolding run_effect enemy_effect
reveal_both p r e f g = rw (e, f, g) (append_assoc p.effects _ _)
