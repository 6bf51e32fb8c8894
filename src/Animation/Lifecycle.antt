-- ===== src/Animation/Lifecycle.antt =====
-- The phases of an animation of web/src/hooks/useActionAnimation.ts over time.
use mathlib.Core.Path.{subst}
use ki_clash.Common.{
  sym, ℕ, ◌+◌, ◌≡◌, refl, ◌∙◌, arith, Bool, true, false, leb, ltb, none, some, List, [], ◌∷◌,
  if◌then◌else◌, All,
}
use ki_clash.Animation.{
  ActionKind, ActionPhase, idle, windup, impact, recover, Options, Timer, State, initial, has,
  clear, trigger_action, callback, fired, fire, advance,
}

-- Every timer that has not fired is one that the hook can clear.
abbrev pub AllHeld : State → Type 0
AllHeld s = All (λ t. has t.id s.timeout_refs ≡ true) s.timers

clear_held :
    (refs : List ℕ) (ts : List Timer) → All (λ t. has t.id refs ≡ true) ts → clear refs ts ≡ []
clear_held refs [] h = refl
clear_held refs (t ∷ ts) h = rw (h.0) (clear_held refs ts h.1)

trigger-AllHeld :
    (o : Options) (a : ActionKind) (s : State) → AllHeld s → AllHeld (trigger_action o a s)
unfolding trigger_action
trigger-AllHeld o a s h =
    rw (clear_held s.timeout_refs s.timers h) (ground arith, (ground arith, (ground arith, tt)))

callback_refs : (p : ActionPhase) (s : State) → (callback p s).timeout_refs ≡ s.timeout_refs
callback_refs p s = ground arith

callback_timers : (p : ActionPhase) (s : State) → (callback p s).timers ≡ s.timers
callback_timers p s = ground arith

fired_refs :
    (b : Bool) (t : Timer) (ts : List Timer) (s : State)
    → ((s' : State) → (fire ts s').timeout_refs ≡ s'.timeout_refs)
    → (fired b t (fire ts) s).timeout_refs ≡ s.timeout_refs
fired_refs true t ts s ih = ih (callback t.sets s) ∙ callback_refs t.sets s
fired_refs false t ts s ih = ih s

fire_refs : (ts : List Timer) (s : State) → (fire ts s).timeout_refs ≡ s.timeout_refs
unfolding fire
fire_refs [] s = refl
fire_refs (t ∷ ts) s = fired_refs (leb t.due s.now) t ts s (fire_refs ts)

abbrev HeldBy : List ℕ → List Timer → Type 0
HeldBy refs ts = All (λ t. has t.id refs ≡ true) ts

fired-AllHeld :
    (b : Bool) (t : Timer) (ts : List Timer) (s : State)
    → has t.id s.timeout_refs ≡ true
    → HeldBy s.timeout_refs s.timers
    → ((s' : State)
        → s'.timeout_refs ≡ s.timeout_refs
        → s'.timers ≡ s.timers
        → HeldBy s.timeout_refs (fire ts s').timers)
    → HeldBy s.timeout_refs (fired b t (fire ts) s).timers
fired-AllHeld true t ts s h k ih =
    ih (callback t.sets s) (callback_refs t.sets s) (callback_timers t.sets s)
fired-AllHeld false t ts s h k ih = (h, ih s refl refl)

fire-AllHeld :
    (ts : List Timer) (s : State)
    → HeldBy s.timeout_refs ts
    → HeldBy s.timeout_refs s.timers
    → HeldBy s.timeout_refs (fire ts s).timers
unfolding fire
fire-AllHeld [] s h k = k
fire-AllHeld (t ∷ ts) s h k = fired-AllHeld (leb t.due s.now) t ts s h.0 k (λ s' e f.
    subst (λ refs. HeldBy refs (fire ts s').timers) e
      (fire-AllHeld ts s' (subst (λ refs. HeldBy refs ts) (sym e) h.1)
        (subst (λ refs. HeldBy refs s'.timers) (sym e) (subst (HeldBy s.timeout_refs) (sym f) k))))

advance-AllHeld : (ms : ℕ) (s : State) → AllHeld s → AllHeld (advance ms s)
unfolding advance
advance-AllHeld ms s h =
    rw (fire_refs s.timers (record s { now = s.now + ms; timers = [] }))
      (fire-AllHeld s.timers (record s { now = s.now + ms; timers = [] }) h tt)

-- The phase that an animation is in after some time.
abbrev pub phase_at : Options → ℕ → ActionPhase
phase_at o ms =
    if ltb ms o.windup_ms
    then windup
    else if ltb ms (o.windup_ms + o.impact_ms)
    then impact
    else if ltb ms (o.windup_ms + o.impact_ms + o.recover_ms)
    then recover
    else idle

-- The states that the hook gets into.
pub data Reach : State → Type 0 where
  mounted : Reach initial
  triggers : (o : Options) (a : ActionKind) {s : State} → Reach s → Reach (trigger_action o a s)
  passes : (ms : ℕ) {s : State} → Reach s → Reach (advance ms s)

-- However actions are triggered and time passes, every timer that can still fire is one that the
-- next trigger clears.
pub Reach-AllHeld : {s : State} → Reach s → AllHeld s
Reach-AllHeld mounted = tt
Reach-AllHeld (triggers o a {s} r) = trigger-AllHeld o a s (Reach-AllHeld r)
Reach-AllHeld (passes ms {s} r) = advance-AllHeld ms s (Reach-AllHeld r)

-- From any state that the hook gets into, a triggered animation is in its windup, its impact, its
-- recovery and at rest exactly when its durations say so, and the action is shown until then; no
-- timer of an earlier animation disturbs it.
pub phase-advance :
    (o : Options) (a : ActionKind) (ms : ℕ) (s : State)
    → Reach s
    → ((advance ms (trigger_action o a s)).phase ≡ phase_at o ms)
      × ((advance ms (trigger_action o a s)).action
          ≡ (if ltb ms (o.windup_ms + o.impact_ms + o.recover_ms) then some a else none))
unfolding advance trigger_action fire
phase-advance o a ms s h =
    rw (clear_held s.timeout_refs s.timers (Reach-AllHeld h)) (ground arith, ground arith)
