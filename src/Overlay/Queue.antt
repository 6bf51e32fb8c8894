-- ===== src/Overlay/Queue.antt =====
-- The queue of web/src/components/arena/pixi/PixiFxOverlay.tsx, from which no effect is lost.
use mathlib.Core.List.{append_assoc, append-nil}
use ki_clash.Common.{
  ℕ, ◌≡◌, refl, sym, ap, ◌∙◌, arith, Bool, true, false, Option, none, some, List, [], ◌∷◌, ◌++◌,
  if◌then◌else◌, Bool-cases, ◌||◌, inl, inr, eqb,
}
use ki_clash.Overlay.{
  Call, OverlayEffect, State, trigger, nonce_of, is_same_nonce, fire_effect, build, mount, rerender,
  init_done, visibility_changes,
}

-- What happens to a mounted overlay whose colours stay.
pub data Event : Type 0 where
  renders : Option OverlayEffect → Event
  inits_done : Event
  hides : Bool → Event

unfoldable pub on_event : Event → State → State
unfolding rerender init_done visibility_changes
on_event (renders e) s = rerender s.player_color s.enemy_color e s
on_event inits_done s = init_done s.inits s
on_event (hides hidden) s = visibility_changes hidden s

unfoldable pub run : List Event → State → State
unfolding on_event
run [] s = s
run (e ∷ es) s = run es (on_event e s)

pub eqb_refl : (n : ℕ) → eqb n n ≡ true
eqb_refl n = ground arith

abbrev pub call_of : Option OverlayEffect → List Call
call_of none = []
call_of (some e) = (e.kind, e.side) ∷ []

-- The effect that an event asks for: one with another nonce than the render before.
abbrev pub added_by : Event → Option ℕ → List Call
added_by (renders e) last = if is_same_nonce (nonce_of e) last then [] else call_of e
added_by _ last = []

abbrev pub nonce_by : Event → Option ℕ → Option ℕ
nonce_by (renders e) last = nonce_of e
nonce_by _ last = last

abbrev pub is_init : Event → Bool
is_init inits_done = true
is_init _ = false

unfoldable pub asked : Option ℕ → List Event → List Call
asked last [] = []
asked last (e ∷ es) = added_by e last ++ asked (nonce_by e last) es

abbrev pub ever_done : List Event → Bool
ever_done [] = false
ever_done (e ∷ es) = is_init e || ever_done es

-- The effects that have fired, and then those that wait.
abbrev pub all_calls : State → List Call
all_calls s = s.fired ++ s.pending

-- Nothing waits once the overlay is ready.
abbrev IsDrained : State → Type 0
IsDrained s = s.is_ready ≡ true → s.pending ≡ []

same_nonce : (a b : Option ℕ) → is_same_nonce a b ≡ true → a ≡ b
same_nonce none none h = refl
same_nonce (some a) (some b) h = ap some (ground arith)
same_nonce none (some b) h = cc h
same_nonce (some a) none h = cc h

trigger_calls :
    (c : Call) (s : State) → IsDrained s → all_calls (trigger c s) ≡ all_calls s ++ c ∷ []
unfolding trigger
trigger_calls c s drained = elim (Bool-cases s.is_ready) [
  | inl e ↦ simp e (rw (drained e, append-nil (s.fired ++ c ∷ []), append-nil s.fired) refl)
  | inr e ↦ simp e (sym (append_assoc s.fired s.pending (c ∷ [])))
]

trigger-IsDrained : (c : Call) (s : State) → IsDrained s → IsDrained (trigger c s)
unfolding trigger
trigger-IsDrained c s drained = elim (Bool-cases s.is_ready) [
  | inl e ↦ simp e (λ _. drained e)
  | inr e ↦ simp e (λ h. cc h)
]

trigger_nonce : (c : Call) (s : State) → (trigger c s).nonce ≡ s.nonce
unfolding trigger
trigger_nonce c s = ground arith

trigger_ready : (c : Call) (s : State) → (trigger c s).is_ready ≡ s.is_ready
unfolding trigger
trigger_ready c s = ground arith

trigger_quiet :
    (c : Call) (s : State) → (trigger c s).is_ready ≡ false → (trigger c s).fired ≡ s.fired
unfolding trigger
trigger_quiet c s = elim (Bool-cases s.is_ready) [
  | inl e ↦ simp e (λ h. cc h)
  | inr e ↦ simp e (λ _. refl)
]

-- What an event leaves of the queue, where it asks for `added` and then the nonce is `last`.
record Moves (s t : State) (added : List Call) (last : Option ℕ) (is_done : Bool) : Type 0 where
  calls : all_calls t ≡ all_calls s ++ added
  drained : IsDrained t
  nonce : t.nonce ≡ last
  ready : t.is_ready ≡ (s.is_ready || is_done)
  quiet : t.is_ready ≡ false → t.fired ≡ s.fired

or_false : (b : Bool) → b ≡ (b || false)
or_false b = ground arith

stays : (s : State) → IsDrained s → Moves s s [] s.nonce false
stays s k = record {
  calls = sym (append-nil (all_calls s));
  drained = k;
  nonce = refl;
  ready = or_false s.is_ready;
  quiet = λ _. refl;
}

fire_effect-Moves :
    (e : Option OverlayEffect) (s : State)
    → IsDrained s
    → Moves s (fire_effect e s) (call_of e) (nonce_of e) false
unfolding fire_effect
fire_effect-Moves none s k = record {
  calls = sym (append-nil (all_calls s));
  drained = k;
  nonce = refl;
  ready = or_false s.is_ready;
  quiet = λ _. refl;
}
fire_effect-Moves (some e) s k =
    let seen = record s { nonce = some e.nonce } in
    record {
      calls = trigger_calls (e.kind, e.side) seen k;
      drained = trigger-IsDrained (e.kind, e.side) seen k;
      nonce = trigger_nonce (e.kind, e.side) seen;
      ready = trigger_ready (e.kind, e.side) seen ∙ or_false s.is_ready;
      quiet = trigger_quiet (e.kind, e.side) seen;
    }

event-Moves :
    (e : Event) (s : State)
    → IsDrained s
    → Moves s (on_event e s) (added_by e s.nonce) (nonce_by e s.nonce) (is_init e)
unfolding on_event rerender init_done visibility_changes
event-Moves (renders e) s k =
    rw (eqb_refl s.player_color, eqb_refl s.enemy_color)
      (elim (Bool-cases (is_same_nonce (nonce_of e) s.nonce)) [
        | inl same ↦ rw (same, same_nonce (nonce_of e) s.nonce same) (stays s k)
        | inr other ↦ rw other (fire_effect-Moves e s k)
      ])
event-Moves inits_done s k = rw (eqb_refl s.inits) (record {
  calls = refl;
  drained = λ _. refl;
  nonce = refl;
  ready = ground arith;
  quiet = λ h. cc h;
})
event-Moves (hides hidden) s k = record {
  calls = sym (append-nil (all_calls s));
  drained = k;
  nonce = refl;
  ready = or_false s.is_ready;
  quiet = λ _. refl;
}

-- What a run of events leaves.
record Ran (s t : State) (es : List Event) : Type 0 where
  calls : all_calls t ≡ all_calls s ++ asked s.nonce es
  drained : IsDrained t
  ready : t.is_ready ≡ (s.is_ready || ever_done es)
  quiet : t.is_ready ≡ false → t.fired ≡ s.fired

not_before : (a d e : Bool) → d ≡ (a || e) → d ≡ false → a ≡ false
not_before a d e h k = ground arith

ready_after : (s t u d e : Bool) → t ≡ (s || d) → u ≡ (t || e) → u ≡ (s || (d || e))
ready_after s t u d e h k = ground arith

run-Ran : (es : List Event) (s : State) → IsDrained s → Ran s (run es s) es
unfolding run asked
run-Ran [] s k = record {
  calls = sym (append-nil (all_calls s));
  drained = k;
  ready = or_false s.is_ready;
  quiet = λ _. refl;
}
run-Ran (e ∷ es) s k =
    let m = event-Moves e s k in
    let r = run-Ran es (on_event e s) m.drained in
    record {
      calls = r.calls ∙ rw (m.calls, m.nonce) (append_assoc (all_calls s) _ _);
      drained = r.drained;
      ready = ready_after s.is_ready _ _ (is_init e) (ever_done es) m.ready r.ready;
      quiet = λ h. r.quiet h ∙ m.quiet (not_before _ _ (ever_done es) r.ready h);
    }

-- A new overlay before it sees its effect.
abbrev built_new : ℕ → ℕ → State
built_new player_color enemy_color = record {
  player_color = player_color;
  enemy_color = enemy_color;
  nonce = none;
  inits = 1;
  pending = [];
  is_ready = false;
  ticker = none;
  fired = [];
}

mount-Moves :
    (player_color enemy_color : ℕ) (e : Option OverlayEffect)
    → Moves
        (built_new player_color enemy_color)
        (mount player_color enemy_color e)
        (call_of e)
        (nonce_of e)
        false
unfolding mount build
mount-Moves player_color enemy_color e =
    fire_effect-Moves e (built_new player_color enemy_color) (λ h. refl)

-- Whatever renders, changes of visibility and ends of its init come to a mounted overlay whose
-- colours stay: as long as the init is not done no effect fires, and once it is, every effect that
-- was asked for has fired, in order and once for each new nonce, and none waits.
pub no_effect_lost :
    (player_color enemy_color : ℕ) (e : Option OverlayEffect) (es : List Event)
    → let s = run es (mount player_color enemy_color e) in
      (ever_done es ≡ true → (s.fired ≡ call_of e ++ asked (nonce_of e) es) × (s.pending ≡ []))
      × (ever_done es ≡ false → (s.fired ≡ []) × (s.pending ≡ call_of e ++ asked (nonce_of e) es))
no_effect_lost player_color enemy_color e es =
    let m = mount-Moves player_color enemy_color e in
    let r = run-Ran es (mount player_color enemy_color e) m.drained in
    let s = run es (mount player_color enemy_color e) in
    let calls : all_calls s ≡ call_of e ++ asked (nonce_of e) es =
      r.calls ∙ rw (m.calls, m.nonce) refl in
    let ready : s.is_ready ≡ ever_done es = r.ready ∙ rw (m.ready) refl in
    (
      λ h. (
        sym (append-nil s.fired) ∙ ap (λ q. s.fired ++ q) (sym (r.drained (ready ∙ h))) ∙ calls,
        r.drained (ready ∙ h),
      ),
      λ h.
          let none_fired : s.fired ≡ [] = r.quiet (ready ∙ h) ∙ m.quiet m.ready in
          (none_fired, ap (λ q. q ++ s.pending) (sym none_fired) ∙ calls),
    )
