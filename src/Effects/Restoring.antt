-- ===== src/Effects/Restoring.antt =====
-- What the effects of web/src/components/arena/pixi/effects.ts leave of the fighters.
use ki_clash.Common.{
  ℕ, ◌+◌, ◌-◌, ◌≤◌, ◌<◌, ◌≡◌, refl, sym, ap, ◌∙◌, arith, Bool, true, false, Bool-cases, inl, inr,
  List, [], ◌∷◌, ◌++◌, leb,
}
use ki_clash.Particles.{Floats}
use ki_clash.Effects.{
  EffectKind, charge, attack, energy_wave, teleport, block, finisher, Side, player, enemy, duration,
  Fighter, Animation, Arena, toward, fighter, set_filters, changed, other, begin, trigger_effect,
  fly, update, done, advance, frame_from, frame, frames,
}

-- The time that frames take.
abbrev pub sum : List ℕ → ℕ
sum [] = 0
sum (dt ∷ dts) = dt + sum dts

pub not_over : (d e : ℕ) → leb d e ≡ false → leb d (e + 0) ≡ true → 0 < 0
not_over d e h k = ground arith

pub add_assoc : (a b c : ℕ) → a + b + c ≡ a + (b + c)
add_assoc a b c = omega arith

add_sub : (n : ℕ) → n + 5 - 5 ≡ n
add_sub n = omega arith

module _ (floats : Floats) where
  -- An animation some time later.
  abbrev later : ℕ → Bool → Animation floats → Animation floats
  later elapsed impacted r = record r { elapsed = elapsed; impacted = impacted }

  abbrev of_kind : EffectKind → Side → Animation floats → Animation floats
  of_kind kind side r = record r { kind = kind; side = side }

  -- The end of an effect does not depend on the updates before.
  done_forgets :
      (kind : EffectKind) (side : Side) (b : Bool) (r q : Animation floats) (a : Arena floats)
      → done floats
          (record q { kind = kind; side = side; found = r.found })
          (update floats b (of_kind kind side r) a)
        ≡ done floats (record q { kind = kind; side = side; found = r.found }) a
  done_forgets charge s b r q a = refl
  done_forgets attack player b r q a = refl
  done_forgets attack enemy b r q a = refl
  done_forgets energy_wave player b r q a = ground arith
  done_forgets energy_wave enemy b r q a = ground arith
  done_forgets teleport player b r q a = refl
  done_forgets teleport enemy b r q a = refl
  done_forgets block s b r q a = refl
  done_forgets finisher player b r q a = refl
  done_forgets finisher enemy b r q a = refl

  pub forgets :
      (b : Bool) (r : Animation floats) (a : Arena floats)
      → done floats r (update floats b r a) ≡ done floats r a
  forgets b r a = done_forgets r.kind r.side b r r a

  abbrev pub with_running : List (Animation floats) → Arena floats → Arena floats
  with_running rs a = record a { running = rs }

  update_running_by :
      (kind : EffectKind) (side : Side) (b : Bool) (r : Animation floats) (a : Arena floats)
      → (update floats b (of_kind kind side r) a).running ≡ a.running
  update_running_by charge s b r a = refl
  update_running_by attack player b r a = refl
  update_running_by attack enemy b r a = refl
  update_running_by energy_wave player b r a = ground arith
  update_running_by energy_wave enemy b r a = ground arith
  update_running_by teleport player b r a = refl
  update_running_by teleport enemy b r a = refl
  update_running_by block s b r a = refl
  update_running_by finisher player b r a = refl
  update_running_by finisher enemy b r a = refl

  pub update_running :
      (b : Bool) (r : Animation floats) (a : Arena floats)
      → (update floats b r a).running ≡ a.running
  update_running b r a = update_running_by r.kind r.side b r a

  -- The arena with nothing on its ticker.
  abbrev pub stopped : Arena floats → Arena floats
  stopped a = with_running [] a

  stopped-update :
      (b : Bool) (r : Animation floats) (a : Arena floats)
      → stopped (update floats b r (stopped a)) ≡ update floats b r (stopped a)
  stopped-update b r a =
      ap (λ rs. with_running rs (update floats b r (stopped a)))
        (sym (update_running b r (stopped a)))

  pub done_running_by :
      (kind : EffectKind) (side : Side) (r : Animation floats) (a : Arena floats)
      → (done floats (of_kind kind side r) (stopped a)).running ≡ []
  done_running_by charge player r a = refl
  done_running_by charge enemy r a = refl
  done_running_by attack player r a = refl
  done_running_by attack enemy r a = refl
  done_running_by energy_wave player r a = refl
  done_running_by energy_wave enemy r a = refl
  done_running_by teleport player r a = refl
  done_running_by teleport enemy r a = refl
  done_running_by block player r a = refl
  done_running_by block enemy r a = refl
  done_running_by finisher player r a = refl
  done_running_by finisher enemy r a = refl

  pub quiet : (dts : List ℕ) (a : Arena floats) → a.running ≡ [] → frames floats dts a ≡ a
  unfolding frames frame frame_from
  quiet [] a h = refl
  quiet (dt ∷ dts) a h = ap (frames floats dts) (rw h refl) ∙ quiet dts a h

  -- A frame of an animation that is alone on the ticker.
  frame_ends :
      (dt : ℕ) (r : Animation floats) (a : Arena floats)
      → leb (duration r.kind) (r.elapsed + dt) ≡ true
      → frame floats dt (with_running (r ∷ []) a) ≡ done floats r (stopped a)
  unfolding frame frame_from advance
  frame_ends dt r a h = rw h (forgets r.impacted (fly floats (r.elapsed + dt) r) (stopped a))

  pub frame_goes_on :
      (dt : ℕ) (r : Animation floats) (a : Arena floats)
      → leb (duration r.kind) (r.elapsed + dt) ≡ false
      → let now = fly floats (r.elapsed + dt) r in
        frame floats dt (with_running (r ∷ []) a)
        ≡ with_running (now ∷ []) (update floats r.impacted now (stopped a))
  unfolding frame frame_from advance
  frame_goes_on dt r a h =
      let now = fly floats (r.elapsed + dt) r in
      rw h (
        ap (λ rs. with_running (rs ++ now ∷ []) (update floats r.impacted now (stopped a)))
          (update_running r.impacted now (stopped a)))

  pub frames_end :
      (dts : List ℕ) (r : Animation floats) (a : Arena floats)
      → leb (duration r.kind) r.elapsed ≡ false
      → leb (duration r.kind) (r.elapsed + sum dts) ≡ true
      → frames floats dts (with_running (r ∷ []) a) ≡ done floats r (stopped a)
  unfolding frames
  frames_end [] r a h k = elim (not_over (duration r.kind) r.elapsed h k) [ ]
  frames_end (dt ∷ dts) r a h k = elim (Bool-cases (leb (duration r.kind) (r.elapsed + dt))) [
    | inl e ↦
        ap (frames floats dts) (frame_ends dt r a e)
        ∙ quiet dts (done floats r (stopped a)) (done_running_by r.kind r.side r a)
    | inr e ↦
        let now = fly floats (r.elapsed + dt) r in
        let moved = update floats r.impacted now (stopped a) in
        ap (frames floats dts) (frame_goes_on dt r a e)
        ∙ frames_end dts now moved e
            (ap (leb (duration r.kind)) (add_assoc r.elapsed dt (sum dts)) ∙ k)
        ∙ ap (done floats r) (stopped-update r.impacted now a)
        ∙ forgets r.impacted now (stopped a)
  ]

  -- What is left of an effect once it is over: its filters are off, and with them any others there.
  abbrev pub settled : EffectKind → Side → Arena floats → Arena floats
  settled charge side a = set_filters floats side [] a
  settled teleport side a = set_filters floats side [] a
  settled block side a = set_filters floats side [] a
  settled attack side a = record a { fx_filters = [] }
  settled energy_wave side a = record a { fx_filters = [] }
  settled finisher side a = record a { fx_filters = [] }

  -- The animation that an effect starts.
  abbrev pub started : EffectKind → Side → Arena floats → Animation floats
  started kind side a = record {
    kind = kind;
    side = side;
    elapsed = 0;
    found = fighter floats (changed kind side) a;
    impacted = false;
    dir = toward floats (fighter floats side a).x (fighter floats (other side) a).x;
  }

  -- A fighter as it stands between effects.
  pub record IsUpright (f : Fighter floats) : Type 0 where
    pub alpha : f.alpha ≡ floats.literal "1"
    pub rotation : f.rotation ≡ floats.literal "0"

  done_settles :
      (kind : EffectKind) (side : Side) (a : Arena floats)
      → IsUpright (fighter floats (changed kind side) a)
      → done floats (started kind side a) (stopped (begin floats kind side a))
        ≡ settled kind side (stopped a)
  done_settles charge player a u = refl
  done_settles charge enemy a u = refl
  done_settles attack player a u = refl
  done_settles attack enemy a u = refl
  done_settles energy_wave player a u = rw (add_sub a.sprites) refl
  done_settles energy_wave enemy a u = rw (add_sub a.sprites) refl
  done_settles teleport player a u = refl
  done_settles teleport enemy a u = refl
  done_settles block player a u = refl
  done_settles block enemy a u = refl
  done_settles finisher player a u = rw (u.alpha, u.rotation) refl
  done_settles finisher enemy a u = rw (u.alpha, u.rotation) refl

  starts_unfinished : (kind : EffectKind) → leb (duration kind) 0 ≡ false
  starts_unfinished kind = ground arith

  pub triggered :
      (kind : EffectKind) (side : Side) (a : Arena floats)
      → a.running ≡ []
      → trigger_effect floats kind side a
        ≡ with_running (started kind side a ∷ []) (begin floats kind side a)
  unfolding trigger_effect
  triggered kind side a h =
      ap (λ rs. with_running (rs ++ started kind side a ∷ []) (begin floats kind side a)) h

  at_rest :
      (kind : EffectKind) (side : Side) (a : Arena floats)
      → a.running ≡ []
      → settled kind side (stopped a) ≡ settled kind side a
  at_rest kind side a h = ap (λ rs. settled kind side (with_running rs a)) (sym h)

  -- An effect that runs alone, over any frames that take as long as it lasts, leaves everything as
  -- it found it, the fighter being upright before, but for filters: after a charge, a teleport or a
  -- block the fighter has none at all, and after the others the layer has none.
  pub effect_settles :
      (kind : EffectKind) (side : Side) (a : Arena floats) (dts : List ℕ)
      → a.running ≡ []
      → IsUpright (fighter floats (changed kind side) a)
      → duration kind ≤ sum dts
      → frames floats dts (trigger_effect floats kind side a) ≡ settled kind side a
  effect_settles kind side a dts h u long =
      ap (frames floats dts) (triggered kind side a h)
      ∙ frames_end dts (started kind side a) (begin floats kind side a) (starts_unfinished kind)
          (ground (arith, long))
      ∙ done_settles kind side a u
      ∙ at_rest kind side a h
