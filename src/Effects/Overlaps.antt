-- ===== src/Effects/Overlaps.antt =====
-- An attack during an attack, in web/src/components/arena/pixi/effects.ts.
use ki_clash.Common.{
  ℕ, ◌+◌, ◌≤◌, ◌<◌, ◌≡◌, refl, ap, ◌∙◌, arith, Bool, true, false, Bool-cases, inl, inr, List, [],
  ◌∷◌, ◌++◌, leb,
}
use ki_clash.Particles.{Floats}
use ki_clash.Effects.{
  attack, Side, player, enemy, duration, Animation, Arena, fighter, other, begin, trigger_effect,
  progress, recoil, swing, fly, update, done, advance, frame_from, frame, frames, Number,
}
use ki_clash.Effects.Restoring.{
  sum, add_assoc, with_running, stopped, update_running, forgets, frames_end, quiet,
  done_running_by, started, triggered, frame_goes_on,
}

plus_zero : (t : ℕ) → 0 + t ≡ t
plus_zero t = omega arith

not_two : (k l e f : ℕ) → k ≡ l → f ≤ e → leb k e ≡ false → leb l (f + 0) ≡ true → 0 < 0
not_two k l e f same older h i = ground (arith, same, older)

older_done : (k l e f dt : ℕ) → k ≡ l → f ≤ e → leb l (f + dt) ≡ true → leb k (e + dt) ≡ true
older_done k l e f dt same older h = ground (arith, same, older)

module _ (floats : Floats) where
  ended_quiet :
      (b : Bool) (r : Animation floats) (a : Arena floats)
      → (done floats r (update floats b r (stopped floats a))).running ≡ []
  ended_quiet b r a =
      ap (λ c. c.running) (forgets floats b r (stopped floats a))
      ∙ done_running_by floats r.kind r.side r a

  -- A frame of two animations.
  module _ (dt : ℕ) (r q : Animation floats) (a : Arena floats) where
    abbrev both : Arena floats
    both = with_running floats (r ∷ q ∷ []) a

    both_go_on :
        leb (duration r.kind) (r.elapsed + dt) ≡ false
        → leb (duration q.kind) (q.elapsed + dt) ≡ false
        → (b : Arena floats) × (frame floats dt both
            ≡ with_running floats
                (fly floats (r.elapsed + dt) r ∷ fly floats (q.elapsed + dt) q ∷ [])
                b)
    unfolding frame frame_from advance
    both_go_on h k =
        let now = fly floats (r.elapsed + dt) r in
        let next = fly floats (q.elapsed + dt) q in
        let moved = update floats r.impacted now (stopped floats a) in
        let again =
          update floats q.impacted next (with_running floats (moved.running ++ now ∷ []) moved) in
        let same : again.running ≡ now ∷ [] =
          update_running floats q.impacted next _
          ∙ ap (λ rs. rs ++ now ∷ []) (update_running floats r.impacted now _) in
        (again, rw (h, k) (ap (λ rs. with_running floats (rs ++ next ∷ []) again) same))

    first_ends :
        leb (duration r.kind) (r.elapsed + dt) ≡ true
        → leb (duration q.kind) (q.elapsed + dt) ≡ false
        → (b : Arena floats) × (frame floats dt both
            ≡ with_running floats (fly floats (q.elapsed + dt) q ∷ []) b)
    unfolding frame frame_from advance
    first_ends h k =
        let now = fly floats (r.elapsed + dt) r in
        let next = fly floats (q.elapsed + dt) q in
        let over = done floats now (update floats r.impacted now (stopped floats a)) in
        let again = update floats q.impacted next over in
        let same : again.running ≡ [] =
          update_running floats q.impacted next over ∙ ended_quiet r.impacted now a in
        (again, rw (h, k) (ap (λ rs. with_running floats (rs ++ next ∷ []) again) same))

    both_end :
        leb (duration r.kind) (r.elapsed + dt) ≡ true
        → leb (duration q.kind) (q.elapsed + dt) ≡ true
        → (b : Arena floats) × (frame floats dt both ≡ done floats q (stopped floats b))
    unfolding frame frame_from advance
    both_end h k =
        let now = fly floats (r.elapsed + dt) r in
        let next = fly floats (q.elapsed + dt) q in
        let over = done floats now (update floats r.impacted now (stopped floats a)) in
        let rests : over ≡ stopped floats over =
          ap (λ rs. with_running floats rs over) (ended_quiet r.impacted now a) in
        (over, rw (h, k) (forgets floats q.impacted next over ∙ ap (done floats q) rests))

  -- Two animations of which the first is not the younger, until both are over.
  second_ends :
      (dts : List ℕ) (r q : Animation floats) (a : Arena floats)
      → duration r.kind ≡ duration q.kind
      → q.elapsed ≤ r.elapsed
      → leb (duration r.kind) r.elapsed ≡ false
      → leb (duration q.kind) (q.elapsed + sum dts) ≡ true
      → (b : Arena floats) × (frames floats dts (with_running floats (r ∷ q ∷ []) a)
          ≡ done floats q (stopped floats b))
  unfolding frames
  second_ends [] r q a same older h k = elim (not_two _ _ r.elapsed q.elapsed same older h k) [ ]
  second_ends (dt ∷ dts) r q a same older h k =
      let next = fly floats (q.elapsed + dt) q in
      let enough = ap (leb (duration q.kind)) (add_assoc q.elapsed dt (sum dts)) ∙ k in
      elim (Bool-cases (leb (duration q.kind) (q.elapsed + dt))) [
        | inl e ↦
            let (b, ends) =
              both_end dt r q a (older_done _ _ r.elapsed q.elapsed dt same older e) e in
            (
              b,
              ap (frames floats dts) ends
                  ∙ quiet floats dts _ (done_running_by floats q.kind q.side q b),
            )
        | inr e ↦ elim (Bool-cases (leb (duration r.kind) (r.elapsed + dt))) [
          | inl f ↦
              let (b, ends) = first_ends dt r q a f e in
              (b, ap (frames floats dts) ends ∙ frames_end floats dts next b e enough)
          | inr f ↦
              let (b, goes_on) = both_go_on dt r q a f e in
              let (c, ends) =
                second_ends dts (fly floats (r.elapsed + dt) r) next b same (omega (arith, older)) f
                  enough in
              (c, ap (frames floats dts) goes_on ∙ ends)
        ]
      ]

  -- Where an attack moves a fighter, so many milliseconds after its start.
  abbrev pub recoiled : Side → ℕ → Number floats → Number floats
  recoiled side t x =
      floats.add x (floats.mul (swing floats (progress floats attack t)) (recoil floats side))

  attack_found :
      (side : Side) (q : Animation floats) (b : Arena floats)
      → (fighter floats (other side) (done floats (record q { kind = attack; side = side }) b)).x
        ≡ q.found.x
  attack_found player q b = refl
  attack_found enemy q b = refl

  attack_moves :
      (side : Side) (r : Animation floats) (a : Arena floats)
      → (fighter floats
          (other side)
          (update floats false (record r { kind = attack; side = side }) a)).x
        ≡ recoiled side r.elapsed r.found.x
  attack_moves player r a = refl
  attack_moves enemy r a = refl

  fighter_running :
      (side : Side) (rs : List (Animation floats)) (a : Arena floats)
      → fighter floats side (with_running floats rs a) ≡ fighter floats side a
  fighter_running player rs a = refl
  fighter_running enemy rs a = refl

  -- An attack after one frame.
  module _ (side : Side) (a : Arena floats) (t : ℕ) (short : t < 600) (rest : a.running ≡ []) where
    abbrev now : Animation floats
    now = fly floats (0 + t) (started floats attack side a)

    abbrev moved : Arena floats
    moved = update floats false now (stopped floats (begin floats attack side a))

    one_frame :
        frame floats t (trigger_effect floats attack side a) ≡ with_running floats (now ∷ []) moved
    one_frame =
        ap (frame floats t) (triggered floats attack side a rest)
        ∙ frame_goes_on floats t (started floats attack side a) (begin floats attack side a)
            (ground (arith, short))

    second_attack :
        (dts : List ℕ)
        → 600 ≤ sum dts
        → let after =
            frames floats dts
              (trigger_effect floats attack side (with_running floats (now ∷ []) moved)) in
          ((fighter floats (other side) after).x
            ≡ recoiled side (0 + t) (fighter floats (other side) a).x)
          × (after.running ≡ [])
    unfolding trigger_effect
    second_attack dts long =
        let mid = with_running floats (now ∷ []) moved in
        let q = started floats attack side mid in
        let (b, ends) =
          second_ends dts now q (begin floats attack side mid) refl (omega arith)
            (ground (arith, short)) (ground (arith, long)) in
        (
          ap (λ c. (fighter floats (other side) c).x) ends
              ∙ attack_found side q (stopped floats b)
              ∙ ap (λ f. f.x) (fighter_running (other side) (now ∷ []) moved)
              ∙ attack_moves side now (stopped floats (begin floats attack side a)),
          ap (λ c. c.running) ends ∙ done_running_by floats attack side q b,
        )

  -- An attack of the same side that begins one frame, of less than 600 milliseconds, after another
  -- leaves the fighter that is hit, once both are over, where the first had moved it by then.
  pub second_attack_displaces :
      (side : Side) (a : Arena floats) (t : ℕ) (dts : List ℕ)
      → a.running ≡ []
      → t < 600
      → 600 ≤ sum dts
      → let mid = frame floats t (trigger_effect floats attack side a) in
        let after = frames floats dts (trigger_effect floats attack side mid) in
        ((fighter floats (other side) after).x ≡ recoiled side t (fighter floats (other side) a).x)
        × (after.running ≡ [])
  second_attack_displaces side a t dts rest short long =
      let (x, quiet_then) = second_attack side a t short rest dts long in
      let same =
        ap (λ m. frames floats dts (trigger_effect floats attack side m))
          (one_frame side a t short rest) in
      (
        ap (λ c. (fighter floats (other side) c).x) same
            ∙ x
            ∙ ap (λ n. recoiled side n (fighter floats (other side) a).x) (plus_zero t),
        ap (λ c. c.running) same ∙ quiet_then,
      )
