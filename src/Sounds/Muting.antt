-- ===== src/Sounds/Muting.antt =====
-- The mute flag of web/src/hooks/useSoundEffects.ts over several visits.
use mathlib.Core.List.{append_assoc, append-nil}
use ki_clash.Common.{
  sym, ap, Bool, true, false, List, [], ◌∷◌, ◌≡◌, refl, ◌∙◌, ◌++◌, not, Bool-cases, inl, inr, some,
}
use ki_clash.Api.Storage.{Storage, put}
use ki_clash.Sounds.{
  running, State, initial, SoundName, mute_key, flag_text, restore, get_ctx, play, toggle_mute,
}

-- What a visitor does: plays a sound, through the `play` of the last render, or toggles the sound.
pub data Act : Type 0 where
  plays : SoundName → Act
  toggles : Act

unfoldable pub act : Act → State × Storage → State × Storage
act (plays name) (s, st) = (play s.muted name s, st)
act toggles v = toggle_mute v

unfoldable pub visit : List Act → State × Storage → State × Storage
unfolding act
visit [] v = v
visit (a ∷ acts) v = visit acts (act a v)

-- The flag that localStorage holds.
abbrev pub kept : Storage → Bool
kept st = (restore st initial).muted

restore_text :
    (b : Bool) (st : Storage) → (restore (put mute_key (flag_text b) st) initial).muted ≡ b
unfolding restore
restore_text true st = refl
restore_text false st = refl

act-kept :
    (a : Act) (v : State × Storage)
    → kept (v.1) ≡ v.0.muted
    → kept ((act a v).1) ≡ (act a v).0.muted
unfolding act toggle_mute play
act-kept (plays name) (s, st) h = elim (Bool-cases s.muted) [
  | inl e ↦ simp e (h ∙ e)
  | inr e ↦ simp e (h ∙ e)
]
act-kept toggles (s, st) h = restore_text _ st

visit-kept :
    (acts : List Act) (v : State × Storage)
    → kept (v.1) ≡ v.0.muted
    → kept ((visit acts v).1) ≡ (visit acts v).0.muted
unfolding visit
visit-kept [] v h = h
visit-kept (a ∷ acts) v h = visit-kept acts (act a v) (act-kept a v h)

-- The sounds of the visitor that are heard.
abbrev pub heard : Bool → List Act → List SoundName
heard muted [] = []
heard true (plays name ∷ acts) = heard true acts
heard false (plays name ∷ acts) = name ∷ heard false acts
heard muted (toggles ∷ acts) = heard (not muted) acts

muted_skips : (name : SoundName) (s : State) → s.muted ≡ true → play s.muted name s ≡ s
unfolding play
muted_skips name s h = rw h refl

-- A sound that starts, with the flag as it is.
abbrev with_sound : SoundName → State → State
with_sound name s = record s { ctx = some running; started = s.started ++ name ∷ [] }

unmuted_starts :
    (name : SoundName) (s : State) → s.muted ≡ false → play s.muted name s ≡ with_sound name s
unfolding play get_ctx
unmuted_starts name s h = rw h refl

visit-heard :
    (acts : List Act) (muted : Bool) (s : State) (st : Storage)
    → s.muted ≡ muted
    → (visit acts (s, st)).0.started ≡ s.started ++ heard muted acts
unfolding visit act toggle_mute
visit-heard [] muted s st h = sym (append-nil s.started)
visit-heard (plays name ∷ acts) true s st h =
    ap (λ q. (visit acts (q, st)).0.started) (muted_skips name s h) ∙ visit-heard acts true s st h
visit-heard (plays name ∷ acts) false s st h =
    ap (λ q. (visit acts (q, st)).0.started) (unmuted_starts name s h)
    ∙ visit-heard acts false (with_sound name s) st h
    ∙ append_assoc s.started (name ∷ []) (heard false acts)
visit-heard (toggles ∷ acts) muted s st h =
    visit-heard acts (not muted) (record s { muted = not s.muted }) _ (ap not h)

-- After any plays and toggles of a visit, the flag that the next visit restores is the one that is
-- shown, and the sounds that started are those of the plays while the flag was off.
pub muting_persists :
    (acts : List Act) (st : Storage)
    → let opened : State × Storage = (restore st initial, st) in
      let left = visit acts opened in
      ((restore (left.1) initial).muted ≡ left.0.muted)
      × (left.0.started ≡ heard opened.0.muted acts)
unfolding restore
muting_persists acts st =
    (visit-kept acts (restore st initial, st) refl, visit-heard acts _ (restore st initial) st refl)
