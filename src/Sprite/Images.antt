-- ===== src/Sprite/Images.antt =====
-- Which image of web/src/components/arena/FighterSprite.tsx is drawn in the end.
use ki_clash.Common.{
  ℕ, zero, suc, ◌≡◌, refl, ap, ◌∙◌, String, Bool, Bool-cases, inl, inr, Option, none, some,
  if◌then◌else◌,
}
use ki_clash.Sprite.{
  ImageAttempt, pose, idle, svg, AssetMode, auto, AssetPose, fighter_asset, first_attempt,
  image_src, on_image_error, load, loads,
}
use ki_clash.Sprite

-- The first of the images that is there: that of the pose, and then that of the idle pose.
abbrev pub best_image : (String → Bool) → String → AssetMode → AssetPose → Option String
best_image is_missing id Sprite.AssetMode.svg p = none
best_image is_missing id auto p =
    if is_missing (fighter_asset id p)
    then (if is_missing (fighter_asset id Sprite.AssetPose.idle)
        then none
        else some (fighter_asset id Sprite.AssetPose.idle))
    else some (fighter_asset id p)

rests :
    (n : ℕ) (is_missing : String → Bool) (id : String) (mode : AssetMode) (p : AssetPose)
    (a : ImageAttempt)
    → load is_missing id mode p a ≡ a
    → loads n is_missing id mode p a ≡ a
unfolding loads
rests zero is_missing id mode p a h = refl
rests (suc n) is_missing id mode p a h =
    ap (loads n is_missing id mode p) h ∙ rests n is_missing id mode p a h

module _ (is_missing : String → Bool) (id : String) (p : AssetPose) where
  abbrev Ends : ℕ → ImageAttempt → Option String → Type 0
  Ends n a o = image_src id auto p (loads n is_missing id auto p a) ≡ o

  stays :
      (n : ℕ) (a : ImageAttempt)
      → load is_missing id auto p a ≡ a
      → Ends n a (image_src id auto p a)
  stays n a h = ap (image_src id auto p) (rests n is_missing id auto p a h)

  from_idle :
      (n : ℕ)
      → Ends (suc n) idle (
          if is_missing (fighter_asset id Sprite.AssetPose.idle)
          then none
          else some (fighter_asset id Sprite.AssetPose.idle))
  unfolding loads load image_src on_image_error
  from_idle n = elim (Bool-cases (is_missing (fighter_asset id Sprite.AssetPose.idle))) [
    | inl e ↦ rw e (stays n svg refl)
    | inr e ↦ rw e (stays n idle (rw e refl))
  ]

  from_pose : (n : ℕ) → Ends (suc (suc n)) pose (best_image is_missing id auto p)
  unfolding loads load image_src on_image_error
  from_pose n = elim (Bool-cases (is_missing (fighter_asset id p))) [
    | inl e ↦ rw e (from_idle n)
    | inr e ↦ rw e (stays (suc n) pose (rw e refl))
  ]

twice_idle :
    (is_missing : String → Bool) (id : String) (n : ℕ)
    → Ends is_missing id Sprite.AssetPose.idle
        (suc (suc n))
        idle
        (best_image is_missing id auto Sprite.AssetPose.idle)
twice_idle is_missing id n =
    elim (Bool-cases (is_missing (fighter_asset id Sprite.AssetPose.idle))) [
      | inl e ↦ from_idle is_missing id Sprite.AssetPose.idle (suc n) ∙ rw e refl
      | inr e ↦ from_idle is_missing id Sprite.AssetPose.idle (suc n) ∙ rw e refl
    ]

-- Whatever images are missing, a fighter is drawn, after its images were tried twice or more often,
-- with the first that is there of its pose's and that of the idle pose, and by the drawing if there
-- is none or that is asked for.
pub best_image_drawn :
    (is_missing : String → Bool) (id : String) (mode : AssetMode) (p : AssetPose) (n : ℕ)
    → image_src id mode p (loads (suc (suc n)) is_missing id mode p (first_attempt mode p))
      ≡ best_image is_missing id mode p
unfolding image_src loads load
best_image_drawn is_missing id Sprite.AssetMode.svg p n = refl
best_image_drawn is_missing id auto Sprite.AssetPose.idle n = twice_idle is_missing id n
best_image_drawn is_missing id auto p n = from_pose is_missing id p n
