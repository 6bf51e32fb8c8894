-- ===== src/Sprite.antt =====
-- web/src/components/arena/FighterSprite.tsx: which image a fighter is drawn with, where an image may be
-- missing, with the paths of web/src/lib/assets.ts and the pose that
-- web/src/components/arena/KiAuraArena.tsx gives it. The drawing that stands in for an image, colours and
-- motion are not modelled.
pub mod Images
use ki_clash.Common.{
  ℕ, zero, suc, String, Bool, true, false, ◌==◌, ◌&&◌, Option, none, some, if◌then◌else◌,
}
use ki_clash.Common.Text.{◌<>◌}
use ki_clash.Animation.{ActionPhase}
use ki_clash.Animation
use ki_clash.Api.Types.{TurnOutcome, p1_wins_round, p2_wins_round}

pub data ImageAttempt : Type 0 where
  pose idle svg : ImageAttempt

pub data AssetMode : Type 0 where
  auto svg : AssetMode

-- A pose that has images, and a pose.
pub data AssetPose : Type 0 where
  idle windup impact hit ko victory : AssetPose

pub data FighterPose : Type 0 where
  idle windup impact recover hit ko victory : FighterPose

abbrev pub asset_pose : FighterPose → AssetPose
asset_pose idle = idle
asset_pose windup = windup
asset_pose impact = impact
asset_pose recover = impact
asset_pose hit = hit
asset_pose ko = ko
asset_pose victory = victory

abbrev pose_name : AssetPose → String
pose_name idle = "idle"
pose_name windup = "windup"
pose_name impact = "impact"
pose_name hit = "hit"
pose_name ko = "ko"
pose_name victory = "victory"

-- `fighterAsset`.
abbrev pub fighter_asset : String → AssetPose → String
fighter_asset id p = "/fighters/" <> id <> "/" <> pose_name p <> ".png"

abbrev is_idle : AssetPose → Bool
is_idle idle = true
is_idle _ = false

-- The state of a new frame; the frame is made anew when the character, the asset's pose or the mode is
-- another.
abbrev pub first_attempt : AssetMode → AssetPose → ImageAttempt
first_attempt svg p = svg
first_attempt auto p = if is_idle p then idle else pose

unfoldable pub image_src : String → AssetMode → AssetPose → ImageAttempt → Option String
image_src id svg p attempt = none
image_src id auto p pose = some (fighter_asset id p)
image_src id auto p idle = some (fighter_asset id idle)
image_src id auto p svg = none

-- `onImageError`.
unfoldable pub on_image_error : ImageAttempt → ImageAttempt
on_image_error pose = idle
on_image_error idle = svg
on_image_error svg = svg

-- The image that is drawn is loaded, or fails.
unfoldable pub load : (String → Bool) → String → AssetMode → AssetPose → ImageAttempt → ImageAttempt
unfolding image_src on_image_error
load is_missing id mode p attempt = elim (image_src id mode p attempt) [
  | none ↦ attempt
  | some src ↦ if is_missing src then on_image_error attempt else attempt
]

unfoldable pub loads :
    ℕ → (String → Bool) → String → AssetMode → AssetPose → ImageAttempt → ImageAttempt
unfolding load
loads zero is_missing id mode p attempt = attempt
loads (suc n) is_missing id mode p attempt =
    loads n is_missing id mode p (load is_missing id mode p attempt)

pub data Side : Type 0 where
  left right : Side

-- The pose of a fighter in KiAuraArena.
unfoldable pub pose_of : Animation.ActionPhase → Side → Option TurnOutcome → FighterPose
pose_of Animation.impact left (some p2_wins_round) = hit
pose_of Animation.impact right (some p1_wins_round) = hit
pose_of Animation.impact _ _ = impact
pose_of Animation.windup _ _ = windup
pose_of Animation.recover _ _ = recover
pose_of Animation.idle _ _ = idle
