-- ===== src/Tests/Promo.antt =====
-- A friend's link of web/src/lib/promo-campaigns.ts, opened with a parameter of its own.
use ki_clash.Common.{[], ◌∷◌, arith, eq_iff}
use ki_clash.Analytics.{Browser}
use ki_clash.Tests.Analytics.{monday}
use ki_clash.Promo.{friend_share, link_target, Params}
use ki_clash.Promo.Attribution.{IsFull}

abbrev incoming : Params
incoming = ("ref", "other") ∷ ("lang", "ko") ∷ []

friend_share-IsFull : IsFull friend_share
friend_share-IsFull = (
  ground (arith, eq_iff "friend-share" ""),
  ground (arith, eq_iff "friend" ""),
  ground (arith, eq_iff "launch_week1" ""),
  ground (arith, eq_iff "friend_share" ""),
)

abbrev arrived : Browser
arrived = record monday { params = (link_target friend_share "https://jjan.daeseon.ai" incoming).1 }
