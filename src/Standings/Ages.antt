-- ===== src/Standings/Ages.antt =====
-- The age of a match on the page of past matches, web/src/app/history/page.tsx.
use ki_clash.Common.{ℕ, ◌-◌, ◌/◌, ◌≡◌, refl, arith, String, ltb, if◌then◌else◌}
use ki_clash.Common.Text.{◌<>◌, show}
use ki_clash.Standings.{get_time_ago}

-- The age by the length of each unit in milliseconds.
abbrev pub age_text : ℕ → String → String
age_text d local_date =
    if ltb d 60000
    then "just now"
    else if ltb d 3600000
    then show (d / 60000) <> "m ago"
    else if ltb d 86400000
    then show (d / 3600000) <> "h ago"
    else if ltb d 604800000
    then show (d / 86400000) <> "d ago"
    else local_date

-- The nested divisions and their tests, by the difference alone.
nested :
    (d : ℕ)
    → (ltb (d / 60000) 1 ≡ ltb d 60000)
      × (ltb (d / 60000) 60 ≡ ltb d 3600000)
      × (ltb (d / 60000 / 60) 24 ≡ ltb d 86400000)
      × (ltb (d / 60000 / 60 / 24) 7 ≡ ltb d 604800000)
      × (d / 60000 / 60 ≡ d / 3600000)
      × (d / 60000 / 60 / 24 ≡ d / 86400000)
nested d = (ground arith, ground arith, ground arith, ground arith, omega arith, omega arith)

-- The age by nested divisions is the age by the length of each unit in milliseconds.
pub get_time_ago_in_units :
    (now date : ℕ) (local_date : String)
    → get_time_ago now date local_date ≡ age_text (now - date) local_date
unfolding get_time_ago
get_time_ago_in_units now date local_date =
    let (a, b, c, d, e, f) = nested (now - date) in rw (a, b, c, d, f, e) refl
