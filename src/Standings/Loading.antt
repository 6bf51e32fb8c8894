-- ===== src/Standings/Loading.antt =====
-- The pages of past matches and of the leaderboard have an end to their loading, and then one thing to
-- show: web/src/app/history/page.tsx and web/src/app/ranked/page.tsx.
use ki_clash.Common.{
  ℕ, ◌+◌, ◌≡◌, ◌≢◌, refl, arith, String, Bool, true, false, not, ◌&&◌, ltb, Option, none, some,
  List, [], get_or_else, is_truthy, is_some, if◌then◌else◌, length, eqb,
}
use mathlib.Core.Option
use ki_clash.Api.Types.{MatchSummary, LeaderboardEntry, PlayerRank}
use ki_clash.Api.Storage.{World, Result, ok, thrown, exhausted, Api, continue}
use ki_clash.Api.Client.{Network, ensure_auth}
use ki_clash.Api.Calls.Settles.{ensure_auth_settles, get_match_history_settles}
use ki_clash.Game.{Settled, resolved, rejected}
use ki_clash.Game.Calls.{settled_of}
use ki_clash.Standings.{
  History, initial_history, load_history, history_loaded, Sections, history_sections, Ranked,
  initial_ranked, all_settled, ranked_loaded, ranked_sections,
}

-- The page of past matches once its load is over; none if that never is.
unfoldable pub open_history : Network → World → Option History
open_history net w =
    Option.map (λ r. history_loaded r initial_history) (settled_of (load_history net w).0)

-- What the sections are for the text of an error, if there is one, and a number of rows.
abbrev pub one_section : Option String → ℕ → Sections
one_section error count = record {
  spinner = false;
  error_box = is_truthy error;
  empty_note = not (is_truthy error) && eqb count 0;
  rows = ltb 0 count;
}

-- Nothing spins, and one of an error, a note that there is nothing, and rows is there.
abbrev pub ShowsOne : Sections → Type 0
ShowsOne s =
    (s.spinner ≡ false)
    × ((if s.error_box then 1 else 0) + (if s.empty_note then 1 else 0) + (if s.rows then 1 else 0)
        ≡ 1)

one_of :
    (truthy : Bool) (n : ℕ)
    → ((truthy ≡ true) → n ≡ 0)
    → (if truthy then 1 else 0)
        + (if not truthy && eqb n 0 then 1 else 0)
        + (if ltb 0 n then 1 else 0)
      ≡ 1
one_of truthy n h = ground arith

-- The rows that a call gave, and none if it failed.
abbrev pub rows_of : {A : Type 0} → Settled (List A) → List A
rows_of (resolved rows) = rows
rows_of (rejected e) = []

history_shows :
    (r : Settled (List MatchSummary))
    → ShowsOne (history_sections (history_loaded r initial_history))
      × ((history_loaded r initial_history).matches ≡ rows_of r)
unfolding history_loaded history_sections
history_shows (resolved rows) = ((refl, one_of false (length rows) (λ q. cc)), refl)
history_shows (rejected e) =
    ((refl, one_of (is_truthy (some (get_or_else e "Failed to load history"))) 0 (λ q. refl)), refl)

-- A call that is followed by calls that settle.
continue_settles :
    {A B : Type 0} (r : Result A) (w : World) (f : A → Api B)
    → r ≢ exhausted
    → ((a : A) (v : World) → (f a v).0 ≢ exhausted)
    → (continue r w f).0 ≢ exhausted
continue_settles (ok a) w f h k = k a w
continue_settles (thrown e) w f h k = λ q. cc
continue_settles exhausted w f h k = absurd (h refl)

settles : {A : Type 0} (r : Result A) → r ≢ exhausted → (r' : Settled A) × (settled_of r ≡ some r')
settles (ok a) h = (resolved a, refl)
settles (thrown e) h = (rejected (some e), refl)
settles exhausted h = absurd (h refl)

load_history_settles : (net : Network) (w : World) → (load_history net w).0 ≢ exhausted
unfolding load_history
load_history_settles net w =
    continue_settles (ensure_auth net w).0 _ _ (ensure_auth_settles net w)
      (λ a v. get_match_history_settles net v)

-- Against any server and in any browser, the load of the page of past matches ends, and then the
-- page shows one thing: an error, that there are no matches, or rows.
pub history_ends :
    (net : Network) (w : World)
    → (page : History) × (open_history net w ≡ some page) × ShowsOne (history_sections page)
unfolding open_history
history_ends net w =
    let (r, e) = settles (load_history net w).0 (load_history_settles net w) in
    (history_loaded r initial_history, rw e refl, (history_shows r).0)

-- The leaderboard's page once its three calls have settled, as its `load` awaits them.
unfoldable pub open_ranked :
    Settled Unit → Bool → Settled (List LeaderboardEntry) → Settled (Option PlayerRank) → Ranked
open_ranked (resolved u) board_first board rank =
    ranked_loaded (all_settled board_first board rank) initial_ranked
open_ranked (rejected e) board_first board rank = ranked_loaded (rejected e) initial_ranked

abbrev pub is_resolved : {A : Type 0} → Settled A → Bool
is_resolved (resolved a) = true
is_resolved (rejected e) = false

abbrev pub rank_of : Settled (Option PlayerRank) → Option PlayerRank
rank_of (resolved rank) = rank
rank_of (rejected e) = none

-- The leaderboard's page shows one thing, and the player's rank or that there is none.
abbrev pub ShowsRanked : Ranked → Type 0
ShowsRanked page =
    ShowsOne (ranked_sections page).0 × ((ranked_sections page).2 ≡ not (ranked_sections page).1)

failed :
    (e : Option String)
    → ShowsRanked (ranked_loaded (rejected e) initial_ranked)
      × ((ranked_loaded (rejected e) initial_ranked).entries ≡ [])
      × ((ranked_loaded (rejected e) initial_ranked).my_rank ≡ none)
unfolding ranked_loaded ranked_sections
failed e =
    let one =
      one_of (is_truthy (some (get_or_else e "Failed to load leaderboard"))) 0 (λ q. refl) in
    (((refl, one), refl), refl, refl)

not_shown : (b : Bool) → not b && true ≡ not b
not_shown b = ground arith

-- However the three calls of the leaderboard's page settle, it then shows one thing, and the
-- player's rank or that there is none; the rows and the rank are those of the server if all three
-- resolved, and there are none if one of them did not.
pub ranked_shows :
    (auth : Settled Unit) (board_first : Bool) (board : Settled (List LeaderboardEntry))
    (rank : Settled (Option PlayerRank))
    → let page = open_ranked auth board_first board rank in
      let all = is_resolved auth && is_resolved board && is_resolved rank in
      ShowsRanked page
      × (page.entries ≡ (if all then rows_of board else []))
      × (page.my_rank ≡ (if all then rank_of rank else none))
unfolding open_ranked ranked_loaded ranked_sections all_settled
ranked_shows (rejected e) first board rank = failed e
ranked_shows (resolved u) first (rejected e) (rejected f) = failed (if first then e else f)
ranked_shows (resolved u) first (rejected e) (resolved rank) = failed e
ranked_shows (resolved u) first (resolved rows) (rejected e) = failed e
ranked_shows (resolved u) first (resolved rows) (resolved rank) =
    (((refl, one_of false (length rows) (λ q. cc)), not_shown (is_some rank)), refl, refl)
