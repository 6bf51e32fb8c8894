-- ===== src/Standings.antt =====
-- The pages of past matches and of the leaderboard: web/src/app/history/page.tsx and
-- web/src/app/ranked/page.tsx.
pub mod Loading
pub mod Ages
use Prim.Native.String
use Prim.Native.Char.{Char, code}
use ki_clash.Common.{
  ℕ, ◌-◌, ◌/◌, ◌==◌, ltb, eqb, String, Bool, true, false, not, ◌&&◌, Option, none, some, List, [],
  get_or_else, is_some, if◌then◌else◌, is_truthy, length,
}
use ki_clash.Common.Text.{◌<>◌, show}
use ki_clash.Api.Types.{MatchSummary, LeaderboardEntry, PlayerRank, RoundWinner, p1, p2, draw}
use ki_clash.Api.Storage.{Api, ◌>>=◌, ◌>>◌}
use ki_clash.Api.Client.{Network, ensure_auth}
use ki_clash.Api.Calls.{get_match_history, get_leaderboard, get_my_rank}
use ki_clash.Game.{Settled, resolved, rejected}

-- The state of the page of past matches.
pub record History : Type 0 where
  pub matches : List MatchSummary
  pub loading : Bool
  pub error : Option String

abbrev pub initial_history : History
initial_history = record { matches = []; loading = true; error = none }

-- The calls of its `load`; what they give comes to `history_loaded`.
unfoldable pub load_history : Network → Api (List MatchSummary)
load_history net = do ensure_auth net; get_match_history net

unfoldable pub history_loaded : Settled (List MatchSummary) → History → History
history_loaded (resolved loaded) s = record s { matches = loaded; loading = false }
history_loaded (rejected e) s = record s {
  error = some (get_or_else e "Failed to load history");
  loading = false;
}

-- The parts that the page of past matches shows.
pub record Sections : Type 0 where
  pub spinner : Bool
  pub error_box : Bool
  pub empty_note : Bool
  pub rows : Bool

unfoldable pub history_sections : History → Sections
history_sections s = record {
  spinner = s.loading;
  error_box = is_truthy s.error;
  empty_note = not s.loading && not (is_truthy s.error) && eqb (length s.matches) 0;
  rows = not s.loading && ltb 0 (length s.matches);
}

-- The state of the page of the leaderboard.
pub record Ranked : Type 0 where
  pub entries : List LeaderboardEntry
  pub my_rank : Option PlayerRank
  pub loading : Bool
  pub error : Option String

abbrev pub initial_ranked : Ranked
initial_ranked = record { entries = []; my_rank = none; loading = true; error = none }

-- `Promise.all` of two calls: it rejects as the first of them does that rejects.
unfoldable pub all_settled : {A B : Type 0} → Bool → Settled A → Settled B → Settled (A × B)
all_settled left_first (resolved a) (resolved b) = resolved (a, b)
all_settled left_first (resolved a) (rejected e) = rejected e
all_settled left_first (rejected e) (resolved b) = rejected e
all_settled left_first (rejected e) (rejected f) = rejected (if left_first then e else f)

unfoldable pub ranked_loaded : Settled (List LeaderboardEntry × Option PlayerRank) → Ranked → Ranked
ranked_loaded (resolved (board, rank)) s = record s {
  entries = board;
  my_rank = rank;
  loading = false;
}
ranked_loaded (rejected e) s = record s {
  error = some (get_or_else e "Failed to load leaderboard");
  loading = false;
}

-- The parts of the leaderboard's page, and the two that stand for the player's own rank.
unfoldable pub ranked_sections : Ranked → Sections × Bool × Bool
ranked_sections s = (
  record {
    spinner = s.loading;
    error_box = is_truthy s.error;
    empty_note = not s.loading && not (is_truthy s.error) && eqb (length s.entries) 0;
    rows = not s.loading && ltb 0 (length s.entries);
  },
  is_some s.my_rank,
  not (is_some s.my_rank) && not s.loading,
)

unfoldable pub result_text : Option RoundWinner → String
result_text (some p1) = "WIN"
result_text (some p2) = "LOSS"
result_text (some draw) = "DRAW"
result_text none = "IN PROGRESS"

-- `getTimeAgo` for the present time and the match's, in milliseconds, and the match's date as the
-- browser writes it. A time that lies ahead gives a negative difference in the source and 0 here,
-- and "just now" in both.
unfoldable pub get_time_ago : ℕ → ℕ → String → String
get_time_ago now date local_date =
    let diff_mins = (now - date) / 60000 in
    let diff_hours = diff_mins / 60 in
    let diff_days = diff_hours / 24 in
    if ltb diff_mins 1
    then "just now"
    else if ltb diff_mins 60
    then show diff_mins <> "m ago"
    else if ltb diff_hours 24
    then show diff_hours <> "h ago"
    else if ltb diff_days 7
    then show diff_days <> "d ago"
    else local_date
