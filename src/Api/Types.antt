-- ===== src/Api/Types.antt =====
-- The types of web/src/lib/api.ts that match the server's schemas. `number` fields are counts, ranks,
-- ratings and times, all whole numbers; a field that may be null is an Option.
use ki_clash.Common.{ℕ, String, Bool, Option, List}

pub record TokenResponse : Type 0 where
  pub access_token : String
  pub refresh_token : String
  pub token_type : String
  pub player_id : String
  pub display_name : String

pub data Action : Type 0 where
  charge block attack energy_wave teleport : Action

pub data Difficulty : Type 0 where
  novice easy medium hard expert grandmaster : Difficulty

pub data TurnOutcome : Type 0 where
  p1_wins_round p2_wins_round clash blocked dodged neutral : TurnOutcome

pub data RoundWinner : Type 0 where
  p1 p2 draw : RoundWinner

pub data MatchStatus : Type 0 where
  in_progress completed abandoned : MatchStatus

pub record TurnResult : Type 0 where
  pub turn_number : ℕ
  pub p1_action : Action
  pub p2_action : Action
  pub outcome : TurnOutcome
  pub p1_ki_after : ℕ
  pub p2_ki_after : ℕ

pub record RoundResult : Type 0 where
  pub round_number : ℕ
  pub winner : RoundWinner
  pub total_turns : ℕ

pub record MatchResult : Type 0 where
  pub winner : RoundWinner
  pub rounds_won_p1 : ℕ
  pub rounds_won_p2 : ℕ
  pub total_turns : ℕ

pub record RoundState : Type 0 where
  pub round_number : ℕ
  pub p1_ki : ℕ
  pub p2_ki : ℕ
  pub turn_number : ℕ
  pub turn_history : List TurnResult

pub record GameState : Type 0 where
  pub game_id : String
  pub match_type : String
  pub status : MatchStatus
  pub rounds_won_p1 : ℕ
  pub rounds_won_p2 : ℕ
  pub current_round : Option RoundState
  pub round_results : List RoundResult

pub record SubmitActionResponse : Type 0 where
  pub turn_result : TurnResult
  pub round_result : Option RoundResult
  pub match_result : Option MatchResult
  pub game_state : GameState

pub record PlayerProfile : Type 0 where
  pub id : String
  pub display_name : String
  pub email : Option String
  pub wins : ℕ
  pub losses : ℕ
  pub draws : ℕ
  pub elo_rating : ℕ
  pub ranked_wins : ℕ
  pub ranked_losses : ℕ
  pub ad_free : Bool
  pub created_at : String

pub record LeaderboardEntry : Type 0 where
  pub rank : ℕ
  pub player_id : String
  pub display_name : String
  pub elo_rating : ℕ
  pub ranked_wins : ℕ
  pub ranked_losses : ℕ

pub record PlayerRank : Type 0 where
  pub rank : ℕ
  pub player_id : String
  pub display_name : String
  pub elo_rating : ℕ
  pub ranked_wins : ℕ
  pub ranked_losses : ℕ

pub record CheckoutResponse : Type 0 where
  pub session_id : String
  pub checkout_url : String

pub record MatchSummary : Type 0 where
  pub id : String
  pub match_type : String
  pub status : MatchStatus
  pub opponent_name : Option String
  pub rounds_won_p1 : ℕ
  pub rounds_won_p2 : ℕ
  pub winner : Option RoundWinner
  pub total_turns : ℕ
  pub created_at : String

pub data RoomStatus : Type 0 where
  waiting both_present in_game finished : RoomStatus

pub record RoomPlayerData : Type 0 where
  pub id : String
  pub name : String
  pub character_id : Option String
  pub ready : Bool

pub record RoomData : Type 0 where
  pub code : String
  pub host : RoomPlayerData
  pub guest : Option RoomPlayerData
  pub status : RoomStatus
  pub game_id : Option String
  pub created_at : ℕ
  pub updated_at : ℕ

-- `{ ad_free: boolean }`, the answer of getAdFreeStatus.
pub record AdFreeStatus : Type 0 where
  pub ad_free : Bool

-- `{ code: string; room: RoomData }`, the answer of createRoom.
pub record CreatedRoom : Type 0 where
  pub code : String
  pub room : RoomData

-- `{ game_id: string; room: RoomData }`, the answer of startRoomGame.
pub record StartedGame : Type 0 where
  pub game_id : String
  pub room : RoomData

-- The type argument of `apiFetch<T>`: one code for each T that the client asks for.
pub data Schema : Type 0 where
  token game submitted profile history leaderboard my_rank ad_free checkout : Schema
  created_room a_room started_game nothing : Schema

-- The type that a code stands for. `void` is the type with one value.
abbrev pub Shape : Schema → Type 0
Shape token = TokenResponse
Shape game = GameState
Shape submitted = SubmitActionResponse
Shape profile = PlayerProfile
Shape history = List MatchSummary
Shape leaderboard = List LeaderboardEntry
Shape my_rank = Option PlayerRank
Shape ad_free = AdFreeStatus
Shape checkout = CheckoutResponse
Shape created_room = CreatedRoom
Shape a_room = RoomData
Shape started_game = StartedGame
Shape nothing = Unit

-- The texts of the two unions that the client sends.
abbrev pub action_name : Action → String
action_name charge = "charge"
action_name block = "block"
action_name attack = "attack"
action_name energy_wave = "energy_wave"
action_name teleport = "teleport"

abbrev pub difficulty_name : Difficulty → String
difficulty_name novice = "novice"
difficulty_name easy = "easy"
difficulty_name medium = "medium"
difficulty_name hard = "hard"
difficulty_name expert = "expert"
difficulty_name grandmaster = "grandmaster"
