-- ===== src/Promo/Campaigns.antt =====
-- The campaigns of web/src/lib/promo-campaigns.ts.
use ki_clash.Common.{String, List, [], ◌∷◌}

pub data TargetPath : Type 0 where
  to_play to_pvp to_home : TargetPath

pub data Medium : Type 0 where
  organic community paid direct creator : Medium

pub record PromoCampaign : Type 0 where
  pub slug : String
  pub label : String
  pub target_path : TargetPath
  pub source : String
  pub medium : Medium
  pub campaign : String
  pub content : String
  pub angle : String

abbrev tiktok_pvp_01 : PromoCampaign
tiktok_pvp_01 = record {
  slug = "tiktok-pvp-01";
  label = "TikTok PvP clip 01";
  target_path = to_pvp;
  source = "tiktok";
  medium = organic;
  campaign = "launch_week1";
  content = "pvp_clip_01";
  angle = "10-second friend duel";
}

abbrev reels_pvp_01 : PromoCampaign
reels_pvp_01 = record {
  slug = "reels-pvp-01";
  label = "Instagram Reels PvP clip 01";
  target_path = to_pvp;
  source = "instagram";
  medium = organic;
  campaign = "launch_week1";
  content = "pvp_clip_01";
  angle = "send a room link";
}

abbrev shorts_pvp_01 : PromoCampaign
shorts_pvp_01 = record {
  slug = "shorts-pvp-01";
  label = "YouTube Shorts PvP clip 01";
  target_path = to_pvp;
  source = "youtube";
  medium = organic;
  campaign = "launch_week1";
  content = "pvp_clip_01";
  angle = "instant browser PvP";
}

abbrev x_founder_01 : PromoCampaign
x_founder_01 = record {
  slug = "x-founder-01";
  label = "X founder post";
  target_path = to_home;
  source = "x";
  medium = organic;
  campaign = "launch_week1";
  content = "founder_post_01";
  angle = "public build launch";
}

abbrev threads_founder_01 : PromoCampaign
threads_founder_01 = record {
  slug = "threads-founder-01";
  label = "Threads founder post";
  target_path = to_home;
  source = "threads";
  medium = organic;
  campaign = "launch_week1";
  content = "founder_post_01";
  angle = "public build launch";
}

abbrev reddit_playmygame_01 : PromoCampaign
reddit_playmygame_01 = record {
  slug = "reddit-playmygame-01";
  label = "Reddit playmygame post";
  target_path = to_pvp;
  source = "reddit";
  medium = community;
  campaign = "launch_week1";
  content = "playmygame_post_01";
  angle = "feedback request";
}

abbrev discord_indie_01 : PromoCampaign
discord_indie_01 = record {
  slug = "discord-indie-01";
  label = "Discord indie channel";
  target_path = to_pvp;
  source = "discord";
  medium = community;
  campaign = "launch_week1";
  content = "indie_channel_01";
  angle = "find a PvP tester";
}

abbrev korea_community_01 : PromoCampaign
korea_community_01 = record {
  slug = "korea-community-01";
  label = "Korean community post";
  target_path = to_pvp;
  source = "korea_community";
  medium = community;
  campaign = "launch_week1";
  content = "community_post_01";
  angle = "Korean ki-battle browser game";
}

abbrev pub friend_share : PromoCampaign
friend_share = record {
  slug = "friend-share";
  label = "General friend share";
  target_path = to_pvp;
  source = "friend";
  medium = direct;
  campaign = "launch_week1";
  content = "friend_share";
  angle = "challenge a friend";
}

abbrev creator_demo : PromoCampaign
creator_demo = record {
  slug = "creator-demo";
  label = "Creator demo link";
  target_path = to_pvp;
  source = "creator";
  medium = creator;
  campaign = "launch_week1";
  content = "creator_demo";
  angle = "record a live duel";
}

unfoldable pub promo_campaigns : List PromoCampaign
promo_campaigns =
    tiktok_pvp_01 ∷ reels_pvp_01 ∷ shorts_pvp_01 ∷ x_founder_01 ∷ threads_founder_01
    ∷ reddit_playmygame_01 ∷ discord_indie_01 ∷ korea_community_01 ∷ friend_share ∷ creator_demo
    ∷ []
