-- ===== src/Promo/Attribution.antt =====
-- What the analytics report on a page that a campaign's link has led to.
use ki_clash.Common.{
  inl, inr, Bool-cases, ◌≡◌, ◌≢◌, refl, String, true, some, ◌==◌, arith, eq_iff, or_none,
}
use ki_clash.Common.Json.{str}
use ki_clash.Common.Objects
use ki_clash.Analytics.{Properties, Browser, campaign_keys, payload_properties}
use ki_clash.Analytics.Laws.{payload_properties-get}
use ki_clash.Analytics.Campaign.{current_campaign_properties-get, reported, has_key}
use ki_clash.Promo.{
  Medium, organic, community, paid, direct, creator, build_campaign_target, PromoCampaign,
  medium_text, Params, campaign_search_params, link_target,
}
use ki_clash.Promo.Links.{get-add_missing}

abbrev pub IsFull : PromoCampaign → Type 0
IsFull c = (c.slug ≢ "") × (c.source ≢ "") × (c.campaign ≢ "") × (c.content ≢ "")

reported_full : (v : String) → v ≢ "" → reported (some v) ≡ some (str v)
reported_full v h = elim (Bool-cases (v == "")) [
  | inl empty ↦ absurd (h ((eq_iff v "").0 empty))
  | inr full ↦ rw full refl
]

medium_text_ne : (m : Medium) → medium_text m ≢ ""
medium_text_ne organic = ground (arith, eq_iff "organic" "")
medium_text_ne community = ground (arith, eq_iff "community" "")
medium_text_ne paid = ground (arith, eq_iff "paid" "")
medium_text_ne direct = ground (arith, eq_iff "direct" "")
medium_text_ne creator = ground (arith, eq_iff "creator" "")

module _ (c : PromoCampaign) (origin : String) (incoming : Params) (b : Browser)
    (given : Properties) where
  carries :
      (k v : String)
      → b.params ≡ (link_target c origin incoming).1
      → has_key k campaign_keys ≡ true
      → Objects.get k (campaign_search_params c) ≡ some v
      → v ≢ ""
      → Objects.get k (payload_properties b given) ≡ or_none (Objects.last k given) (some (str v))
  unfolding link_target build_campaign_target
  carries k v at known there full =
      rw
        (
          payload_properties-get b given k,
          current_campaign_properties-get b k known,
          at,
          get-add_missing k (campaign_search_params c) incoming,
          there,
          reported_full v full,
        )
        refl

-- A page that a campaign's link has led to attributes its events to the campaign, whatever the link
-- was opened with: if the campaign's texts are not empty, each event carries its slug, source,
-- medium, campaign and content, except where the event itself gives another value for the key.
pub link_attributes_events :
    (c : PromoCampaign) (origin : String) (incoming : Params) (b : Browser) (given : Properties)
    → IsFull c
    → b.params ≡ (link_target c origin incoming).1
    → (Objects.get "promo" (payload_properties b given)
        ≡ or_none (Objects.last "promo" given) (some (str c.slug)))
      × (Objects.get "utm_source" (payload_properties b given)
          ≡ or_none (Objects.last "utm_source" given) (some (str c.source)))
      × (Objects.get "utm_medium" (payload_properties b given)
          ≡ or_none (Objects.last "utm_medium" given) (some (str (medium_text c.medium))))
      × (Objects.get "utm_campaign" (payload_properties b given)
          ≡ or_none (Objects.last "utm_campaign" given) (some (str c.campaign)))
      × (Objects.get "utm_content" (payload_properties b given)
          ≡ or_none (Objects.last "utm_content" given) (some (str c.content)))
unfolding link_target campaign_search_params Objects.get
link_attributes_events c origin incoming b given full at =
    let (slug, source, campaign, content) = full in
    (
      carries c origin incoming b given "promo" c.slug at refl refl slug,
      carries c origin incoming b given "utm_source" c.source at refl refl source,
      carries c origin incoming b given "utm_medium" (medium_text c.medium) at refl refl
          (medium_text_ne c.medium),
      carries c origin incoming b given "utm_campaign" c.campaign at refl refl campaign,
      carries c origin incoming b given "utm_content" c.content at refl refl content,
    )
