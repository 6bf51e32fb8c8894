-- ===== src/Promo/Links.antt =====
-- The look-up of a campaign, and the parameters that its link carries.
use ki_clash.Common.{
  sym, Bool-cases, Option-cases, inl, inr, ◌∙◌, ◌≡◌, ◌≢◌, ◌↔◌, refl, String, Bool, true, false,
  Option, none, some, List, [], ◌∷◌, ◌==◌, arith, eq_iff, or_none, if◌then◌else◌, All,
}
use mathlib.Core.Path.{subst}
use ki_clash.Common.Objects
use ki_clash.Promo.{
  PromoCampaign, promo_campaigns, medium_text, Params, own, inherited, undefined, entries, entry_of,
  is_inherited, find_campaign, is_active, promo_campaign_by_slug, campaign_search_params,
  read_campaign_properties, add_missing, build_campaign_target, link_target, link_opened,
}

-- Setting what is missing keeps what is there.
pub get-add_missing :
    (k : String) (ps incoming : Params)
    → Objects.get k (add_missing ps incoming) ≡ or_none (Objects.get k ps) (Objects.get k incoming)
unfolding add_missing Objects.get
get-add_missing k ps [] = ground arith
get-add_missing k ps ((j, v) ∷ incoming) = ground (
  arith,
  get-add_missing k ps incoming,
  get-add_missing k (Objects.put j v ps) incoming,
  Objects.get-put j k v ps,
  eq_iff j k,
)

-- Whatever parameters a link is opened with, the campaign's own are those of the page that it leads
-- to and of the report: they are read back as they were, and no incoming parameter replaces one.
pub link_target_reads_back :
    (c : PromoCampaign) (origin : String) (incoming : Params)
    → (read_campaign_properties (link_target c origin incoming).1 ≡ record {
      promo = some c.slug;
      ref = some c.source;
      utm_source = some c.source;
      utm_medium = some (medium_text c.medium);
      utm_campaign = some c.campaign;
      utm_content = some c.content;
    })
      × (link_opened c incoming ≡ link_opened c [])
unfolding link_target build_campaign_target read_campaign_properties link_opened
    campaign_search_params add_missing Objects.get
link_target_reads_back c origin incoming = (
  rw
      (
        get-add_missing "promo" (campaign_search_params c) incoming,
        get-add_missing "ref" (campaign_search_params c) incoming,
        get-add_missing "utm_source" (campaign_search_params c) incoming,
        get-add_missing "utm_medium" (campaign_search_params c) incoming,
        get-add_missing "utm_campaign" (campaign_search_params c) incoming,
        get-add_missing "utm_content" (campaign_search_params c) incoming,
      )
      refl,
  rw
      (
        get-add_missing "utm_source" (campaign_search_params c) incoming,
        get-add_missing "utm_medium" (campaign_search_params c) incoming,
        get-add_missing "utm_campaign" (campaign_search_params c) incoming,
        get-add_missing "utm_content" (campaign_search_params c) incoming,
      )
      refl,
)

last_one :
    (P : PromoCampaign → Type 0) (k : String) (d c : PromoCampaign)
    → P d
    → (if d.slug == k then some d else none) ≡ some c
    → (c.slug ≡ k) × P c
last_one P k d c pd h = elim (Bool-cases (d.slug == k)) [
  | inl same ↦
      let e : d ≡ c = (let q : some d ≡ some c = rw same at h in cc) in
      (subst (λ x. x.slug ≡ k) e ((eq_iff d.slug k).0 same), subst P e pd)
  | inr other ↦ (let q : none ≡ some c = rw other at h in cc)
]

last_entry :
    (P : PromoCampaign → Type 0) (k : String) (cs : List PromoCampaign) (c : PromoCampaign)
    → All P cs
    → Objects.last k (entries cs) ≡ some c
    → (c.slug ≡ k) × P c
unfolding Objects.last
last_entry P k [] c ps h = cc
last_entry P k (d ∷ cs) c ps h = elim (Option-cases (Objects.last k (entries cs))) [
  | inl none_later ↦ last_one P k d c ps.0 (rw none_later at h)
  | inr (e, later) ↦ last_entry P k cs c ps.1 (ground (arith, later))
]

slugs_own : All (λ d. is_inherited d.slug ≡ false) promo_campaigns
unfolding promo_campaigns
slugs_own = (refl, (refl, (refl, (refl, (refl, (refl, (refl, (refl, (refl, (refl, tt))))))))))

each_found : All (λ d. promo_campaign_by_slug d.slug ≡ own d) promo_campaigns
unfolding promo_campaign_by_slug promo_campaigns Objects.last
each_found = (refl, (refl, (refl, (refl, (refl, (refl, (refl, (refl, (refl, (refl, tt))))))))))

not_own :
    (k : String) (b : Bool) (c : PromoCampaign) → (if b then inherited k else undefined) ≢ own c
not_own k true c e = cc
not_own k false c e = cc

own_entry :
    (k : String) (o : Option PromoCampaign) (c : PromoCampaign) → entry_of o k ≡ own c → o ≡ some c
own_entry k (some d) c h = cc
own_entry k none c h = absurd (not_own k (is_inherited k) c h)

-- A look-up that finds a campaign finds the one with that slug, and no other look-up finds it.
pub promo_campaign_by_slug_own :
    (slug other : String) (c : PromoCampaign)
    → promo_campaign_by_slug slug ≡ own c
    → (c.slug ≡ slug) × ((promo_campaign_by_slug other ≡ own c) ↔ (other ≡ slug))
unfolding promo_campaign_by_slug
promo_campaign_by_slug_own slug other c h =
    let slug_of = λ (k : String) (e : promo_campaign_by_slug k ≡ own c).
      (last_entry (λ d. promo_campaign_by_slug d.slug ≡ own d) k promo_campaigns c each_found
        (own_entry k _ c e)).0 in
    (slug_of slug h, (λ e. sym (slug_of other e) ∙ slug_of slug h, λ e. rw e h))

not_empty : (slug : String) → is_inherited slug ≡ true → slug == "" ≡ false
not_empty slug h = elim (Bool-cases (slug == "")) [
  | inl empty ↦ (let q : false ≡ true = rw ((eq_iff slug "").0 empty) at h in cc)
  | inr full ↦ full
]

-- A link whose slug is the name of a member that every object inherits is taken for an active one,
-- though it is no campaign's.
pub find_campaign_inherited :
    (slug : String)
    → is_inherited slug ≡ true
    → (find_campaign (some slug) ≡ inherited slug) × (is_active (find_campaign (some slug)) ≡ true)
unfolding find_campaign promo_campaign_by_slug
find_campaign_inherited slug h = elim (Option-cases (Objects.last slug (entries promo_campaigns))) [
  | inl missing ↦ rw (not_empty slug h, missing, h) (refl, refl)
  | inr (c, found) ↦
      let (same, other) =
        last_entry (λ d. is_inherited d.slug ≡ false) slug promo_campaigns c slugs_own found in
      cc
]
