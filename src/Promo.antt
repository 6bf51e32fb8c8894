-- ===== src/Promo.antt =====
-- web/src/lib/promo-campaigns.ts and the page web/src/app/go/[slug]/page.tsx that opens a campaign's
-- link. URLSearchParams is the list of its pairs; a URL is its origin, its path and its parameters.
mod Campaigns
pub mod Links
pub mod Attribution
use ki_clash.Common.{
  String, Bool, true, false, not, ◌||◌, Option, none, some, List, [], ◌∷◌, ◌==◌, is_some, is_truthy,
  or_else, or_none, if◌then◌else◌,
}
use ki_clash.Common.Text.{◌<>◌}
use ki_clash.Common.Json.{Json, str, str_or_null}
use ki_clash.Common.Objects
use ki_clash.Analytics.{Properties}
unfoldable pub use Campaigns.*

abbrev pub path_text : TargetPath → String
path_text to_play = "/play"
path_text to_pvp = "/pvp"
path_text to_home = "/"

abbrev pub medium_text : Medium → String
medium_text organic = "organic"
medium_text community = "community"
medium_text paid = "paid"
medium_text direct = "direct"
medium_text creator = "creator"

-- `URLSearchParams`.
abbrev pub Params : Type 0
Params = List (String × String)

-- What an index with a text finds in an object made by Object.fromEntries: its own entry, or what
-- every object inherits, or undefined.
pub data Entry : Type 0 where
  own : PromoCampaign → Entry
  inherited : String → Entry
  undefined : Entry

abbrev pub is_inherited : String → Bool
is_inherited k =
    k == "constructor"
    || k == "toString"
    || k == "valueOf"
    || k == "toLocaleString"
    || k == "hasOwnProperty"
    || k == "isPrototypeOf"
    || k == "propertyIsEnumerable"
    || k == "__proto__"
    || k == "__defineGetter__"
    || k == "__defineSetter__"
    || k == "__lookupGetter__"
    || k == "__lookupSetter__"

-- `Object.fromEntries`: of two entries with one key the later wins.
abbrev pub entries : List PromoCampaign → List (String × PromoCampaign)
entries [] = []
entries (c ∷ cs) = (c.slug, c) ∷ entries cs

abbrev pub entry_of : Option PromoCampaign → String → Entry
entry_of (some c) k = own c
entry_of none k = if is_inherited k then inherited k else undefined

-- `PROMO_CAMPAIGN_BY_SLUG[slug]`.
unfoldable pub promo_campaign_by_slug : String → Entry
promo_campaign_by_slug slug = entry_of (Objects.last slug (entries promo_campaigns)) slug

-- `campaign` of the link's page: the empty slug finds nothing.
unfoldable pub find_campaign : Option String → Entry
find_campaign slug = if is_truthy slug then promo_campaign_by_slug (or_else slug "") else undefined

-- Whether the page takes the link for an active one, which is whether `campaign` is truthy.
abbrev pub is_active : Entry → Bool
is_active undefined = false
is_active _ = true

unfoldable pub campaign_search_params : PromoCampaign → Params
campaign_search_params c =
    ("promo", c.slug)
    ∷ ("ref", c.source)
    ∷ ("utm_source", c.source)
    ∷ ("utm_medium", medium_text c.medium)
    ∷ ("utm_campaign", c.campaign)
    ∷ ("utm_content", c.content)
    ∷ []

pub record Url : Type 0 where
  pub origin : String
  pub pathname : String
  pub params : Params

unfoldable pub build_promo_url : PromoCampaign → String → Url
build_promo_url c origin = record { origin = origin; pathname = "/go/" <> c.slug; params = [] }

unfoldable pub build_campaign_target : PromoCampaign → String → Url
build_campaign_target c origin = record {
  origin = origin;
  pathname = path_text c.target_path;
  params = campaign_search_params c;
}

pub record CampaignProperties : Type 0 where
  pub promo : Option String
  pub ref : Option String
  pub utm_source : Option String
  pub utm_medium : Option String
  pub utm_campaign : Option String
  pub utm_content : Option String

unfoldable pub read_campaign_properties : Params → CampaignProperties
read_campaign_properties ps = record {
  promo = Objects.get "promo" ps;
  ref = Objects.get "ref" ps;
  utm_source = Objects.get "utm_source" ps;
  utm_medium = Objects.get "utm_medium" ps;
  utm_campaign = Objects.get "utm_campaign" ps;
  utm_content = Objects.get "utm_content" ps;
}

-- `incomingParams.forEach(...)`: a parameter that is not there yet is set.
unfoldable pub add_missing : Params → Params → Params
add_missing ps [] = ps
add_missing ps ((k, v) ∷ incoming) =
    add_missing (if not (is_some (Objects.get k ps)) then Objects.put k v ps else ps) incoming

-- Where the page of a link goes: the path and the parameters of `target`.
unfoldable pub link_target : PromoCampaign → String → Params → String × Params
link_target c origin incoming =
    let url = build_campaign_target c origin in (url.pathname, add_missing url.params incoming)

-- What the page reports when it opens.
unfoldable pub link_opened : PromoCampaign → Params → Properties
link_opened c incoming =
    let search = add_missing (campaign_search_params c) incoming in
    ("promo", str c.slug)
    ∷ ("target_path", str (path_text c.target_path))
    ∷ ("angle", str c.angle)
    ∷ ("utm_source", str_or_null (Objects.get "utm_source" search))
    ∷ ("utm_medium", str_or_null (Objects.get "utm_medium" search))
    ∷ ("utm_campaign", str_or_null (Objects.get "utm_campaign" search))
    ∷ ("utm_content", str_or_null (Objects.get "utm_content" search))
    ∷ []
