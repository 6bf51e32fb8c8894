-- ===== src/Analytics/Campaign.antt =====
-- What the address of the page adds to each event.
use ki_clash.Common.{
  if◌then◌else◌, List, Option, ◌||◌, ◌∙◌, ◌≡◌, Bool, true, false, refl, String, none, some, [], ◌∷◌,
  ◌==◌, eq_iff, is_truthy, or_else, or_none, inl, inr, Bool-cases,
}
use ki_clash.Common.Json.{Json, str}
use ki_clash.Common.Objects
use ki_clash.Analytics.{
  campaign_keys, campaign_from, current_campaign_properties, Properties, Browser,
}

abbrev pub has_key : String → List String → Bool
has_key k [] = false
has_key k (j ∷ keys) = j == k || has_key k keys

-- What a key of the address's parameters is reported as.
abbrev pub reported : Option String → Option Json
reported none = none
reported (some v) = if v == "" then none else some (str v)

same_branches : (b : Bool) (o : Option Json) → o ≡ (if b then o else o)
same_branches true o = refl
same_branches false o = refl

one_key :
    (k j : String) (o : Option String) (values : Properties)
    → Objects.get k (if is_truthy o then Objects.put j (str (or_else o "")) values else values)
      ≡ (if j == k then or_none (reported o) (Objects.get k values) else Objects.get k values)
one_key k j none values = same_branches (j == k) _
one_key k j (some v) values = elim (Bool-cases (v == "")) [
  | inl empty ↦ rw empty (same_branches (j == k) _)
  | inr full ↦ rw full (Objects.get-put j k (str v) values)
]

once_or_twice :
    (b : Bool) (o v : Option Json)
    → (if b then or_none o (or_none o v) else or_none o v) ≡ or_none o v
once_or_twice true none v = refl
once_or_twice true (some a) v = refl
once_or_twice false o v = refl

none_last : (o : Option Json) → or_none o none ≡ o
none_last none = refl
none_last (some a) = refl

campaign_from-get :
    (k : String) (keys : List String) (b : Browser) (values : Properties)
    → Objects.get k (campaign_from keys b values) ≡ (
        if has_key k keys
        then or_none (reported (Objects.get k b.params)) (Objects.get k values)
        else Objects.get k values)
unfolding campaign_from
campaign_from-get k [] b values = refl
campaign_from-get k (j ∷ keys) b values =
    campaign_from-get k keys b _
    ∙ rw (one_key k j (Objects.get j b.params) values) (elim (Bool-cases (j == k)) [
      | inl same ↦
          rw (same, (eq_iff j k).0 same)
            (once_or_twice (has_key k keys) (reported (Objects.get k b.params))
              (Objects.get k values))
      | inr other ↦ rw other refl
    ])

-- Each campaign key is reported as the address has it.
pub current_campaign_properties-get :
    (b : Browser) (k : String)
    → has_key k campaign_keys ≡ true
    → Objects.get k (current_campaign_properties b) ≡ reported (Objects.get k b.params)
unfolding current_campaign_properties Objects.get
current_campaign_properties-get b k h = campaign_from-get k campaign_keys b [] ∙ rw h (none_last _)
