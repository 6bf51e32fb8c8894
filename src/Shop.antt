-- ===== src/Shop.antt =====
-- The shop's page, web/src/app/shop/page.tsx. A handler that waits for a call is two functions, before
-- the call and after it; `load_settled` is what follows the calls that `load` makes.
pub mod Purchases
use ki_clash.Common.{
  ℕ, ◌+◌, ◌-◌, ◌==◌, String, Bool, true, false, not, Option, none, some, List, [], ◌∷◌, get_or_else,
  if◌then◌else◌,
}
use ki_clash.Common.Text.{◌<>◌}
use ki_clash.Common.Json.{str}
use ki_clash.Api.Types.{AdFreeStatus, CheckoutResponse}
use ki_clash.Api.Storage.{Api, ◌>>=◌, ◌>>◌}
use ki_clash.Api.Client.{Network, ensure_auth}
use ki_clash.Api.Calls.{get_ad_free_status, create_founder_pass_checkout}
use ki_clash.Analytics.{
  EventName, shop_view, founder_pass_checkout_started, founder_pass_checkout_failed,
  founder_pass_checkout_success, Properties,
}
use ki_clash.Game.{Settled, resolved, rejected}

-- The page's state, with the calls that it waits for, the address that the history was given, the
-- address that the window went to, and the events that it tracked, the newest first.
pub record State : Type 0 where
  pub ad_free : Bool
  pub loading : Bool
  pub purchasing : Bool
  pub error : Option String
  pub checkouts_pending : ℕ
  pub replaced : Option String
  pub href : Option String
  pub tracked : List (EventName × Properties)

abbrev pub initial : State
initial = record {
  ad_free = false;
  loading = true;
  purchasing = false;
  error = none;
  checkouts_pending = 0;
  replaced = none;
  href = none;
  tracked = [];
}

abbrev pub track : EventName → Properties → State → State
track event properties s = record s { tracked = (event, properties) ∷ s.tracked }

-- The calls of `load`; what they give comes to `load_settled`.
unfoldable pub load : Network → Api AdFreeStatus
load net = do ensure_auth net; get_ad_free_status net

unfoldable pub load_settled : Settled AdFreeStatus → State → State
load_settled (resolved status) s = record s { ad_free = status.ad_free; loading = false }
load_settled (rejected e) s = record s { loading = false }

abbrev pub is_success : Option String → Bool
is_success success = get_or_else success "" == "true"

-- The third effect, for the value that the address has under `success`.
unfoldable pub read_success : Option String → State → State
read_success success s =
    if is_success success
    then track founder_pass_checkout_success []
        (record s { ad_free = true; replaced = some "/shop" })
    else s

-- The effects of the first render, in their order; `load` waits for its first call.
unfoldable pub mount : Option String → State
unfolding read_success
mount success = read_success success (track shop_view [] initial)

-- `handlePurchase` up to its call, and the call.
unfoldable pub handle_purchase : State → State
handle_purchase s =
    track founder_pass_checkout_started
      (("product", str "founder_pass") ∷ ("checkout_provider", str "lemon_squeezy") ∷ [])
      (record s { purchasing = true; error = none; checkouts_pending = s.checkouts_pending + 1 })

unfoldable pub checkout : Network → String → Api CheckoutResponse
checkout net origin =
    create_founder_pass_checkout net (origin <> "/shop?success=true") (origin <> "/shop")

unfoldable pub checkout_settled : Settled CheckoutResponse → State → State
checkout_settled (resolved result) s = record s {
  href = some result.checkout_url;
  checkouts_pending = s.checkouts_pending - 1;
}
checkout_settled (rejected e) s =
    let message = get_or_else e "Checkout is not available right now." in
    track founder_pass_checkout_failed
      (("product", str "founder_pass") ∷ ("message", str message) ∷ [])
      (record s {
        error = some message;
        purchasing = false;
        checkouts_pending = s.checkouts_pending - 1;
      })

-- What the page shows in the place of the button.
pub data Shown : Type 0 where
  checking active : Shown
  button : (disabled : Bool) → Shown

unfoldable pub shown : State → Shown
shown s = if s.loading then checking else if s.ad_free then active else button s.purchasing
