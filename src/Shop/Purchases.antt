-- ===== src/Shop/Purchases.antt =====
-- What the shop of web/src/app/shop/page.tsx shows, and how often it opens a checkout.
use ki_clash.Common.{
  ℕ, ◌+◌, ◌-◌, ◌≡◌, ◌≢◌, refl, arith, String, Bool, true, false, Option, none, Bool-cases, inl, inr,
  is_some, if◌then◌else◌,
}
use ki_clash.Api.Types.{AdFreeStatus, CheckoutResponse}
use ki_clash.Game.{Settled, resolved, rejected}
use ki_clash.Shop.{
  State, load_settled, is_success, read_success, mount, handle_purchase, checkout_settled, Shown,
  checking, active, button, shown,
}

-- The status that the page shows when its load is over.
abbrev pub status_shown : Option String → Settled AdFreeStatus → Shown
status_shown success (resolved status) = if status.ad_free then active else button false
status_shown success (rejected e) = if is_success success then active else button false

-- The shop checks until its load is over, also on the way back from a checkout, and then shows the
-- status that the server answered, so that a purchase that the server has not yet heard of is
-- offered again; if a call of the load failed, the address alone tells whether the pass is shown as
-- bought.
pub status_after_load :
    (success : Option String) (r : Settled AdFreeStatus)
    → (shown (mount success) ≡ checking)
      × (shown (load_settled r (mount success)) ≡ status_shown success r)
unfolding mount read_success load_settled shown
status_after_load success (resolved status) = elim (Bool-cases (is_success success)) [
  | inl e ↦ rw e (refl, refl)
  | inr e ↦ rw e (refl, refl)
]
status_after_load success (rejected e) = elim (Bool-cases (is_success success)) [
  | inl q ↦ rw q (refl, refl)
  | inr q ↦ rw q (refl, refl)
]

-- The player clicks the button that is shown and not disabled.
pub data Step (s : State) : State → Type 0 where
  loads : (r : Settled AdFreeStatus) → s.loading ≡ true → Step s (load_settled r s)
  clicks : shown s ≡ button false → Step s (handle_purchase s)
  answers : (r : Settled CheckoutResponse) → s.checkouts_pending ≢ 0 → Step s (checkout_settled r s)

pub data Reach (success : Option String) : State → Type 0 where
  start : Reach success (mount success)
  next : {s t : State} → Reach success s → Step s t → Reach success t

-- Checkouts under way and the address that the window went to, together.
abbrev pub checkouts : State → ℕ
checkouts s = s.checkouts_pending + (if is_some s.href then 1 else 0)

pub record OpensOnce (s : State) : Type 0 where
  pub one : checkouts s ≡ (if s.purchasing then 1 else 0)
  pub no_error : s.purchasing ≡ true → s.error ≡ none

mount-OpensOnce : (success : Option String) → OpensOnce (mount success)
unfolding mount read_success
mount-OpensOnce success = elim (Bool-cases (is_success success)) [
  | inl e ↦ rw e (record { one = refl; no_error = λ p. refl })
  | inr e ↦ rw e (record { one = refl; no_error = λ p. refl })
]

-- The count of checkouts of which one is under way.
pending_one :
    (n : ℕ) (away purchasing : Bool)
    → n ≢ 0
    → n + (if away then 1 else 0) ≡ (if purchasing then 1 else 0)
    → (n - 1 + 1 ≡ (if purchasing then 1 else 0)) × (n - 1 + (if away then 1 else 0) ≡ 0)
pending_one n away purchasing p h = ground arith

one_more :
    (n : ℕ) (away purchasing : Bool)
    → purchasing ≡ false
    → n + (if away then 1 else 0) ≡ (if purchasing then 1 else 0)
    → n + 1 + (if away then 1 else 0) ≡ 1
one_more n away purchasing p h = ground arith

button_disabled :
    (l a p : Bool)
    → (if l then checking else if a then active else button p) ≡ button false
    → p ≡ false
button_disabled l a p h = ground arith

not_purchasing : (s : State) → shown s ≡ button false → s.purchasing ≡ false
unfolding shown
not_purchasing s h = button_disabled s.loading s.ad_free s.purchasing h

load_settled-OpensOnce :
    (r : Settled AdFreeStatus) (s : State) → OpensOnce s → OpensOnce (load_settled r s)
unfolding load_settled
load_settled-OpensOnce (resolved status) s h = record { one = h.one; no_error = h.no_error }
load_settled-OpensOnce (rejected e) s h = record { one = h.one; no_error = h.no_error }

handle_purchase-OpensOnce :
    (s : State) → s.purchasing ≡ false → OpensOnce s → OpensOnce (handle_purchase s)
unfolding handle_purchase
handle_purchase-OpensOnce s p h = record {
  one = one_more s.checkouts_pending (is_some s.href) s.purchasing p h.one;
  no_error = λ q. refl;
}

checkout_settled-OpensOnce :
    (r : Settled CheckoutResponse) (s : State)
    → s.checkouts_pending ≢ 0
    → OpensOnce s
    → OpensOnce (checkout_settled r s)
unfolding checkout_settled
checkout_settled-OpensOnce (resolved result) s p h = record {
  one = (pending_one s.checkouts_pending (is_some s.href) s.purchasing p h.one).0;
  no_error = h.no_error;
}
checkout_settled-OpensOnce (rejected e) s p h = record {
  one = (pending_one s.checkouts_pending (is_some s.href) s.purchasing p h.one).1;
  no_error = λ q. cc;
}

-- Whatever the player clicks and whatever is answered, in any order, the shop has one checkout
-- under way or has left for one while it says that it opens a checkout, and none otherwise, and
-- while it says so it shows no error.
pub Reach-OpensOnce : (success : Option String) (s : State) → Reach success s → OpensOnce s
Reach-OpensOnce success _ start = mount-OpensOnce success
Reach-OpensOnce success _ (next r (loads q p)) =
    load_settled-OpensOnce q _ (Reach-OpensOnce success _ r)
Reach-OpensOnce success _ (next r (clicks p)) =
    handle_purchase-OpensOnce _ (not_purchasing _ p) (Reach-OpensOnce success _ r)
Reach-OpensOnce success _ (next r (answers q p)) =
    checkout_settled-OpensOnce q _ p (Reach-OpensOnce success _ r)
