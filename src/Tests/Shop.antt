-- ===== src/Tests/Shop.antt =====
-- The shop, and the pages of past matches and of the leaderboard, on small runs.
use ki_clash.Common.{◌≡◌, ◌≢◌, refl, arith, true, false, some, none}
use ki_clash.Api.Types.{AdFreeStatus, CheckoutResponse}
use ki_clash.Game.{Settled, resolved, rejected}
use ki_clash.Shop.{
  State, mount, handle_purchase, load_settled, read_success, checkout_settled, checking, button,
  shown,
}
use ki_clash.Shop.Purchases.{
  status_after_load, start, next, loads, clicks, answers, OpensOnce, Reach-OpensOnce,
}
use ki_clash.Standings.{History, history_sections, get_time_ago}
use ki_clash.Standings.Ages.{age_text, get_time_ago_in_units}
use ki_clash.Standings.Loading.{open_history, ShowsOne, history_ends}
use ki_clash.Tests.Server.{offline, newcomer}

abbrev unpaid : Settled AdFreeStatus
unpaid = resolved (record { ad_free = false })

after_payment_example :
    (shown (mount (some "true")) ≡ checking)
    × (shown (load_settled unpaid (mount (some "true"))) ≡ button false)
after_payment_example = status_after_load (some "true") unpaid

abbrev refused : Settled CheckoutResponse
refused = rejected (some "API error: 502")

abbrev opened : State
opened = load_settled unpaid (mount none)

button_shown : shown opened ≡ button false
button_shown = (status_after_load none unpaid).1

abbrev clicked : State
clicked = handle_purchase opened

still_loading : (mount none).loading ≡ true
unfolding mount read_success
still_loading = refl

one_pending : clicked.checkouts_pending ≢ 0
unfolding handle_purchase load_settled mount read_success
one_pending = λ e. omega arith

checkouts_example : OpensOnce (checkout_settled refused clicked)
checkouts_example = Reach-OpensOnce none (checkout_settled refused clicked) (
    next (next (next start (loads unpaid still_loading)) (clicks button_shown))
      (answers refused one_pending))

age_example : get_time_ago 7500000 100000 "1/1/2026" ≡ age_text 7400000 "1/1/2026"
age_example = get_time_ago_in_units 7500000 100000 "1/1/2026"

history_example :
    (page : History) × (open_history offline newcomer ≡ some page)
    × ShowsOne (history_sections page)
history_example = history_ends offline newcomer
