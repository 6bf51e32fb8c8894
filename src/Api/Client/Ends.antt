-- ===== src/Api/Client/Ends.antt =====
-- Calls that settle whatever the server answers, with a bound on the requests that they send.
use ki_clash.Common.{ℕ, ◌+◌, ◌≤◌, refl, ◌≢◌, String, arith, length}
use ki_clash.Api.Types.{Schema}
use ki_clash.Api.Storage.{
  World, Result, ok, thrown, exhausted, set_item, remove_item, pure, Api, ◌>>=◌, continue, logout,
}
use ki_clash.Api.Client.{Response, read_response}

-- A call that settles, and sends at most `n` requests.
pub record Ends (n : ℕ) {A : Type 0} (m : Api A) : Type 0 where
  pub settles : (w : World) → (m w).0 ≢ exhausted
  pub sends : (w : World) → length (m w).1.sent ≤ length w.sent + n

module _ {A B : Type 0} where
  continue-Ends :
      (b : ℕ) (r : Result A) (w : World) (f : A → Api B)
      → r ≢ exhausted
      → ((x : A) → Ends b (f x))
      → ((continue r w f).0 ≢ exhausted) × (length (continue r w f).1.sent ≤ length w.sent + b)
  continue-Ends b (ok x) w f h k = ((k x).settles w, (k x).sends w)
  continue-Ends b (thrown e) w f h k = (λ q. cc, omega arith)
  continue-Ends b exhausted w f h k = absurd (h refl)

  pub Ends-bind :
      {a b : ℕ} {m : Api A} {f : A → Api B}
      → Ends a m
      → ((x : A) → Ends b (f x))
      → Ends (a + b) (m >>= f)
  Ends-bind {a} {b} {m} {f} h k = record {
    settles = λ w. (continue-Ends b (m w).0 (m w).1 f (h.settles w) k).0;
    sends = λ w. omega (arith, h.sends w, (continue-Ends b (m w).0 (m w).1 f (h.settles w) k).1);
  }

pub set_item-Ends : (k v : String) → Ends 0 (set_item k v)
set_item-Ends k v = record { settles = λ w. ground arith; sends = λ w. ground arith }

pub Ends-weaken : {A : Type 0} {m : Api A} → Ends 0 m → Ends 2 m
Ends-weaken h = record { settles = h.settles; sends = λ w. omega (arith, h.sends w) }

pub pure-Ends : {A : Type 0} (a : A) → Ends 0 (pure a)
pure-Ends a = record { settles = λ w q. cc; sends = λ w. omega arith }

remove_item-Ends : (k : String) → Ends 0 (remove_item k)
remove_item-Ends k = record { settles = λ w. ground arith; sends = λ w. ground arith }

pub logout-Ends : Ends 0 logout
unfolding logout
logout-Ends = Ends-bind (remove_item-Ends _) (λ _.
    Ends-bind (remove_item-Ends _) (λ _. Ends-bind (remove_item-Ends _) (λ _. remove_item-Ends _)))

pub read_response-Ends : (s : Schema) (res : Response s) → Ends 0 (read_response s res)
unfolding read_response
read_response-Ends s res = record { settles = λ w. ground arith; sends = λ w. ground arith }
