-- ===== src/Pvp/Sockets.antt =====
-- The list of sockets under its updates.
use ki_clash.Common.{
  ℕ, zero, suc, ◌≡◌, ◌≢◌, refl, Bool, true, false, Option, none, some, List, [], ◌∷◌, ◌++◌, arith,
  length, get_elem?, ap,
}
use ki_clash.Common.Json.{Json}
use ki_clash.Pvp.{
  Ready, Purpose, matchmaking, game, Socket, modify, shut, close, close_ref, ready_at, is_open,
  transmit,
}

-- Whether the socket at a place is one of a game; none past the end.
abbrev pub is_game : Purpose → Bool
is_game game = true
is_game (matchmaking _) = false

abbrev pub kind_of : Option Socket → Option Bool
kind_of none = none
kind_of (some k) = some (is_game k.purpose)

abbrev pub kind_at : ℕ → List Socket → Option Bool
kind_at i ks = kind_of (get_elem? ks i)

module _ (f : Socket → Socket) where
  pub kind_at-modify :
      (i j : ℕ) (ks : List Socket)
      → ((k : Socket) → (f k).purpose ≡ k.purpose)
      → kind_at j (modify i f ks) ≡ kind_at j ks
  kind_at-modify i j [] h = refl
  kind_at-modify zero zero (k ∷ ks) h = rw (h k) refl
  kind_at-modify zero (suc j) (k ∷ ks) h = refl
  kind_at-modify (suc i) zero (k ∷ ks) h = refl
  kind_at-modify (suc i) (suc j) (k ∷ ks) h = kind_at-modify i j ks h

  pub ready_at-modify_self :
      (i : ℕ) (ks : List Socket) (k : Socket)
      → get_elem? ks i ≡ some k
      → ready_at i (modify i f ks) ≡ (f k).ready
  ready_at-modify_self i [] k h = cc
  ready_at-modify_self zero (x ∷ ks) k h = ground arith
  ready_at-modify_self (suc i) (x ∷ ks) k h = ready_at-modify_self i ks k h

  pub ready_at-modify_ne :
      (i j : ℕ) (ks : List Socket) → i ≢ j → ready_at j (modify i f ks) ≡ ready_at j ks
  ready_at-modify_ne i j [] h = refl
  ready_at-modify_ne zero zero (k ∷ ks) h = absurd (h refl)
  ready_at-modify_ne zero (suc j) (k ∷ ks) h = refl
  ready_at-modify_ne (suc i) zero (k ∷ ks) h = refl
  ready_at-modify_ne (suc i) (suc j) (k ∷ ks) h = ready_at-modify_ne i j ks (λ e. h (ap suc e))

pub kind_at-append_last :
    (ks : List Socket) (k : Socket) → kind_at (length ks) (ks ++ k ∷ []) ≡ some (is_game k.purpose)
kind_at-append_last [] k = refl
kind_at-append_last (x ∷ ks) k = kind_at-append_last ks k

pub kind_at-append :
    (i : ℕ) (ks : List Socket) (k : Socket) (b : Bool)
    → kind_at i ks ≡ some b
    → kind_at i (ks ++ k ∷ []) ≡ some b
kind_at-append i [] k b h = cc
kind_at-append zero (x ∷ ks) k b h = h
kind_at-append (suc i) (x ∷ ks) k b h = kind_at-append i ks k b h

pub kind_at-close : (i j : ℕ) (ks : List Socket) → kind_at j (close i ks) ≡ kind_at j ks
kind_at-close i j ks = kind_at-modify (λ k. record k { ready = shut k.ready }) i j ks (λ k. refl)

pub kind_at-close_ref :
    (r : Option ℕ) (j : ℕ) (ks : List Socket) → kind_at j (close_ref r ks) ≡ kind_at j ks
kind_at-close_ref none j ks = refl
kind_at-close_ref (some i) j ks = kind_at-close i j ks

transmit_purpose :
    (body : Json) (k : Socket) (b : Bool)
    → (elim b as (λ _. Socket) [
      | true ↦ record k { sent = k.sent ++ body ∷ [] }
      | false ↦ k
    ]).purpose
      ≡ k.purpose
transmit_purpose body k true = refl
transmit_purpose body k false = refl

pub kind_at-transmit :
    (i j : ℕ) (body : Json) (ks : List Socket) → kind_at j (transmit i body ks) ≡ kind_at j ks
kind_at-transmit i j body ks =
    kind_at-modify _ i j ks (λ k. transmit_purpose body k (is_open k.ready))

shut-is_open : (r : Ready) → is_open (shut r) ≡ false
shut-is_open r = ground arith

-- A socket that has been closed is not open.
pub close_not_open : (i : ℕ) (ks : List Socket) → is_open (ready_at i (close i ks)) ≡ false
close_not_open i [] = refl
close_not_open zero (k ∷ ks) = shut-is_open k.ready
close_not_open (suc i) (k ∷ ks) = close_not_open i ks
