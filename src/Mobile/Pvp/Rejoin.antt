-- ===== src/Mobile/Pvp/Rejoin.antt =====
-- Joining a room's game while the socket of an earlier game is still open.
use ki_clash.Common.{
  ℕ, zero, suc, ◌≡◌, ◌≢◌, refl, ap, ◌∙◌, String, Option, none, some, List, [], ◌∷◌, ◌++◌, ◌==◌,
  eq_iff, length, arith, inl, inr, Bool-cases,
}
use ki_clash.Api.Types.{Action}
use ki_clash.Pvp.{Socket, connecting, modify, close_ref, ready_at}
use ki_clash.Mobile.Pvp.{State, Closing, signed_in}
use ki_clash.Mobile.Pvp.Handlers.{join_game_signed_in, on_game_close, submit_action}

length-modify :
    (i : ℕ) (f : Socket → Socket) (ks : List Socket) → length (modify i f ks) ≡ length ks
length-modify i f [] = refl
length-modify zero f (k ∷ ks) = refl
length-modify (suc i) f (k ∷ ks) = omega (arith, length-modify i f ks)

length-close_ref : (r : Option ℕ) (ks : List Socket) → length (close_ref r ks) ≡ length ks
length-close_ref none ks = refl
length-close_ref (some i) ks = length-modify i _ ks

ready_at-last :
    (n : ℕ) (ks : List Socket) (k : Socket) → length ks ≡ n → ready_at n (ks ++ k ∷ []) ≡ k.ready
ready_at-last zero [] k h = refl
ready_at-last zero (x ∷ ks) k h = absurd (omega (arith, h))
ready_at-last (suc n) [] k h = absurd (omega (arith, h))
ready_at-last (suc n) (x ∷ ks) k h = ready_at-last n ks k (omega (arith, h))

-- On the mobile client, where a token is stored, joinGame makes a new game socket; when the close
-- of an old one then arrives, the hook has no game socket any more, the new one is still there, and
-- every action that the player picks is dropped.
pub late_close_forgets :
    (ws_base old_id id token : String) (name : Option String) (e : Closing) (a : Action) (s : State)
    → token ≢ ""
    → let joined = join_game_signed_in ws_base id name (signed_in (some token)) s in
      let t = on_game_close old_id e joined in
      (joined.game_ws ≡ some (length s.sockets))
      × (ready_at (length s.sockets) t.sockets ≡ connecting)
      × (t.game_ws ≡ none)
      × (submit_action a t ≡ t)
unfolding join_game_signed_in on_game_close submit_action
late_close_forgets ws_base old_id id token name e a s h = elim (Bool-cases (token == "")) [
  | inl empty ↦ absurd (h ((eq_iff token "").0 empty))
  | inr full ↦
      let same =
        length-close_ref s.game_ws (close_ref s.matchmaking_ws s.sockets)
        ∙ length-close_ref s.matchmaking_ws s.sockets in
      rw full (ap some same, ready_at-last (length s.sockets) _ _ same, refl, refl)
]
