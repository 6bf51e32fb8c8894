-- ===== src/Pvp/Events/Refs.antt =====
-- What the phases show, and what the two refs name.
use ki_clash.Common.{
  ℕ, ◌≡◌, refl, String, true, false, none, some, List, [], ◌∷◌, ◌++◌, length, is_some, ◌∙◌,
}
use mathlib.Core.Path.{subst}
use ki_clash.Pvp.{playing, match_end, matchmaking, game, Socket, State}
use ki_clash.Pvp.Sockets.{kind_at, kind_at-append_last, kind_at-append}

some-inj : {i j : ℕ} → some i ≡ some j → i ≡ j
some-inj e = cc

-- What a phase shows is there.
pub record Shows (s : State) : Type 0 where
  pub board : s.phase ≡ playing → is_some s.game_state ≡ true
  pub over : s.phase ≡ match_end → is_some s.match_result ≡ true
  pub released : s.phase ≡ match_end → s.game_ws ≡ none

-- A ref names a socket that was made for its use.
pub record Refers (s : State) : Type 0 where
  pub to_game : (i : ℕ) → s.game_ws ≡ some i → kind_at i s.sockets ≡ some true
  pub to_search : (i : ℕ) → s.matchmaking_ws ≡ some i → kind_at i s.sockets ≡ some false

-- A change of the sockets that keeps what each was made for keeps the refs right.
pub Refers-kept :
    (s : State) (ks : List Socket)
    → Refers s
    → ((i : ℕ) → kind_at i ks ≡ kind_at i s.sockets)
    → Refers (record s { sockets = ks })
Refers-kept s ks h same = record {
  to_game = λ i e. same i ∙ h.to_game i e;
  to_search = λ i e. same i ∙ h.to_search i e;
}

-- A new socket of a game, which the ref then names.
pub Refers-game :
    (s : State) (k : Socket)
    → k.purpose ≡ game
    → Refers s
    → Refers (record s { game_ws = some (length s.sockets); sockets = s.sockets ++ k ∷ [] })
Refers-game s k p h = record {
  to_game = λ i e.
      subst (λ j. kind_at j (s.sockets ++ k ∷ []) ≡ some true) (some-inj e)
        (rw (kind_at-append_last s.sockets k, p) refl);
  to_search = λ i e. kind_at-append i s.sockets k false (h.to_search i e);
}

pub Refers-search :
    (s : State) (k : Socket) (token : String)
    → k.purpose ≡ matchmaking token
    → Refers s
    → Refers (record s { matchmaking_ws = some (length s.sockets); sockets = s.sockets ++ k ∷ [] })
Refers-search s k token p h = record {
  to_game = λ i e. kind_at-append i s.sockets k true (h.to_game i e);
  to_search = λ i e.
      subst (λ j. kind_at j (s.sockets ++ k ∷ []) ≡ some false) (some-inj e)
        (rw (kind_at-append_last s.sockets k, p) refl);
}
