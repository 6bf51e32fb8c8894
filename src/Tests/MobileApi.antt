-- ===== src/Tests/MobileApi.antt =====
-- The client mobile/src/lib/api.ts over a store that is a function, and servers that refuse or accept.
use ki_clash.Common.{
  ◌≡◌, ◌≢◌, refl, arith, String, none, some, List, [], ◌∷◌, All, Bool, false, eq_iff, eq_refl,
  or_else, ◌==◌, if◌then◌else◌,
}
use ki_clash.Api.Types.{Schema, token, game, a_room}
use ki_clash.Api.Client.{Reply, answer}
use ki_clash.Mobile.Api.{
  SecureStore, Network, World, get_token, get_player_id, get_display_name, ensure_auth,
}
use ki_clash.Mobile.Api.Session.{IsStore, Method, attempts, stale_token_stays, guest_signs_in}
use ki_clash.Api.Storage
use ki_clash.Api.Storage.{Request}
use ki_clash.Common.Objects
use ki_clash.Tests.Server.{guest, opened, refusal, no_content, with_old_token}

abbrev pub texts : SecureStore
texts = record {
  Store = Storage.Storage;
  get_item = λ k st. st k;
  set_item = Storage.put;
  delete_item = Storage.delete;
}

put_other : (j k v : String) (st : Storage.Storage) → j ≢ k → Storage.put k v st j ≡ st j
put_other j k v st ne = ground (arith, eq_iff k j, ne)

texts-IsStore : IsStore texts
texts-IsStore = record {
  same = λ k v st. rw (eq_refl k) refl;
  other = λ j k v st ne. put_other j k v st ne;
}

abbrev is_old : List Request → Bool
is_old [] = false
is_old (r ∷ sent) = or_else (Objects.get "Authorization" r.headers) "" == "Bearer t0"

abbrev strict : Network
strict = record {
  api_url = none;
  reply = λ s sent. answer (if is_old sent then refusal s else no_content s);
  detail = λ sent. none;
}

abbrev returning : World Storage.Storage
returning = record { store = with_old_token; sent = [] }

abbrev tries : List Method
tries =
    record { schema = a_room; path = "/api/v1/rooms/AB12"; method = none; body = none }
    ∷ record { schema = game; path = "/api/v1/games/g1"; method = none; body = none }
    ∷ []

stuck_example :
    All (λ done. done ≡ false) (attempts texts strict tries returning).0
    × ((attempts texts strict tries returning).1.store ≡ with_old_token)
unfolding get_token
stuck_example =
    stale_token_stays texts strict tries "t0" returning refl refl (λ s r sent h. rw h refl)

abbrev open_session : (s : Schema) → Reply s
open_session token = answer opened
open_session s = answer (no_content s)

abbrev welcoming : Network
welcoming = record { api_url = none; reply = λ s sent. open_session s; detail = λ sent. none }

abbrev pub empty : World Storage.Storage
empty = record { store = λ k. none; sent = [] }

guest_example :
    let after = (ensure_auth texts welcoming empty).1 in
    (get_token texts after ≡ some "t1")
    × (get_player_id texts after ≡ some "p1")
    × (get_display_name texts after ≡ some "Guest")
unfolding get_token
guest_example = guest_signs_in texts texts-IsStore welcoming guest none empty refl refl
