-- ===== src/Api/Storage.antt =====
-- The effects of web/src/lib/api.ts: localStorage and the requests sent, as the state of a monad with
-- exceptions, and the functions of the file that read and write the session's keys.
use ki_clash.Common.{String, Bool, Option, none, some, List, ◌==◌, is_some, if◌then◌else◌}
use ki_clash.Common.Json.{Json}

-- localStorage: the text under each key.
abbrev pub Storage : Type 0
Storage = String → Option String

abbrev pub put : String → String → Storage → Storage
put k v st j = if k == j then some v else st j

abbrev pub delete : String → Storage → Storage
delete k st j = if k == j then none else st j

-- The arguments of one `fetch`.
pub record Request : Type 0 where
  pub url : String
  pub method : Option String
  pub headers : List (String × String)
  pub body : Option Json

-- `storage` is none outside a browser, where `window` is undefined; `sent` has the newest first.
pub record World : Type 0 where
  pub storage : Option Storage
  pub sent : List Request

-- How a call settles. `exhausted` marks a recursion that was cut off by its fuel.
pub data Result {ℓ} (A : Type ℓ) : Type ℓ where
  ok : A → Result A
  thrown : String → Result A
  exhausted : Result A

abbrev pub Api : Type 0 → Type 0
Api A = World → Result A × World

abbrev pub continue : {A B : Type 0} → Result A → World → (A → Api B) → Result B × World
continue (ok a) w f = f a w
continue (thrown e) w f = (thrown e, w)
continue exhausted w f = (exhausted, w)

infixl 5 ◌>>=◌ ◌>>◌
abbrev pub ◌>>=◌ : {A B : Type 0} → Api A → (A → Api B) → Api B
◌>>=◌ m f w = continue (m w).0 (m w).1 f

abbrev pub ◌>>◌ : {B : Type 0} → Api Unit → Api B → Api B
m >> k = m >>= λ _. k

abbrev pub pure : {A : Type 0} → A → Api A
pure a w = (ok a, w)

abbrev pub raise : {A : Type 0} → String → Api A
raise e w = (thrown e, w)

-- `localStorage.getItem(k)` behind `typeof window === "undefined"`.
abbrev pub read_item : String → World → Option String
read_item k w = elim w.storage [ none ↦ none | some st ↦ st k ]

-- `localStorage.setItem(k, v)`: outside a browser the name `localStorage` does not resolve.
abbrev pub set_item : String → String → Api Unit
set_item k v w = elim w.storage [
  | none ↦ (thrown "localStorage is not defined", w)
  | some st ↦ (ok tt, record w { storage = some (put k v st) })
]

abbrev pub remove_item : String → Api Unit
remove_item k w = elim w.storage [
  | none ↦ (thrown "localStorage is not defined", w)
  | some st ↦ (ok tt, record w { storage = some (delete k st) })
]

unfoldable pub get_token : World → Option String
get_token = read_item "ki_clash_token"

unfoldable pub set_tokens : String → String → Api Unit
set_tokens access refresh = do set_item "ki_clash_token" access; set_item "ki_clash_refresh" refresh

unfoldable pub get_player_id : World → Option String
get_player_id = read_item "ki_clash_player_id"

unfoldable pub get_display_name : World → Option String
get_display_name = read_item "ki_clash_display_name"

unfoldable pub is_logged_in : World → Bool
unfolding get_token
is_logged_in w = is_some (get_token w)

unfoldable pub logout : Api Unit
logout = do
  remove_item "ki_clash_token"
  remove_item "ki_clash_refresh"
  remove_item "ki_clash_player_id"
  remove_item "ki_clash_display_name"
