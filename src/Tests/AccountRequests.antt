-- ===== src/Tests/AccountRequests.antt =====
-- The theorems on accounts, at concrete inputs: an administrator and a user, each with a playlist.
use xtremflow.Base.{
  some-value, sym, ap, ◌≡◌, refl, String, true, false, none, some, List, [], ◌∷◌, str_eq,
  sort_by_key,
}
use xtremflow.Accounts.{
  User, UserRow, Session, Playlist, Store, Hashing, get_playlists, get_playlist_by_id,
  find_user_by_id, find_session_by_token,
}
use xtremflow.Accounts.Requests.{
  Request, Payload, Env, api, api_users, api_playlists, with_session_user, is_admin,
}
use xtremflow.Accounts.Laws.{accounts}
use xtremflow.Accounts.Owned.{owned}
use xtremflow.Accounts.Selection.{
  Choice, get_playlist, chosen_playlist, default_playlist, requested,
}
use xtremflow.Accounts.Laws.{accounts-api}
use xtremflow.Accounts.Owned.{owned-api}
use xtremflow.Accounts.Selection.{get_playlist-Owned}

abbrev chief : User
chief = record { id = "1"; username = "chief"; is_admin = true; created_at = 0 }

abbrev guest : User
guest = record { id = "2"; username = "guest"; is_admin = false; created_at = 0 }

abbrev row_of : User → UserRow
row_of u = record { user = u; password_hash = "hash" }

abbrev list_of : String → String → Playlist
list_of id user_id = record {
  id = id;
  user_id = user_id;
  name = id;
  server_url = "http://panel";
  username = "u";
  password = "w";
  dns = none;
  created_at = 0;
  updated_at = 0;
}

abbrev guest_session : Session
guest_session = record { user_id = "2"; token = "t"; expires_at = 9 }

abbrev store : Store
store = record {
  users = row_of chief ∷ row_of guest ∷ [];
  sessions = guest_session ∷ [];
  playlists = list_of "p1" "1" ∷ list_of "p2" "2" ∷ [];
  settings = [];
}

abbrev hashing : Hashing
hashing = record {
  sha256_hex = λ s. s;
  bcrypt_hash = λ s. some s;
  bcrypt_verify = λ given stored. str_eq given "secret";
}

abbrev env : Env
env = record { now = 5; hashing = hashing; new_id = "3"; new_token = "new"; dart_len = λ s. 9 }

abbrev payload : Payload
payload = record {
  username = some "guest";
  password = some "secret";
  is_admin = some true;
  name = none;
  server_url = none;
  dns = none;
}

-- Asks to make the sender an administrator, to log in or to change the other's playlist.
abbrev asking : String → List String → Request
asking method segments = record {
  method = method;
  segments = segments;
  token = some "t";
  body = some payload;
  text = "{}";
  is_json = true;
  user = none;
  user_id = none;
}

abbrev promotion : Request
promotion = asking "PUT" ("2" ∷ [])

abbrev theft : Request
theft = asking "PUT" ("p1" ∷ [])

abbrev entry : Request
entry = asking "POST" ("login" ∷ [])

abbrev choice : Choice
choice = record { in_query = some "p1"; in_header = none }

abbrev not_the_chief : (id : String) → some "2" ≡ some id → str_eq id "1" ≡ false
not_the_chief id e = let same : "2" ≡ id = some-value e in ap (λ k. str_eq k "1") (sym same)

accounts-api_example : accounts (api api_users env promotion store).0.users ≡ accounts store.users
unfolding with_session_user find_session_by_token is_admin find_user_by_id
accounts-api_example = accounts-api api_users env promotion store refl

owned-api_example :
    owned "1" (api api_playlists env theft store).0.playlists ≡ owned "1" store.playlists
unfolding with_session_user find_session_by_token is_admin find_user_by_id
owned-api_example =
    owned-api api_playlists env theft store "1" ((refl, tt), (tt, tt)) refl not_the_chief

get_playlist-Owned_example : str_eq (list_of "p2" "2").user_id guest.id ≡ true
unfolding get_playlist chosen_playlist default_playlist requested get_playlists get_playlist_by_id
    sort_by_key
get_playlist-Owned_example =
    get_playlist-Owned (λ (s : String). s) (λ (rows : List UserRow). rows) guest choice store
      (list_of "p2" "2") refl refl
