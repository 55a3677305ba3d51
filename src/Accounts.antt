-- ===== src/Accounts.antt =====
-- Accounts (models.rs, and users, sessions, playlists and settings of db.rs) and passwords
-- (util/password.rs). SHA-256 and bcrypt are code outside the repository, and parameters; a date's
-- text is the instant that it stands for. The database keeps its constraints: one user to a name,
-- and rows of users that exist, which go with their user; a statement that would break one fails.
pub mod Requests
pub mod Laws
pub mod Owned
pub mod Sessions
pub mod Selection
use xtremflow.Base.{
  ℕ, ◌+◌, ◌≡◌, String, Bool, true, false, not, ◌&&◌, ◌||◌, Option, none, some, List, [], ◌∷◌, ◌++◌,
  map, if◌then◌else◌, str_eq, ltb, leb, filter, find, any, length, ◌==◌, days, is_some, sort_by_key,
}
use Prim.Native.Char.{code}
use Prim.Native.String

pub record User : Type 0 where
  pub id : String
  pub username : String
  pub is_admin : Bool
  pub created_at : ℕ

-- A row of `users`, with the column that `User` leaves out.
pub record UserRow : Type 0 where
  pub user : User
  pub password_hash : String

pub record Session : Type 0 where
  pub user_id : String
  pub token : String
  pub expires_at : ℕ

pub record Playlist : Type 0 where
  pub id : String
  pub user_id : String
  pub name : String
  pub server_url : String
  pub username : String
  pub password : String
  pub dns : Option String
  pub created_at : ℕ
  pub updated_at : ℕ

pub record Settings : Type 0 where
  pub user_id : String
  pub json : String
  pub updated_at : ℕ

pub record Store : Type 0 where
  pub users : List UserRow
  pub sessions : List Session
  pub playlists : List Playlist
  pub settings : List Settings

-- What bcrypt and SHA-256 do; `bcrypt_hash` may fail.
pub record Hashing : Type 0 where
  pub sha256_hex : String → String
  pub bcrypt_hash : String → Option String
  pub bcrypt_verify : String → String → Bool

abbrev is_hex : ℕ → Bool
is_hex c = (leb b'0' c && leb c b'9') || (leb b'a' c && leb c b'f')

abbrev pub codes : String → List ℕ
codes String.[] = []
codes (String.◌∷◌ c s) = code c ∷ codes s

abbrev pub all_hex : List ℕ → Bool
all_hex [] = true
all_hex (c ∷ cs) = is_hex c && all_hex cs

-- `^[0-9a-f]{64}$`
unfoldable pub is_legacy : String → Bool
is_legacy stored = length (codes stored) == 64 && all_hex (codes stored)

unfoldable pub verify : Hashing → String → String → Bool
unfolding is_legacy
verify h password stored =
    if is_legacy stored
    then str_eq (h.sha256_hex password) stored
    else h.bcrypt_verify password stored

abbrev pub has_user_id : String → UserRow → Bool
has_user_id id r = str_eq r.user.id id

abbrev pub user_of : Option UserRow → Option User
user_of none = none
user_of (some r) = some r.user

unfoldable pub find_user_by_username : String → Store → Option User
find_user_by_username name st =
    user_of (find (λ (r : UserRow). str_eq r.user.username name) st.users)

unfoldable pub find_user_by_id : String → Store → Option User
find_user_by_id id st = user_of (find (has_user_id id) st.users)

-- `UPDATE users … WHERE id = ?`
unfoldable pub update_user_where : String → (UserRow → UserRow) → List UserRow → List UserRow
update_user_where id f [] = []
update_user_where id f (r ∷ rows) =
    (if has_user_id id r then f r else r) ∷ update_user_where id f rows

unfoldable pub update_password_hash : String → String → Store → Store
unfolding update_user_where
update_password_hash id hash st = record st {
  users = update_user_where id (λ r. record r { password_hash = hash }) st.users;
}

-- The lazy migration of a legacy hash.
unfoldable pub migrate : Hashing → String → UserRow → Store → Store
unfolding update_password_hash is_legacy
migrate h password row st =
    if is_legacy row.password_hash
    then elim (h.bcrypt_hash password) [
      | none ↦ st
      | some hash ↦ update_password_hash row.user.id hash st
    ]
    else st

unfoldable pub verify_credentials : Hashing → String → String → Store → Store × Option User
unfolding migrate verify
verify_credentials h username password st =
    elim (find (λ (r : UserRow). str_eq r.user.username username) st.users) [
      | none ↦ (st, none)
      | some row ↦
          if not (verify h password row.password_hash)
          then (st, none)
          else (migrate h password row st, some row.user)
    ]

abbrev pub new_user : String → String → Bool → ℕ → User
new_user id username is_admin now = record {
  id = id;
  username = username;
  is_admin = is_admin;
  created_at = now;
}

-- The identifier is drawn by the caller; a name that is taken is an error.
unfoldable pub create_user : String → String → String → Bool → ℕ → Store → Option (Store × User)
unfolding find_user_by_username
create_user id username hash is_admin now st =
    if is_some (find_user_by_username username st)
    then none
    else let u = new_user id username is_admin now in
      some (record st { users = st.users ++ record { user = u; password_hash = hash } ∷ [] }, u)

abbrev with_admin : Bool → UserRow → UserRow
with_admin is_admin r = record r { user = record r.user { is_admin = is_admin } }

unfoldable pub update_user_admin_status : String → Bool → Store → Store
unfolding update_user_where
update_user_admin_status id is_admin st = record st {
  users = update_user_where id (with_admin is_admin) st.users;
}

-- With what cascades from the user.
unfoldable pub delete_user : String → Store → Store
delete_user id st = record {
  users = filter (λ r. not (has_user_id id r)) st.users;
  sessions = filter (λ (s : Session). not (str_eq s.user_id id)) st.sessions;
  playlists = filter (λ (p : Playlist). not (str_eq p.user_id id)) st.playlists;
  settings = filter (λ (s : Settings). not (str_eq s.user_id id)) st.settings;
}

abbrev pub new_session : String → String → ℕ → Session
new_session user_id token now = record {
  user_id = user_id;
  token = token;
  expires_at = now + days 7;
}

abbrev pub has_token : String → Session → Bool
has_token token s = str_eq s.token token

-- A token that is taken is an error, and so is a user that is gone.
unfoldable pub create_session : String → String → ℕ → Store → Option (Store × Session)
unfolding find_user_by_id
create_session user_id token now st =
    if not (is_some (find_user_by_id user_id st)) || any (has_token token) st.sessions
    then none
    else let s = new_session user_id token now in some (record st { sessions = s ∷ st.sessions }, s)

unfoldable pub delete_session : String → Store → Store
delete_session token st = record st { sessions = filter (λ s. not (has_token token s)) st.sessions }

-- An expired session is deleted.
unfoldable pub find_session_by_token : String → ℕ → Store → Store × Option Session
unfolding delete_session
find_session_by_token token now st = elim (find (has_token token) st.sessions) [
  | none ↦ (st, none)
  | some s ↦ if ltb s.expires_at now then (delete_session token st, none) else (st, some s)
]

unfoldable pub clean_expired_sessions : ℕ → Store → Store
clean_expired_sessions now st = record st {
  sessions = filter (λ (s : Session). not (ltb s.expires_at now)) st.sessions;
}

-- The most recent first: sorted by date, then turned round.
abbrev pub newest_first : List Playlist → List Playlist
newest_first [] = []
newest_first (p ∷ ps) = newest_first ps ++ p ∷ []

unfoldable pub get_playlists : String → Store → List Playlist
get_playlists user_id st = newest_first (
    sort_by_key (λ (p : Playlist). p.created_at)
      (filter (λ (p : Playlist). str_eq p.user_id user_id) st.playlists))

unfoldable pub get_playlist_by_id : String → Store → Option Playlist
get_playlist_by_id id st = find (λ (p : Playlist). str_eq p.id id) st.playlists

-- What a client gives of a playlist.
pub record Fields : Type 0 where
  pub name : String
  pub server_url : String
  pub username : String
  pub password : String
  pub dns : Option String

abbrev pub new_playlist : String → String → Fields → ℕ → Playlist
new_playlist id user_id f now = record {
  id = id;
  user_id = user_id;
  name = f.name;
  server_url = f.server_url;
  username = f.username;
  password = f.password;
  dns = f.dns;
  created_at = now;
  updated_at = now;
}

unfoldable pub create_playlist : String → String → Fields → ℕ → Store → Option (Store × Playlist)
unfolding find_user_by_id
create_playlist id user_id f now st =
    if not (is_some (find_user_by_id user_id st))
    then none
    else let p = new_playlist id user_id f now in
      some (record st { playlists = p ∷ st.playlists }, p)

abbrev pub with_fields : Fields → ℕ → Playlist → Playlist
with_fields f now p = record p {
  name = f.name;
  server_url = f.server_url;
  username = f.username;
  password = f.password;
  dns = f.dns;
  updated_at = now;
}

unfoldable pub update_playlist_where :
    String → (Playlist → Playlist) → List Playlist → List Playlist
update_playlist_where id f [] = []
update_playlist_where id f (p ∷ ps) =
    (if str_eq p.id id then f p else p) ∷ update_playlist_where id f ps

unfoldable pub update_playlist : String → Fields → ℕ → Store → Store × Option Playlist
unfolding update_playlist_where get_playlist_by_id
update_playlist id f now st =
    let st' = record st { playlists = update_playlist_where id (with_fields f now) st.playlists } in
    (st', get_playlist_by_id id st')

unfoldable pub delete_playlist : String → Store → Store
delete_playlist id st = record st {
  playlists = filter (λ (p : Playlist). not (str_eq p.id id)) st.playlists;
}

unfoldable pub get_user_settings : String → Store → Option String
get_user_settings user_id st =
    elim (find (λ (s : Settings). str_eq s.user_id user_id) st.settings) [
      | none ↦ none
      | some s ↦ some s.json
    ]

unfoldable pub update_user_settings : String → String → ℕ → Store → Option Store
unfolding find_user_by_id
update_user_settings user_id json now st =
    if is_some (find_user_by_id user_id st)
    then some (record st {
      settings =
          record { user_id = user_id; json = json; updated_at = now }
          ∷ filter (λ (s : Settings). not (str_eq s.user_id user_id)) st.settings;
    })
    else none
