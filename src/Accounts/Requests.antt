-- ===== src/Accounts/Requests.antt =====
-- The routes of accounts (api/account.rs), with the middleware that authenticates a request
-- (server.rs) and the user that streaming attaches to it (state.rs).
-- `serde_json` reads the body: a body is none where it is not an object.
use xtremflow.Base.{
  ℕ, String, Bool, false, not, ◌&&◌, ◌||◌, Option, none, some, List, [], ◌∷◌, if◌then◌else◌, str_eq,
  ltb, unwrap_or, or_option, is_some, map,
}
use xtremflow.Accounts.{
  User, UserRow, Playlist, Store, Hashing, Fields, find_user_by_username, find_user_by_id,
  verify_credentials, update_password_hash, create_user, update_user_admin_status, delete_user,
  create_session, find_session_by_token, delete_session, get_playlists, get_playlist_by_id,
  create_playlist, update_playlist, delete_playlist, get_user_settings, update_user_settings,
}

-- The fields of a payload that the routes read, none where absent or of another type.
pub record Payload : Type 0 where
  pub username : Option String
  pub password : Option String
  pub is_admin : Option Bool
  pub name : Option String
  pub server_url : Option String
  pub dns : Option String

-- A request: `token` is what `extract_token` finds; `user` and `user_id` are what the middleware
-- attaches.
pub record Request : Type 0 where
  pub method : String
  pub segments : List String
  pub token : Option String
  pub body : Option Payload
  pub text : String
  pub is_json : Bool
  pub user : Option User
  pub user_id : Option String

pub data Content : Type 0 where
  error done : Content
  logged_in : User → String → Content
  a_user : User → Content
  all_users : List User → Content
  a_playlist : Playlist → Content
  all_playlists : List Playlist → Content
  settings : String → Content

pub record Reply : Type 0 where
  pub status : ℕ
  pub content : Content

abbrev pub refuse : ℕ → Reply
refuse status = record { status = status; content = error }

abbrev pub ok : Content → Reply
ok content = record { status = 200; content = content }

-- What a step draws and computes outside the database.
pub record Env : Type 0 where
  pub now : ℕ
  pub hashing : Hashing
  pub new_id : String
  pub new_token : String
  pub dart_len : String → ℕ

abbrev pub Outcome : Type 0
Outcome = Store × Reply

abbrev pub is_read : String → Bool
is_read method = str_eq method "GET" || str_eq method "HEAD"

unfoldable pub login : Env → Request → Store → Outcome
login env req st = elim req.body [
  | none ↦ (st, refuse 500)
  | some p ↦ elim p.username [
    | none ↦ (st, refuse 400)
    | some username ↦ elim p.password [
      | none ↦ (st, refuse 400)
      | some password ↦
          let (st', found) = verify_credentials env.hashing username password st in
          elim found [
            | none ↦ (st', refuse 401)
            | some u ↦ elim (create_session u.id env.new_token env.now st') [
              | none ↦ (st', refuse 500)
              | some (st'', s) ↦ (st'', ok (logged_in u s.token))
            ]
          ]
    ]
  ]
]

unfoldable pub logout : Request → Store → Outcome
logout req st = elim req.token [
  | none ↦ (st, refuse 401)
  | some token ↦ (delete_session token st, ok done)
]

unfoldable pub me : Env → Request → Store → Outcome
me env req st = elim req.token [
  | none ↦ (st, refuse 401)
  | some token ↦
      let (st', found) = find_session_by_token token env.now st in
      elim found [
        | none ↦ (st', refuse 401)
        | some s ↦ elim (find_user_by_id s.user_id st') [
          | none ↦ (st', refuse 404)
          | some u ↦ (st', ok (a_user u))
        ]
      ]
]

unfoldable pub auth : Env → Request → Store → Outcome
unfolding login logout me
auth env req st = elim req.segments [
  | [] ↦ (st, refuse 404)
  | last ∷ more ↦ elim more [
    | _ ∷ _ ↦ (st, refuse 404)
    | [] ↦
        if str_eq req.method "POST" && str_eq last "login"
        then login env req st
        else if str_eq req.method "POST" && str_eq last "logout"
        then logout req st
        else if is_read req.method && str_eq last "me"
        then me env req st
        else (st, refuse 404)
  ]
]

abbrev pub admin_flag : Option User → Bool
admin_flag none = false
admin_flag (some u) = u.is_admin

-- `is_admin`: the user is read again.
unfoldable pub is_admin : Request → Store → Bool
is_admin req st = elim req.user_id [ none ↦ false | some id ↦ admin_flag (find_user_by_id id st) ]

abbrev users_in : List UserRow → List User
users_in = map (λ (r : UserRow). r.user)

unfoldable pub add_user : Env → Request → Store → Outcome
add_user env req st = elim req.body [
  | none ↦ (st, refuse 500)
  | some p ↦ elim p.username [
    | none ↦ (st, refuse 400)
    | some username ↦ elim p.password [
      | none ↦ (st, refuse 400)
      | some password ↦
          if ltb (env.dart_len password) 8
          then (st, refuse 400)
          else if is_some (find_user_by_username username st)
          then (st, refuse 400)
          else elim (env.hashing.bcrypt_hash password) [
            | none ↦ (st, refuse 500)
            | some hash ↦
                elim (create_user env.new_id username hash (unwrap_or p.is_admin false) env.now
                  st) [ none ↦ (st, refuse 500) | some (st', u) ↦ (st', ok (a_user u)) ]
          ]
    ]
  ]
]

unfoldable pub update_password : Env → Request → String → Store → Outcome
update_password env req id st = elim req.body [
  | none ↦ (st, refuse 500)
  | some p ↦ elim p.password [
    | none ↦ (st, refuse 400)
    | some password ↦
        if ltb (env.dart_len password) 8
        then (st, refuse 400)
        else elim (env.hashing.bcrypt_hash password) [
          | none ↦ (st, refuse 500)
          | some hash ↦ (update_password_hash id hash st, ok done)
        ]
  ]
]

unfoldable pub update_user : Request → String → Store → Outcome
update_user req id st = elim req.body [
  | none ↦ (st, refuse 500)
  | some p ↦ elim p.is_admin [
    | none ↦ (st, ok done)
    | some flag ↦ (update_user_admin_status id flag st, ok done)
  ]
]

-- An administrator may not delete itself.
unfoldable pub remove_user : Request → String → Store → Outcome
remove_user req id st =
    if str_eq (unwrap_or req.user_id "") id && is_some req.user_id
    then (st, refuse 400)
    else (delete_user id st, ok done)

abbrev pub guarded : Request → Store → Outcome → Outcome
guarded req st out = if is_admin req st then out else (st, refuse 403)

unfoldable pub users : Env → Request → Store → Outcome
unfolding is_admin add_user update_password update_user remove_user
users env req st = elim req.segments [
  | [] ↦
      if is_read req.method
      then guarded req st (st, ok (all_users (users_in st.users)))
      else if str_eq req.method "POST"
      then guarded req st (add_user env req st)
      else (st, refuse 404)
  | id ∷ more ↦ elim more [
    | [] ↦
        if str_eq req.method "PUT"
        then guarded req st (update_user req id st)
        else if str_eq req.method "DELETE"
        then guarded req st (remove_user req id st)
        else (st, refuse 404)
    | what ∷ rest ↦ elim rest [
      | _ ∷ _ ↦ (st, refuse 404)
      | [] ↦
          if str_eq req.method "PUT" && str_eq what "password"
          then guarded req st (update_password env req id st)
          else (st, refuse 404)
    ]
  ]
]

-- The payload of a new playlist, none where a field is missing.
abbrev new_fields : Payload → Option Fields
new_fields p = elim p.name [
  | none ↦ none
  | some name ↦ elim p.server_url [
    | none ↦ none
    | some url ↦ elim p.username [
      | none ↦ none
      | some username ↦ elim p.password [
        | none ↦ none
        | some password ↦ some (record {
          name = name;
          server_url = url;
          username = username;
          password = password;
          dns = some (unwrap_or p.dns url);
        })
      ]
    ]
  ]
]

unfoldable pub add_playlist : Env → Request → String → Store → Outcome
add_playlist env req user_id st = elim req.body [
  | none ↦ (st, refuse 500)
  | some p ↦ elim (new_fields p) [
    | none ↦ (st, refuse 400)
    | some f ↦ elim (create_playlist env.new_id user_id f env.now st) [
      | none ↦ (st, refuse 500)
      | some (st', made) ↦ (st', ok (a_playlist made))
    ]
  ]
]

-- An empty password leaves the old one.
abbrev kept_password : Option String → String → String
kept_password none old = old
kept_password (some p) old = if str_eq p "" then old else p

abbrev pub changed_fields : Payload → Playlist → Fields
changed_fields p old = record {
  name = unwrap_or p.name old.name;
  server_url = unwrap_or p.server_url old.server_url;
  username = unwrap_or p.username old.username;
  password = kept_password p.password old.password;
  dns = or_option p.dns old.dns;
}

unfoldable pub change_playlist : Env → Request → String → String → Store → Outcome
change_playlist env req user_id id st = elim (get_playlist_by_id id st) [
  | none ↦ (st, refuse 404)
  | some old ↦ if not (str_eq old.user_id user_id) then (st, refuse 403) else elim req.body [
    | none ↦ (st, refuse 500)
    | some p ↦
        let (st', now_there) = update_playlist id (changed_fields p old) env.now st in
        elim now_there [ none ↦ (st', refuse 404) | some q ↦ (st', ok (a_playlist q)) ]
  ]
]

unfoldable pub remove_playlist : String → String → Store → Outcome
remove_playlist user_id id st = elim (get_playlist_by_id id st) [
  | none ↦ (st, refuse 404)
  | some old ↦
      if not (str_eq old.user_id user_id)
      then (st, refuse 403)
      else (delete_playlist id st, ok done)
]

unfoldable pub playlists : Env → Request → Store → Outcome
unfolding add_playlist change_playlist remove_playlist
playlists env req st = elim req.user_id [
  | none ↦ (st, refuse 401)
  | some user_id ↦ elim req.segments [
    | [] ↦
        if is_read req.method
        then (st, ok (all_playlists (get_playlists user_id st)))
        else if str_eq req.method "POST"
        then add_playlist env req user_id st
        else (st, refuse 404)
    | id ∷ more ↦ elim more [
      | _ ∷ _ ↦ (st, refuse 404)
      | [] ↦
          if str_eq req.method "PUT"
          then change_playlist env req user_id id st
          else if str_eq req.method "DELETE"
          then remove_playlist user_id id st
          else (st, refuse 404)
    ]
  ]
]

unfoldable pub user_settings : Env → Request → Store → Outcome
user_settings env req st = elim req.user_id [
  | none ↦ (st, refuse 403)
  | some user_id ↦ elim req.segments [
    | _ ∷ _ ↦ (st, refuse 404)
    | [] ↦
        if is_read req.method
        then (st, ok (settings (unwrap_or (get_user_settings user_id st) "{}")))
        else if not (str_eq req.method "POST")
        then (st, refuse 404)
        else if not req.is_json
        then (st, refuse 400)
        else elim (update_user_settings user_id req.text env.now st) [
          | none ↦ (st, refuse 500)
          | some st' ↦ (st', ok (settings req.text))
        ]
  ]
]

-- `with_session_user`: the request with the user of its session.
abbrev pub attach : Request → String → Option User → Request
attach req user_id user = record req { user = user; user_id = some user_id }

unfoldable pub with_session_user : ℕ → Request → Store → Store × Option Request
with_session_user now req st = elim req.token [
  | none ↦ (st, none)
  | some token ↦
      let (st', found) = find_session_by_token token now st in
      elim found [
        | none ↦ (st', none)
        | some s ↦ (st', some (attach req s.user_id (find_user_by_id s.user_id st')))
      ]
]

-- `authenticate`: 401 without a session.
unfoldable pub authenticated : (Env → Request → Store → Outcome) → Env → Request → Store → Outcome
unfolding with_session_user
authenticated handler env req st =
    let (st', authed) = with_session_user env.now req st in
    elim authed [ none ↦ (st', refuse 401) | some r ↦ handler env r st' ]

-- The mounts of `api_router` that concern accounts.
pub data Mount : Type 0 where
  api_auth api_users api_playlists api_settings : Mount

unfoldable pub api : Mount → Env → Request → Store → Outcome
unfolding auth users playlists user_settings authenticated
api api_auth env req st = auth env req st
api api_users env req st = authenticated users env req st
api api_playlists env req st = authenticated playlists env req st
api api_settings env req st = authenticated user_settings env req st
