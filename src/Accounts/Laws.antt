-- ===== src/Accounts/Laws.antt =====
-- What a request can change of other accounts.
use xtremflow.Base.{
  ℕ, ◌≡◌, refl, sym, ap, ◌∙◌, inl, inr, String, Bool, false, Option, none, some, List, [], ◌∷◌, map,
  arith, str_eq, Option-cases, find,
}
use xtremflow.Accounts.{
  User, UserRow, Store, Hashing, update_user_where, update_password_hash, migrate,
  verify_credentials, create_session, find_session_by_token, delete_session, update_playlist,
  delete_playlist, create_playlist, update_user_settings,
}
use xtremflow.Accounts.Requests.{
  Env, Request, Outcome, login, logout, me, auth, is_admin, users, playlists, user_settings,
  add_playlist, change_playlist, remove_playlist, with_session_user, authenticated, Mount, api_auth,
  api_users, api_playlists, api_settings, api,
}

-- Whether the session of the request is that of an administrator.
abbrev admin_request : Store × Option Request → Bool
admin_request (st, none) = false
admin_request (st, some r) = is_admin r st

abbrev pub by_admin : Env → Request → Store → Bool
by_admin env req st = admin_request (with_session_user env.now req st)

abbrev pub accounts : List UserRow → List User
accounts = map (λ (r : UserRow). r.user)

accounts-update :
    (id hash : String) (rows : List UserRow)
    → accounts (update_user_where id (λ r. record r { password_hash = hash }) rows) ≡ accounts rows
unfolding update_user_where
accounts-update id hash [] = refl
accounts-update id hash (r ∷ rows) = ground (arith, accounts-update id hash rows)

-- Accounts and playlists stay as they are.
abbrev pub Kept : Store → Store → Type 0
Kept st st' = (accounts st'.users ≡ accounts st.users) × (st'.playlists ≡ st.playlists)

migrate-Kept :
    (h : Hashing) (password : String) (row : UserRow) (st : Store)
    → Kept st (migrate h password row st)
unfolding migrate update_password_hash
migrate-Kept h password row st = elim (Option-cases (h.bcrypt_hash password)) [
  | inl failed ↦ (ground arith, ground arith)
  | inr (hash, made) ↦ (ground (arith, accounts-update row.user.id hash st.users), ground arith)
]

verify_credentials-Kept :
    (h : Hashing) (username password : String) (st : Store)
    → Kept st (verify_credentials h username password st).0
unfolding verify_credentials
verify_credentials-Kept h username password st =
    elim (Option-cases (find (λ (r : UserRow). str_eq r.user.username username) st.users)) [
      | inl unknown ↦ (ground arith, ground arith)
      | inr (row, found) ↦ (
        ground (arith, migrate-Kept h password row st),
        ground (arith, migrate-Kept h password row st),
      )
    ]

login-Kept : (env : Env) (req : Request) (st : Store) → Kept st (login env req st).0
unfolding login create_session
login-Kept env req st = elim (Option-cases req.body) [
  | inl bad ↦ rw (bad, login) (refl, refl)
  | inr (p, read) ↦ elim (Option-cases p.username) [
    | inl missing ↦ rw (read, missing, login) (refl, refl)
    | inr (username, named) ↦ elim (Option-cases p.password) [
      | inl missing ↦ rw (read, named, missing, login) (refl, refl)
      | inr (password, given) ↦
          let kept = verify_credentials-Kept env.hashing username password st in
          (ground (arith, kept), ground (arith, kept))
    ]
  ]
]

pub auth-Kept : (env : Env) (req : Request) (st : Store) → Kept st (auth env req st).0
unfolding auth logout me find_session_by_token delete_session
auth-Kept env req st =
    (ground (arith, login-Kept env req st), ground (arith, login-Kept env req st))

find_session-Kept :
    (token : String) (now : ℕ) (st : Store) → Kept st (find_session_by_token token now st).0
unfolding find_session_by_token delete_session
find_session-Kept token now st = (ground arith, ground arith)

pub with_session_user-Kept :
    (now : ℕ) (req : Request) (st : Store) → Kept st (with_session_user now req st).0
unfolding with_session_user find_session_by_token delete_session
with_session_user-Kept now req st = (ground arith, ground arith)

pub users-Kept :
    (env : Env) (req : Request) (st : Store) → is_admin req st ≡ false → (users env req st).0 ≡ st
unfolding users
users-Kept env req st plain = ground arith

playlists-accounts :
    (env : Env) (req : Request) (st : Store) → (playlists env req st).0.users ≡ st.users
unfolding playlists add_playlist change_playlist remove_playlist create_playlist update_playlist
    delete_playlist
playlists-accounts env req st = ground arith

pub settings-Kept : (env : Env) (req : Request) (st : Store) → Kept st (user_settings env req st).0
unfolding user_settings update_user_settings
settings-Kept env req st = (ground arith, ground arith)

-- What holds once the session is read, and after the handler, holds after an authenticated request.
module _ {κ} (P : Store → Type κ) (handler : Env → Request → Store → Outcome) where
  pub authenticated_holds :
      (env : Env) (req : Request) (st : Store)
      → P (with_session_user env.now req st).0
      → ((r : Request)
          → (with_session_user env.now req st).1 ≡ some r
          → P (handler env r (with_session_user env.now req st).0).0)
      → P (authenticated handler env req st).0
  unfolding authenticated
  authenticated_holds env req st read run =
      elim (Option-cases (with_session_user env.now req st).1) [
        | inl refused ↦ rw (refused, authenticated) read
        | inr (r, found) ↦ rw (found, authenticated) (run r found)
      ]

pub by_admin_found :
    (env : Env) (req r : Request) (st : Store)
    → (with_session_user env.now req st).1 ≡ some r
    → by_admin env req st ≡ is_admin r (with_session_user env.now req st).0
by_admin_found env req r st found = ground (arith, found)

-- No request but an administrator's changes who has an account, under which name, or who is an
-- administrator: not at the login, nor through playlists, settings or users.
pub accounts-api :
    (m : Mount) (env : Env) (req : Request) (st : Store)
    → by_admin env req st ≡ false
    → accounts (api m env req st).0.users ≡ accounts st.users
unfolding api
accounts-api api_auth env req st plain = (auth-Kept env req st).0
accounts-api api_users env req st plain =
    let read = (with_session_user-Kept env.now req st).0 in
    authenticated_holds (λ s. accounts s.users ≡ accounts st.users) users env req st read
      (λ r found.
        ap (λ s. accounts s.users)
          (users-Kept env r (with_session_user env.now req st).0
            (sym (by_admin_found env req r st found) ∙ plain))
        ∙ read)
accounts-api api_playlists env req st plain =
    let read = (with_session_user-Kept env.now req st).0 in
    authenticated_holds (λ s. accounts s.users ≡ accounts st.users) playlists env req st read
      (λ r found.
        ap accounts (playlists-accounts env r (with_session_user env.now req st).0) ∙ read)
accounts-api api_settings env req st plain =
    let read = (with_session_user-Kept env.now req st).0 in
    authenticated_holds (λ s. accounts s.users ≡ accounts st.users) user_settings env req st read
      (λ r found. (settings-Kept env r (with_session_user env.now req st).0).0 ∙ read)
