-- ===== src/Accounts/Owned.antt =====
-- The playlists of an account that did not send the request.
use xtremflow.Base.{
  ℕ, ◌≡◌, refl, sym, ap, ◌∙◌, ◌⊎◌, inl, inr, String, Bool, true, false, not, Option, none, some,
  List, [], ◌∷◌, arith, str_eq, str_eq_iff, Bool-cases, Option-cases, All, All-map, filter, find,
  some-value, subst,
}
use xtremflow.Accounts.{
  Playlist, Store, update_playlist_where, update_playlist, delete_playlist, create_playlist,
  get_playlist_by_id, with_fields, Fields,
}
use xtremflow.Accounts.Requests.{
  Env, Request, users, playlists, user_settings, add_playlist, change_playlist, changed_fields,
  remove_playlist, with_session_user, Mount, api_auth, api_users, api_playlists, api_settings, api,
}
use xtremflow.Accounts.Laws.{
  by_admin, authenticated_holds, auth-Kept, settings-Kept, users-Kept, with_session_user-Kept,
  by_admin_found,
}

-- The playlists of an owner.
abbrev pub owned : String → List Playlist → List Playlist
owned owner = filter (λ (p : Playlist). str_eq p.user_id owner)

-- No identifier of a playlist stands twice (its primary key).
abbrev pub UniqueIds : List Playlist → Type 0
UniqueIds [] = Unit
UniqueIds (p ∷ ps) = All (λ (q : Playlist). str_eq q.id p.id ≡ false) ps × UniqueIds ps

-- Every playlist with the identifier is another owner's.
abbrev OthersOnly : String → String → List Playlist → Type 0
OthersOnly owner id = All (λ (p : Playlist). str_eq p.id id ≡ true → str_eq p.user_id owner ≡ false)

owned-update :
    (owner id : String) (f : Fields) (now : ℕ) (ps : List Playlist)
    → OthersOnly owner id ps
    → owned owner (update_playlist_where id (with_fields f now) ps) ≡ owned owner ps
unfolding update_playlist_where
owned-update owner id f now [] o = refl
owned-update owner id f now (p ∷ ps) (o, os) = ground (arith, owned-update owner id f now ps os)

owned-delete :
    (owner id : String) (ps : List Playlist)
    → OthersOnly owner id ps
    → owned owner (filter (λ (p : Playlist). not (str_eq p.id id)) ps) ≡ owned owner ps
owned-delete owner id [] o = refl
owned-delete owner id (p ∷ ps) (o, os) = ground (arith, owned-delete owner id ps os)

clash : {b : Bool} → b ≡ false → b ≡ true → ⊥
clash e f = cc

OthersOnly-of_get :
    (owner id : String) (old : Playlist) (ps : List Playlist)
    → UniqueIds ps
    → find (λ (p : Playlist). str_eq p.id id) ps ≡ some old
    → str_eq old.user_id owner ≡ false
    → OthersOnly owner id ps
OthersOnly-of_get owner id old [] u e other = tt
OthersOnly-of_get owner id old (p ∷ ps) (new, u) e other = elim (Bool-cases (str_eq p.id id)) [
  | inl same ↦
      let here : p ≡ old = some-value (rw same at e) in
      let key : p.id ≡ id = (str_eq_iff _ _).0 same in
      (λ _. rw here other, All-map _ _ (λ q ne same'. absurd (clash (rw key at ne) same')) ps new)
  | inr ne ↦
      (λ same. absurd (clash ne same), OthersOnly-of_get owner id old ps u (rw ne at e) other)
]

not_owner :
    (a b owner : String) → str_eq a b ≡ true → str_eq b owner ≡ false → str_eq a owner ≡ false
not_owner a b owner e ne = rw ((str_eq_iff a b).0 e) ne

owned-change_playlist :
    (env : Env) (req : Request) (user_id id owner : String) (st : Store)
    → UniqueIds st.playlists
    → str_eq user_id owner ≡ false
    → owned owner (change_playlist env req user_id id st).0.playlists ≡ owned owner st.playlists
unfolding change_playlist get_playlist_by_id update_playlist
owned-change_playlist env req user_id id owner st u other =
    elim (Option-cases (find (λ (p : Playlist). str_eq p.id id) st.playlists)) [
      | inl gone ↦ ground arith
      | inr (old, found) ↦ elim (Bool-cases (str_eq old.user_id user_id)) [
        | inr foreign ↦ ground arith
        | inl own ↦
            let others =
              OthersOnly-of_get owner id old st.playlists u found
                (not_owner old.user_id user_id owner own other) in
            elim (Option-cases req.body) [
              | inl bad ↦ ground arith
              | inr (p, read) ↦
                  ground (
                    arith,
                    owned-update owner id (changed_fields p old) env.now st.playlists others,
                  )
            ]
      ]
    ]

owned-remove_playlist :
    (user_id id owner : String) (st : Store)
    → UniqueIds st.playlists
    → str_eq user_id owner ≡ false
    → owned owner (remove_playlist user_id id st).0.playlists ≡ owned owner st.playlists
unfolding remove_playlist get_playlist_by_id delete_playlist
owned-remove_playlist user_id id owner st u other =
    elim (Option-cases (find (λ (p : Playlist). str_eq p.id id) st.playlists)) [
      | inl gone ↦ ground arith
      | inr (old, found) ↦ elim (Bool-cases (str_eq old.user_id user_id)) [
        | inr foreign ↦ ground arith
        | inl own ↦
            let others =
              OthersOnly-of_get owner id old st.playlists u found
                (not_owner old.user_id user_id owner own other) in
            ground (arith, owned-delete owner id st.playlists others)
      ]
    ]

owned-add_playlist :
    (env : Env) (req : Request) (user_id owner : String) (st : Store)
    → str_eq user_id owner ≡ false
    → owned owner (add_playlist env req user_id st).0.playlists ≡ owned owner st.playlists
unfolding add_playlist create_playlist
owned-add_playlist env req user_id owner st other = ground arith

List-cases {ℓ} : {A : Type ℓ} (xs : List A) → (xs ≡ []) ⊎ ((x : A) × (ys : List A) × (xs ≡ x ∷ ys))
List-cases [] = inl refl
List-cases (x ∷ ys) = inr (x, ys, refl)

owned-playlists :
    (env : Env) (req : Request) (owner : String) (st : Store)
    → UniqueIds st.playlists
    → ((id : String) → req.user_id ≡ some id → str_eq id owner ≡ false)
    → owned owner (playlists env req st).0.playlists ≡ owned owner st.playlists
unfolding playlists
owned-playlists env req owner st u other = elim (Option-cases req.user_id) [
  | inl nobody ↦ rw (nobody, playlists)
  | inr (user, known) ↦
      let ne = other user known in
      elim (List-cases req.segments) [
        | inl all ↦ ground (arith, owned-add_playlist env req user owner st ne)
        | inr (id, more, one) ↦ ground (
          arith,
          owned-change_playlist env req user id owner st u ne,
          owned-remove_playlist user id owner st u ne,
        )
      ]
]

-- Who sends the request, by its session.
abbrev pub sender : Env → Request → Store → Option String
sender env req st = elim (with_session_user env.now req st).1 [ none ↦ none | some r ↦ r.user_id ]

-- A request leaves the playlists of everyone but its sender as they are, unless an administrator
-- sends it; the sender can neither add, change nor delete another's.
pub owned-api :
    (m : Mount) (env : Env) (req : Request) (st : Store) (owner : String)
    → UniqueIds st.playlists
    → by_admin env req st ≡ false
    → ((id : String) → sender env req st ≡ some id → str_eq id owner ≡ false)
    → owned owner (api m env req st).0.playlists ≡ owned owner st.playlists
unfolding api
owned-api api_auth env req st owner u plain other = ap (owned owner) (auth-Kept env req st).1
owned-api api_users env req st owner u plain other =
    let read = ap (owned owner) (with_session_user-Kept env.now req st).1 in
    authenticated_holds (λ s. owned owner s.playlists ≡ owned owner st.playlists) users env req st
      read
      (λ r found.
        ap (λ s. owned owner s.playlists)
          (users-Kept env r (with_session_user env.now req st).0
            (sym (by_admin_found env req r st found) ∙ plain))
        ∙ read)
owned-api api_playlists env req st owner u plain other =
    let kept = (with_session_user-Kept env.now req st).1 in
    authenticated_holds (λ s. owned owner s.playlists ≡ owned owner st.playlists) playlists env req
      st (ap (owned owner) kept)
      (λ r found.
        owned-playlists env r owner (with_session_user env.now req st).0
          (subst UniqueIds (sym kept) u) (λ id own. other id (ground arith))
        ∙ ap (owned owner) kept)
owned-api api_settings env req st owner u plain other =
    let read = ap (owned owner) (with_session_user-Kept env.now req st).1 in
    authenticated_holds (λ s. owned owner s.playlists ≡ owned owner st.playlists) user_settings env
      req st read
      (λ r found.
        ap (owned owner) (settings-Kept env r (with_session_user env.now req st).0).1 ∙ read)
