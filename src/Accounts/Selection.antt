-- ===== src/Accounts/Selection.antt =====
-- The playlist that a request works on (state.rs, `get_playlist` and `scoped_playlist_id`). `trim`
-- is that of the standard library.
use xtremflow.Base.{
  ◌≡◌, inl, inr, String, Bool, true, false, ◌||◌, Option, none, some, List, [], ◌∷◌, arith,
  if◌then◌else◌, str_eq, Bool-cases, Option-cases, filter, find, All, Among, All-Among, All-filter,
  some-value, some-ne-none, sym, All-append, All-sort_by_key, or_option,
}
use xtremflow.Slots.Limits.{PlaylistConfig}
use xtremflow.Accounts.{
  User, UserRow, Playlist, Store, get_playlists, get_playlist_by_id, newest_first,
}

-- The playlist that the client asks for, in the URL and in the header.
pub record Choice : Type 0 where
  pub in_query : Option String
  pub in_header : Option String

abbrev not_blank : (String → String) → Option String → Option String
not_blank trim none = none
not_blank trim (some s) = if str_eq (trim s) "" then none else some s

-- `requested`
unfoldable pub requested : (String → String) → Choice → Option String
requested trim c = not_blank trim (or_option (not_blank trim c.in_query) c.in_header)

-- `From<Playlist>`
abbrev pub config_of : Playlist → PlaylistConfig
config_of p = record { id = p.id; dns = p.server_url; username = p.username; password = p.password }

abbrev pub is_allowed : Option User → Playlist → Bool
is_allowed none p = true
is_allowed (some u) p = u.is_admin || str_eq p.user_id u.id

abbrev first {ℓ} : {A : Type ℓ} → List A → Option A
first [] = none
first (x ∷ xs) = some x

-- The most recent playlist of the user, or of the first user by name.
unfoldable pub default_playlist :
    (List UserRow → List UserRow) → Option User → Store → Option Playlist
default_playlist by_name (some u) st = first (get_playlists u.id st)
default_playlist by_name none st = elim (first (by_name st.users)) [
  | none ↦ none
  | some r ↦ first (get_playlists r.user.id st)
]

-- The playlist asked for, where it is there and allowed.
unfoldable pub chosen_playlist : (String → String) → Option User → Choice → Store → Option Playlist
unfolding requested
chosen_playlist trim user c st = elim (requested trim c) [
  | none ↦ none
  | some id ↦ elim (get_playlist_by_id (trim id) st) [
    | none ↦ none
    | some p ↦ if is_allowed user p then some p else none
  ]
]

-- `by_name` is the order of `get_all_users`.
unfoldable pub get_playlist :
    (String → String)
    → (List UserRow → List UserRow)
    → Option User
    → Choice
    → Store
    → Option Playlist
unfolding chosen_playlist default_playlist
get_playlist trim by_name user c st =
    or_option (chosen_playlist trim user c st) (default_playlist by_name user st)

unfoldable pub scoped_playlist_id :
    (String → String) → (List UserRow → List UserRow) → Option User → Choice → Store → Option String
unfolding get_playlist
scoped_playlist_id trim by_name user c st = elim (get_playlist trim by_name user c st) [
  | none ↦ none
  | some p ↦ if str_eq p.id "" then none else some p.id
]

abbrev Owns : String → Playlist → Type 0
Owns id p = str_eq p.user_id id ≡ true

newest_first-All : (P : Playlist → Type 0) (ps : List Playlist) → All P ps → All P (newest_first ps)
newest_first-All P [] a = tt
newest_first-All P (p ∷ ps) (h, a) =
    All-append P (newest_first ps) (p ∷ []) (newest_first-All P ps a) (h, tt)

kept_only : (q : Playlist → Bool) (ps : List Playlist) → All (λ p. q p ≡ true) (filter q ps)
kept_only q [] = tt
kept_only q (p ∷ ps) = elim (Bool-cases (q p)) [
  | inl own ↦ rw own (own, kept_only q ps)
  | inr other ↦ rw other (kept_only q ps)
]

get_playlists-Owns : (id : String) (st : Store) → All (Owns id) (get_playlists id st)
unfolding get_playlists
get_playlists-Owns id st = newest_first-All (Owns id) _ (
    All-sort_by_key (λ (p : Playlist). p.created_at) (Owns id) _
      (kept_only (λ (p : Playlist). str_eq p.user_id id) st.playlists))

first-Owns :
    (id : String) (ps : List Playlist) (p : Playlist)
    → All (Owns id) ps
    → first ps ≡ some p
    → Owns id p
first-Owns id [] p a e = cc
first-Owns id (q ∷ ps) p (h, a) e = ground arith

module _ (P : Playlist → Type 0) where
  get_playlists-All : (id : String) (st : Store) → All P st.playlists → All P (get_playlists id st)
  unfolding get_playlists
  get_playlists-All id st all =
      newest_first-All P _
        (All-sort_by_key (λ (p : Playlist). p.created_at) P _ (All-filter P _ st.playlists all))

  first-All : (ps : List Playlist) (p : Playlist) → All P ps → first ps ≡ some p → P p
  first-All [] p all e = absurd (some-ne-none (sym e))
  first-All (q ∷ ps) p (h, all) e = rw (← some-value e) h

  find-All :
      (test : Playlist → Bool) (ps : List Playlist) (p : Playlist)
      → All P ps
      → find test ps ≡ some p
      → P p
  find-All test [] p all e = absurd (some-ne-none (sym e))
  find-All test (q ∷ ps) p (h, all) e = elim (Bool-cases (test q)) [
    | inl passes ↦ rw (← some-value (rw passes at e)) h
    | inr fails ↦ find-All test ps p all (rw fails at e)
  ]

-- The playlist that a user gets is one of the table.
pub get_playlist-Among :
    (trim : String → String) (by_name : List UserRow → List UserRow) (u : User) (c : Choice)
    (st : Store) (p : Playlist)
    → get_playlist trim by_name (some u) c st ≡ some p
    → Among p st.playlists
unfolding get_playlist chosen_playlist default_playlist get_playlist_by_id
get_playlist-Among trim by_name u c st p e =
    let stored = All-Among st.playlists in
    elim (Option-cases (chosen_playlist trim (some u) c st)) [
      | inl fallback ↦
          first-All _ (get_playlists u.id st) p (get_playlists-All _ u.id st stored)
            (ground (arith, e, fallback))
      | inr (q, chosen) ↦ elim (Option-cases (requested trim c)) [
        | inl blank ↦ ground (arith, chosen, blank)
        | inr (id, asked) ↦
            let found : get_playlist_by_id (trim id) st ≡ some p =
              ground (arith, e, chosen, asked) in
            find-All _ _ st.playlists p stored found
      ]
    ]

-- A user who is no administrator gets only a playlist of its own, whatever identifier the request
-- names.
pub get_playlist-Owned :
    (trim : String → String) (by_name : List UserRow → List UserRow) (u : User) (c : Choice)
    (st : Store) (p : Playlist)
    → u.is_admin ≡ false
    → get_playlist trim by_name (some u) c st ≡ some p
    → str_eq p.user_id u.id ≡ true
unfolding get_playlist chosen_playlist default_playlist
get_playlist-Owned trim by_name u c st p plain e =
    elim (Option-cases (chosen_playlist trim (some u) c st)) [
      | inl fallback ↦
          first-Owns u.id (get_playlists u.id st) p (get_playlists-Owns u.id st) (ground arith)
      | inr (q, chosen) ↦ ground arith
    ]
