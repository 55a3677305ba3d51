-- ===== src/Scheduler/Routes/Passes.antt =====
-- The routes of season passes (api/recordings.rs, `season_passes` and `create_pass`) and their
-- table (db.rs, `season_passes`). The order of the rows is taken where a list is served; the test
-- for a duplicate does not depend on it. `check_syntax` is the guard's look at an address.
use xtremflow.Base.{
  ℕ, String, Bool, true, false, not, ◌&&◌, ◌||◌, Option, none, some, List, [], ◌∷◌, ◌++◌, map,
  if◌then◌else◌, str_eq, filter, any, find, sort_by_key,
}
use xtremflow.Accounts.{User}
use xtremflow.Accounts.Selection.{Choice, scoped_playlist_id}
use xtremflow.Scheduler.Routes.{Host, is_of, url_in, is_read}

pub record PassRow : Type 0 where
  pub id : String
  pub user_id : String
  pub show_title : String
  pub channel_id : String
  pub stream_url : String
  pub match_mode : String
  pub enabled : Bool
  pub playlist_id : Option String
  pub created_at : ℕ

-- The body of a creation; a text that is absent reads as the empty one.
pub record PassFields : Type 0 where
  pub show_title : String
  pub channel_id : String
  pub stream_url : String
  pub match_mode : Option String

pub record PassReq : Type 0 where
  pub method : String
  pub segments : List String
  pub user : Option User
  pub choice : Choice
  pub body : Option PassFields

pub data PassContent : Type 0 where
  error done : PassContent
  listed : List PassRow → PassContent
  created : PassRow → PassContent

abbrev pub PassOutcome : Type 0
PassOutcome = List PassRow × (ℕ × PassContent)

unfoldable pub create_season_pass :
    String → String → String → String → String → String → ℕ → List PassRow → List PassRow × PassRow
create_season_pass id user_id show_title channel_id stream_url match_mode now rows =
    let row : PassRow = record {
      id = id;
      user_id = user_id;
      show_title = show_title;
      channel_id = channel_id;
      stream_url = stream_url;
      match_mode = match_mode;
      enabled = true;
      playlist_id = none;
      created_at = now;
    } in
    (rows ++ row ∷ [], row)

unfoldable pub get_all_season_passes : List PassRow → List PassRow
get_all_season_passes rows = filter (λ r. r.enabled) rows

unfoldable pub get_season_passes_for_user : String → List PassRow → List PassRow
get_season_passes_for_user user_id rows = filter (λ r. str_eq r.user_id user_id) rows

unfoldable pub get_season_pass_by_id : String → List PassRow → Option PassRow
get_season_pass_by_id id rows = find (λ r. str_eq r.id id) rows

unfoldable pub delete_season_pass : String → List PassRow → List PassRow
delete_season_pass id rows = filter (λ r. not (str_eq r.id id)) rows

abbrev pub with_playlist : String → PassRow → PassRow
with_playlist pid r = record r { playlist_id = some pid }

abbrev pub moved : String → String → PassRow → PassRow
moved id pid r = if str_eq r.id id then with_playlist pid r else r

unfoldable pub set_season_pass_playlist : String → String → List PassRow → List PassRow
set_season_pass_playlist id pid rows = map (moved id pid) rows

abbrev reversed : List PassRow → List PassRow
reversed [] = []
reversed (r ∷ rows) = reversed rows ++ r ∷ []

-- `ORDER BY created_at DESC`
abbrev pub newest : List PassRow → List PassRow
newest rows = reversed (sort_by_key (λ (r : PassRow). r.created_at) rows)

abbrev pub in_playlist : Option String → List PassRow → List PassRow
in_playlist none rows = rows
in_playlist (some pid) rows = filter (λ r. is_of pid r.playlist_id) rows

abbrev pub mode_of : Option String → String
mode_of none = "exact"
mode_of (some m) = if str_eq m "contains" then "contains" else "exact"

-- The same show on the same channel, `lower` being `to_lowercase`.
abbrev pub is_duplicate : (String → String) → String → String → PassRow → Bool
is_duplicate lower show_title channel_id r =
    str_eq (lower r.show_title) (lower show_title) && str_eq r.channel_id channel_id

abbrev pub attach_pass : Option String → String → List PassRow × PassRow → PassOutcome
attach_pass none id (rows, row) = (rows, (201, created row))
attach_pass (some pid) id (rows, row) =
    (set_season_pass_playlist id pid rows, (201, created (with_playlist pid row)))

module _ (host : Host) (check_syntax : String → Option String) where
  abbrev pub pass_scope : PassReq → Option String
  pass_scope req = scoped_playlist_id host.trim host.by_name req.user req.choice host.store

  -- The insertion, for a user and after the checks of the body.
  unfoldable pub insert_pass : Option String → PassFields → User → List PassRow → PassOutcome
  unfolding get_season_passes_for_user create_season_pass set_season_pass_playlist
  insert_pass pid f u rows =
      if any (is_duplicate host.texts.lower f.show_title f.channel_id)
        (get_season_passes_for_user u.id rows)
      then (rows, (409, error))
      else attach_pass pid host.new_id (
          create_season_pass host.new_id u.id f.show_title f.channel_id
            (url_in host.texts pid f.stream_url) (mode_of f.match_mode) host.now rows)

  unfoldable pub create_pass : PassReq → List PassRow → PassOutcome
  unfolding insert_pass
  create_pass req rows = elim req.body [
    | none ↦ (rows, (500, error))
    | some f ↦
        if str_eq f.show_title "" || (str_eq f.channel_id "" || str_eq f.stream_url "")
        then (rows, (400, error))
        else elim (check_syntax f.stream_url) [
          | some e ↦ (rows, (400, error))
          | none ↦ elim req.user [
            | none ↦ (rows, (401, error))
            | some u ↦ insert_pass (pass_scope req) f u rows
          ]
        ]
  ]

  abbrev pub may_delete : Option User → PassRow → Bool
  may_delete none r = false
  may_delete (some u) r = u.is_admin || str_eq r.user_id u.id

  unfoldable pub delete_pass : PassReq → String → List PassRow → PassOutcome
  unfolding get_season_pass_by_id delete_season_pass
  delete_pass req id rows = elim (get_season_pass_by_id id rows) [
    | none ↦ (rows, (404, error))
    | some r ↦
        if not (may_delete req.user r)
        then (rows, (403, error))
        else (delete_season_pass id rows, (200, done))
  ]

  unfoldable pub list_passes : PassReq → List PassRow → PassOutcome
  unfolding get_all_season_passes get_season_passes_for_user
  list_passes req rows = elim req.user [
    | none ↦ (rows, (401, error))
    | some u ↦
        let passes =
          if u.is_admin then get_all_season_passes rows else get_season_passes_for_user u.id rows in
        (rows, (200, listed (in_playlist (pass_scope req) (newest passes))))
  ]

  unfoldable pub pass_route : PassReq → List PassRow → List String → PassOutcome
  unfolding list_passes create_pass delete_pass
  pass_route req rows [] =
      if is_read req.method
      then list_passes req rows
      else if str_eq req.method "POST"
      then create_pass req rows
      else (rows, (404, error))
  pass_route req rows (id ∷ []) =
      if str_eq req.method "DELETE" then delete_pass req id rows else (rows, (404, error))
  pass_route req rows (a ∷ b ∷ rest) = (rows, (404, error))
