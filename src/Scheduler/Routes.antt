-- ===== src/Scheduler/Routes.antt =====
-- The routes of recordings (api/recordings.rs). The body of a creation is read by serde_json and
-- its dates by `parse_zoned_date`: a date is none where it has no zone. What a row is enriched with
-- is left out; `within` is `resolve_within` of the folder of recordings, over texts.
pub mod Passes
pub mod Spared
pub mod Twins
use xtremflow.Base.{
  ℕ, ◌-◌, String, Bool, true, false, not, ◌&&◌, ◌||◌, Option, none, some, List, [], ◌∷◌,
  if◌then◌else◌, str_eq, leb, ltb, filter, hours, or_option, ℤ, pos_part, contains_key, unwrap_or,
}
use xtremflow.Accounts.{User, UserRow, Store}
use xtremflow.Accounts.Selection.{Choice, scoped_playlist_id}
use xtremflow.Recordings.{
  Recording, Table, Status, is_scheduled, is_recording, new_recording, create_recording,
  get_recording_by_id, get_user_recordings, by_start, set_recording_playlist,
}
use xtremflow.SeasonPass.{Texts, stream_url_for_playlist}
use xtremflow.Scheduler.{State}
use xtremflow.Scheduler.Steps.{api_stop, api_delete}

-- What a creation asks for.
pub record Fields : Type 0 where
  pub channel_id : Option String
  pub stream_url : Option String
  pub title : Option String
  pub start_time : Option ℕ
  pub end_time : Option ℕ

pub record Req : Type 0 where
  pub method : String
  pub segments : List String
  pub user : Option User
  pub user_id : Option String
  pub choice : Choice
  pub body : Option Fields

-- What a request meets: the clock, a fresh identifier, the accounts, the limit of hours, the guard
-- of addresses, the files and the libraries.
pub record Host : Type 0 where
  pub now : ℕ
  pub new_id : String
  pub store : Store
  pub max_hours : ℤ
  pub check_stream_url : String → Option String
  pub log_path : String → String
  pub within : String → Option String
  pub read : String → Option String
  pub trim : String → String
  pub by_name : List UserRow → List UserRow
  pub texts : Texts

pub data Content : Type 0 where
  error done : Content
  listed : List Recording → Content
  created : Recording → Content
  log : String → Content

abbrev pub Outcome : Type 0
Outcome = State × (ℕ × Content)

abbrev pub can_access : Option User → Recording → Bool
can_access none r = false
can_access (some u) r = u.is_admin || str_eq r.user_id u.id

abbrev pub scope : Host → Req → Option String
scope host req = scoped_playlist_id host.trim host.by_name req.user req.choice host.store

-- The rows that the sender may see.
abbrev pub visible : Option User → Table → List Recording
visible none rows = by_start rows
visible (some u) rows = if u.is_admin then by_start rows else get_user_recordings u.id rows

abbrev pub is_of : String → Option String → Bool
is_of pid none = false
is_of pid (some own) = str_eq own pid

abbrev pub in_scope : Option String → List Recording → List Recording
in_scope none rows = rows
in_scope (some pid) rows = filter (λ r. is_of pid r.playlist_id) rows

unfoldable pub list_recordings : Host → Req → State → Outcome
list_recordings host req st =
    (st, (200, listed (in_scope (scope host req) (visible req.user st.db))))

-- What stands in the log beside the file.
abbrev pub log_of : Host → Option String → ℕ × Content
log_of host none = (404, error)
log_of host (some path) = elim (host.within (host.log_path path)) [
  | none ↦ (403, error)
  | some safe ↦ elim (host.read safe) [ none ↦ (404, error) | some text ↦ (200, log text) ]
]

-- The lookup and the check of access that the routes of one recording begin with.
abbrev pub with_access : Req → String → State → (Recording → Outcome) → Outcome
with_access req id st go = elim (get_recording_by_id id st.db) [
  | none ↦ (st, (404, error))
  | some r ↦ if not (can_access req.user r) then (st, (403, error)) else go r
]

unfoldable pub logs : Host → Req → String → State → Outcome
logs host req id st = with_access req id st (λ r. (st, log_of host r.file_path))

unfoldable pub delete : Req → String → State → Outcome
delete req id st = with_access req id st (λ r. (api_delete id st, (200, done)))

unfoldable pub stop : Host → Req → String → State → Outcome
stop host req id st = with_access req id st (λ r. (api_stop id host.now st, (200, done)))

abbrev pub sender : Req → Option String
sender req = elim req.user [ none ↦ req.user_id | some u ↦ some u.id ]

abbrev pub url_in : Texts → Option String → String → String
url_in texts none url = url
url_in texts (some pid) url = stream_url_for_playlist texts url pid

abbrev pub attached : Option String → Recording → Recording
attached none r = r
attached (some pid) r = record r { playlist_id = some pid }

abbrev pub attach : Option String → String → Table → Table
attach none id rows = rows
attach (some pid) id rows = set_recording_playlist id pid rows

-- The insertion, once the request has passed its checks.
unfoldable pub insert_recording :
    Host → Option String → String → String → String → String → ℕ → ℕ → State → Outcome
insert_recording host pid user_id channel_id stream_url title start end_at st =
    let r =
      new_recording host.new_id user_id channel_id (url_in host.texts pid stream_url) title start
        end_at host.now in
    (
      record st { db = attach pid host.new_id (create_recording r st.db) },
      (200, created (attached pid r)),
    )

-- `create`; the default title is "Sans Titre".
unfoldable pub create : Host → Req → State → Outcome
unfolding insert_recording
create host req st = elim (sender req) [
  | none ↦ (st, (401, error))
  | some user_id ↦ elim req.body [
    | none ↦ (st, (400, error))
    | some fields ↦
        let channel_id = unwrap_or fields.channel_id "" in
        let stream_url = unwrap_or fields.stream_url "" in
        if str_eq channel_id ""
        then (st, (400, error))
        else if str_eq stream_url ""
        then (st, (400, error))
        else elim (host.check_stream_url stream_url) [
          | some e ↦ (st, (400, error))
          | none ↦ elim fields.start_time [
            | none ↦ (st, (400, error))
            | some start ↦ elim fields.end_time [
              | none ↦ (st, (400, error))
              | some end_at ↦
                  if leb end_at start
                  then (st, (400, error))
                  else if ltb (hours (pos_part host.max_hours)) (end_at - start)
                  then (st, (400, error))
                  else insert_recording host (scope host req) user_id channel_id stream_url
                      (unwrap_or fields.title "Sans Titre") start end_at st
            ]
          ]
        ]
  ]
]

abbrev pub is_read : String → Bool
is_read method = str_eq method "GET" || str_eq method "HEAD"

unfoldable pub route : Host → Req → State → List String → Outcome
unfolding list_recordings logs delete stop create
route host req st [] =
    if is_read req.method
    then list_recordings host req st
    else if str_eq req.method "POST"
    then create host req st
    else (st, (404, error))
route host req st (first ∷ []) =
    if str_eq req.method "DELETE" then delete req first st else (st, (404, error))
route host req st (first ∷ second ∷ []) =
    if str_eq req.method "POST" && str_eq first "stop"
    then stop host req second st
    else if is_read req.method && str_eq first "logs"
    then logs host req second st
    else (st, (404, error))
route host req st (first ∷ second ∷ third ∷ rest) = (st, (404, error))

abbrev pub recordings : Host → Req → State → Outcome
recordings host req st = route host req st req.segments
