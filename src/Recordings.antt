-- ===== src/Recordings.antt =====
-- Recordings (models.rs, `Recording`) and their table (db.rs, `tv_recordings`).
-- A row's dates are the instants that its texts stand for (`start_utc`, `end_utc`), and the
-- statements that compare or sort the texts are taken to compare the instants.
-- `error_reason` keeps what the message says instead of its French wording. A statement of SQL
-- that fails changes nothing and is not modelled.
pub mod Laws
use xtremflow.Base.{
  ℕ, ◌+◌, ◌-◌, ◌≡◌, String, Bool, true, false, not, ◌&&◌, ◌||◌, Option, none, some, List, [], ◌∷◌,
  ◌++◌, map, if◌then◌else◌, str_eq, leb, filter, find, sort_by_key, or_option,
}
use xtremflow.Decision.{MissCause}

-- The words that the column `status` holds.
pub data Status : Type 0 where
  scheduled recording completed failed cancelled : Status
  other_status : String → Status

-- Why a recording failed, or what a completed one lacks.
pub data Reason : Type 0 where
  missed : MissCause → ℕ → ℕ → Reason
  launch_error : String → Reason
  disk_full : ℕ → ℕ → Reason
  not_writable : String → Reason
  partial_file : Reason
  interrupted : Reason
  no_data : Option String → Reason
  kept_as_ts : Reason

pub record Recording : Type 0 where
  pub id : String
  pub user_id : String
  pub channel_id : String
  pub stream_url : String
  pub title : String
  pub start_time : ℕ
  pub end_time : ℕ
  pub status : Status
  pub file_path : Option String
  pub error_reason : Option Reason
  pub source_rule_id : Option String
  pub playlist_id : Option String
  pub created_at : ℕ
  pub updated_at : ℕ

abbrev pub Table : Type 0
Table = List Recording

abbrev pub is_scheduled : Status → Bool
is_scheduled scheduled = true
is_scheduled _ = false

abbrev pub is_recording : Status → Bool
is_recording recording = true
is_recording _ = false

abbrev pub is_completed : Status → Bool
is_completed completed = true
is_completed _ = false

abbrev pub is_pending : Status → Bool
is_pending scheduled = true
is_pending recording = true
is_pending _ = false

abbrev pub is_finished : Status → Bool
is_finished completed = true
is_finished failed = true
is_finished cancelled = true
is_finished _ = false

abbrev pub has_id : String → Recording → Bool
has_id id r = str_eq r.id id

-- The row that `create_recording` inserts; the identifier is drawn by the caller (UUID v4).
unfoldable pub new_recording : String → String → String → String → String → ℕ → ℕ → ℕ → Recording
new_recording id user_id channel_id stream_url title start end_at now = record {
  id = id;
  user_id = user_id;
  channel_id = channel_id;
  stream_url = stream_url;
  title = title;
  start_time = start;
  end_time = end_at;
  status = scheduled;
  file_path = none;
  error_reason = none;
  source_rule_id = none;
  playlist_id = none;
  created_at = now;
  updated_at = now;
}

unfoldable pub create_recording : Recording → Table → Table
create_recording r rows = rows ++ r ∷ []

abbrev pub by_start : List Recording → List Recording
by_start = sort_by_key (λ r. r.start_time)

unfoldable pub get_pending_recordings : Table → List Recording
get_pending_recordings rows = by_start (filter (λ r. is_pending r.status) rows)

unfoldable pub get_finished_recordings_oldest_first : Table → List Recording
get_finished_recordings_oldest_first rows = by_start (filter (λ r. is_finished r.status) rows)

unfoldable pub get_user_recordings : String → Table → List Recording
get_user_recordings user rows = by_start (filter (λ r. str_eq r.user_id user) rows)

unfoldable pub get_recording_by_id : String → Table → Option Recording
get_recording_by_id id rows = find (has_id id) rows

-- `UPDATE … WHERE id = ?`
unfoldable pub update_where : String → (Recording → Recording) → Table → Table
update_where id f [] = []
update_where id f (r ∷ rows) = (if has_id id r then f r else r) ∷ update_where id f rows

abbrev pub with_status : Status → Option String → Option Reason → Bool → ℕ → Recording → Recording
with_status status file_path error_reason clear_error now r = record r {
  status = status;
  file_path = or_option file_path r.file_path;
  error_reason = if clear_error then error_reason else or_option error_reason r.error_reason;
  updated_at = now;
}

unfoldable pub update_recording_status :
    String → Status → Option String → Option Reason → Bool → ℕ → Table → Table
unfolding update_where
update_recording_status id status file_path error_reason clear_error now =
    update_where id (with_status status file_path error_reason clear_error now)

unfoldable pub update_recording_window : String → ℕ → ℕ → ℕ → Table → Table
unfolding update_where
update_recording_window id start end_at now =
    update_where id (λ r. record r { start_time = start; end_time = end_at; updated_at = now })

unfoldable pub set_recording_source : String → String → Table → Table
unfolding update_where
set_recording_source id rule = update_where id (λ r. record r { source_rule_id = some rule })

unfoldable pub set_recording_playlist : String → String → Table → Table
unfolding update_where
set_recording_playlist id playlist = update_where id (λ r. record r { playlist_id = some playlist })

-- `DELETE … WHERE id = ?`
unfoldable pub delete_recording : String → Table → Table
delete_recording id rows = filter (λ r. not (has_id id r)) rows

abbrev pub is_dropped : Status → Bool
is_dropped failed = true
is_dropped cancelled = true
is_dropped _ = false

-- `lower` is SQLite's LOWER.
unfoldable pub find_recording_for_episode :
    (String → String) → String → ℕ → ℕ → Table → Option Recording
find_recording_for_episode lower title start tolerance rows =
    find
      (λ r.
        str_eq (lower r.title) (lower title)
        && (leb (start - tolerance) r.start_time && leb r.start_time (start + tolerance))
        && not (is_dropped r.status))
      rows
