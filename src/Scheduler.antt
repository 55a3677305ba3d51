-- ===== src/Scheduler.antt =====
-- The recording scheduler (services/recording_scheduler.rs): its state, and what its parts and
-- the routes of api/recordings.rs do to it. A round, the end of a capture and a closing are each
-- one step; logs, process handles and file deletions have no place in the state.
pub mod Start
pub mod Tick
pub mod Finalize
pub mod Steps
pub mod Routes
use xtremflow.Base.{
  ℕ, ◌+◌, String, Bool, true, false, not, ◌||◌, Option, none, some, List, [], ◌∷◌, map,
  if◌then◌else◌, is_some, is_none, or_option, Map, lookup, insert, remove, values, contains_key,
  length, ℤ,
}
use xtremflow.Recordings.{Recording, Table}

pub data StopReason : Type 0 where
  window user shutdown discard : StopReason

-- A capture under way (`ActiveRecording` with its `ActiveState`); `notified` is the permit that
-- `stop.notify_one()` leaves for the capture loop.
pub record Active : Type 0 where
  pub recording : Recording
  pub capture_path : String
  pub consecutive_failures : ℕ
  pub last_cut : Option String
  pub stop_reason : Option StopReason
  pub notified : Bool

-- A capture being closed: a member of `finalizing`, with what its task was given.
pub record Closing : Type 0 where
  pub recording : Recording
  pub capture_path : String
  pub last_cut : Option String

pub record State : Type 0 where
  pub db : Table
  pub active : Map Active
  pub waiting : Map (List String)
  pub finalizing : Map Closing
  pub last_tick : Option ℕ
  pub max_concurrent : ℕ
  pub min_free_disk_mb : ℤ
  pub recordings_quota_gb : ℤ

-- What the clock, the file system, the resolver and FFmpeg answer during a step.
pub record Env : Type 0 where
  pub now : ℕ
  pub check_stream_url : String → Option String
  pub make_dir : Option String
  pub dir_bytes : ℕ
  pub files_bytes : String → ℕ
  pub free_disk : Option ℕ
  pub write_error : Option String
  pub fresh_path : Recording → String
  pub is_capture : String → Bool
  pub exists : String → Bool
  pub has_data : String → Bool
  pub mkv_of : String → String
  pub remux : String → Option String

unfoldable pub is_capturing : String → State → Bool
is_capturing id st = contains_key id st.active || contains_key id st.finalizing

-- The first reason stands; the loop is woken each time.
abbrev pub asked_to_stop : StopReason → Active → Active
asked_to_stop reason a = record a {
  stop_reason = or_option a.stop_reason (some reason);
  notified = true;
}

-- The capture with the identifier, if it is active, is asked to stop.
unfoldable pub stop_active_recording : String → StopReason → State → State
stop_active_recording id reason st = elim (lookup id st.active) [
  | none ↦ st
  | some a ↦ record st { active = insert id (asked_to_stop reason a) st.active }
]

-- `stop_recording`: whether a capture was active.
unfoldable pub stop_recording : String → State → State × Bool
unfolding stop_active_recording
stop_recording id st = (stop_active_recording id user st, contains_key id st.active)

unfoldable pub discard_recording : String → State → State
unfolding stop_active_recording
discard_recording id st = stop_active_recording id discard st

-- `shutdown`, for the identifiers of the captures under way.
unfoldable pub stop_all : List String → State → State
unfolding stop_active_recording
stop_all [] st = st
stop_all (id ∷ ids) st = stop_all ids (stop_active_recording id shutdown st)

abbrev pub titles : Map Active → List String
titles active = map (λ (a : Active). a.recording.title) (values active)
