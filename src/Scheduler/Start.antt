-- ===== src/Scheduler/Start.antt =====
-- `start_recording`, `try_start_recording` and `check_disk_space_and_rotate`.
pub mod Rotation
use xtremflow.Base.{
  ℕ, ◌+◌, ◌-◌, ◌*◌, ◌/◌, ◌%◌, ◌^◌, String, Bool, true, false, not, ◌&&◌, Option, none, some, List,
  [], ◌∷◌, if◌then◌else◌, ltb, leb, is_positive, pos_part, ℤ, Map, insert, remove, lookup,
}
use xtremflow.Recordings.{
  Recording, Table, recording, completed, failed, launch_error, disk_full, not_writable, Reason,
  update_recording_status, delete_recording, get_finished_recordings_oldest_first,
}
use xtremflow.Scheduler.{State, Env, Active, is_capturing}

abbrev pub u64_mod : ℕ
u64_mod = 2 ^ 64

-- The loop of the rotation, over the finished recordings, oldest first; `total` is what the folder
-- holds by then.
unfoldable pub rotate : Env → ℕ → ℕ → List Recording → State → State
rotate env quota total [] st = st
rotate env quota total (old ∷ rest) st = elim (leb total quota) [
  | true ↦ st
  | false ↦ elim old.file_path [
    | none ↦ rotate env quota total rest st
    | some path ↦ elim (is_capturing old.id st) [
      | true ↦ rotate env quota total rest st
      | false ↦
          rotate env quota (total - env.files_bytes path) rest
            (record st { db = delete_recording old.id st.db })
    ]
  ]
]

abbrev pub quota_bytes : State → ℕ
quota_bytes st = pos_part st.recordings_quota_gb * 1_073_741_824 % u64_mod

unfoldable pub check_disk_space_and_rotate : Env → State → State
unfolding rotate
check_disk_space_and_rotate env st =
    if not (is_positive st.recordings_quota_gb)
    then st
    else if leb env.dir_bytes (quota_bytes st)
    then st
    else rotate env (quota_bytes st) env.dir_bytes (get_finished_recordings_oldest_first st.db) st

abbrev pub min_free_bytes : State → ℕ
min_free_bytes st = pos_part st.min_free_disk_mb * 1_048_576 % u64_mod

-- Whether the volume is known to be too full, with its free megabytes.
abbrev pub too_full : Env → State → Option ℕ
too_full env st = elim env.free_disk [
  | none ↦ none
  | some free ↦ if ltb free (min_free_bytes st) then some (free / 1_048_576) else none
]

-- `capture_path_for`: an interrupted capture that is still there goes on in its own file.
unfoldable pub capture_path_for : Env → Recording → Bool → String
capture_path_for env r resume = elim r.file_path [
  | none ↦ env.fresh_path r
  | some previous ↦
      if resume && (env.is_capture previous && env.exists previous)
      then previous
      else env.fresh_path r
]

abbrev pub new_active : Recording → String → Active
new_active r path = record {
  recording = r;
  capture_path = path;
  consecutive_failures = 0;
  last_cut = none;
  stop_reason = none;
  notified = false;
}

abbrev pub set_failed : String → Reason → ℕ → State → State
set_failed id reason now st = record st {
  db = update_recording_status id failed none (some reason) false now st.db;
}

-- The insertion among the active captures, and the path in the row.
unfoldable pub launch : Env → Recording → String → State → State
launch env r path st = record st {
  active = insert r.id (new_active r path) st.active;
  db = update_recording_status r.id recording (some path) none false env.now st.db;
}

pub data Attempt : Type 0 where
  attempted : State → Attempt
  broke_off : String → Attempt

-- What follows once the folder is there: rotation, the two refusals, the launch.
unfoldable pub start_in_dir : Env → Recording → Bool → State → State
unfolding check_disk_space_and_rotate capture_path_for launch
start_in_dir env r resume st =
    let rotated = check_disk_space_and_rotate env st in
    elim (too_full env rotated) [
      | some free_mb ↦
          set_failed r.id (disk_full free_mb (pos_part rotated.min_free_disk_mb)) env.now rotated
      | none ↦ elim env.write_error [
        | some e ↦ set_failed r.id (not_writable e) env.now rotated
        | none ↦ launch env r (capture_path_for env r resume) rotated
      ]
    ]

unfoldable pub try_start_recording : Env → Recording → Bool → State → Attempt
unfolding start_in_dir
try_start_recording env r resume st = elim (env.check_stream_url r.stream_url) [
  | some e ↦ broke_off e
  | none ↦ elim env.make_dir [
    | some e ↦ broke_off e
    | none ↦ attempted (start_in_dir env r resume st)
  ]
]

unfoldable pub start_recording : Env → Recording → Bool → State → State
unfolding try_start_recording
start_recording env r resume st =
    let marked = record st {
      db = update_recording_status r.id recording none none true env.now st.db;
    } in
    elim (try_start_recording env r resume marked) [
      | attempted st' ↦ st'
      | broke_off e ↦
          let st' = set_failed r.id (launch_error e) env.now marked in
          record st' { active = remove r.id st'.active }
    ]
