-- ===== src/Scheduler/Tick.antt =====
-- A round of the planner: `run_tick` and `recover_orphan`.
pub mod Due
pub mod Progress
pub mod Settled
use xtremflow.Base.{
  ℕ, String, Bool, true, false, not, ◌&&◌, ◌||◌, Option, none, some, List, [], ◌∷◌, if◌then◌else◌,
  ltb, leb, Map, insert, remove, lookup, values, keys, length,
}
use xtremflow.Decision.{
  start, wait, fail, idle, decide_recording_action, decide_miss_cause, resume, finish, give_up,
  decide_orphan_action, MissCause,
}
use xtremflow.Recordings.{
  Recording, Table, completed, failed, missed, partial_file, interrupted, is_recording,
  is_scheduled, get_pending_recordings, get_recording_by_id, update_recording_status,
}
use xtremflow.Scheduler.{
  State, Env, Active, Closing, window, is_capturing, stop_active_recording, titles,
}
use xtremflow.Scheduler.Start.{start_recording, set_failed}

-- The captures whose window is over are asked to stop.
unfoldable pub stop_expired : ℕ → List Active → State → State
stop_expired now [] st = st
stop_expired now (a ∷ rest) st =
    stop_expired now rest
      (if ltb a.recording.end_time now then stop_active_recording a.recording.id window st else st)

abbrev pub is_capture_path : Env → Option String → Bool
is_capture_path env none = false
is_capture_path env (some path) = env.is_capture path

abbrev pub has_file : Env → Option String → Bool
has_file env none = false
has_file env (some path) = env.has_data path

abbrev pub path_or_empty : Option String → String
path_or_empty none = ""
path_or_empty (some path) = path

-- The closing of an interrupted capture, which runs beside the round.
abbrev pub close_later : Recording → State → State
close_later r st = record st {
  finalizing =
      insert r.id
        (record { recording = r; capture_path = path_or_empty r.file_path; last_cut = none })
        st.finalizing;
}

unfoldable pub recover : Env → Recording → State → State
recover env current st =
    elim (decide_orphan_action env.now current.end_time (has_file env current.file_path)) [
      | resume ↦
          if leb st.max_concurrent (length st.active)
          then st
          else start_recording env current true st
      | finish ↦
          if is_capture_path env current.file_path then close_later current st else record st {
            db =
                update_recording_status current.id completed none (some partial_file) false env.now
                  st.db;
          }
      | give_up ↦ set_failed current.id interrupted env.now st
    ]

unfoldable pub recover_orphan : Env → Recording → State → State
unfolding recover
recover_orphan env r st = elim (get_recording_by_id r.id st.db) [
  | none ↦ st
  | some current ↦
      if not (is_recording current.status) || is_capturing current.id st
      then st
      else recover env current st
]

-- A scheduled recording.
unfoldable pub plan_scheduled : Env → Option ℕ → Recording → State → State
plan_scheduled env previous r st =
    elim (decide_recording_action env.now r.start_time r.end_time (length st.active)
      st.max_concurrent) [
        | start ↦ start_recording env r false (record st { waiting = remove r.id st.waiting })
        | wait ↦ record st { waiting = insert r.id (titles st.active) st.waiting }
        | fail ↦
            let cause = decide_miss_cause r.start_time previous (lookup r.id st.waiting) in
            set_failed r.id (missed cause env.now st.max_concurrent) env.now
              (record st { waiting = remove r.id st.waiting })
        | idle ↦ st
      ]

-- One recording of the round.
unfoldable pub plan_one : Env → Option ℕ → Recording → State → State
unfolding plan_scheduled recover_orphan
plan_one env previous r st =
    if is_recording r.status && not (is_capturing r.id st)
    then recover_orphan env r st
    else if not (is_scheduled r.status)
    then st
    else plan_scheduled env previous r st

unfoldable pub plan_all : Env → Option ℕ → List Recording → State → State
unfolding plan_one
plan_all env previous [] st = st
plan_all env previous (r ∷ rest) st = plan_all env previous rest (plan_one env previous r st)

unfoldable pub run_tick : Env → State → State
unfolding plan_all stop_expired
run_tick env st =
    let ticked = record st { last_tick = some env.now } in
    let stopped = stop_expired env.now (values ticked.active) ticked in
    plan_all env st.last_tick (get_pending_recordings stopped.db) stopped
