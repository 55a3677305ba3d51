-- ===== src/Scheduler/Finalize.antt =====
-- The end of a capture: `end_capture` and `finalize_capture`.
pub mod Laws
use xtremflow.Base.{String, false, not, Option, none, some, if◌then◌else◌, insert, remove, lookup}
use xtremflow.Recordings.{completed, no_data, kept_as_ts, update_recording_status}
use xtremflow.Scheduler.{State, Env, Active, Closing, shutdown, discard}
use xtremflow.Scheduler.Start.{set_failed}

-- Where the capture ends up, and with which note: a conversion that fails, or would overwrite a
-- file, leaves it as it is.
unfoldable pub converted : Env → String → String × Option String
converted env capture_path =
    if env.exists (env.mkv_of capture_path)
    then (capture_path, none)
    else elim (env.remux capture_path) [
      | none ↦ (env.mkv_of capture_path, none)
      | some e ↦ (capture_path, some e)
    ]

-- The part of `finalize_capture` that decides the recording's status; the artwork of NBA games,
-- which it then draws, touches files only.
unfoldable pub finalize_capture : Env → Closing → State → State
unfolding converted
finalize_capture env c st =
    if not (env.has_data c.capture_path)
    then set_failed c.recording.id (no_data c.last_cut) env.now st
    else let (path, problem) = converted env c.capture_path in
      record st {
        db =
            update_recording_status c.recording.id completed (some path)
              (elim problem [ none ↦ none | some e ↦ some kept_as_ts ]) false env.now st.db;
      }

abbrev pub closing_of : Active → Closing
closing_of a = record {
  recording = a.recording;
  capture_path = a.capture_path;
  last_cut = a.last_cut;
}

-- The capture gone, and its identifier out of `finalizing`.
abbrev pub dropped : String → State → State
dropped id st = record st { active = remove id st.active; finalizing = remove id st.finalizing }

-- Up to the closing itself: the capture leaves the active ones as a closing, unless the server is
-- stopping or the recording was deleted.
unfoldable pub end_capture : String → State → State
end_capture id st = elim (lookup id st.active) [
  | none ↦ st
  | some a ↦
      let left = record st { active = remove id st.active } in
      elim a.stop_reason [
        | some shutdown ↦ dropped id st
        | some discard ↦ dropped id st
        | _ ↦ record left { finalizing = insert id (closing_of a) left.finalizing }
      ]
]

-- The closing, and the identifier's way out of `finalizing`.
unfoldable pub close_capture : Env → String → State → State
unfolding finalize_capture
close_capture env id st = elim (lookup id st.finalizing) [
  | none ↦ st
  | some c ↦
      let closed = finalize_capture env c st in
      record closed { finalizing = remove id closed.finalizing }
]
