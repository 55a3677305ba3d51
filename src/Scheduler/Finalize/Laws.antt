-- ===== src/Scheduler/Finalize/Laws.antt =====
-- What the closing of a capture leaves.
use xtremflow.Base.{
  ℕ, ◌≡◌, refl, ◌∙◌, inl, inr, String, Bool, false, Option, none, some, arith, if◌then◌else◌,
  str_eq_refl, Bool-cases, lookup, lookup-remove_self,
}
use xtremflow.Recordings.{
  Recording, Table, Status, Reason, completed, failed, get_recording_by_id, update_recording_status,
  with_status, kept_as_ts, no_data,
}
use xtremflow.Recordings.Laws.{get-update_where}
use xtremflow.Scheduler.{State, Env, Closing}
use xtremflow.Scheduler.Finalize.{converted, finalize_capture, close_capture}

-- The row that a status is written to.
get-update_recording_status :
    (id : String) (status : Status) (path : Option String) (reason : Option Reason) (clear : Bool)
    (now : ℕ) (rows : Table) (r : Recording)
    → get_recording_by_id id rows ≡ some r
    → get_recording_by_id id (update_recording_status id status path reason clear now rows)
      ≡ some (with_status status path reason clear now r)
unfolding update_recording_status
get-update_recording_status id status path reason clear now rows r found =
    get-update_where id id (with_status status path reason clear now) rows (λ t. refl)
    ∙ rw (str_eq_refl id, found)

-- The row after the closing.
abbrev pub closed_row : Env → Closing → Recording → Recording
closed_row env c r =
    if env.has_data c.capture_path
    then with_status completed (some (converted env c.capture_path).0)
        (elim (converted env c.capture_path).1 [ none ↦ none | some e ↦ some kept_as_ts ]) false
        env.now r
    else with_status failed none (some (no_data c.last_cut)) false env.now r

get-finalize_capture :
    (env : Env) (c : Closing) (st : State) (r : Recording)
    → get_recording_by_id c.recording.id st.db ≡ some r
    → get_recording_by_id c.recording.id (finalize_capture env c st).db ≡ some (closed_row env c r)
unfolding finalize_capture
get-finalize_capture env c st r found = elim (Bool-cases (env.has_data c.capture_path)) [
  | inl data_there ↦
      rw data_there
        (get-update_recording_status c.recording.id completed _ _ false env.now st.db r found)
  | inr empty_file ↦
      rw empty_file
        (get-update_recording_status c.recording.id failed none _ false env.now st.db r found)
]

-- A closing ends with the identifier free for another capture, and with the row completed, with
-- the file that is left, exactly where the capture has data; a capture without data is failed, and
-- the row keeps its path.
pub get-close_capture :
    (env : Env) (id : String) (st : State) (c : Closing) (r : Recording)
    → lookup id st.finalizing ≡ some c
    → c.recording.id ≡ id
    → get_recording_by_id id st.db ≡ some r
    → (lookup id (close_capture env id st).finalizing ≡ none)
      × ((s : Recording) × (get_recording_by_id id (close_capture env id st).db ≡ some s)
          × (s.status ≡ (if env.has_data c.capture_path then completed else failed))
          × (s.file_path ≡ (
              if env.has_data c.capture_path
              then some (converted env c.capture_path).0
              else r.file_path)))
unfolding close_capture
get-close_capture env id st c r listed own found =
    let row = get-finalize_capture env c st r (rw own found) in
    let kept : get_recording_by_id id (finalize_capture env c st).db ≡ some (closed_row env c r) =
      rw (← own) row in
    rw (listed, close_capture)
      (
        lookup-remove_self id (finalize_capture env c st).finalizing,
        (closed_row env c r, kept, ground arith, ground arith),
      )
