-- ===== src/Scheduler/Steps.antt =====
-- What happens to the scheduler, one step at a time: its rounds, the routes of api/recordings.rs
-- that change recordings, the ends of captures, a stop and a restart of the server.
pub mod Invariant
pub mod Moves
pub mod History
use xtremflow.Base.{
  ℕ, ◌≡◌, String, Bool, true, false, Option, none, some, List, [], ◌∷◌, if◌then◌else◌, contains_key,
  keys,
}
use xtremflow.Recordings.{
  Recording, Table, Status, scheduled, recording, completed, cancelled, create_recording,
  get_recording_by_id, update_recording_status, update_recording_window, delete_recording,
  is_scheduled,
}
use xtremflow.Scheduler.{
  State, Env, Active, is_capturing, stop_recording, discard_recording, stop_all,
}
use xtremflow.Scheduler.Tick.{run_tick}
use xtremflow.Scheduler.Finalize.{end_capture, close_capture}

-- `stop` of api/recordings.rs, once the access is granted: a recording that is not being captured
-- is cancelled or closed by hand.
unfoldable pub api_stop : String → ℕ → State → State
api_stop id now st = elim (get_recording_by_id id st.db) [
  | none ↦ st
  | some r ↦
      let (st', stopped) = stop_recording id st in
      if stopped then st' else elim r.status [
        | scheduled ↦ record st' {
          db = update_recording_status id cancelled none none false now st'.db;
        }
        | recording ↦ record st' {
          db = update_recording_status id completed none none false now st'.db;
        }
        | _ ↦ st'
      ]
]

-- `delete` of api/recordings.rs, once the access is granted.
unfoldable pub api_delete : String → State → State
api_delete id st = elim (get_recording_by_id id st.db) [
  | none ↦ st
  | some r ↦ let st' = discard_recording id st in record st' { db = delete_recording id st'.db }
]

-- A new process over the same database.
unfoldable pub restart : State → State
restart st = record st { active = []; waiting = []; finalizing = []; last_tick = none }

pub data Step (st : State) : State → Type 0 where
  ticks : (env : Env) → Step st (run_tick env st)
  stops : (id : String) (now : ℕ) → Step st (api_stop id now st)
  deletes : (id : String) → Step st (api_delete id st)
  -- An identifier is drawn that no row and no capture has.
  creates :
      (r : Recording)
      → get_recording_by_id r.id st.db ≡ none
      → is_capturing r.id st ≡ false
      → Step st (record st { db = create_recording r st.db })
  realigns :
      (id : String) (start end_at now : ℕ)
      → Step st (record st { db = update_recording_window id start end_at now st.db })
  ends : (id : String) → Step st (end_capture id st)
  closes : (env : Env) (id : String) → Step st (close_capture env id st)
  shuts_down : Step st (stop_all (keys st.active) st)
  restarts : Step st (restart st)

-- What the server can come to.
pub data Reach (st : State) : State → Type 0 where
  here : Reach st st
  next : {a b : State} → Reach st a → Step a b → Reach st b
