-- ===== src/Scheduler/Steps/Moves.antt =====
-- Each operation of the scheduler keeps the invariant.
use xtremflow.Base.{
  ℕ, Option-cases, ◌<◌, ◌≡◌, refl, ◌⊎◌, inl, inr, String, true, false, not, ◌&&◌, Option, none,
  some, List, [], ◌∷◌, arith, if◌then◌else◌, str_eq, str_eq_iff, leb, ltb, Bool-cases, Map, lookup,
  insert, remove, values, insert-Distinct, length-insert_present, lookup-insert, All-insert,
  All-lookup, length,
}
use xtremflow.Decision.{
  start, wait, fail, idle, decide_recording_action, resume, finish, give_up, decide_orphan_action,
  RecordingAction, OrphanAction,
}
use xtremflow.Recordings.{
  Recording, Table, Status, is_scheduled, is_recording, scheduled, recording, completed, failed,
  interrupted, partial_file, get_recording_by_id, get_pending_recordings,
}
use xtremflow.Recordings.Laws.{Unique, All-of_get, get-id}
use xtremflow.Scheduler.{
  State, Env, Active, Closing, StopReason, window, shutdown, asked_to_stop, is_capturing,
  stop_active_recording, stop_all,
}
use xtremflow.Scheduler.Tick.{
  stop_expired, recover, recover_orphan, plan_scheduled, plan_one, plan_all, run_tick, has_file,
  is_capture_path, path_or_empty, close_later,
}
use xtremflow.Scheduler.Steps.Invariant.{Quiet, Keyed, Inv, update-Inv, start_recording-Inv}

OrphanAction-cases : (a : OrphanAction) → (a ≡ resume) ⊎ ((a ≡ finish) ⊎ (a ≡ give_up))
OrphanAction-cases resume = inl refl
OrphanAction-cases finish = inr (inl refl)
OrphanAction-cases give_up = inr (inr refl)

RecordingAction-cases :
    (a : RecordingAction) → (a ≡ start) ⊎ ((a ≡ wait) ⊎ ((a ≡ fail) ⊎ (a ≡ idle)))
RecordingAction-cases start = inl refl
RecordingAction-cases wait = inr (inl refl)
RecordingAction-cases fail = inr (inr (inl refl))
RecordingAction-cases idle = inr (inr (inr refl))

recording_not_scheduled : (s : Status) → is_recording s ≡ true → is_scheduled s ≡ false
recording_not_scheduled recording e = refl
recording_not_scheduled scheduled e = cc
recording_not_scheduled s e = cc

start_has_room :
    (env : Env) (r : Recording) (st : State)
    → decide_recording_action env.now r.start_time r.end_time (length st.active) st.max_concurrent
      ≡ start
    → length st.active < st.max_concurrent
unfolding decide_recording_action
start_has_room env r st go = ground arith

-- A capture overwritten by another state of the same recording.
overwrite-Inv :
    (id : String) (a b : Active) (st : State)
    → lookup id st.active ≡ some a
    → b.recording ≡ a.recording
    → Inv st
    → Inv (record st { active = insert id b st.active })
unfolding is_capturing
overwrite-Inv id a b st found same v = record {
  distinct = insert-Distinct id b st.active v.distinct;
  capped = rw (length-insert_present id b st.active (rw found)) v.capped;
  keyed =
      All-insert Keyed id b st.active (rw same (All-lookup Keyed id st.active v.keyed found))
        v.keyed;
  unique = v.unique;
  busy = λ j c. v.busy j (ground (arith, lookup-insert id j b st.active, str_eq_iff id j));
}

pub stop-Inv :
    (id : String) (reason : StopReason) (st : State)
    → Inv st
    → Inv (stop_active_recording id reason st)
unfolding stop_active_recording
stop-Inv id reason st v = elim (Option-cases (lookup id st.active)) [
  | inl missing ↦ rw (missing, stop_active_recording) v
  | inr (a, found) ↦
      rw (found, stop_active_recording)
        (overwrite-Inv id a (asked_to_stop reason a) st found refl v)
]

pub stop_all-Inv : (ids : List String) (st : State) → Inv st → Inv (stop_all ids st)
unfolding stop_all
stop_all-Inv [] st v = v
stop_all-Inv (id ∷ ids) st v =
    stop_all-Inv ids (stop_active_recording id shutdown st) (stop-Inv id shutdown st v)

stop_expired-Inv :
    (now : ℕ) (actives : List Active) (st : State) → Inv st → Inv (stop_expired now actives st)
unfolding stop_expired
stop_expired-Inv now [] st v = v
stop_expired-Inv now (a ∷ rest) st v =
    let stopped = stop-Inv a.recording.id window st v in
    stop_expired-Inv now rest _
      (elim (ltb a.recording.end_time now)
        as (λ b. Inv (if b then stop_active_recording a.recording.id window st else st)) [
          | true ↦ stopped
          | false ↦ v
        ])

abbrev closing_of_row : Recording → Closing
closing_of_row r = record {
  recording = r;
  capture_path = path_or_empty r.file_path;
  last_cut = none;
}

-- A closing that starts for a recording which is not still to start.
close_later-Inv : (r : Recording) (st : State) → Quiet r.id st.db → Inv st → Inv (close_later r st)
unfolding is_capturing
close_later-Inv r st quiet v = record {
  distinct = v.distinct;
  capped = v.capped;
  keyed = v.keyed;
  unique = v.unique;
  busy = λ j c. elim (Bool-cases (str_eq r.id j)) [
    | inl same ↦ rw (← (str_eq_iff r.id j).0 same) quiet
    | inr other ↦ v.busy j (ground (arith, lookup-insert r.id j (closing_of_row r) st.finalizing))
  ];
}

recover-Inv :
    (env : Env) (current : Recording) (st : State)
    → Quiet current.id st.db
    → Inv st
    → Inv (recover env current st)
unfolding recover
recover-Inv env current st quiet v =
    elim (OrphanAction-cases
      (decide_orphan_action env.now current.end_time (has_file env current.file_path))) [
        | inl go_on ↦ elim (Bool-cases (leb st.max_concurrent (length st.active))) [
          | inl full ↦ rw (go_on, full, recover) v
          | inr room ↦
              rw (go_on, room, recover) (start_recording-Inv env current true st (ground arith) v)
        ]
        | inr (inl done) ↦ elim (Bool-cases (is_capture_path env current.file_path)) [
          | inl ts ↦ rw (done, ts, recover) (close_later-Inv current st quiet v)
          | inr old ↦
              rw (done, old, recover)
                (update-Inv current.id completed none (some partial_file) false env.now st refl v)
        ]
        | inr (inr lost) ↦
            rw (lost, recover)
              (update-Inv current.id failed none (some interrupted) false env.now st refl v)
      ]

-- A row that is being recorded is not still to start.
Quiet-of_recording :
    (id : String) (r : Recording) (rows : Table)
    → Unique rows
    → get_recording_by_id id rows ≡ some r
    → is_recording r.status ≡ true
    → Quiet r.id rows
Quiet-of_recording id r rows u found busy = rw (get-id id r rows found) (
    All-of_get (λ s. is_scheduled s.status ≡ false) id r rows u found
      (recording_not_scheduled r.status busy))

recover_orphan-Inv :
    (env : Env) (r : Recording) (st : State) → Inv st → Inv (recover_orphan env r st)
unfolding recover_orphan
recover_orphan-Inv env r st v = elim (Option-cases (get_recording_by_id r.id st.db)) [
  | inl gone ↦ rw (gone, recover_orphan) v
  | inr (current, found) ↦ elim (Bool-cases (is_recording current.status)) [
    | inl busy ↦ elim (Bool-cases (is_capturing current.id st)) [
      | inl taken ↦ rw (found, busy, taken, recover_orphan) v
      | inr free ↦
          rw (found, busy, free, recover_orphan)
            (recover-Inv env current st (Quiet-of_recording r.id current st.db v.unique found busy)
              v)
    ]
    | inr other ↦ rw (found, other, recover_orphan) v
  ]
]

-- What the waiting list says is no part of the invariant.
waiting-Inv : (w : Map (List String)) (st : State) → Inv st → Inv (record st { waiting = w })
unfolding is_capturing
waiting-Inv w st v = record {
  distinct = v.distinct;
  capped = v.capped;
  keyed = v.keyed;
  unique = v.unique;
  busy = v.busy;
}

plan_scheduled-Inv :
    (env : Env) (previous : Option ℕ) (r : Recording) (st : State)
    → Inv st
    → Inv (plan_scheduled env previous r st)
unfolding plan_scheduled
plan_scheduled-Inv env previous r st v =
    let w = remove r.id st.waiting in
    let action =
      decide_recording_action env.now r.start_time r.end_time (length st.active)
        st.max_concurrent in
    elim (RecordingAction-cases action) [
      | inl go ↦
          rw (go, plan_scheduled)
            (start_recording-Inv env r false (record st { waiting = w })
              (start_has_room env r st go) (waiting-Inv w st v))
      | inr (inl later) ↦ rw (later, plan_scheduled) (waiting-Inv _ st v)
      | inr (inr (inl over)) ↦
          rw (over, plan_scheduled)
            (update-Inv r.id failed none _ false env.now (record st { waiting = w }) refl
              (waiting-Inv w st v))
      | inr (inr (inr early)) ↦ rw (early, plan_scheduled) v
    ]

plan_one-Inv :
    (env : Env) (previous : Option ℕ) (r : Recording) (st : State)
    → Inv st
    → Inv (plan_one env previous r st)
unfolding plan_one
plan_one-Inv env previous r st v =
    let recovered = recover_orphan-Inv env r st v in
    let planned = plan_scheduled-Inv env previous r st v in
    elim (is_recording r.status && not (is_capturing r.id st))
      as (λ b. Inv (
        if b
        then recover_orphan env r st
        else if not (is_scheduled r.status)
        then st
        else plan_scheduled env previous r st)) [
          | true ↦ recovered
          | false ↦
              elim (is_scheduled r.status)
                as (λ b. Inv (if not b then st else plan_scheduled env previous r st)) [
                  | true ↦ planned
                  | false ↦ v
                ]
        ]

plan_all-Inv :
    (env : Env) (previous : Option ℕ) (rs : List Recording) (st : State)
    → Inv st
    → Inv (plan_all env previous rs st)
unfolding plan_all
plan_all-Inv env previous [] st v = v
plan_all-Inv env previous (r ∷ rs) st v =
    plan_all-Inv env previous rs (plan_one env previous r st) (plan_one-Inv env previous r st v)

pub run_tick-Inv : (env : Env) (st : State) → Inv st → Inv (run_tick env st)
unfolding run_tick is_capturing
run_tick-Inv env st v =
    plan_all-Inv env st.last_tick
      (get_pending_recordings
        (stop_expired env.now (values st.active) (record st { last_tick = some env.now })).db)
      _ (stop_expired-Inv env.now (values st.active) _ ticked)
  where
    ticked : Inv (record st { last_tick = some env.now })
    ticked = record {
      distinct = v.distinct;
      capped = v.capped;
      keyed = v.keyed;
      unique = v.unique;
      busy = v.busy;
    }
