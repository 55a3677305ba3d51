-- ===== src/Scheduler/Steps/Invariant.antt =====
-- What every operation of the scheduler keeps: the limit on captures, and that a recording being
-- captured or closed is never taken for one still to start.
use xtremflow.Base.{
  ℕ, ◌-◌, Option-cases, ◌≤◌, ◌<◌, ◌≡◌, refl, inl, inr, String, Bool, true, false, Option, none,
  some, List, [], ◌∷◌, arith, str_eq, str_eq_iff, is_positive, leb, Bool-cases, remove, Distinct,
  insert-Distinct, remove-Distinct, length-insert-le, length-remove-le, lookup-insert,
  lookup-remove, All, All-insert, All-remove, length,
}
use xtremflow.Recordings.{
  Recording, Table, Status, Reason, is_scheduled, recording, failed, launch_error,
  get_finished_recordings_oldest_first, update_where, update_recording_status, with_status,
  delete_recording,
}
use xtremflow.Recordings.Laws.{
  All-update_where, All-delete_recording, Unique, update_where-Unique, delete-Unique,
}
use xtremflow.Scheduler.{State, Env, Active, is_capturing}
use xtremflow.Scheduler.Start.{
  launch, set_failed, new_active, rotate, check_disk_space_and_rotate, capture_path_for,
  start_in_dir, start_recording, quota_bytes, too_full,
}

-- No row with the identifier is still to start.
abbrev pub Quiet : String → Table → Type 0
Quiet id = All (λ r. str_eq r.id id ≡ true → is_scheduled r.status ≡ false)

-- A capture stands under its recording's identifier.
abbrev pub Keyed : String × Active → Type 0
Keyed e = e.1.recording.id ≡ e.0

pub record Inv (st : State) : Type 0 where
  pub distinct : Distinct st.active
  pub capped : length st.active ≤ st.max_concurrent
  pub keyed : All Keyed st.active
  pub unique : Unique st.db
  pub busy : (id : String) → is_capturing id st ≡ true → Quiet id st.db

Quiet-update :
    (id j : String) (status : Status) (path : Option String) (reason : Option Reason) (clear : Bool)
    (now : ℕ) (rows : Table)
    → is_scheduled status ≡ false
    → Quiet j rows
    → Quiet j (update_recording_status id status path reason clear now rows)
unfolding update_recording_status
Quiet-update id j status path reason clear now rows calm =
    All-update_where (λ r. str_eq r.id j ≡ true → is_scheduled r.status ≡ false) id
      (with_status status path reason clear now) (λ r same h e. calm) rows

-- The rows whose status is written are no longer to start.
Quiet-update_self :
    (id : String) (status : Status) (path : Option String) (reason : Option Reason) (clear : Bool)
    (now : ℕ) (rows : Table)
    → is_scheduled status ≡ false
    → Quiet id (update_recording_status id status path reason clear now rows)
unfolding update_recording_status update_where
Quiet-update_self id status path reason clear now [] calm = tt
Quiet-update_self id status path reason clear now (r ∷ rows) calm =
    (ground arith, Quiet-update_self id status path reason clear now rows calm)

Unique-update :
    (id : String) (status : Status) (path : Option String) (reason : Option Reason) (clear : Bool)
    (now : ℕ) (rows : Table)
    → Unique rows
    → Unique (update_recording_status id status path reason clear now rows)
unfolding update_recording_status
Unique-update id status path reason clear now rows =
    update_where-Unique id (with_status status path reason clear now) (λ r. refl) rows

-- Writing a status that is not `scheduled`.
pub update-Inv :
    (id : String) (status : Status) (path : Option String) (reason : Option Reason) (clear : Bool)
    (now : ℕ) (st : State)
    → is_scheduled status ≡ false
    → Inv st
    → Inv (record st { db = update_recording_status id status path reason clear now st.db })
unfolding is_capturing
update-Inv id status path reason clear now st calm v = record {
  distinct = v.distinct;
  capped = v.capped;
  keyed = v.keyed;
  unique = Unique-update id status path reason clear now st.db v.unique;
  busy = λ j c. Quiet-update id j status path reason clear now st.db calm (v.busy j c);
}

pub delete-Inv :
    (id : String) (st : State) → Inv st → Inv (record st { db = delete_recording id st.db })
unfolding is_capturing
delete-Inv id st v = record {
  distinct = v.distinct;
  capped = v.capped;
  keyed = v.keyed;
  unique = delete-Unique id st.db v.unique;
  busy = λ j c.
      All-delete_recording (λ r. str_eq r.id j ≡ true → is_scheduled r.status ≡ false) id st.db
        (v.busy j c);
}

pub remove-Inv :
    (id : String) (st : State) → Inv st → Inv (record st { active = remove id st.active })
unfolding is_capturing
remove-Inv id st v = record {
  distinct = remove-Distinct id st.active v.distinct;
  capped = omega (arith, length-remove-le id st.active, v.capped);
  keyed = All-remove Keyed id st.active v.keyed;
  unique = v.unique;
  busy = λ j c. v.busy j (ground (arith, lookup-remove id j st.active));
}

-- A new capture, where there is room for it and its row is marked.
launch-Inv :
    (env : Env) (r : Recording) (path : String) (st : State)
    → length st.active < st.max_concurrent
    → Inv st
    → Inv (launch env r path st)
unfolding launch is_capturing
launch-Inv env r path st room v = record {
  distinct = insert-Distinct r.id (new_active r path) st.active v.distinct;
  capped = omega (arith, length-insert-le r.id (new_active r path) st.active);
  keyed = All-insert Keyed r.id (new_active r path) st.active refl v.keyed;
  unique = Unique-update r.id recording (some path) none false env.now st.db v.unique;
  busy = λ j c. elim (Bool-cases (str_eq r.id j)) [
    | inl same ↦
        rw (← (str_eq_iff r.id j).0 same)
          (Quiet-update_self r.id recording (some path) none false env.now st.db refl)
    | inr other ↦
        Quiet-update r.id j recording (some path) none false env.now st.db refl
          (v.busy j (ground (arith, lookup-insert r.id j (new_active r path) st.active)))
  ];
}

-- The invariant after a step that leaves the captures alone.
abbrev Kept : State → State → Type 0
Kept st st' = Inv st' × (st'.active ≡ st.active) × (st'.max_concurrent ≡ st.max_concurrent)

rotate-Kept :
    (env : Env) (quota total : ℕ) (olds : List Recording) (st : State)
    → Inv st
    → Kept st (rotate env quota total olds st)
unfolding rotate
rotate-Kept env quota total [] st v = (v, refl, refl)
rotate-Kept env quota total (old ∷ rest) st v = elim (Bool-cases (leb total quota)) [
  | inl enough ↦ rw (enough, rotate) (v, refl, refl)
  | inr over ↦ elim (Option-cases old.file_path) [
    | inl nothing ↦ rw (over, nothing, rotate) (rotate-Kept env quota total rest st v)
    | inr (path, written) ↦ elim (Bool-cases (is_capturing old.id st)) [
      | inl busy ↦ rw (over, written, busy, rotate) (rotate-Kept env quota total rest st v)
      | inr free ↦
          rw (over, written, free, rotate)
            (rotate-Kept env quota (total - env.files_bytes path) rest
              (record st { db = delete_recording old.id st.db }) (delete-Inv old.id st v))
    ]
  ]
]

disk-Kept : (env : Env) (st : State) → Inv st → Kept st (check_disk_space_and_rotate env st)
unfolding check_disk_space_and_rotate
disk-Kept env st v =
    let loop =
      rotate-Kept env (quota_bytes st) env.dir_bytes (get_finished_recordings_oldest_first st.db) st
        v in
    elim (Bool-cases (is_positive st.recordings_quota_gb)) [
      | inr off ↦ rw off (v, refl, refl)
      | inl on ↦ elim (Bool-cases (leb env.dir_bytes (quota_bytes st))) [
        | inl fits ↦ rw (on, fits) (v, refl, refl)
        | inr over ↦ rw (on, over) loop
      ]
    ]

-- A start keeps the invariant, where a capture fits.
start_in_dir-Inv :
    (env : Env) (r : Recording) (resume : Bool) (st : State)
    → length st.active < st.max_concurrent
    → Inv st
    → Inv (start_in_dir env r resume st)
unfolding start_in_dir
start_in_dir-Inv env r resume st room v =
    let rotated = check_disk_space_and_rotate env st in
    let (v', active, max) = disk-Kept env st v in
    let room' : length rotated.active < rotated.max_concurrent = rw (active, max) room in
    elim (Option-cases (too_full env rotated)) [
      | inr (free_mb, full) ↦
          rw (full, start_in_dir) (update-Inv r.id failed none _ false env.now rotated refl v')
      | inl fits ↦ elim (Option-cases env.write_error) [
        | inr (e, refused) ↦
            rw (fits, refused, start_in_dir)
              (update-Inv r.id failed none _ false env.now rotated refl v')
        | inl fine ↦
            rw (fits, fine, start_in_dir)
              (launch-Inv env r (capture_path_for env r resume) rotated room' v')
      ]
    ]

-- `start_recording` keeps the invariant, where a capture fits.
pub start_recording-Inv :
    (env : Env) (r : Recording) (resume : Bool) (st : State)
    → length st.active < st.max_concurrent
    → Inv st
    → Inv (start_recording env r resume st)
unfolding start_recording
start_recording-Inv env r resume st room v =
    let marked = record st {
      db = update_recording_status r.id recording none none true env.now st.db;
    } in
    let v' = update-Inv r.id recording none none true env.now st refl v in
    let broken = λ (e : String).
      remove-Inv r.id (set_failed r.id (launch_error e) env.now marked)
        (update-Inv r.id failed none (some (launch_error e)) false env.now marked refl v') in
    elim (Option-cases (env.check_stream_url r.stream_url)) [
      | inr (e, bad) ↦ rw (bad, start_recording) (broken e)
      | inl good ↦ elim (Option-cases env.make_dir) [
        | inr (e, bad) ↦ rw (good, bad, start_recording) (broken e)
        | inl made ↦ rw (good, made, start_recording) (start_in_dir-Inv env r resume marked room v')
      ]
    ]
