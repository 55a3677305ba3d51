-- ===== src/Scheduler/Tick/Due.antt =====
-- What starting, failing or rotating does to the rows that are still to start.
use xtremflow.Base.{
  ℕ, ◌-◌, ◌≡◌, refl, inl, inr, String, Bool, true, false, Option, none, some, List, [], ◌∷◌, str_eq,
  leb, Bool-cases, Option-cases, is_positive, All, All-map, All-filter,
}
use xtremflow.Recordings.{
  Recording, Table, Status, Reason, recording, failed, launch_error, is_scheduled,
  get_finished_recordings_oldest_first, update_where, update_recording_status, delete_recording,
}
use xtremflow.Scheduler.{State, Env, is_capturing}
use xtremflow.Scheduler.Start.{
  launch, rotate, check_disk_space_and_rotate, too_full, quota_bytes, start_in_dir, start_recording,
}

-- Every row still to start satisfies `Q`.
abbrev pub Due : (Recording → Type 0) → Table → Type 0
Due Q = All (λ r. is_scheduled r.status ≡ true → Q r)

-- The same, of rows with other identifiers.
abbrev pub Apart : String → (Recording → Type 0) → Recording → Type 0
Apart id Q r = Q r × (str_eq r.id id ≡ false)

module _ (Q : Recording → Type 0) where
  -- Writing another status takes the rows with the identifier out of those still to start.
  pub update-Due :
      (id : String) (status : Status) (path : Option String) (reason : Option Reason) (clear : Bool)
      (now : ℕ) (rows : Table)
      → is_scheduled status ≡ false
      → Due Q rows
      → Due (Apart id Q) (update_recording_status id status path reason clear now rows)
  unfolding update_recording_status update_where
  update-Due id status path reason clear now [] calm d = tt
  update-Due id status path reason clear now (r ∷ rows) calm (q, d) = (
    elim (Bool-cases (str_eq r.id id)) [
      | inl same ↦ rw same (λ e. absurd (clash calm e))
      | inr other ↦ rw other (λ e. (q e, other))
    ],
    update-Due id status path reason clear now rows calm d,
  )
    where
      clash : {b : Bool} → b ≡ false → b ≡ true → ⊥
      clash e f = cc

  delete-Due : (id : String) (rows : Table) → Due Q rows → Due Q (delete_recording id rows)
  unfolding delete_recording
  delete-Due id rows d = All-filter (λ r. is_scheduled r.status ≡ true → Q r) _ rows d

  rotate-Due :
      (env : Env) (quota total : ℕ) (olds : List Recording) (st : State)
      → Due Q st.db
      → Due Q (rotate env quota total olds st).db
  unfolding rotate
  rotate-Due env quota total [] st d = d
  rotate-Due env quota total (old ∷ rest) st d = elim (Bool-cases (leb total quota)) [
    | inl enough ↦ rw (enough, rotate) d
    | inr over ↦ elim (Option-cases old.file_path) [
      | inl nothing ↦ rw (over, nothing, rotate) (rotate-Due env quota total rest st d)
      | inr (path, written) ↦ elim (Bool-cases (is_capturing old.id st)) [
        | inl busy ↦ rw (over, written, busy, rotate) (rotate-Due env quota total rest st d)
        | inr free ↦
            rw (over, written, free, rotate)
              (rotate-Due env quota (total - env.files_bytes path) rest
                (record st { db = delete_recording old.id st.db }) (delete-Due old.id st.db d))
      ]
    ]
  ]

  disk-Due : (env : Env) (st : State) → Due Q st.db → Due Q (check_disk_space_and_rotate env st).db
  unfolding check_disk_space_and_rotate
  disk-Due env st d =
      let loop =
        rotate-Due env (quota_bytes st) env.dir_bytes (get_finished_recordings_oldest_first st.db)
          st d in
      elim (Bool-cases (is_positive st.recordings_quota_gb)) [
        | inr off ↦ rw off d
        | inl on ↦ elim (Bool-cases (leb env.dir_bytes (quota_bytes st))) [
          | inl fits ↦ rw (on, fits) d
          | inr over ↦ rw (on, over) loop
        ]
      ]

-- Forgetting that the rows stand apart.
pub weaken :
    (id j : String) (Q : Recording → Type 0) (rows : Table)
    → Due (Apart id (Apart j Q)) rows
    → Due (Apart j Q) rows
weaken id j Q = All-map _ _ (λ r h e. (h e).0)

module _ (Q : Recording → Type 0) where
  start_in_dir-Due :
      (env : Env) (r : Recording) (again : Bool) (st : State)
      → Due (Apart r.id Q) st.db
      → Due (Apart r.id Q) (start_in_dir env r again st).db
  unfolding start_in_dir launch
  start_in_dir-Due env r again st d =
      let rotated = check_disk_space_and_rotate env st in
      let d' = disk-Due (Apart r.id Q) env st d in
      elim (Option-cases (too_full env rotated)) [
        | inr (free_mb, full) ↦
            rw (full, start_in_dir)
              (weaken r.id r.id Q _
                (update-Due (Apart r.id Q) r.id failed none _ false env.now rotated.db refl d'))
        | inl fits ↦ elim (Option-cases env.write_error) [
          | inr (e, refused) ↦
              rw (fits, refused, start_in_dir)
                (weaken r.id r.id Q _
                  (update-Due (Apart r.id Q) r.id failed none _ false env.now rotated.db refl d'))
          | inl fine ↦
              rw (fits, fine, start_in_dir)
                (weaken r.id r.id Q _ (
                  update-Due (Apart r.id Q) r.id recording _ none false env.now rotated.db refl d'))
        ]
      ]

  -- However a start goes, the recording is no longer one to start, and no other has become one.
  pub start_recording-Due :
      (env : Env) (r : Recording) (again : Bool) (st : State)
      → Due Q st.db
      → Due (Apart r.id Q) (start_recording env r again st).db
  unfolding start_recording
  start_recording-Due env r again st d =
      let marked = record st {
        db = update_recording_status r.id recording none none true env.now st.db;
      } in
      let d' = update-Due Q r.id recording none none true env.now st.db refl d in
      let broken = λ (e : String). weaken r.id r.id Q _ (
        update-Due (Apart r.id Q) r.id failed none (some (launch_error e)) false env.now marked.db
          refl d') in
      elim (Option-cases (env.check_stream_url r.stream_url)) [
        | inr (e, bad) ↦ rw (bad, start_recording) (broken e)
        | inl good ↦ elim (Option-cases env.make_dir) [
          | inr (e, bad) ↦ rw (good, bad, start_recording) (broken e)
          | inl made ↦ rw (good, made, start_recording) (start_in_dir-Due env r again marked d')
        ]
      ]
