-- ===== src/Scheduler/Start/Rotation.antt =====
-- What the rotation of the disk may delete.
use xtremflow.Base.{
  ℕ, ◌-◌, ◌≡◌, refl, ◌∙◌, ◌⊎◌, inl, inr, String, Bool, true, false, some, List, [], ◌∷◌, str_eq,
  leb, Bool-cases, Option-cases, is_positive, All, All-map, All-filter_test, All-sort_by_key,
  filter,
}
use xtremflow.Recordings.{
  Recording, Table, is_finished, get_recording_by_id, delete_recording,
  get_finished_recordings_oldest_first,
}
use xtremflow.Recordings.Laws.{Unique, get-delete_recording, All-of_get, get-id}
use xtremflow.Scheduler.{State, Env, is_capturing}
use xtremflow.Scheduler.Start.{rotate, check_disk_space_and_rotate, quota_bytes}

-- The candidate is not the recording `id`, or is being captured.
abbrev Spared : String → State → Recording → Type 0
Spared id st o = (str_eq o.id id ≡ false) ⊎ (is_capturing o.id st ≡ true)

clash : {b : Bool} → b ≡ false → b ≡ true → ⊥
clash e f = cc

Spared-after :
    (id : String) (st : State) (db : Table) (rest : List Recording)
    → All (Spared id st) rest
    → All (Spared id (record st { db = db })) rest
unfolding is_capturing
Spared-after id st db rest a = a

rotate_spares :
    (env : Env) (quota total : ℕ) (id : String) (olds : List Recording) (st : State)
    → All (Spared id st) olds
    → get_recording_by_id id (rotate env quota total olds st).db ≡ get_recording_by_id id st.db
unfolding rotate
rotate_spares env quota total id [] st a = refl
rotate_spares env quota total id (old ∷ rest) st (s, a) = elim (Bool-cases (leb total quota)) [
  | inl enough ↦ rw (enough, rotate)
  | inr over ↦ elim (Option-cases old.file_path) [
    | inl nothing ↦ rw (over, nothing, rotate) (rotate_spares env quota total id rest st a)
    | inr (path, written) ↦ elim (Bool-cases (is_capturing old.id st)) [
      | inl busy ↦ rw (over, written, busy, rotate) (rotate_spares env quota total id rest st a)
      | inr free ↦
          rw (over, written, free, rotate)
            (rotate_spares env quota (total - env.files_bytes path) id rest
                (record st { db = delete_recording old.id st.db }) (Spared-after id st _ rest a)
              ∙ (get-delete_recording old.id id st.db
                  ∙ elim s [ inl ne ↦ rw ne | inr busy ↦ absurd (clash free busy) ]))
    ]
  ]
]

-- What `Safe` asks of a recording that the rotation must spare.
abbrev Safe : State → Recording → Type 0
Safe st s = (is_finished s.status ≡ false) ⊎ (is_capturing s.id st ≡ true)

Spared-of :
    (st : State) (id : String) (s : Recording)
    → (str_eq s.id id ≡ true → Safe st s) × (is_finished s.status ≡ true)
    → Spared id st s
Spared-of st id s (safe, over) = elim (Bool-cases (str_eq s.id id)) [
  | inl same ↦ elim (safe same) [ inl live ↦ absurd (clash live over) | inr busy ↦ inr busy ]
  | inr ne ↦ inl ne
]

olds-Spared :
    (st : State) (id : String) (r : Recording)
    → Unique st.db
    → get_recording_by_id id st.db ≡ some r
    → Safe st r
    → All (Spared id st) (get_finished_recordings_oldest_first st.db)
unfolding get_finished_recordings_oldest_first
olds-Spared st id r u found safe =
    All-sort_by_key (λ s. s.start_time) (Spared id st) (filter (λ s. is_finished s.status) st.db)
      (All-map (λ s. (str_eq s.id id ≡ true → Safe st s) × (is_finished s.status ≡ true))
        (Spared id st) (Spared-of st id) (filter (λ s. is_finished s.status) st.db)
        (All-filter_test (λ s. str_eq s.id id ≡ true → Safe st s) (λ s. is_finished s.status) st.db
          (All-of_get (Safe st) id r st.db u found safe)))

-- A recording that is not finished, or whose capture is under way or being closed, keeps its row
-- through a rotation, whatever the quota and the sizes.
pub rotation_spares :
    (env : Env) (st : State) (id : String) (r : Recording)
    → Unique st.db
    → get_recording_by_id id st.db ≡ some r
    → (is_finished r.status ≡ false) ⊎ (is_capturing id st ≡ true)
    → get_recording_by_id id (check_disk_space_and_rotate env st).db ≡ some r
unfolding check_disk_space_and_rotate
rotation_spares env st id r u found safe = elim (Bool-cases (is_positive st.recordings_quota_gb)) [
  | inl on ↦ elim (Bool-cases (leb env.dir_bytes (quota_bytes st))) [
    | inl enough ↦ rw (on, enough) found
    | inr over ↦
        rw (on, over)
          (rotate_spares env (quota_bytes st) env.dir_bytes id
              (get_finished_recordings_oldest_first st.db) st
              (olds-Spared st id r u found (elim safe [
                | inl live ↦ inl live
                | inr busy ↦ inr (rw (get-id id r st.db found) busy)
              ]))
            ∙ found)
  ]
  | inr off ↦ rw off found
]
