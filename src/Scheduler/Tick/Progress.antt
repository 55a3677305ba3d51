-- ===== src/Scheduler/Tick/Progress.antt =====
-- Rows that a round has still to go through, and those it is done with.
use xtremflow.Base.{
  ℕ, ◌-◌, ◌≤◌, ◌<◌, length, ◌≡◌, refl, ap, ◌⊎◌, inl, inr, String, Bool, true, false, none, List, [],
  ◌∷◌, arith, str_eq, str_eq_iff, leb, Bool-cases, Option-cases, lookup, some, ◌∙◌, Map, insert,
  remove, lookup-insert, lookup-remove, All-map,
}
use xtremflow.Recordings.{
  Recording, recording, is_scheduled, delete_recording, get_finished_recordings_oldest_first,
  update_recording_status,
}
use xtremflow.Scheduler.{State, Env, is_capturing}
use xtremflow.Scheduler.Start.{
  start_recording, rotate, check_disk_space_and_rotate, start_in_dir, launch, quota_bytes,
}
use xtremflow.Scheduler.Tick.Due.{Due, Apart}

-- Membership of a row in the list that a round goes through.
abbrev pub Listed : Recording → List Recording → Type 0
Listed r [] = ⊥
Listed r (x ∷ xs) = (r ≡ x) ⊎ Listed r xs

-- The waiting list names at least `max` captures that hold the slots a recording waits for.
abbrev pub Queued : ℕ → String → Map (List String) → Type 0
Queued max id waiting = (busy : List String) × (lookup id waiting ≡ some busy) × (max ≤ length busy)

-- The round is done with a row still to start: its window is not over, and it is not due yet, or it
-- is and waits for one of `max` slots.
abbrev pub Settled : ℕ → Map (List String) → ℕ → Recording → Type 0
Settled now waiting max r =
    (now ≤ r.end_time) × ((now ≤ r.start_time) ⊎ ((r.start_time < now) × Queued max r.id waiting))

-- Where the round still has the rows `rest` to go through.
abbrev pub Open : ℕ → Map (List String) → ℕ → List Recording → Recording → Type 0
Open now waiting max rest r = Listed r rest ⊎ Settled now waiting max r

-- Whoever waits goes on to wait.
abbrev pub Grows : ℕ → Map (List String) → Map (List String) → Type 0
Grows max w w' = (id : String) → Queued max id w → Queued max id w'

pub Open-next :
    (now : ℕ) (w w' : Map (List String)) (max : ℕ) (x : Recording) (rest : List Recording)
    (r : Recording)
    → Grows max w w'
    → (r ≡ x → Settled now w' max r)
    → Open now w max (x ∷ rest) r
    → Open now w' max rest r
Open-next now w w' max x rest r g done (inl (inl e)) = inr (done e)
Open-next now w w' max x rest r g done (inl (inr l)) = inl l
Open-next now w w' max x rest r g done (inr (le, inl early)) = inr (le, inl early)
Open-next now w w' max x rest r g done (inr (le, inr (due, queued))) =
    inr (le, inr (due, g r.id queued))

-- Rows apart from the recording at hand.
apart : (x r : Recording) → r ≡ x → str_eq r.id x.id ≡ false → ⊥
apart x r e ne = ground (arith, str_eq_iff r.id x.id, ap (λ (t : Recording). t.id) e)

pub Open-Apart :
    (now : ℕ) (w : Map (List String)) (max : ℕ) (x : Recording) (rest : List Recording)
    (r : Recording)
    → Apart x.id (Open now w max (x ∷ rest)) r
    → Open now (remove x.id w) max rest r
Open-Apart now w max x rest r (inl (inl e), ne) = absurd (apart x r e ne)
Open-Apart now w max x rest r (inl (inr l), ne) = inl l
Open-Apart now w max x rest r (inr (le, inl early), ne) = inr (le, inl early)
Open-Apart now w max x rest r (inr (le, inr (due, (busy, listed, many))), ne) =
    let other : str_eq x.id r.id ≡ false =
      ground (arith, ne, str_eq_iff x.id r.id, str_eq_iff r.id x.id) in
    inr (le, inr (due, (busy, lookup-remove x.id r.id w ∙ rw other listed, many)))

pub insert-Grows :
    (k : String) (v : List String) (max : ℕ) (w : Map (List String))
    → max ≤ length v
    → Grows max w (insert k v w)
insert-Grows k v max w many id (busy, listed, enough) = elim (Bool-cases (str_eq k id)) [
  | inl same ↦ (v, lookup-insert k id v w ∙ rw same refl, many)
  | inr other ↦ (busy, lookup-insert k id v w ∙ rw other listed, enough)
]

-- The round may go on from a state with the rows `rest` still to come.
abbrev pub Onward : ℕ → List Recording → State → Type 0
Onward now rest st = Due (Open now st.waiting st.max_concurrent rest) st.db

-- A recording that the round passes by is not one to start, or is settled.
pub pass :
    (now : ℕ) (x : Recording) (rest : List Recording) (st : State)
    → (is_scheduled x.status ≡ true → Settled now st.waiting st.max_concurrent x)
    → Onward now (x ∷ rest) st
    → Onward now rest st
pass now x rest st done =
    All-map _ _
      (λ r h e.
        Open-next now st.waiting st.waiting st.max_concurrent x rest r (λ id q. q)
          (λ same. rw same (done (rw same at e))) (h e))
      st.db

rotate-waiting :
    (env : Env) (quota total : ℕ) (olds : List Recording) (st : State)
    → (rotate env quota total olds st).waiting ≡ st.waiting
unfolding rotate
rotate-waiting env quota total [] st = refl
rotate-waiting env quota total (old ∷ rest) st = elim (Bool-cases (leb total quota)) [
  | inl enough ↦ rw (enough, rotate)
  | inr over ↦ elim (Option-cases old.file_path) [
    | inl nothing ↦ rw (over, nothing, rotate) (rotate-waiting env quota total rest st)
    | inr (path, written) ↦ elim (Bool-cases (is_capturing old.id st)) [
      | inl busy ↦ rw (over, written, busy, rotate) (rotate-waiting env quota total rest st)
      | inr free ↦
          rw (over, written, free, rotate)
            (rotate-waiting env quota (total - env.files_bytes path) rest
              (record st { db = delete_recording old.id st.db }))
    ]
  ]
]

disk-waiting : (env : Env) (st : State) → (check_disk_space_and_rotate env st).waiting ≡ st.waiting
unfolding check_disk_space_and_rotate
disk-waiting env st = ground (
  arith,
  rotate-waiting env (quota_bytes st) env.dir_bytes (get_finished_recordings_oldest_first st.db) st,
)

start_in_dir-waiting :
    (env : Env) (r : Recording) (again : Bool) (st : State)
    → (start_in_dir env r again st).waiting ≡ st.waiting
unfolding start_in_dir launch
start_in_dir-waiting env r again st = ground (arith, disk-waiting env st)

pub start_recording-waiting :
    (env : Env) (r : Recording) (again : Bool) (st : State)
    → (start_recording env r again st).waiting ≡ st.waiting
unfolding start_recording
start_recording-waiting env r again st = ground (
  arith,
  start_in_dir-waiting env r again
      (record st { db = update_recording_status r.id recording none none true env.now st.db }),
)

rotate-max :
    (env : Env) (quota total : ℕ) (olds : List Recording) (st : State)
    → (rotate env quota total olds st).max_concurrent ≡ st.max_concurrent
unfolding rotate
rotate-max env quota total [] st = refl
rotate-max env quota total (old ∷ rest) st = elim (Bool-cases (leb total quota)) [
  | inl enough ↦ rw (enough, rotate)
  | inr over ↦ elim (Option-cases old.file_path) [
    | inl nothing ↦ rw (over, nothing, rotate) (rotate-max env quota total rest st)
    | inr (path, written) ↦ elim (Bool-cases (is_capturing old.id st)) [
      | inl busy ↦ rw (over, written, busy, rotate) (rotate-max env quota total rest st)
      | inr free ↦
          rw (over, written, free, rotate)
            (rotate-max env quota (total - env.files_bytes path) rest
              (record st { db = delete_recording old.id st.db }))
    ]
  ]
]

disk-max :
    (env : Env) (st : State)
    → (check_disk_space_and_rotate env st).max_concurrent ≡ st.max_concurrent
unfolding check_disk_space_and_rotate
disk-max env st = ground (
  arith,
  rotate-max env (quota_bytes st) env.dir_bytes (get_finished_recordings_oldest_first st.db) st,
)

start_in_dir-max :
    (env : Env) (r : Recording) (again : Bool) (st : State)
    → (start_in_dir env r again st).max_concurrent ≡ st.max_concurrent
unfolding start_in_dir launch
start_in_dir-max env r again st = ground (arith, disk-max env st)

pub start_recording-max :
    (env : Env) (r : Recording) (again : Bool) (st : State)
    → (start_recording env r again st).max_concurrent ≡ st.max_concurrent
unfolding start_recording
start_recording-max env r again st = ground (
  arith,
  start_in_dir-max env r again
      (record st { db = update_recording_status r.id recording none none true env.now st.db }),
)
