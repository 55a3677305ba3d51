-- ===== src/Scheduler/Steps/History.antt =====
-- The invariant over every history of the scheduler, and what follows from it.
use xtremflow.Base.{
  ℕ, ◌≡◌, refl, inl, inr, String, Bool, true, false, Option, none, some, [], ◌∷◌, arith,
  Option-cases, Bool-cases, str_eq, str_eq_iff, lookup, insert, remove, keys, contains_key,
  lookup-insert, lookup-remove, remove-Distinct, All-append, All-remove, length-remove-le,
}
use xtremflow.Recordings.{
  Recording, Status, scheduled, recording, completed, cancelled, failed, no_data, kept_as_ts,
  is_scheduled, get_recording_by_id, create_recording, update_recording_window,
  update_recording_status,
}
use xtremflow.Recordings.Laws.{Unique, create-Unique, update_where-Unique, All-update_where}
use xtremflow.Scheduler.{
  State, Env, Active, Closing, StopReason, window, user, shutdown, discard, is_capturing,
  stop_recording, discard_recording, stop_active_recording,
}
use xtremflow.Scheduler.Finalize.{
  finalize_capture, end_capture, close_capture, closing_of, dropped, converted,
}
use xtremflow.Scheduler.Steps.{
  Step, ticks, stops, deletes, creates, realigns, ends, closes, shuts_down, restarts, Reach, here,
  next, api_stop, api_delete, restart,
}
use xtremflow.Scheduler.Steps.Invariant.{Keyed, Inv, update-Inv, delete-Inv}
use xtremflow.Scheduler.Steps.Moves.{run_tick-Inv, stop-Inv, stop_all-Inv}

module _ (id : String) (now : ℕ) (st : State) (v : Inv st) where
  by_hand :
      (s : Status)
      → Inv (elim s [
        | scheduled ↦ record st {
          db = update_recording_status id cancelled none none false now st.db;
        }
        | recording ↦ record st {
          db = update_recording_status id completed none none false now st.db;
        }
        | _ ↦ st
      ])
  by_hand scheduled = update-Inv id cancelled none none false now st refl v
  by_hand recording = update-Inv id completed none none false now st refl v
  by_hand s = v

api_stop-Inv : (id : String) (now : ℕ) (st : State) → Inv st → Inv (api_stop id now st)
unfolding api_stop stop_recording
api_stop-Inv id now st v = elim (Option-cases (get_recording_by_id id st.db)) [
  | inl missing ↦ rw (missing, api_stop) v
  | inr (r, found) ↦
      let v' = stop-Inv id user st v in
      elim (Bool-cases (contains_key id st.active)) [
        | inl stopped ↦ rw (found, stopped, api_stop) v'
        | inr idle ↦
            rw (found, idle, api_stop)
              (by_hand id now (stop_active_recording id user st) v' r.status)
      ]
]

api_delete-Inv : (id : String) (st : State) → Inv st → Inv (api_delete id st)
unfolding api_delete discard_recording
api_delete-Inv id st v = elim (Option-cases (get_recording_by_id id st.db)) [
  | inl missing ↦ rw (missing, api_delete) v
  | inr (r, found) ↦ rw (found, api_delete) (delete-Inv id _ (stop-Inv id discard st v))
]

-- A new row under an identifier that no capture has.
create-Inv :
    (r : Recording) (st : State)
    → get_recording_by_id r.id st.db ≡ none
    → is_capturing r.id st ≡ false
    → Inv st
    → Inv (record st { db = create_recording r st.db })
unfolding is_capturing create_recording
create-Inv r st fresh free v = record {
  distinct = v.distinct;
  capped = v.capped;
  keyed = v.keyed;
  unique = create-Unique r st.db fresh v.unique;
  busy = λ j c.
      All-append (λ s. str_eq s.id j ≡ true → is_scheduled s.status ≡ false) st.db (r ∷ [])
        (v.busy j c) (λ same. other j c same, tt);
}
  where
    other :
        (j : String)
        → is_capturing j st ≡ true
        → str_eq r.id j ≡ true
        → is_scheduled r.status ≡ false
    other j c same =
        let key : r.id ≡ j = (str_eq_iff r.id j).0 same in absurd (both (rw key at free) c)
      where
        both : {b : Bool} → b ≡ false → b ≡ true → ⊥
        both e f = cc

realign-Inv :
    (id : String) (start end_at now : ℕ) (st : State)
    → Inv st
    → Inv (record st { db = update_recording_window id start end_at now st.db })
unfolding is_capturing update_recording_window
realign-Inv id start end_at now st v = record {
  distinct = v.distinct;
  capped = v.capped;
  keyed = v.keyed;
  unique = update_where-Unique id _ (λ r. refl) st.db v.unique;
  busy = λ j c.
      All-update_where (λ s. str_eq s.id j ≡ true → is_scheduled s.status ≡ false) id _
        (λ r same h. h) st.db (v.busy j c);
}

-- A capture is dropped.
dropped-Inv : (id : String) (st : State) → Inv st → Inv (dropped id st)
unfolding is_capturing
dropped-Inv id st v = record {
  distinct = remove-Distinct id st.active v.distinct;
  capped = omega (arith, length-remove-le id st.active, v.capped);
  keyed = All-remove Keyed id st.active v.keyed;
  unique = v.unique;
  busy = λ j c.
      v.busy j (ground (arith, lookup-remove id j st.active, lookup-remove id j st.finalizing));
}

-- A capture becomes a closing.
move-Inv :
    (id : String) (a : Active) (st : State)
    → lookup id st.active ≡ some a
    → Inv st
    → Inv (record st {
      active = remove id st.active;
      finalizing = insert id (closing_of a) st.finalizing;
    })
unfolding is_capturing
move-Inv id a st found v = record {
  distinct = remove-Distinct id st.active v.distinct;
  capped = omega (arith, length-remove-le id st.active, v.capped);
  keyed = All-remove Keyed id st.active v.keyed;
  unique = v.unique;
  busy = λ j c. v.busy j (
      ground (
        arith,
        found,
        lookup-remove id j st.active,
        lookup-insert id j (closing_of a) st.finalizing,
        str_eq_iff id j,
      ));
}

module _ (id : String) (a : Active) (st : State) (left : Inv (dropped id st))
    (moved : Inv (record st {
      active = remove id st.active;
      finalizing = insert id (closing_of a) st.finalizing;
    })) where
  by_reason :
      (reason : Option StopReason)
      → Inv (elim reason [
        | some shutdown ↦ dropped id st
        | some discard ↦ dropped id st
        | _ ↦ record st {
          active = remove id st.active;
          finalizing = insert id (closing_of a) st.finalizing;
        }
      ])
  by_reason none = moved
  by_reason (some shutdown) = left
  by_reason (some discard) = left
  by_reason (some window) = moved
  by_reason (some user) = moved

end_capture-Inv : (id : String) (st : State) → Inv st → Inv (end_capture id st)
unfolding end_capture
end_capture-Inv id st v = elim (Option-cases (lookup id st.active)) [
  | inl missing ↦ rw (missing, end_capture) v
  | inr (a, found) ↦
      let left = dropped-Inv id st v in
      let moved = move-Inv id a st found v in
      rw (found, end_capture) (by_reason id a st left moved a.stop_reason)
]

finalize_capture-Inv :
    (env : Env) (c : Closing) (st : State) → Inv st → Inv (finalize_capture env c st)
unfolding finalize_capture
finalize_capture-Inv env c st v = elim (Bool-cases (env.has_data c.capture_path)) [
  | inl some_data ↦ rw some_data (
      update-Inv c.recording.id completed (some (converted env c.capture_path).0)
        (elim (converted env c.capture_path).1 [ none ↦ none | some e ↦ some kept_as_ts ]) false
        env.now st refl v)
  | inr nothing ↦
      rw nothing
        (update-Inv c.recording.id failed none (some (no_data c.last_cut)) false env.now st refl v)
]

close_capture-Inv : (env : Env) (id : String) (st : State) → Inv st → Inv (close_capture env id st)
unfolding close_capture is_capturing
close_capture-Inv env id st v = elim (Option-cases (lookup id st.finalizing)) [
  | inl missing ↦ rw (missing, close_capture) v
  | inr (c, found) ↦
      let v' = finalize_capture-Inv env c st v in
      rw (found, close_capture)
        (record {
          distinct = v'.distinct;
          capped = v'.capped;
          keyed = v'.keyed;
          unique = v'.unique;
          busy = λ j e.
              v'.busy j (ground (arith, lookup-remove id j (finalize_capture env c st).finalizing));
        })
]

restart-Inv : (st : State) → Inv st → Inv (restart st)
unfolding restart is_capturing lookup
restart-Inv st v = record {
  distinct = tt;
  capped = omega arith;
  keyed = tt;
  unique = v.unique;
  busy = λ j c. cc;
}

-- Every step keeps the invariant.
pub Step-Inv : {st st' : State} → Step st st' → Inv st → Inv st'
Step-Inv {st} (ticks env) v = run_tick-Inv env st v
Step-Inv {st} (stops id now) v = api_stop-Inv id now st v
Step-Inv {st} (deletes id) v = api_delete-Inv id st v
Step-Inv {st} (creates r fresh free) v = create-Inv r st fresh free v
Step-Inv {st} (realigns id start end_at now) v = realign-Inv id start end_at now st v
Step-Inv {st} (ends id) v = end_capture-Inv id st v
Step-Inv {st} (closes env id) v = close_capture-Inv env id st v
Step-Inv {st} shuts_down v = stop_all-Inv (keys st.active) st v
Step-Inv {st} restarts v = restart-Inv st v

-- After any history that starts from a restarted server over a table with unique identifiers: the
-- captures under way are at most MAX_CONCURRENT_RECORDINGS, each under its own identifier, and no
-- recording that is being captured or closed has a row that is still to start.
pub Reach-Inv : (st : State) {st' : State} → Unique st.db → Reach (restart st) st' → Inv st'
unfolding restart is_capturing lookup
Reach-Inv st u here = record {
  distinct = tt;
  capped = omega arith;
  keyed = tt;
  unique = u;
  busy = λ j c. cc;
}
Reach-Inv st u (next r s) = Step-Inv s (Reach-Inv st u r)
