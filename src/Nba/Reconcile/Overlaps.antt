-- ===== src/Nba/Reconcile/Overlaps.antt =====
-- One stream at a time: what the checks on overlapping windows rule out.
use xtremflow.Base.{
  ℕ, ◌≤◌, ◌<◌, refl, sym, ◌∙◌, String, arith, unwrap_or, str_eq_iff, some-value, Among, All-Among,
  Among-All, All-filter, All-map, ◌≡◌, ◌⊎◌, inl, inr, Bool, true, false, not, ◌&&◌, Option, none,
  some, List, [], ◌∷◌, str_eq, Bool-cases, Option-cases, filter, find, All, some-ne-none,
}
use xtremflow.Recordings.{
  Recording, Table, scheduled, is_pending, get_pending_recordings, get_recording_by_id,
  create_recording, new_recording, set_recording_source, set_recording_playlist,
}
use xtremflow.Recordings.Laws.{get-update_where}
use xtremflow.Nba.Reconcile.Laws.{get-new_row}
use xtremflow.Nba.{Reading, AutoRule, NbaGame, LiveBroadcast, wants, recording_title}
use xtremflow.Nba.Reconcile.{
  Round, overlaps, overlapping, expected_window, meets, is_own, slot_taken_by, drop_row, new_row,
  book,
}

module _ {ℓ} {A : Type ℓ} where
  find-none : (p : A → Bool) (xs : List A) → find p xs ≡ none → All (λ x. p x ≡ false) xs
  find-none p [] e = tt
  find-none p (x ∷ xs) e = elim (Bool-cases (p x)) [
    | inl passes ↦ absurd (some-ne-none (rw passes at e))
    | inr fails ↦ (fails, find-none p xs (rw fails at e))
  ]

clash : {b : Bool} → b ≡ false → b ≡ true → ⊥
clash e f = cc

module _ {ℓ κ} {A : Type ℓ} (P : A → Type κ) (q : A → Bool) where
  All-unfiltered : (xs : List A) → All P (filter q xs) → All (λ x. q x ≡ true → P x) xs
  All-unfiltered [] h = tt
  All-unfiltered (x ∷ xs) h = elim (Bool-cases (q x)) [
    | inl passes ↦
        let both : P x × All P (filter q xs) = rw passes at h in
        (λ _. both.0, All-unfiltered xs both.1)
    | inr fails ↦ (λ passes. absurd (clash fails passes), All-unfiltered xs (rw fails at h))
  ]

-- The free slot: no pending row meets it.
overlapping-none :
    (rows : List Recording) (s e : ℕ)
    → overlapping rows s e ≡ none
    → All (λ r. is_pending r.status ≡ true → overlaps s e r ≡ false) rows
unfolding overlapping
overlapping-none rows s e h =
    All-unfiltered (λ r. overlaps s e r ≡ false) (λ r. is_pending r.status) rows
      (find-none (overlaps s e) (filter (λ r. is_pending r.status) rows) h)

-- Where a slot is reported free, no other game that the user accepted has a window that meets it,
-- and no pending recording but the game's own does.
pub slot_taken_by-none :
    (rd : Reading) (rule : AutoRule) (g : NbaGame) (games : List NbaGame) (rows : List Recording)
    (s e : ℕ)
    → expected_window rule g ≡ some (s, e)
    → slot_taken_by rd rule g games rows ≡ none
    → All
        (λ (o : NbaGame).
          (not (str_eq o.game_id g.game_id) && wants o) ≡ true → meets rule s e o ≡ false)
        games
      × All
          (λ r.
            not (is_own g.recording_id r) ≡ true
            → is_pending r.status ≡ true
            → overlaps s e r ≡ false)
          rows
unfolding slot_taken_by
slot_taken_by-none rd rule g games rows s e dated free =
    let chosen = filter (λ (o : NbaGame). not (str_eq o.game_id g.game_id) && wants o) games in
    let others = filter (λ r. not (is_own g.recording_id r)) rows in
    elim (Option-cases (find (meets rule s e) chosen)) [
      | inr (o, taken) ↦ absurd (some-ne-none (rw (dated, taken, slot_taken_by) at free))
      | inl apart ↦ elim (Option-cases (overlapping others s e)) [
        | inr (r, taken) ↦ absurd (some-ne-none (rw (dated, apart, taken, slot_taken_by) at free))
        | inl clear ↦ (
          All-unfiltered (λ o. meets rule s e o ≡ false) _ games
              (find-none (meets rule s e) chosen apart),
          All-unfiltered (λ r. is_pending r.status ≡ true → overlaps s e r ≡ false) _ rows
              (overlapping-none others s e clear),
        )
      ]
    ]

-- Two windows have no instant in common.
abbrev pub Disjoint : ℕ → ℕ → Recording → Type 0
Disjoint s e r = (e ≤ r.start_time) ⊎ (r.end_time ≤ s)

overlaps-Disjoint : (s e : ℕ) (r : Recording) → overlaps s e r ≡ false → Disjoint s e r
overlaps-Disjoint s e r apart = ground (arith, apart)

module _ {A : Type 0} where
  find-some : (p : A → Bool) (xs : List A) (x : A) → find p xs ≡ some x → (p x ≡ true) × Among x xs
  find-some p [] x e = absurd (some-ne-none (sym e))
  find-some p (y ∷ xs) x e = elim (Bool-cases (p y)) [
    | inl passes ↦
        let same : y ≡ x = some-value (rw passes at e) in (rw (← same) passes, inl (sym same))
    | inr fails ↦ let (passes, among) = find-some p xs x (rw fails at e) in (passes, inr among)
  ]

  Among-filter : (q : A → Bool) (xs : List A) (x : A) → Among x (filter q xs) → Among x xs
  Among-filter q xs x a =
      Among-All (λ y. Among y xs) (filter q xs) x (All-filter _ q xs (All-Among xs)) a

-- The row that `book` inserts.
abbrev pub Booked : Round → NbaGame → ℕ → ℕ → Table → Type 0
Booked rnd g s e rows =
    (r : Recording) × (get_recording_by_id (rnd.fresh_id g) rows ≡ some r)
    × (r.start_time ≡ s)
    × (r.end_time ≡ e)
    × (r.status ≡ scheduled)

get-created :
    (r : Recording) (rows : Table)
    → get_recording_by_id r.id rows ≡ none
    → get_recording_by_id r.id (create_recording r rows) ≡ some r
unfolding get_recording_by_id create_recording
get-created r [] absent = ground (arith, str_eq_iff r.id r.id)
get-created r (t ∷ rows) absent = ground (arith, absent, get-created r rows)

new_row-Booked :
    (rnd : Round) (rule : AutoRule) (g : NbaGame) (l : LiveBroadcast) (s e : ℕ) (rows : Table)
    → get_recording_by_id (rnd.fresh_id g) rows ≡ none
    → Booked rnd g s e (new_row rnd rule g l s e rows)
unfolding new_row set_recording_source set_recording_playlist new_recording
new_row-Booked rnd rule g l s e rows absent =
    let id = rnd.fresh_id g in
    let playlist = unwrap_or rnd.playlist_id "" in
    let r =
      new_recording id rule.user_id l.programme.channel_id
        (rnd.stream_url l.programme.channel_id playlist) (recording_title rnd.reading g) s e
        rnd.now in
    let made = create_recording r rows in
    let self : str_eq id id ≡ true = ground (arith, str_eq_iff id id) in
    let sourced = set_recording_source id rule.id made in
    let first : get_recording_by_id id sourced ≡ some (record r { source_rule_id = some rule.id }) =
      get-update_where id id _ made (λ t. refl) ∙ rw (self, get-created r rows absent) refl in
    let second : get_recording_by_id id (set_recording_playlist id playlist sourced)
        ≡ some (record r { source_rule_id = some rule.id; playlist_id = some playlist }) =
      get-update_where id id _ sourced (λ t. refl) ∙ rw (self, first) refl in
    elim (Bool-cases (str_eq playlist "")) [
      | inl unbound ↦
          (record r { source_rule_id = some rule.id }, rw unbound first, refl, refl, refl)
      | inr bound ↦ (
        record r { source_rule_id = some rule.id; playlist_id = some playlist },
        rw bound second,
        refl,
        refl,
        refl,
      )
    ]

-- Where an identifier is drawn that no row has: either a pending recording that is left has an
-- instant in common with the window, nothing is inserted and the game is in conflict; or none has,
-- and exactly one scheduled row over the window is inserted, to which the game points.
pub book_apart :
    (rnd : Round) (rule : AutoRule) (g : NbaGame) (l : LiveBroadcast) (row : Option Recording)
    (s e : ℕ) (next : NbaGame) (rows : Table)
    → get_recording_by_id (rnd.fresh_id g) (drop_row row rows) ≡ none
    → let done = book rnd rule g (some l) row s e next rows in
      let freed = drop_row row rows in
      ((done.0 ≡ freed)
        × (done.1.conflict ≡ true)
        × ((r : Recording) × Among r (get_pending_recordings freed)
            × (r.start_time < e)
            × (s < r.end_time)))
      ⊎ (Booked rnd g s e done.0
          × (done.1.recording_id ≡ some (rnd.fresh_id g))
          × ((id : String)
              → str_eq (rnd.fresh_id g) id ≡ false
              → get_recording_by_id id done.0 ≡ get_recording_by_id id freed)
          × All (λ r. is_pending r.status ≡ true → Disjoint s e r) (get_pending_recordings freed))
unfolding book overlapping
book_apart rnd rule g l row s e next rows absent =
    let freed = drop_row row rows in
    let pending = get_pending_recordings freed in
    elim (Option-cases (overlapping pending s e)) [
      | inr (r, taken) ↦
          let (meets, among) = find-some _ (filter (λ t. is_pending t.status) pending) r taken in
          inl (
            rw (taken, book),
            rw (taken, book),
            (r, Among-filter _ pending r among, ground (arith, meets), ground (arith, meets)),
          )
      | inl free ↦ inr (
        rw (free, book) (new_row-Booked rnd rule g l s e freed absent),
        rw (free, book),
        λ id other. rw (free, book) (get-new_row id rnd rule g l s e freed other),
        All-map _ _ (λ r apart waits. overlaps-Disjoint s e r (apart waits)) pending
            (overlapping-none pending s e free),
      )
    ]
