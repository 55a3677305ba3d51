-- ===== src/Scheduler/Routes/Spared.antt =====
-- What a request for recordings leaves as it is.
use xtremflow.Base.{
  ℕ, ◌≡◌, refl, ◌∙◌, inl, inr, String, Bool, true, false, Option, none, some, List, [], ◌∷◌, arith,
  if◌then◌else◌, str_eq, str_eq_iff, Bool-cases, Option-cases, lookup, lookup-insert, contains_key,
  unwrap_or,
}
use xtremflow.Accounts.{User}
use xtremflow.Recordings.{
  Recording, Table, Status, scheduled, recording, completed, cancelled, failed, other_status,
  get_recording_by_id, create_recording, update_recording_status, set_recording_playlist,
  new_recording,
}
use xtremflow.Recordings.Laws.{get-update_where, get-delete_recording}
use xtremflow.Scheduler.{
  State, stop_recording, discard_recording, stop_active_recording, StopReason,
}
use xtremflow.Scheduler.Steps.{api_stop, api_delete}
use xtremflow.Scheduler.Routes.{
  Host, Req, Outcome, can_access, with_access, list_recordings, logs, delete, stop, create,
  insert_recording, attach, recordings, route, sender, scope,
}

-- The row and the capture of an identifier are the same in both states.
abbrev pub Same : String → State → State → Type 0
Same j st st' =
    (get_recording_by_id j st'.db ≡ get_recording_by_id j st.db)
    × (lookup j st'.active ≡ lookup j st.active)

get-create_recording :
    (j : String) (r : Recording) (rows : Table)
    → str_eq r.id j ≡ false
    → get_recording_by_id j (create_recording r rows) ≡ get_recording_by_id j rows
unfolding get_recording_by_id create_recording
get-create_recording j r [] other = ground (arith, other)
get-create_recording j r (s ∷ rows) other = ground (arith, get-create_recording j r rows other)

get-update_recording_status :
    (j id : String) (status : Status) (now : ℕ) (rows : Table)
    → str_eq id j ≡ false
    → get_recording_by_id j (update_recording_status id status none none false now rows)
      ≡ get_recording_by_id j rows
unfolding update_recording_status
get-update_recording_status j id status now rows other =
    get-update_where id j _ rows (λ r. refl) ∙ rw other refl

Same-stop_active_recording :
    (j id : String) (reason : StopReason) (st : State)
    → str_eq id j ≡ false
    → Same j st (stop_active_recording id reason st)
unfolding stop_active_recording
Same-stop_active_recording j id reason st other = elim (Option-cases (lookup id st.active)) [
  | inl n ↦ rw (n, stop_active_recording) (refl, refl)
  | inr (a, found) ↦
      rw (found, stop_active_recording) (refl, lookup-insert id j _ st.active ∙ rw other refl)
]

get-attach :
    (j id : String) (pid : Option String) (rows : Table)
    → str_eq id j ≡ false
    → get_recording_by_id j (attach pid id rows) ≡ get_recording_by_id j rows
unfolding set_recording_playlist
get-attach j id none rows other = refl
get-attach j id (some pid) rows other = get-update_where id j _ rows (λ r. refl) ∙ rw other refl

Same-closed :
    (j id : String) (now : ℕ) (st st' : State) (stopped : Bool) (status : Status)
    → str_eq id j ≡ false
    → Same j st st'
    → Same j st (
        if stopped then st' else elim status [
          | scheduled ↦ record st' {
            db = update_recording_status id cancelled none none false now st'.db;
          }
          | recording ↦ record st' {
            db = update_recording_status id completed none none false now st'.db;
          }
          | _ ↦ st'
        ])
Same-closed j id now st st' true status other same = same
Same-closed j id now st st' false scheduled other (row, capture) =
    (get-update_recording_status j id cancelled now st'.db other ∙ row, capture)
Same-closed j id now st st' false recording other (row, capture) =
    (get-update_recording_status j id completed now st'.db other ∙ row, capture)
Same-closed j id now st st' false completed other same = same
Same-closed j id now st st' false failed other same = same
Same-closed j id now st st' false cancelled other same = same
Same-closed j id now st st' false (other_status w) other same = same

Same-api_stop :
    (j id : String) (now : ℕ) (st : State) → str_eq id j ≡ false → Same j st (api_stop id now st)
unfolding api_stop stop_recording
Same-api_stop j id now st other = elim (Option-cases (get_recording_by_id id st.db)) [
  | inl n ↦ rw (n, api_stop) (refl, refl)
  | inr (r, found) ↦
      rw (found, api_stop)
        (Same-closed j id now st (stop_active_recording id _ st) (contains_key id st.active)
          r.status other (Same-stop_active_recording j id _ st other))
]

Same-api_delete : (j id : String) (st : State) → str_eq id j ≡ false → Same j st (api_delete id st)
unfolding api_delete discard_recording
Same-api_delete j id st other = elim (Option-cases (get_recording_by_id id st.db)) [
  | inl n ↦ rw (n, api_delete) (refl, refl)
  | inr (r, found) ↦
      let (row, capture) = Same-stop_active_recording j id _ st other in
      rw (found, api_delete)
        (get-delete_recording id j (discard_recording id st).db ∙ (rw other row), capture)
]

module _ (j : String) (st : State) where
  Same-if :
      (b : Bool) (x y : Outcome) → Same j st x.0 → Same j st y.0 → Same j st (if b then x else y).0
  Same-if true x y left right = left
  Same-if false x y left right = right

  -- A route of one recording changes no other, where it changes only that one.
  Same-with_access :
      (req : Req) (u : User) (id : String) (r : Recording) (go : Recording → Outcome)
      → req.user ≡ some u
      → u.is_admin ≡ false
      → get_recording_by_id j st.db ≡ some r
      → str_eq r.user_id u.id ≡ false
      → ((s : Recording) → str_eq id j ≡ false → Same j st (go s).0)
      → Same j st (with_access req id st go).0
  Same-with_access req u id r go sent plain found theirs rest =
      elim (Option-cases (get_recording_by_id id st.db)) [
        | inl n ↦ rw (n, with_access) (refl, refl)
        | inr (s, at_id) ↦ elim (Bool-cases (can_access req.user s)) [
          | inr barred ↦ rw (at_id, barred, with_access) (refl, refl)
          | inl may ↦
              let other : str_eq id j ≡ false =
                ground (arith, str_eq_iff id j, may, sent, plain, found, theirs, at_id) in
              rw (at_id, may, with_access) (rest s other)
        ]
      ]

  module _ (host : Host) (fresh : str_eq host.new_id j ≡ false) where
    Same-insert_recording :
        (pid : Option String) (user_id channel_id stream_url title : String) (start end_at : ℕ)
        → Same j st
            (insert_recording host pid user_id channel_id stream_url title start end_at st).0
    unfolding insert_recording new_recording
    Same-insert_recording pid user_id channel_id stream_url title start end_at =
        (get-attach j host.new_id pid _ fresh ∙ get-create_recording j _ st.db fresh, refl)

    Same-create : (req : Req) → Same j st (create host req st).0
    unfolding create
    Same-create req = elim (Option-cases (sender req)) [
      | inl n ↦ rw (n, create) (refl, refl)
      | inr (user_id, who) ↦ elim (Option-cases req.body) [
        | inl n ↦ rw (who, n, create) (refl, refl)
        | inr (fields, asked) ↦ elim (Option-cases fields.start_time) [
          | inl n ↦ (ground (arith, who, asked, n), ground (arith, who, asked, n))
          | inr (start, from) ↦ elim (Option-cases fields.end_time) [
            | inl n ↦ (ground (arith, who, asked, from, n), ground (arith, who, asked, from, n))
            | inr (end_at, to) ↦
                let (row, capture) =
                  Same-insert_recording (scope host req) user_id (unwrap_or fields.channel_id "")
                    (unwrap_or fields.stream_url "") (unwrap_or fields.title "Sans Titre") start
                    end_at in
                (
                  ground (arith, who, asked, from, to, row),
                  ground (arith, who, asked, from, to, capture),
                )
          ]
        ]
      ]
    ]

    Same-route :
        (req : Req) (u : User) (r : Recording) (segments : List String)
        → req.user ≡ some u
        → u.is_admin ≡ false
        → get_recording_by_id j st.db ≡ some r
        → str_eq r.user_id u.id ≡ false
        → Same j st (route host req st segments).0
    unfolding route list_recordings logs delete stop
    Same-route req u r [] sent plain found theirs =
        Same-if _ _ _ (refl, refl) (Same-if _ _ _ (Same-create req) (refl, refl))
    Same-route req u r (id ∷ []) sent plain found theirs =
        Same-if _ _ _
          (Same-with_access req u id r _ sent plain found theirs (λ s. Same-api_delete j id st))
          (refl, refl)
    Same-route req u r (verb ∷ id ∷ []) sent plain found theirs =
        Same-if _ _ _
          (Same-with_access req u id r _ sent plain found theirs
            (λ s. Same-api_stop j id host.now st))
          (Same-if _ _ _
            (Same-with_access req u id r _ sent plain found theirs (λ s other. (refl, refl)))
            (refl, refl))
    Same-route req u r (a ∷ b ∷ c ∷ rest) sent plain found theirs = (refl, refl)

    -- A request of a user who is no administrator, whatever it asks for, leaves a recording of
    -- somebody else and its capture as they are, where a new row gets another identifier.
    pub recordings_spares :
        (req : Req) (u : User) (r : Recording)
        → req.user ≡ some u
        → u.is_admin ≡ false
        → get_recording_by_id j st.db ≡ some r
        → str_eq r.user_id u.id ≡ false
        → (get_recording_by_id j (recordings host req st).0.db ≡ some r)
          × (lookup j (recordings host req st).0.active ≡ lookup j st.active)
    recordings_spares req u r sent plain found theirs =
        let (row, capture) = Same-route req u r req.segments sent plain found theirs in
        (row ∙ found, capture)
