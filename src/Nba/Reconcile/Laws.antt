-- ===== src/Nba/Reconcile/Laws.antt =====
-- The reconciliation leaves alone what was launched or has ended.
use xtremflow.Base.{
  ℕ, ◌≡◌, refl, sym, ◌∙◌, ◌⊎◌, inl, inr, String, true, false, not, Option, none, some, List, [],
  ◌∷◌, arith, if◌then◌else◌, str_eq, str_eq_iff, unwrap_or, Bool-cases, Option-cases, is_some,
  lookup,
}
use xtremflow.Recordings.{
  Recording, Table, is_scheduled, create_recording, new_recording, get_recording_by_id,
  update_recording_window, set_recording_source, set_recording_playlist, get_pending_recordings,
}
use xtremflow.Recordings.Laws.{get-update_where, get-delete_recording, get-id}
use xtremflow.Nba.{
  AutoRule, NbaGame, LiveBroadcast, Action, set_status, create, realign, recreate, cancel, settled,
  plan_action, recording_title,
}
use xtremflow.Nba.Reconcile.{
  Store, Round, drop_row, overlapping, new_row, book, apply_action, row_of, live_of, may_go,
  suspend_game, suspend_rule, reconcile_game, reconcile_games, reconcile,
}

-- The row, if there is one, is not the recording `id`.
abbrev pub Elsewhere : String → Option Recording → Type 0
Elsewhere id none = Unit
Elsewhere id (some r) = str_eq r.id id ≡ false

get-create :
    (id : String) (r : Recording) (rows : Table)
    → str_eq r.id id ≡ false
    → get_recording_by_id id (create_recording r rows) ≡ get_recording_by_id id rows
unfolding create_recording get_recording_by_id
get-create id r [] ne = rw ne
get-create id r (s ∷ rows) ne = ground (arith, get-create id r rows ne)

get-drop_row :
    (id : String) (row : Option Recording) (rows : Table)
    → Elsewhere id row
    → get_recording_by_id id (drop_row row rows) ≡ get_recording_by_id id rows
get-drop_row id none rows e = refl
get-drop_row id (some r) rows e = get-delete_recording r.id id rows ∙ rw e

pub get-new_row :
    (id : String) (rnd : Round) (rule : AutoRule) (g : NbaGame) (l : LiveBroadcast) (s e : ℕ)
    (rows : Table)
    → str_eq (rnd.fresh_id g) id ≡ false
    → get_recording_by_id id (new_row rnd rule g l s e rows) ≡ get_recording_by_id id rows
unfolding new_row set_recording_source set_recording_playlist new_recording
get-new_row id rnd rule g l s e rows fresh =
    let playlist = unwrap_or rnd.playlist_id "" in
    let r =
      new_recording (rnd.fresh_id g) rule.user_id l.programme.channel_id
        (rnd.stream_url l.programme.channel_id playlist) (recording_title rnd.reading g) s e
        rnd.now in
    let made = create_recording r rows in
    let sourced = set_recording_source (rnd.fresh_id g) rule.id made in
    let first : get_recording_by_id id sourced ≡ get_recording_by_id id rows =
      get-update_where (rnd.fresh_id g) id _ made (λ t. refl)
      ∙ (rw fresh (get-create id r rows fresh)) in
    let second : get_recording_by_id id (set_recording_playlist (rnd.fresh_id g) playlist sourced)
        ≡ get_recording_by_id id sourced =
      get-update_where (rnd.fresh_id g) id _ sourced (λ t. refl) ∙ rw fresh in
    elim (str_eq playlist "")
      as (λ b.
        get_recording_by_id id
          (if b then sourced else set_recording_playlist (rnd.fresh_id g) playlist sourced)
        ≡ get_recording_by_id id rows) [ true ↦ first | false ↦ second ∙ first ]

get-book :
    (id : String) (rnd : Round) (rule : AutoRule) (g : NbaGame) (live : Option LiveBroadcast)
    (row : Option Recording) (s e : ℕ) (next : NbaGame) (rows : Table)
    → str_eq (rnd.fresh_id g) id ≡ false
    → Elsewhere id row
    → get_recording_by_id id (book rnd rule g live row s e next rows).0
      ≡ get_recording_by_id id rows
unfolding book
get-book id rnd rule g live row s e next rows fresh other =
    let freed = get-drop_row id row rows other in
    elim (Bool-cases (is_some (overlapping (get_pending_recordings (drop_row row rows)) s e))) [
      | inl taken ↦ rw (taken, book) freed
      | inr free ↦ elim (Option-cases live) [
        | inl silent ↦ rw (free, silent, book) freed
        | inr (l, found) ↦
            rw (free, found, book)
              (get-new_row id rnd rule g l s e (drop_row row rows) fresh ∙ freed)
      ]
    ]

get-apply_action :
    (id : String) (rnd : Round) (rule : AutoRule) (g : NbaGame) (live : Option LiveBroadcast)
    (row : Option Recording) (a : Action) (next : NbaGame) (rows : Table)
    → str_eq (rnd.fresh_id g) id ≡ false
    → Elsewhere id row
    → get_recording_by_id id (apply_action rnd rule g live row a next rows).0
      ≡ get_recording_by_id id rows
unfolding apply_action update_recording_window
get-apply_action id rnd rule g live row (set_status s) next rows fresh other = refl
get-apply_action id rnd rule g live row cancel next rows fresh other =
    get-drop_row id row rows other
get-apply_action id rnd rule g live none (realign s e) next rows fresh other = refl
get-apply_action id rnd rule g live (some r) (realign s e) next rows fresh other =
    get-update_where r.id id _ rows (λ t. refl) ∙ rw other
get-apply_action id rnd rule g live row (create s e) next rows fresh other =
    get-book id rnd rule g live row s e next rows fresh other
get-apply_action id rnd rule g live row (recreate s e) next rows fresh other =
    get-book id rnd rule g live row s e next rows fresh other

-- The row of a game is the recording, or another one.
row_of-cases :
    (id : String) (r : Recording) (g : NbaGame) (rows : Table)
    → get_recording_by_id id rows ≡ some r
    → (row_of g rows ≡ some r) ⊎ Elsewhere id (row_of g rows)
row_of-cases id r g rows found = elim (Option-cases g.recording_id) [
  | inl unlinked ↦ inr (rw unlinked tt)
  | inr (k, link) ↦ elim (Option-cases (get_recording_by_id k rows)) [
    | inl gone ↦ inr (rw (link, gone) tt)
    | inr (s, got) ↦ elim (Bool-cases (str_eq s.id id)) [
      | inr other ↦ inr (rw (link, got) other)
      | inl same ↦
          let key : k ≡ id = sym (get-id k s rows got) ∙ (str_eq_iff s.id id).0 same in
          inl (rw (link, key) found)
    ]
  ]
]

settled_stays :
    (rule : AutoRule) (g : NbaGame) (tipoff : ℕ) (live : Option LiveBroadcast) (r : Recording)
    (now : ℕ)
    → is_some (settled (some r)) ≡ true
    → (s : _) × (plan_action rule g tipoff live (some r) now ≡ set_status s)
unfolding plan_action
settled_stays rule g tipoff live r now done = elim (Option-cases (settled (some r))) [
  | inl going ↦ absurd (no (rw going at done))
  | inr (s, over) ↦ (s, rw (over, plan_action))
]
  where
    no : false ≡ true → ⊥
    no h = cc

not_settled : (r : Recording) → is_some (settled (some r)) ≡ true → is_scheduled r.status ≡ true → ⊥
unfolding settled
not_settled r done waits = ground arith

module _ (rnd : Round) (rule : AutoRule) (id : String) (r : Recording)
    (done : is_some (settled (some r)) ≡ true) where
  reconcile_game-spares :
      (g : NbaGame) (st : Store)
      → str_eq (rnd.fresh_id g) id ≡ false
      → get_recording_by_id id st.recordings ≡ some r
      → get_recording_by_id id (reconcile_game rnd rule g st).recordings ≡ some r
  unfolding reconcile_game apply_action
  reconcile_game-spares g st fresh found = elim (Option-cases (lookup g.game_id rnd.tipoffs)) [
    | inl undated ↦ rw (undated, reconcile_game) found
    | inr (tipoff, dated) ↦ elim (row_of-cases id r g st.recordings found) [
      | inl own ↦
          let (s, stays) = settled_stays rule g tipoff (live_of rnd g tipoff) r rnd.now done in
          rw (dated, own, stays, reconcile_game, apply_action) found
      | inr other ↦
          rw (dated, reconcile_game)
            (get-apply_action id rnd rule g (live_of rnd g tipoff) (row_of g st.recordings) _ _
                st.recordings fresh other
              ∙ found)
    ]
  ]

  suspend_game-spares :
      (g : NbaGame) (st : Store)
      → get_recording_by_id id st.recordings ≡ some r
      → get_recording_by_id id (suspend_game g st).recordings ≡ some r
  unfolding suspend_game
  suspend_game-spares g st found = elim (Option-cases g.recording_id) [
    | inl unlinked ↦ rw (unlinked, suspend_game) found
    | inr (k, link) ↦ elim (Bool-cases (may_go (get_recording_by_id k st.recordings))) [
      | inr kept ↦ rw (link, kept, suspend_game) found
      | inl goes ↦ elim (Bool-cases (str_eq k id)) [
        | inl same ↦ absurd (not_settled r done (rw ((str_eq_iff k id).0 same, found) at goes))
        | inr other ↦
            rw (link, goes, suspend_game) (get-delete_recording k id st.recordings ∙ rw other found)
      ]
    ]
  ]

  reconcile_games-spares :
      (gs : List NbaGame) (st : Store)
      → ((g : NbaGame) → str_eq (rnd.fresh_id g) id ≡ false)
      → get_recording_by_id id st.recordings ≡ some r
      → get_recording_by_id id (reconcile_games rnd rule gs st).recordings ≡ some r
  unfolding reconcile_games
  reconcile_games-spares [] st fresh found = found
  reconcile_games-spares (g ∷ gs) st fresh found =
      reconcile_games-spares gs (reconcile_game rnd rule g st) fresh
        (reconcile_game-spares g st (fresh g) found)

  suspend_rule-spares :
      (gs : List NbaGame) (st : Store)
      → get_recording_by_id id st.recordings ≡ some r
      → get_recording_by_id id (suspend_rule gs st).recordings ≡ some r
  unfolding suspend_rule
  suspend_rule-spares [] st found = found
  suspend_rule-spares (g ∷ gs) st found =
      suspend_rule-spares gs (suspend_game g st) (suspend_game-spares g st found)

-- Whatever the calendar and the guide say, a round for a rule, paused or not, leaves a recording
-- that is under way, completed or failed as it is, where no new row is given its identifier.
pub reconcile-spares :
    (rnd : Round) (rule : AutoRule) (id : String) (r : Recording) (games : List NbaGame)
    (st : Store)
    → is_some (settled (some r)) ≡ true
    → ((g : NbaGame) → str_eq (rnd.fresh_id g) id ≡ false)
    → get_recording_by_id id st.recordings ≡ some r
    → get_recording_by_id id (reconcile rnd rule games st).recordings ≡ some r
unfolding reconcile
reconcile-spares rnd rule id r games st done fresh found =
    elim rule.enabled
      as (λ b.
        get_recording_by_id id
          (if not b then suspend_rule games st else reconcile_games rnd rule games st).recordings
        ≡ some r) [
          | true ↦ reconcile_games-spares rnd rule id r done games st fresh found
          | false ↦ suspend_rule-spares rnd rule id r done games st found
        ]
