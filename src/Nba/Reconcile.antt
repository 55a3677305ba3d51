-- ===== src/Nba/Reconcile.antt =====
-- The reconciliation of a rule (services/nba_autorec.rs, `reconcile`) and what stands around it:
-- overlaps, a suspended rule, the retention, the repair of artwork, the guide of beIN.
-- `games` are the rows that `get_nba_games` gives; writes of SQL succeed.
pub mod Laws
pub mod Guide
pub mod Overlaps
use xtremflow.Base.{
  ℕ, ◌+◌, ◌-◌, ◌≡◌, min, max, String, Bool, true, false, not, ◌&&◌, ◌||◌, Option, none, some, List,
  [], ◌∷◌, ◌++◌, map, if◌then◌else◌, str_eq, leb, ltb, filter, find, any, elem, abs_diff, unwrap_or,
  is_some, is_none, is_empty, Map, lookup, values, minutes, hours, days, num_minutes, ℤ, pos_part,
  is_positive,
}
use xtremflow.Recordings.{
  Recording, Table, Status, completed, is_scheduled, is_pending, is_finished, is_completed,
  new_recording, create_recording, get_pending_recordings, get_recording_by_id, delete_recording,
  update_recording_window, set_recording_source, set_recording_playlist, get_user_recordings,
}
use xtremflow.Nba.{
  EpgProgramme, Reading, LiveBroadcast, AutoRule, NbaGame, Action, set_status, create, realign,
  recreate, cancel, GameStatus, provisional, confirmed, planned, wants, find_live_broadcast,
  recording_title, plan_action, min_end,
}

abbrev pub overlaps : ℕ → ℕ → Recording → Bool
overlaps start_at end_at r = ltb r.start_time end_at && ltb start_at r.end_time

unfoldable pub overlapping : List Recording → ℕ → ℕ → Option Recording
overlapping rows start_at end_at =
    find (overlaps start_at end_at) (filter (λ r. is_pending r.status) rows)

-- `expected_window` once the tip-off is read.
abbrev pub broadcast_slot : NbaGame → ℕ → ℕ × ℕ
broadcast_slot g tipoff = elim g.epg_start [
  | none ↦ (tipoff, min_end tipoff)
  | some s ↦ elim g.epg_end [
    | none ↦ (tipoff, min_end tipoff)
    | some e ↦ (min s tipoff, max e (min_end tipoff))
  ]
]

abbrev pub slot_of : AutoRule → NbaGame → ℕ → ℕ × ℕ
slot_of rule g tipoff =
    let (s, e) = broadcast_slot g tipoff in
    (s - minutes (pos_part rule.pad_before_min), e + minutes (pos_part rule.pad_after_min))

unfoldable pub expected_window : AutoRule → NbaGame → Option (ℕ × ℕ)
expected_window rule g = elim g.tipoff_utc [
  | none ↦ none
  | some tipoff ↦ some (slot_of rule g tipoff)
]

-- The window of a game meets [start_at, end_at].
abbrev pub meets : AutoRule → ℕ → ℕ → NbaGame → Bool
meets rule start_at end_at o = elim (expected_window rule o) [
  | none ↦ false
  | some w ↦ ltb w.0 end_at && ltb start_at w.1
]

abbrev pub is_own : Option String → Recording → Bool
is_own none r = false
is_own (some id) r = str_eq r.id id

unfoldable pub slot_taken_by :
    Reading → AutoRule → NbaGame → List NbaGame → List Recording → Option String
unfolding expected_window overlapping
slot_taken_by rd rule g games rows = elim (expected_window rule g) [
  | none ↦ none
  | some (start_at, end_at) ↦
      elim (find (meets rule start_at end_at)
        (filter (λ (o : NbaGame). not (str_eq o.game_id g.game_id) && wants o) games)) [
          | some other ↦ some (recording_title rd other)
          | none ↦
              elim (overlapping (filter (λ r. not (is_own g.recording_id r)) rows) start_at
                end_at) [ none ↦ none | some r ↦ some r.title ]
        ]
]

pub record Store : Type 0 where
  pub recordings : Table
  pub games : List NbaGame

-- `update_nba_game_state`: the columns of the reconciliation, and not the decision.
unfoldable pub update_nba_game_state : NbaGame → List NbaGame → List NbaGame
update_nba_game_state g [] = []
update_nba_game_state g (o ∷ rest) =
    (if str_eq o.rule_id g.rule_id && str_eq o.game_id g.game_id
      then record g {
        home = o.home;
        away = o.away;
        home_tri = o.home_tri;
        away_tri = o.away_tri;
        tipoff_utc = o.tipoff_utc;
        decision = o.decision;
      }
      else o)
    ∷ update_nba_game_state g rest

abbrev pub unlinked : NbaGame → NbaGame
unlinked g = record g {
  recording_id = none;
  conflict = false;
  status = if is_some g.channel_id then confirmed else provisional;
}

-- `is_none_or(|r| r.status == "scheduled")`
abbrev pub may_go : Option Recording → Bool
may_go none = true
may_go (some r) = is_scheduled r.status

-- One game of a rule that is paused.
unfoldable pub suspend_game : NbaGame → Store → Store
unfolding update_nba_game_state
suspend_game g st = elim g.recording_id [
  | none ↦ st
  | some id ↦ if not (may_go (get_recording_by_id id st.recordings)) then st else record {
    recordings = delete_recording id st.recordings;
    games = update_nba_game_state (unlinked g) st.games;
  }
]

unfoldable pub suspend_rule : List NbaGame → Store → Store
unfolding suspend_game
suspend_rule [] st = st
suspend_rule (g ∷ gs) st = suspend_rule gs (suspend_game g st)

-- What a round reads besides the tables; `fresh_id` draws the identifier of a new row.
pub record Round : Type 0 where
  pub now : ℕ
  pub reading : Reading
  pub programmes : List EpgProgramme
  pub playlist_id : Option String
  pub tipoffs : Map ℕ
  pub fresh_id : NbaGame → String
  pub stream_url : String → String → String

-- Another game tips off within the hour.
abbrev pub is_nearby : NbaGame → ℕ → String × ℕ → Bool
is_nearby g tipoff o = not (str_eq o.0 g.game_id) && ltb (num_minutes (abs_diff o.1 tipoff)) 60

-- The game with the broadcast found, or without that of an earlier round where the guide, which
-- covers it, has it no more.
unfoldable pub noted : Round → NbaGame → ℕ → Option LiveBroadcast → Bool → NbaGame
noted rnd g tipoff (some l) has_row = record g {
  channel_id = if not (str_eq l.programme.channel_id "") then some l.programme.channel_id else none;
  channel_name = some l.programme.channel_label;
  epg_title = some l.programme.title;
  epg_start = some l.programme.start;
  epg_end = some l.programme.end_at;
  confidence = some l.confidence;
  conflict = false;
}
noted rnd g tipoff none has_row =
    if not (is_empty rnd.programmes) && (ltb tipoff (rnd.now + days 10) && not has_row)
    then record g {
      channel_id = none;
      channel_name = none;
      epg_title = none;
      epg_start = none;
      epg_end = none;
      confidence = none;
      conflict = false;
    }
    else record g { conflict = false }

abbrev pub drop_row : Option Recording → Table → Table
drop_row none rows = rows
drop_row (some r) rows = delete_recording r.id rows

abbrev pub keep_link : Option Recording → NbaGame → NbaGame
keep_link none g = g
keep_link (some r) g = record g { recording_id = none }

-- The row of a new recording, with its rule and its playlist.
unfoldable pub new_row : Round → AutoRule → NbaGame → LiveBroadcast → ℕ → ℕ → Table → Table
new_row rnd rule g l start_at end_at rows =
    let playlist = unwrap_or rnd.playlist_id "" in
    let id = rnd.fresh_id g in
    let r =
      new_recording id rule.user_id l.programme.channel_id
        (rnd.stream_url l.programme.channel_id playlist) (recording_title rnd.reading g) start_at
        end_at rnd.now in
    let with_rule = set_recording_source id rule.id (create_recording r rows) in
    if str_eq playlist "" then with_rule else set_recording_playlist id playlist with_rule

-- `Create` and `Recreate`: any overlap blocks.
unfoldable pub book :
    Round
    → AutoRule
    → NbaGame
    → Option LiveBroadcast
    → Option Recording
    → ℕ
    → ℕ
    → NbaGame
    → Table
    → Table × NbaGame
unfolding overlapping new_row
book rnd rule g live row start_at end_at next rows =
    let freed = drop_row row rows in
    let next' = keep_link row next in
    if is_some (overlapping (get_pending_recordings freed) start_at end_at)
    then (freed, record next' { status = confirmed; conflict = true })
    else elim live [
      | none ↦ (freed, next')
      | some l ↦ (
        new_row rnd rule g l start_at end_at freed,
        record next' { recording_id = some (rnd.fresh_id g); status = planned },
      )
    ]

unfoldable pub apply_action :
    Round
    → AutoRule
    → NbaGame
    → Option LiveBroadcast
    → Option Recording
    → Action
    → NbaGame
    → Table
    → Table × NbaGame
unfolding book
apply_action rnd rule g live row (set_status s) next rows = (rows, record next { status = s })
apply_action rnd rule g live row cancel next rows = (
  drop_row row rows,
  record next { recording_id = none; status = if is_some live then confirmed else provisional },
)
apply_action rnd rule g live row (realign start_at end_at) next rows = (
  elim row [ none ↦ rows | some r ↦ update_recording_window r.id start_at end_at rnd.now rows ],
  record next { status = planned },
)
apply_action rnd rule g live row (create start_at end_at) next rows =
    book rnd rule g live row start_at end_at next rows
apply_action rnd rule g live row (recreate start_at end_at) next rows =
    book rnd rule g live row start_at end_at next rows

abbrev pub row_of : NbaGame → Table → Option Recording
row_of g rows = elim g.recording_id [ none ↦ none | some id ↦ get_recording_by_id id rows ]

abbrev pub live_of : Round → NbaGame → ℕ → Option LiveBroadcast
live_of rnd g tipoff =
    find_live_broadcast rnd.reading g.home_tri g.away_tri tipoff
      (any (is_nearby g tipoff) rnd.tipoffs) rnd.programmes

-- One game of the loop; its row is written whether it changed or not, which is the same.
unfoldable pub reconcile_game : Round → AutoRule → NbaGame → Store → Store
unfolding apply_action noted update_nba_game_state
reconcile_game rnd rule g st = elim (lookup g.game_id rnd.tipoffs) [
  | none ↦ st
  | some tipoff ↦
      let live = live_of rnd g tipoff in
      let row = row_of g st.recordings in
      let action = plan_action rule g tipoff live row rnd.now in
      let done =
        apply_action rnd rule g live row action (noted rnd g tipoff live (is_some row))
          st.recordings in
      record { recordings = done.0; games = update_nba_game_state done.1 st.games }
]

unfoldable pub reconcile_games : Round → AutoRule → List NbaGame → Store → Store
unfolding reconcile_game
reconcile_games rnd rule [] st = st
reconcile_games rnd rule (g ∷ gs) st = reconcile_games rnd rule gs (reconcile_game rnd rule g st)

unfoldable pub reconcile : Round → AutoRule → List NbaGame → Store → Store
unfolding reconcile_games suspend_rule
reconcile rnd rule games st =
    if not rule.enabled then suspend_rule games st else reconcile_games rnd rule games st
