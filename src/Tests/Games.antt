-- ===== src/Tests/Games.antt =====
-- The theorems on the recordings of NBA games, at concrete inputs.
use xtremflow.Base.{
  Among, ℕ, ◌<◌, ◌≡◌, refl, ◌≢◌, ◌↔◌, ◌⊎◌, String, true, false, none, some, [], ◌∷◌, str_eq, All,
  pos,
}
use xtremflow.Recordings.{
  Recording, scheduled, recording, is_pending, get_recording_by_id, get_pending_recordings,
  delete_recording,
}
use xtremflow.Nba.Reconcile.Overlaps.{Booked, Disjoint}
use xtremflow.Nba.{
  EpgProgramme, Reading, LiveBroadcast, AutoRule, NbaGame, provisional, accepted, planned,
  set_status, create, cancel, recreate, wanted_teams, in_window, rate, find_live_broadcast,
  recording_window, plan_action, wants, settled,
}
use xtremflow.Nba.Broadcast.{Sound, AtLeast}
use xtremflow.Nba.Plan.{Founded}
use xtremflow.Nba.Reconcile.{Store, Round, reconcile, drop_row, book}
use xtremflow.Nba.Broadcast.{find_live_broadcast-Sound, find_live_broadcast_greatest}
use xtremflow.Nba.Plan.{plan_action_window, plan_action_cancel}
use xtremflow.Nba.Reconcile.Laws.{reconcile-spares}
use xtremflow.Nba.Reconcile.Overlaps.{book_apart}

-- A reading that finds two teams in every text.
abbrev reading : Reading
reading = record {
  by_abbr = λ abbr. some (abbr, abbr);
  extract_teams = λ txt. "LAL" ∷ "BOS" ∷ [];
  mentions_nba = λ txt. true;
  says_rerun = λ txt. false;
  says_live = λ txt. false;
  normalize = λ txt. txt;
}

abbrev tipoff : ℕ
tipoff = 100_000_000_000_000

abbrev programme : EpgProgramme
programme = record {
  channel_id = "7";
  channel_label = "beIN SPORTS 1";
  title = "Lakers - Celtics";
  description = "";
  start = 100_000_000_000_000;
  end_at = 110_000_000_000_000;
  is_live = true;
  previously_shown = false;
}

abbrev live : LiveBroadcast
live = record { programme = programme; confidence = 100 }

abbrev rule : AutoRule
rule = record {
  id = "rule";
  user_id = "u";
  enabled = true;
  channel_ids = [];
  pad_before_min = pos 0;
  pad_after_min = pos 0;
  keep_days = some (pos 1);
  playlist_id = none;
}

abbrev game : NbaGame
game = record {
  game_id = "g";
  rule_id = "rule";
  home = "Lakers";
  away = "Celtics";
  home_tri = "LAL";
  away_tri = "BOS";
  tipoff_utc = some tipoff;
  status = provisional;
  decision = accepted;
  channel_id = none;
  channel_name = none;
  epg_title = none;
  epg_start = none;
  epg_end = none;
  recording_id = some "r1";
  confidence = none;
  conflict = false;
}

abbrev row : Recording
row = record {
  id = "r1";
  user_id = "u";
  channel_id = "7";
  stream_url = "/api/live/7.ts";
  title = "Game";
  start_time = 100_000_000_000_000;
  end_time = 110_000_000_000_000;
  status = recording;
  file_path = none;
  error_reason = none;
  source_rule_id = some "rule";
  playlist_id = none;
  created_at = 1;
  updated_at = 1;
}

abbrev waiting_row : Recording
waiting_row = record row { status = scheduled }

abbrev rnd : Round
rnd = record {
  now = 5;
  reading = reading;
  programmes = programme ∷ [];
  playlist_id = none;
  tipoffs = ("g", tipoff) ∷ [];
  fresh_id = λ g. "r9";
  stream_url = λ channel playlist. "/api/live/7.ts";
}

abbrev store : Store
store = record { recordings = row ∷ []; games = game ∷ [] }

find_live_broadcast-Sound_example : Sound reading (wanted_teams reading "LAL" "BOS") tipoff live
unfolding find_live_broadcast rate
find_live_broadcast-Sound_example =
    find_live_broadcast-Sound reading "LAL" "BOS" tipoff false (programme ∷ []) live refl

find_live_broadcast_greatest_example :
    All
      (λ p.
        (a : LiveBroadcast)
        → in_window tipoff p ≡ true
        → rate reading (wanted_teams reading "LAL" "BOS") tipoff false p ≡ some a
        → (c : LiveBroadcast) × (find_live_broadcast reading "LAL" "BOS" tipoff false
              (programme ∷ [])
            ≡ some c)
          × AtLeast tipoff c a)
      (programme ∷ [])
find_live_broadcast_greatest_example =
    find_live_broadcast_greatest reading "LAL" "BOS" tipoff false (programme ∷ [])

plan_action_window_example :
    Founded rule game tipoff (some live) 5 100_000_000_000_000 110_000_000_000_000
unfolding plan_action recording_window
plan_action_window_example =
    plan_action_window rule game tipoff (some live) none 5 100_000_000_000_000 110_000_000_000_000
      refl

plan_action_cancel_example :
    ((plan_action rule game tipoff (some live) (some waiting_row) 5 ≡ cancel)
      ↔ (wants game ≡ false))
    × ((s e : ℕ) → plan_action rule game tipoff (some live) (some waiting_row) 5 ≢ create s e)
    × ((s e : ℕ)
        → plan_action rule game tipoff (some live) (some waiting_row) 5 ≡ recreate s e
        → (l : LiveBroadcast) × ((some live) ≡ some l)
          × (str_eq waiting_row.channel_id l.programme.channel_id ≡ false))
    × ((some live) ≡ none
        → wants game ≡ true
        → plan_action rule game tipoff (some live) (some waiting_row) 5 ≡ set_status planned)
plan_action_cancel_example = plan_action_cancel rule game tipoff (some live) waiting_row 5 refl

reconcile-spares_example :
    get_recording_by_id "r1" (reconcile rnd rule (game ∷ []) store).recordings ≡ some row
unfolding get_recording_by_id settled
reconcile-spares_example =
    reconcile-spares rnd rule "r1" row (game ∷ []) store refl (λ g. refl) refl

book_apart_example :
    let done =
      book rnd rule game
        (some live)
        (some waiting_row)
        100_000_000_000_000
        110_000_000_000_000
        game
        (waiting_row ∷ []) in
    let freed = drop_row (some waiting_row) (waiting_row ∷ []) in
    ((done.0 ≡ freed)
      × (done.1.conflict ≡ true)
      × ((r : Recording) × Among r (get_pending_recordings freed)
          × (r.start_time < 110_000_000_000_000)
          × (100_000_000_000_000 < r.end_time)))
    ⊎ (Booked rnd game 100_000_000_000_000 110_000_000_000_000 done.0
        × (done.1.recording_id ≡ some (rnd.fresh_id game))
        × ((id : String)
            → str_eq (rnd.fresh_id game) id ≡ false
            → get_recording_by_id id done.0 ≡ get_recording_by_id id freed)
        × All
            (λ r. is_pending r.status ≡ true → Disjoint 100_000_000_000_000 110_000_000_000_000 r)
            (get_pending_recordings freed))
unfolding get_recording_by_id delete_recording
book_apart_example =
    book_apart rnd rule game live (some waiting_row) 100_000_000_000_000 110_000_000_000_000 game
      (waiting_row ∷ []) refl
