-- ===== src/Tests/Captures.antt =====
-- The theorems on the scheduler, at concrete inputs.
use xtremflow.Base.{◌≡◌, refl, inl, true, false, none, some, [], ◌∷◌, pos}
use xtremflow.Recordings.{Recording, scheduled, completed, get_recording_by_id}
use xtremflow.Scheduler.{State, Env, Closing}
use xtremflow.Scheduler.Start.{check_disk_space_and_rotate}
use xtremflow.Scheduler.Tick.{run_tick}
use xtremflow.Scheduler.Steps.{restart, here, next, ticks}
use xtremflow.Scheduler.Steps.Invariant.{Inv}
use xtremflow.Scheduler.Steps.History.{Reach-Inv}
use xtremflow.Scheduler.Start.Rotation.{rotation_spares}

abbrev env : Env
env = record {
  now = 5;
  check_stream_url = λ url. none;
  make_dir = none;
  dir_bytes = 3_000_000_000;
  files_bytes = λ path. 1_000_000_000;
  free_disk = none;
  write_error = none;
  fresh_path = λ r. "/recordings/a.ts";
  is_capture = λ path. true;
  exists = λ path. false;
  has_data = λ path. true;
  mkv_of = λ path. "/recordings/a.mkv";
  remux = λ path. none;
}

abbrev game : Recording
game = record {
  id = "r1";
  user_id = "u";
  channel_id = "7";
  stream_url = "/api/live/7.ts";
  title = "Game";
  start_time = 2;
  end_time = 9;
  status = scheduled;
  file_path = none;
  error_reason = none;
  source_rule_id = none;
  playlist_id = none;
  created_at = 1;
  updated_at = 1;
}

-- An old recording that the rotation deletes.
abbrev old_game : Recording
old_game = record game { id = "r0"; status = completed; file_path = some "/recordings/o.mkv" }

-- The game's capture, being closed.
abbrev closing : Closing
closing = record { recording = game; capture_path = "/recordings/a.ts"; last_cut = none }

abbrev st : State
st = record {
  db = old_game ∷ game ∷ [];
  active = [];
  waiting = [];
  finalizing = [];
  last_tick = none;
  max_concurrent = 1;
  min_free_disk_mb = pos 0;
  recordings_quota_gb = pos 1;
}

abbrev closing_st : State
closing_st = record st { finalizing = ("r1", closing) ∷ [] }

Reach-Inv_example : Inv (run_tick env (restart st))
Reach-Inv_example = Reach-Inv st ((refl, tt), (tt, tt)) (next here (ticks env))

rotation_spares_example :
    get_recording_by_id "r1" (check_disk_space_and_rotate env st).db ≡ some game
unfolding get_recording_by_id
rotation_spares_example = rotation_spares env st "r1" game ((refl, tt), (tt, tt)) refl (inl refl)
