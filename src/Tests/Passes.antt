-- ===== src/Tests/Passes.antt =====
-- The theorems on season passes and on segments, at concrete inputs.
use xtremflow.Base.{
  ℕ, ◌+◌, ◌≡◌, refl, String, true, false, none, some, List, [], ◌∷◌, str_eq, seconds, minutes,
}
use xtremflow.Accounts.{Playlist, Store}
use xtremflow.Recordings.{Recording, Table, completed, get_recording_by_id}
use xtremflow.SeasonPass.{SeasonPass, Listing, Scan, scan_season_pass}
use xtremflow.Streaming.Dispatch.{TextTests, live_route, vod_route, recording_route}
use xtremflow.Streaming.Dispatch.Segments.{Plain}
use xtremflow.SeasonPass.Spared.{scan_season_pass-spares}
use xtremflow.Streaming.Dispatch.Segments.{routes-Plain}

abbrev scan : Scan
scan = record {
  texts = record {
    normalize = λ s. s;
    lower = λ s. s;
    contains = λ s t. true;
    starts_with = λ s t. false;
    encode = λ s. s;
  };
  now = seconds 1;
  max_per_scan = 1;
}

abbrev pass : SeasonPass
pass = record {
  user_id = "2";
  show_title = "News";
  channel_id = "7";
  stream_url = "/api/live/7.ts";
  match_mode = "contains";
  playlist_id = "p1";
}

abbrev episode : String → ℕ → Listing
episode id start = record { title = "News"; window = some (start, start + seconds 60); new_id = id }

abbrev listings : List Listing
listings = episode "r2" (minutes 10) ∷ episode "r3" (minutes 100) ∷ []

abbrev provider : Playlist
provider = record {
  id = "p1";
  user_id = "2";
  name = "p1";
  server_url = "http://panel";
  username = "u";
  password = "w";
  dns = none;
  created_at = 0;
  updated_at = 0;
}

abbrev store : Store
store = record { users = []; sessions = []; playlists = provider ∷ []; settings = [] }

abbrev done : Recording
done = record {
  id = "r1";
  user_id = "2";
  channel_id = "7";
  stream_url = "/api/live/7.ts";
  title = "News";
  start_time = minutes 10;
  end_time = minutes 11;
  status = completed;
  file_path = none;
  error_reason = none;
  source_rule_id = none;
  playlist_id = none;
  created_at = 0;
  updated_at = 0;
}

abbrev rows : Table
rows = done ∷ []

abbrev tests : TextTests
tests = record { contains = λ s t. str_eq s "../x"; stem = λ s. none; key_ok = λ s. true }

abbrev path : List String
path = "7" ∷ "high" ∷ "seg_001.ts" ∷ []

scan_season_pass-spares_example :
    get_recording_by_id "r1" (scan_season_pass scan pass (some listings) store rows) ≡ some done
unfolding get_recording_by_id
scan_season_pass-spares_example =
    scan_season_pass-spares scan pass listings store rows "r1" done (tt, tt)
      (refl, (refl, tt), (refl, tt, tt)) refl refl

routes-Plain_example :
    Plain tests (live_route tests true (some "p1") (some "low") path)
    × Plain tests (vod_route tests true (some "p1") (some "low") path)
    × Plain tests (recording_route tests true path)
routes-Plain_example = routes-Plain tests true (some "p1") (some "low") path
