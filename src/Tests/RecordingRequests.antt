-- ===== src/Tests/RecordingRequests.antt =====
-- The theorems on the routes of recordings, at concrete inputs.
use xtremflow.Base.{◌≡◌, refl, true, false, none, some, [], ◌∷◌, lookup, hours, pos}
use xtremflow.Accounts.{User}
use xtremflow.Recordings.{Recording, scheduled, get_recording_by_id}
use xtremflow.Scheduler.{State}
use xtremflow.Scheduler.Routes.{Host, Req, recordings}
use xtremflow.Scheduler.Routes.Passes.{PassRow, PassReq, pass_route}
use xtremflow.Scheduler.Routes.Twins.{Single}
use xtremflow.Scheduler.Routes.Twins.{pass_route-Single}
use xtremflow.Scheduler.Routes.Spared.{recordings_spares}

abbrev guest : User
guest = record { id = "2"; username = "guest"; is_admin = false; created_at = 0 }

abbrev match_of_other : Recording
match_of_other = record {
  id = "r1";
  user_id = "1";
  channel_id = "7";
  stream_url = "/api/live/7.ts";
  title = "Match";
  start_time = hours 20;
  end_time = hours 22;
  status = scheduled;
  file_path = none;
  error_reason = none;
  source_rule_id = none;
  playlist_id = none;
  created_at = 0;
  updated_at = 0;
}

abbrev planner : State
planner = record {
  db = match_of_other ∷ [];
  active = [];
  waiting = [];
  finalizing = [];
  last_tick = none;
  max_concurrent = 2;
  min_free_disk_mb = pos 0;
  recordings_quota_gb = pos 0;
}

abbrev server : Host
server = record {
  now = hours 1;
  new_id = "r2";
  store = record { users = []; sessions = []; playlists = []; settings = [] };
  max_hours = pos 12;
  check_stream_url = λ url. none;
  log_path = λ path. path;
  within = λ path. some path;
  read = λ path. none;
  trim = λ text. text;
  by_name = λ users. users;
  texts = record {
    normalize = λ text. text;
    lower = λ text. text;
    contains = λ text part. false;
    starts_with = λ text part. true;
    encode = λ text. text;
  };
}

-- The guest asks to delete what another user planned.
abbrev deletion : Req
deletion = record {
  method = "DELETE";
  segments = "r1" ∷ [];
  user = some guest;
  user_id = some "2";
  choice = record { in_query = none; in_header = none };
  body = none;
}

abbrev followed : PassRow
followed = record {
  id = "s1";
  user_id = "2";
  show_title = "News";
  channel_id = "7";
  stream_url = "/api/live/7.ts";
  match_mode = "exact";
  enabled = true;
  playlist_id = none;
  created_at = 0;
}

-- The guest asks for another channel.
abbrev subscription : PassReq
subscription = record {
  method = "POST";
  segments = [];
  user = some guest;
  choice = record { in_query = none; in_header = none };
  body = some (record {
    show_title = "News";
    channel_id = "8";
    stream_url = "/api/live/8.ts";
    match_mode = none;
  });
}

pass_route-Single_example :
    Single server.texts.lower
      (pass_route server ((λ url. none)) subscription ((followed ∷ [])) ([])).0
pass_route-Single_example =
    pass_route-Single server (λ url. none) subscription (followed ∷ []) [] (tt, tt)

recordings_spares_example :
    (get_recording_by_id "r1" (recordings server deletion planner).0.db ≡ some match_of_other)
    × (lookup "r1" (recordings server deletion planner).0.active ≡ lookup "r1" planner.active)
unfolding get_recording_by_id
recordings_spares_example =
    recordings_spares "r1" planner server refl deletion guest match_of_other refl refl refl refl
