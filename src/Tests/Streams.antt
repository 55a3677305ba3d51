-- ===== src/Tests/Streams.antt =====
-- The theorems on streams, at concrete inputs: a session whose encoder fails on the GPU.
use xtremflow.Base.{
  ◌==◌, ℕ, suc, ◌*◌, ◌≤◌, ◌≡◌, refl, ◌⊎◌, String, Bool, true, false, Option, none, some, List, [],
  ◌∷◌, arith, if◌then◌else◌, lookup, seconds, ℤ, pos,
}
use xtremflow.Accounts.{User, Playlist, Store}
use xtremflow.Slots.{empty, make_room}
use xtremflow.Slots.Limits.{PlaylistConfig, new_limits, max_for}
use xtremflow.Sessions.{FfmpegSession, needs_start, get_or_start, wait_for_playlist}
use xtremflow.Recordings.{Recording, Table, completed}
use xtremflow.Streaming.{
  Streaming, Answers, claim_upstream, run_session, run_with_gpu_fallback, available_at,
}
use xtremflow.Streaming.Args.{live_args, vod_args}
use xtremflow.Streaming.Names.{stream_session_id}
use xtremflow.Streaming.Health.{Play, Adds, play, plays}
use xtremflow.Streaming.NoGpu.{on_gpu, vod}
use xtremflow.Streaming.Routes.{Libraries, Ask, live_playlist, recording_playlist, stream_playlist}
use xtremflow.Streaming.Routes.Access.{OwnLive, Readable}
use xtremflow.Streaming.Routes.Laws.{Told}
use xtremflow.Streaming.Proxy.{Upstream, relay, healthy_turns, live_proxy_max_retries}
use xtremflow.Streaming.NoGpu.{plays-falls_back}
use xtremflow.Streaming.Routes.Laws.{stream_playlist-Told}
use xtremflow.Streaming.Routes.Access.{live_playlist-OwnLive, recording_playlist-Readable}
use xtremflow.Streaming.Proxy.{relay-openings}

abbrev guest : User
guest = record { id = "2"; username = "guest"; is_admin = false; created_at = 0 }

abbrev provider : Playlist
provider = record {
  id = "p1";
  user_id = "2";
  name = "p1";
  server_url = "http://panel";
  username = "u";
  password = "w";
  dns = none;
  created_at = 0;
  updated_at = 0;
}

abbrev store : Store
store = record {
  users = record { user = guest; password_hash = "hash" } ∷ [];
  sessions = [];
  playlists = provider ∷ [];
  settings = [];
}

abbrev config : PlaylistConfig
config = record { id = "p1"; dns = "http://panel"; username = "u"; password = "w" }

abbrev lib : Libraries
lib = record {
  show = λ n. "1";
  show_code = λ code. "1";
  gpu_text = λ e. true;
  redact_url = λ s. s;
  trim = λ s. s;
  to_lowercase = λ s. s;
  starts_with = λ s t. false;
  by_name = λ rows. rows;
}

abbrev dead : FfmpegSession
dead = record {
  id = "s";
  exit = some (pos 1);
  is_live = true;
  started_at = 1;
  last_access_ms = 0;
  playlist = none;
}

abbrev answers : ℕ → Answers
answers now = record {
  clock = record { ms = 0; instant = now; system = 0 };
  can_spawn = true;
  spawn_error = "";
  polling = record { seen = λ at. dead; overrun = λ at. 0 };
  stderr = "OpenEncodeSessionEx failed";
}

abbrev streaming : Streaming
streaming = record {
  world = record { sessions = []; retired = []; turbos = []; ms = 0 };
  slots = empty;
  limits = new_limits 60;
  unavailable_until = none;
  cooldown = seconds 120;
  launched = [];
  turbo_counter = 0;
}

abbrev show : ℕ → String
show n = "1"

abbrev a_live : Play
a_live = record {
  id = "live";
  is_live = true;
  want_gpu = true;
  build_args = live_args "high" "http://panel/live/u/w/7.ts";
  min_segments = 1;
  upstream = some config;
  first = answers 1;
  again = answers 2;
}

abbrev a_film : Play
a_film = record {
  id = "vod";
  is_live = false;
  want_gpu = true;
  build_args = vod_args "low" "http://panel/movie/u/w/9.mkv";
  min_segments = 1;
  upstream = some config;
  first = answers 3;
  again = answers 4;
}

abbrev films : List Play
films = a_film ∷ []

abbrev ask : Ask
ask = record {
  user = some guest;
  choice = record { in_query = some "p1"; in_header = none };
  id = "7";
  quality = "high";
  content_type = none;
  ext = none;
  start = 0;
  codec = none;
  file_exists = true;
  use_gpu = true;
  first = answers 1;
  again = answers 2;
  retry_first = answers 3;
  retry_again = answers 4;
  playlist_text = none;
  rewrite = λ s. s;
}

abbrev code_text : Option ℤ → String
code_text code = "1"

abbrev says_gpu : String → Bool
says_gpu e = true

abbrev live_build : Bool → List String
live_build = live_args "high" "http://panel/live/u/w/7.ts"

abbrev finished_match : Recording
finished_match = record {
  id = "7";
  user_id = "2";
  channel_id = "7";
  stream_url = "/api/live/7.ts";
  title = "Match";
  start_time = 1;
  end_time = 2;
  status = completed;
  file_path = some "/recordings/match.mkv";
  error_reason = none;
  source_rule_id = none;
  playlist_id = none;
  created_at = 0;
  updated_at = 0;
}

abbrev table : Table
table = finished_match ∷ []

abbrev upstreams : List Upstream
upstreams =
    record {
      chunks = (1 ∷ []) ∷ [];
      lasted = seconds 90;
      opened = λ k. if k == 2 then some 200 else none;
    }
    ∷ record { chunks = []; lasted = seconds 1; opened = λ k. none }
    ∷ []

plays-falls_back_example :
    let st' = play code_text says_gpu a_live streaming in
    Adds (λ command. on_gpu command ≡ false) st' (plays code_text says_gpu films st')
unfolding run_session run_with_gpu_fallback available_at needs_start get_or_start wait_for_playlist
    lookup claim_upstream make_room max_for
plays-falls_back_example =
    plays-falls_back code_text says_gpu show a_live films streaming (λ n. refl) refl
      (omega arith, tt) ((vod "low" "http://panel/movie/u/w/9.mkv", refl, refl), tt)

stream_playlist-Told_example :
    Told
      (stream_session_id "live" config ask.id ask.quality)
      (stream_playlist lib "live" true live_build config ask streaming)
stream_playlist-Told_example = stream_playlist-Told lib "live" true live_build config ask streaming

live_playlist-OwnLive_example :
    Adds (OwnLive store guest.id ask) streaming (live_playlist lib store ask streaming).0
live_playlist-OwnLive_example = live_playlist-OwnLive lib store guest ask streaming refl refl

recording_playlist-Readable_example :
    ((recording_playlist lib table ask streaming).0 ≡ streaming) ⊎ Readable table ask
recording_playlist-Readable_example = recording_playlist-Readable lib table ask streaming

relay-openings_example :
    (relay upstreams 0).openings ≤ live_proxy_max_retries * suc (healthy_turns upstreams)
relay-openings_example = relay-openings upstreams
