-- ===== src/Sessions.antt =====
-- The transcoding sessions (services/ffmpeg_sessions.rs, `FfmpegManager`). A process is what its
-- table entry says of it: the exit code, and what stands in its playlist; folders and the texts of
-- errors are not part of the state.
pub mod Laws
use xtremflow.Base.{
  ℕ, zero, suc, ◌+◌, ◌-◌, ◌≡◌, String, Bool, true, false, not, ◌&&◌, ◌||◌, Option, none, some, List,
  [], ◌∷◌, if◌then◌else◌, str_eq, leb, ltb, ◌==◌, filter, Map, lookup, insert, remove, keys,
  is_some, ℤ, pos, negsuc, seconds, values,
}

-- `now_ms`, `Instant::now` and `SystemTime::now`.
pub record Clock : Type 0 where
  pub ms : ℕ
  pub instant : ℕ
  pub system : ℕ

-- `exit` is the exit code of a process that has ended.
pub record FfmpegSession : Type 0 where
  pub id : String
  pub exit : Option ℤ
  pub is_live : Bool
  pub started_at : ℕ
  pub last_access_ms : ℕ
  -- The number of segments in the playlist, whether it is closed, and when it was last written;
  -- none where there is no playlist.
  pub playlist : Option (ℕ × Bool × ℕ)

abbrev pub Sessions : Type 0
Sessions = Map FfmpegSession

abbrev pub exited : FfmpegSession → Bool
exited s = is_some s.exit

abbrev pub ended_well : Option ℤ → Bool
ended_well none = false
ended_well (some (pos code)) = code == 0
ended_well (some (negsuc _)) = false

abbrev pub has_endlist : Option (ℕ × Bool × ℕ) → Bool
has_endlist none = false
has_endlist (some (_, closed, _)) = closed

unfoldable pub needs_start_for : Option FfmpegSession → Bool → Bool
needs_start_for none is_live = true
needs_start_for (some s) is_live =
    if not (exited s)
    then false
    else is_live || (not (ended_well s.exit) || not (has_endlist s.playlist))

unfoldable pub needs_start : String → Bool → Sessions → Bool
unfolding needs_start_for
needs_start id is_live sessions = needs_start_for (lookup id sessions) is_live

abbrev pub touched : ℕ → FfmpegSession → FfmpegSession
touched now_ms s = record s { last_access_ms = now_ms }

-- `touch`
unfoldable pub touch : String → ℕ → Sessions → Sessions
touch id now_ms sessions = elim (lookup id sessions) [
  | none ↦ sessions
  | some s ↦ insert id (touched now_ms s) sessions
]

abbrev pub new_session : String → Bool → Clock → FfmpegSession
new_session id is_live clock = record {
  id = id;
  exit = none;
  is_live = is_live;
  started_at = clock.instant;
  last_access_ms = clock.ms;
  playlist = none;
}

-- A start of FFmpeg, where it and its folder can be had; `none` is the error.
abbrev pub spawn : String → Bool → Clock → Bool → Sessions → Sessions × Option FfmpegSession
spawn id is_live clock can_spawn sessions =
    let s = new_session id is_live clock in
    if can_spawn then (insert id s sessions, some s) else (sessions, none)

unfoldable pub get_or_start :
    String → Bool → Clock → Bool → Sessions → Sessions × Option FfmpegSession
unfolding needs_start_for
get_or_start id is_live clock can_spawn sessions = elim (lookup id sessions) [
  | none ↦ spawn id is_live clock can_spawn sessions
  | some s ↦
      if not (needs_start_for (some s) is_live)
      then (insert id (touched clock.ms s) sessions, some (touched clock.ms s))
      else spawn id is_live clock can_spawn (remove id sessions)
]

-- One look at the playlist and the process: ready, failed, or not yet.
pub data Wait : Type 0 where
  ready pending : Wait
  died : Option ℤ → Wait
  timed_out : Wait

abbrev pub segments_of : Option (ℕ × Bool × ℕ) → ℕ
segments_of none = 0
segments_of (some (n, _, _)) = n

abbrev pub is_playable : ℕ → Option (ℕ × Bool × ℕ) → Bool
is_playable min_segments none = false
is_playable min_segments (some (n, closed, _)) = leb min_segments n || (ltb 0 n && closed)

unfoldable pub look : ℕ → FfmpegSession → Wait
look min_segments s =
    if is_playable min_segments s.playlist
    then ready
    else if not (exited s)
    then pending
    else if ended_well s.exit && ltb 0 (segments_of s.playlist)
    then ready
    else died s.exit

-- What the loop sees: the session at an instant, and by how much the round that looks then takes
-- longer than its sleep of 100 ms.
pub record Polling : Type 0 where
  pub seen : ℕ → FfmpegSession
  pub overrun : ℕ → ℕ

abbrev pub poll_period : ℕ
poll_period = 100_000_000

abbrev pub after_deadline : FfmpegSession → Wait
after_deadline s = if ltb 0 (segments_of s.playlist) then ready else timed_out

-- The loop, from the instant `at` on; it is pending only where its rounds run out.
unfoldable pub wait_loop : ℕ → ℕ → Polling → ℕ → ℕ → Wait
unfolding look
wait_loop zero min_segments p deadline at = pending
wait_loop (suc rounds) min_segments p deadline at = elim (ltb at deadline) [
  | false ↦ after_deadline (p.seen at)
  | true ↦ elim (look min_segments (p.seen at)) [
    | pending ↦ wait_loop rounds min_segments p deadline (at + poll_period + p.overrun at)
    | ready ↦ ready
    | died code ↦ died code
    | timed_out ↦ timed_out
  ]
]

-- 300 rounds of 100 ms are the 30 s; one more comes to the look after the deadline.
unfoldable pub wait_for_playlist : ℕ → Polling → ℕ → Wait
unfolding wait_loop
wait_for_playlist min_segments p at = wait_loop 301 min_segments p (at + seconds 30) at

unfoldable pub kill_session : String → Sessions → Sessions
kill_session id sessions = remove id sessions

unfoldable pub kill_listed : List String → Sessions → Sessions
unfolding kill_session
kill_listed [] sessions = sessions
kill_listed (id ∷ ids) sessions = kill_listed ids (kill_session id sessions)

-- `kill_idle_siblings`; `starts_with` is that of the standard library.
abbrev pub is_stale : (String → String → Bool) → String → String → ℕ → String × FfmpegSession → Bool
is_stale starts_with prefix keep now_ms e =
    (not (str_eq e.1.id keep) && starts_with prefix e.1.id)
    && leb 30_000 (now_ms - e.1.last_access_ms)

unfoldable pub kill_idle_siblings :
    (String → String → Bool) → String → String → ℕ → Sessions → Sessions
unfolding kill_listed
kill_idle_siblings starts_with prefix keep now_ms sessions =
    kill_listed (keys (filter (is_stale starts_with prefix keep now_ms) sessions)) sessions

unfoldable pub kill_all : Sessions → Sessions
unfolding kill_listed
kill_all sessions = kill_listed (keys sessions) sessions

unfoldable pub is_stalled : Clock → FfmpegSession → Bool
is_stalled clock s = elim s.playlist [
  | none ↦ ltb (seconds 45) (clock.instant - s.started_at)
  | some (_, _, modified) ↦ ltb (seconds 45) (clock.system - modified)
]

abbrev pub idle_limit : FfmpegSession → ℕ
idle_limit s = if s.is_live then 240_000 else 900_000

-- The two tests of the loop of `reap`.
abbrev pub is_reaped : Clock → FfmpegSession → Bool
is_reaped clock s =
    ltb (idle_limit s) (clock.ms - s.last_access_ms)
    || (s.is_live && (not (exited s) && is_stalled clock s))

unfoldable pub reap_listed : Clock → List FfmpegSession → Sessions → Sessions
unfolding kill_session is_stalled
reap_listed clock [] sessions = sessions
reap_listed clock (s ∷ rest) sessions =
    reap_listed clock rest (if is_reaped clock s then kill_session s.id sessions else sessions)

unfoldable pub reap : Clock → Sessions → Sessions
unfolding reap_listed
reap clock sessions = reap_listed clock (values sessions) sessions
