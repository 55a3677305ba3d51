-- ===== src/Lib.antt =====
-- The recording and streaming server of xtremflow (server/src), modelled and proved.
--
-- The server keeps a table of recordings (db.rs), which a scheduler turns into captures
-- (services/recording_scheduler.rs); automatic rules for NBA games insert, move and drop rows
-- (services/nba_autorec.rs); every open connection to a provider is registered, so that orphaned
-- ones can be cut for a new one (services/upstream_slots.rs); players watch through FFmpeg
-- processes (services/ffmpeg_sessions.rs).
--
-- Base: lists, maps, sorting, integers and durations. A map is an association list; an instant
--   counts nanoseconds from the earliest one, a duration nanoseconds.
-- Slots: `UpstreamSlots` of server/src/services/upstream_slots.rs (register, unregister, count_for,
--   make_room); Slots.Limits: `AccountLimits` of the same file (max_for, refresh).
-- Decision: server/src/services/recording_decision.rs, each function under its name.
-- Recordings: `Recording` of server/src/models.rs and the statements on tv_recordings of
--   server/src/db.rs, each function under its name.
-- Scheduler: `RecordingScheduler` of server/src/services/recording_scheduler.rs. Start:
--   start_recording, try_start_recording, check_disk_space_and_rotate. Tick: run_tick and
--   recover_orphan. Finalize: end_capture and finalize_capture. Steps: the whole as a step
--   relation, with stop and delete of server/src/api/recordings.rs. Routes: the routes of that
--   file, with what a row is enriched with left out; Routes.Passes: its season passes.
-- Nba: server/src/services/nba_autorec.rs; find_live_broadcast, recording_window and plan_action,
--   then Nba.Reconcile with reconcile, suspend_rule and slot_taken_by, and Nba.Reconcile.Guide with
--   map_bein_broadcasts, apply_retention and plan_artwork_repair.
-- Sessions: server/src/services/ffmpeg_sessions.rs.
-- Accounts: users, sessions, playlists and settings of server/src/db.rs with
--   server/src/util/password.rs; Accounts.Requests: the routes of server/src/api/account.rs behind
--   `authenticate` of server/src/server.rs; Accounts.Selection: get_playlist of
--   server/src/state.rs.
-- SeasonPass: scan_season_pass and check_season_passes of the scheduler's file, with
--   stream_url_for_playlist of server/src/models.rs.
-- Streaming: `Streaming` of server/src/api/streaming.rs over Sessions, Slots and Accounts, with
--   server/src/services/gpu_fallback.rs. Args: the commands of FFmpeg; Names: identifiers and
--   addresses; Routes: live_playlist, vod_playlist and recording_playlist; Proxy: direct_proxy;
--   Turbo: turbo; Dispatch: live, vod, recording and, of server/src/server.rs, protected_streaming;
--   OffsetKey: server/src/api/recording_playlist.rs.
-- Capture: pump of server/src/services/stream_capture.rs, and run_capture of the scheduler; what
--   tokio's buffered writer hands on to the file at each call, or refuses, is an answer.
-- RateLimit: `RateLimiter` of server/src/server.rs; RateLimit.Client: `client_ip` of
--   server/src/http.rs, and `security_chain`, `cors` and `cascade` of server/src/server.rs.
-- Guide: `XmltvEpgService` of server/src/services/xmltv.rs: the index, the search of a channel and
--   the refresh; Guide.Parse: parse, over the events of the XML reader; Guide.Served: the
--   guide of one channel, of server/src/api/epg.rs.
-- Ssrf: server/src/util/ssrf.rs, the guard against requests to the internal network.
-- SafePath: server/src/util/safe_path.rs, the confinement of paths.
-- Tests: the theorems at concrete inputs.
--
-- Loops are recursions on the list that they go through, or on what a connection delivers, so that
-- no fuel is needed; the openings of the proxy have four rounds, since each uses up one of its four
-- retries, the wait for a playlist 301, since each sleeps 100 ms of its 30 s, and the digits of a
-- number n have n + 1 rounds. Tokens wrap at
-- 2 ^ 64, and sizes of disks and quotas are reduced to 64 bits, as in the source. The order of a
-- HashMap cannot be observed, so that a new key goes to the end. A handler runs as one step: what
-- interleaves is the sequence of steps.
--
-- Not modelled: HTTP, SQL failures, processes, files and downloads, which enter as the answers that
-- a step is given; the patterns that read team names and channels, which are parameters; artwork
-- and logos, and the readings of names and dates in the guide.
pub mod Base
pub mod Slots
pub mod Decision
pub mod Recordings
pub mod Scheduler
pub mod Nba
pub mod Sessions
pub mod Ssrf
pub mod SafePath
pub mod Accounts
pub mod Capture
pub mod RateLimit
pub mod SeasonPass
pub mod Guide
pub mod Streaming
mod Tests
