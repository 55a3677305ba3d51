-- ===== src/Decision.antt =====
-- The pure decisions of the recording scheduler (services/recording_decision.rs).
pub mod Laws
use xtremflow.Base.{
  ℕ, ◌+◌, ◌-◌, ◌*◌, ◌^◌, min, String, Bool, true, false, Option, none, some, List, if◌then◌else◌,
  ltb, leb, seconds,
}

pub data RecordingAction : Type 0 where
  start wait fail idle : RecordingAction

unfoldable pub decide_recording_action : ℕ → ℕ → ℕ → ℕ → ℕ → RecordingAction
decide_recording_action now start_at end_at active_count max_concurrent =
    if ltb end_at now
    then fail
    else if leb now start_at
    then idle
    else if leb max_concurrent active_count
    then wait
    else start

pub data MissCause : Type 0 where
  server_down : MissCause
  stalled : ℕ → MissCause
  capacity : List String → MissCause
  unknown : MissCause

unfoldable pub decide_miss_cause : ℕ → Option ℕ → Option (List String) → MissCause
decide_miss_cause start_at previous_tick (some busy) = capacity busy
decide_miss_cause start_at none none = server_down
decide_miss_cause start_at (some t) none = if ltb t start_at then stalled t else unknown

pub data OrphanAction : Type 0 where
  resume finish give_up : OrphanAction

-- `end - now > 60 s`, where the difference may be negative.
unfoldable pub decide_orphan_action : ℕ → ℕ → Bool → OrphanAction
decide_orphan_action now end_at has_file =
    if ltb (now + seconds 60) end_at then resume else if has_file then finish else give_up

-- In seconds. `(failures - 1).clamp(0, 4)` is signed in the source: the truncated difference is
-- the same once it is held above 0.
unfoldable pub ffmpeg_retry_delay : ℕ → ℕ
ffmpeg_retry_delay consecutive_failures =
    let steps = min (consecutive_failures - 1) 4 in min (3 * 2 ^ steps) 30
