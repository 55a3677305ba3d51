-- ===== src/Tests/Recorders.antt =====
-- The theorems on captures, offset keys and the limit of requests, at concrete inputs.
use xtremflow.Base.{◌≤◌, ◌≡◌, false, none, some, List, [], ◌∷◌, arith, count, seconds}
use xtremflow.Capture.{chunk, stopped, broken, Turn, refused, connected, Capture}
use xtremflow.RateLimit.Window.{Event, request, cleaning, within, log_of}
use xtremflow.Streaming.OffsetKey.{recording_offset_key, parse_recording_offset_key}
use xtremflow.RateLimit.Window.{log_of-within}
use xtremflow.Streaming.OffsetKey.{parse-recording_offset_key}

-- A refusal, a connection that breaks, and one that is stopped.
abbrev turns : List Turn
turns =
    record { opening = refused "HTTP 403"; flushed = 0; lasted = 0; stopped_in_pause = false }
    ∷ record {
      opening = connected (chunk (1 ∷ 2 ∷ []) 1 (some (1, "disk full")) (broken "reset"));
      flushed = 2;
      lasted = seconds 300;
      stopped_in_pause = false;
    }
    ∷ record {
      opening = connected (chunk (3 ∷ []) 0 none stopped);
      flushed = 0;
      lasted = seconds 5;
      stopped_in_pause = false;
    }
    ∷ []

abbrev begun : Capture
begun = record {
  out = record { disk = []; buffer = [] };
  consecutive_failures = 0;
  last_cut = none;
  delays = [];
}

-- Two logins, the housekeeping, and a third login.
abbrev logins : List Event
logins =
    request "10.0.0.1" (seconds 1)
    ∷ request "10.0.0.1" (seconds 2)
    ∷ cleaning (seconds 3)
    ∷ request "10.0.0.1" (seconds 4)
    ∷ []

log_of-within_example : count (within 0) (log_of 2 "10.0.0.1" logins [] []) ≤ 2
log_of-within_example =
    log_of-within 2 "10.0.0.1" logins 0
      (omega arith, (omega arith, (omega arith, (omega arith, tt))))

parse-recording_offset_key_example :
    parse_recording_offset_key (recording_offset_key 2_700) ≡ some 2_700
parse-recording_offset_key_example = parse-recording_offset_key 2_700 (omega arith)
