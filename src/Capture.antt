-- ===== src/Capture.antt =====
-- The capture of a stream in a file (services/stream_capture.rs, `pump`, and run_capture of
-- services/recording_scheduler.rs). What a connection delivers, and when it is asked to stop, comes
-- as a value; bytes are numbers. The buffered writer is tokio's: how many of its bytes each call hands
-- on to the file, and where it fails, are part of what the capture is answered.
pub mod Written
pub mod Retries
use xtremflow.Base.{
  ℕ, suc, zero, ◌+◌, ◌-◌, ◌≡◌, String, Bool, true, false, not, ◌&&◌, ◌||◌, Option, none, some, List,
  [], ◌∷◌, ◌++◌, if◌then◌else◌, ltb, length, seconds, str_eq, take, drop,
}
use xtremflow.Decision.{ffmpeg_retry_delay}
use Prim.Native.String

-- What is in the file, and what the writer still holds back.
pub record Writer : Type 0 where
  pub disk : List ℕ
  pub buffer : List ℕ

-- What is taken of a chunk, all of it or the bytes before the failure.
abbrev pub taken_of : List ℕ → Option (ℕ × String) → List ℕ
taken_of part none = part
taken_of part (some (n, e)) = take n part

-- The oldest bytes held back go on to the file.
abbrev pub hand_on : ℕ → Writer → Writer
hand_on n out = record { disk = out.disk ++ take n out.buffer; buffer = drop n out.buffer }

-- `write_all`, with its answer: how many bytes go on to the file, and, where it fails, how many of
-- the chunk were taken before, with the error.
unfoldable pub write_all : List ℕ → ℕ → Option (ℕ × String) → Writer → Writer
write_all part moved failed out =
    hand_on moved (record out { buffer = out.buffer ++ taken_of part failed })

-- How a connection goes on: the stop is asked for, no data comes for `STALL_TIMEOUT`, the stream
-- ends or breaks, or a chunk comes, with the answer of its write.
pub data Reads : Type 0 where
  stopped silent finished : Reads
  broken : String → Reads
  chunk : List ℕ → ℕ → Option (ℕ × String) → Reads → Reads

pub data PumpEnd : Type 0 where
  stop : PumpEnd
  cut : String → PumpEnd

-- The writer, the bytes counted and how the connection ended.
pub record Pumped : Type 0 where
  pub out : Writer
  pub bytes : ℕ
  pub end : PumpEnd

unfoldable pub pump : Reads → Writer → ℕ → Pumped
unfolding write_all
pump stopped out bytes = record { out = out; bytes = bytes; end = stop }
pump silent out bytes = record { out = out; bytes = bytes; end = cut "aucune donnée depuis 30 s" }
pump finished out bytes = record { out = out; bytes = bytes; end = cut "fin du flux" }
pump (broken e) out bytes = record { out = out; bytes = bytes; end = cut e }
pump (chunk part moved (some (n, e)) rest) out bytes = record {
  out = write_all part moved (some (n, e)) out;
  bytes = bytes;
  end = cut (String.◌++◌ "écriture impossible : " e);
}
pump (chunk part moved none rest) out bytes =
    pump rest (write_all part moved none out) (bytes + length part)

-- What `open` gives: the stop comes first, the source refuses, or it delivers.
pub data Opening : Type 0 where
  stopped_first : Opening
  refused : String → Opening
  connected : Reads → Opening

-- One turn of the loop: what the flush after the cut hands on, how long the turn lasted, and
-- whether the stop comes during the pause.
pub record Turn : Type 0 where
  pub opening : Opening
  pub flushed : ℕ
  pub lasted : ℕ
  pub stopped_in_pause : Bool

-- `delays` lists the pauses begun, in seconds, the last one first.
pub record Capture : Type 0 where
  pub out : Writer
  pub consecutive_failures : ℕ
  pub last_cut : Option String
  pub delays : List ℕ

-- What the connection of a turn leaves; none where the loop stops.
abbrev pub connect : Opening → Writer → Pumped
connect stopped_first out = record { out = out; bytes = 0; end = stop }
connect (refused reason) out = record { out = out; bytes = 0; end = cut reason }
connect (connected reads) out = pump reads out 0

-- A connection that stayed healthy for two minutes.
abbrev pub healthy : ℕ → ℕ → Bool
healthy lasted bytes = ltb (seconds 120) lasted && ltb 0 bytes

unfoldable pub after_cut : String → ℕ → ℕ → Capture → Capture
unfolding ffmpeg_retry_delay
after_cut reason lasted bytes c =
    let failures : ℕ = suc (if healthy lasted bytes then 0 else c.consecutive_failures) in
    record {
      out = c.out;
      consecutive_failures = failures;
      last_cut = some reason;
      delays = ffmpeg_retry_delay failures ∷ c.delays;
    }

-- The turns made before the window is over or a stop is seen at the head of the loop.
unfoldable pub run_turns : List Turn → Capture → Capture
unfolding pump after_cut
run_turns [] c = c
run_turns (t ∷ turns) c =
    let p = connect t.opening c.out in
    let kept = record c { out = p.out } in
    elim p.end [
      | stop ↦ kept
      | cut reason ↦
          let flushed = record kept { out = hand_on t.flushed p.out } in
          let paused = after_cut reason t.lasted p.bytes flushed in
          let rest = run_turns turns paused in if t.stopped_in_pause then paused else rest
    ]

-- `opening` is the error of opening the file; `flushed` is what the last flush hands on.
unfoldable pub run_capture : Option String → List Turn → ℕ → Capture → Capture
unfolding run_turns
run_capture (some e) turns flushed c = record c {
  last_cut = some (String.◌++◌ "fichier de capture impossible à créer : " e);
}
run_capture none turns flushed c =
    let ended = run_turns turns c in record ended { out = hand_on flushed ended.out }

-- `needs_ffmpeg`: `path` is the address up to `?` or `#`, in lower case.
unfoldable pub needs_ffmpeg :
    (String → String → Bool) → (String → String → Bool) → String → String → Bool
needs_ffmpeg starts_with ends_with url path =
    not (starts_with url "http://" || starts_with url "https://") || ends_with path ".m3u8"
