-- ===== src/Streaming.antt =====
-- The transcoding of streams (api/streaming.rs, `Streaming`) over the sessions of FFmpeg, the
-- registry of upstream connections and the health of the GPU (services/gpu_fallback.rs). What
-- FFmpeg and the clock do comes as the answers of a run.
pub mod Args
pub mod Health
pub mod NoGpu
pub mod Names
pub mod Proxy
pub mod Turbo
pub mod Dispatch
pub mod OffsetKey
pub mod Routes
use xtremflow.Base.{
  ℕ, ◌+◌, ◌-◌, ◌≡◌, String, Bool, true, false, not, ◌&&◌, ◌||◌, Option, none, some, List, [], ◌∷◌,
  if◌then◌else◌, str_eq, leb, ltb, ◌==◌, find, ◌++◌, values, Map, lookup, seconds, ℤ, pos, negsuc,
}
use xtremflow.Slots.{Inner, register, unregister, make_room}
use xtremflow.Slots.Limits.{PlaylistConfig, AccountLimits, account_key_of, max_for}
use xtremflow.Sessions.{
  Clock, FfmpegSession, Sessions, Wait, ready, pending, died, timed_out, needs_start, get_or_start,
  Polling, wait_for_playlist, kill_session,
}
use Prim.Native.String

-- The processes: those of the table, and those taken out of it, which their connections still
-- watch. `ms` is `now_ms`.
pub record World : Type 0 where
  pub sessions : Sessions
  pub retired : List FfmpegSession
  pub turbos : Map ℕ
  pub ms : ℕ

-- `unavailable_until` and `cooldown` are those of `GpuHealth`; `launched` lists the commands of
-- FFmpeg that were started, the last one first.
pub record Streaming : Type 0 where
  pub world : World
  pub slots : Inner World
  pub limits : AccountLimits
  pub unavailable_until : Option ℕ
  pub cooldown : ℕ
  pub launched : List (List String)
  pub turbo_counter : ℕ

pub record Attempt : Type 0 where
  pub session : Option FfmpegSession
  pub ready : Bool
  pub error : Option String

-- What a run is answered: the start of FFmpeg, what the wait sees of its playlist, and its
-- messages.
pub record Answers : Type 0 where
  pub clock : Clock
  pub can_spawn : Bool
  pub spawn_error : String
  pub polling : Polling
  pub stderr : String

unfoldable pub available_at : ℕ → Option ℕ → Bool
available_at now none = true
available_at now (some until) = leb until now

unfoldable pub mark_failed_at : ℕ → Streaming → Streaming
mark_failed_at now st = record st { unavailable_until = some (now + st.cooldown) }

abbrev retire : Option FfmpegSession → List FfmpegSession → List FfmpegSession
retire none gone = gone
retire (some s) gone = s ∷ gone

-- A session that leaves the table stays watched by its connection.
unfoldable pub kill_in : String → World → World
kill_in id w = record w {
  sessions = kill_session id w.sessions;
  retired = retire (lookup id w.sessions) w.retired;
}

abbrev same_process : FfmpegSession → FfmpegSession → Bool
same_process s t = str_eq t.id s.id && t.started_at == s.started_at

abbrev last_access : FfmpegSession → Option FfmpegSession → ℕ
last_access s none = s.last_access_ms
last_access s (some t) = t.last_access_ms

-- `idle_for`, in milliseconds.
unfoldable pub idle_for : FfmpegSession → World → ℕ
idle_for s w = w.ms - last_access s (find (same_process s) (values w.sessions ++ w.retired))

abbrev pub viewer_grace : ℕ
viewer_grace = 15_000

-- The identifiers cut are those that it also gives.
unfoldable pub claim_upstream : PlaylistConfig → String → ℕ → Streaming → Streaming
claim_upstream playlist id now st =
    let (limits, max) = max_for playlist now st.limits in
    let (slots, world, freed) = make_room (account_key_of playlist) max id st.world st.slots in
    record st { limits = limits; slots = slots; world = world }

unfoldable pub register_upstream : PlaylistConfig → String → FfmpegSession → Streaming → Streaming
register_upstream playlist id s st =
    let (slots, token) =
      register id (account_key_of playlist) (kill_in id)
        (some (λ (w : World). ltb (idle_for s w) viewer_grace)) st.slots in
    record st { slots = slots }

-- The end of a process takes its connection out.
unfoldable pub upstream_exited : String → ℕ → Streaming → Streaming
upstream_exited id token st = record st { slots = unregister id (some token) st.slots }

abbrev pub claim_for : Option PlaylistConfig → String → ℕ → Streaming → Streaming
claim_for none id now st = st
claim_for (some playlist) id now st = claim_upstream playlist id now st

abbrev pub claim_if : Bool → Option PlaylistConfig → String → ℕ → Streaming → Streaming
claim_if true upstream id now st = claim_for upstream id now st
claim_if false upstream id now st = st

abbrev pub register_for : Option PlaylistConfig → String → FfmpegSession → Streaming → Streaming
register_for none id s st = st
register_for (some playlist) id s st = register_upstream playlist id s st

-- The text of the verdict; `show_code` writes an exit code.
abbrev pub error_of : (Option ℤ → String) → String → Wait → Option String
error_of show_code stderr ready = none
error_of show_code stderr pending = none
error_of show_code stderr (died code) =
    some (String.◌++◌ "FFmpeg exited (" (String.◌++◌ (show_code code) (String.◌++◌ "): " stderr)))
error_of show_code stderr timed_out = some "Timeout waiting for transcoder"

abbrev is_ready : Wait → Bool
is_ready ready = true
is_ready pending = false
is_ready (died _) = false
is_ready timed_out = false

abbrev pub launch : Bool → List String → List (List String) → List (List String)
launch starts args launched = if starts then args ∷ launched else launched

-- The table after `get_or_start`, with the commands launched.
abbrev pub started_world : String → Bool → List String → Answers → Sessions → Streaming → Streaming
started_world id starting args a sessions st = record st {
  world = record st.world {
    sessions = sessions;
    retired =
        if starting
        then retire (lookup id st.world.sessions) st.world.retired
        else st.world.retired;
    ms = a.clock.ms;
  };
  launched = launch (starting && a.can_spawn) args st.launched;
}

abbrev failed_start : String → Attempt
failed_start error = record {
  session = none;
  ready = false;
  error = some (String.◌++◌ "FFmpeg start failed: " error);
}

abbrev attempt_of : (Option ℤ → String) → FfmpegSession → String → Wait → Attempt
attempt_of show_code s stderr w = record {
  session = some s;
  ready = is_ready w;
  error = error_of show_code stderr w;
}

module _ (show_code : Option ℤ → String) where
  -- What follows the start, where it gives a session.
  abbrev pub attempt_from :
      String
      → Bool
      → ℕ
      → Option PlaylistConfig
      → Answers
      → Option FfmpegSession
      → Streaming
      → Streaming × Attempt
  attempt_from id starting min_segments upstream a none st = (st, failed_start a.spawn_error)
  attempt_from id starting min_segments upstream a (some s) st = (
    if starting then register_for upstream id s st else st,
    attempt_of show_code s a.stderr (wait_for_playlist min_segments a.polling a.clock.instant),
  )

  unfoldable pub run_session :
      String
      → Bool
      → List String
      → ℕ
      → Option PlaylistConfig
      → Answers
      → Streaming
      → Streaming × Attempt
  run_session id is_live args min_segments upstream a st =
      let starting = needs_start id is_live st.world.sessions in
      let claimed = claim_if starting upstream id a.clock.instant st in
      let (sessions, got) = get_or_start id is_live a.clock a.can_spawn claimed.world.sessions in
      attempt_from id starting min_segments upstream a got
        (started_world id starting args a sessions claimed)

  -- `gpu_text` is the pattern of `is_gpu_failure`.
  abbrev pub is_gpu_failure : (String → Bool) → Option String → Bool
  is_gpu_failure gpu_text none = false
  is_gpu_failure gpu_text (some e) = gpu_text e

  -- Whether the first attempt of a run breaks on the GPU.
  abbrev pub breaks : (String → Bool) → Bool → Attempt → Bool
  breaks gpu_text gpu a = not a.ready && (gpu && is_gpu_failure gpu_text a.error)

  -- The run, once it is settled whether it starts on the GPU.
  abbrev pub run_on :
      (String → Bool)
      → Bool
      → String
      → Bool
      → (Bool → List String)
      → ℕ
      → Option PlaylistConfig
      → Answers
      → Answers
      → Streaming
      → Streaming × Attempt
  run_on gpu_text gpu id is_live build_args min_segments upstream a again st =
      let (st', attempt) = run_session id is_live (build_args gpu) min_segments upstream a st in
      let failed = mark_failed_at again.clock.instant st' in
      let retry =
        run_session id is_live (build_args false) min_segments upstream again
          (record failed { world = kill_in id failed.world }) in
      if breaks gpu_text gpu attempt then retry else (st', attempt)

  unfoldable pub run_with_gpu_fallback :
      (String → Bool)
      → String
      → Bool
      → Bool
      → (Bool → List String)
      → ℕ
      → Option PlaylistConfig
      → Answers
      → Answers
      → Streaming
      → Streaming × Attempt
  run_with_gpu_fallback gpu_text id is_live want_gpu build_args min_segments upstream a again st =
      run_on gpu_text (want_gpu && available_at a.clock.instant st.unavailable_until) id is_live
        build_args min_segments upstream a again st
