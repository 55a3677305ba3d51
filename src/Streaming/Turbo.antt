-- ===== src/Streaming/Turbo.antt =====
-- The continuous stream (api/streaming.rs, `turbo`). The start of FFmpeg, and its output, come as
-- answers.
use xtremflow.Base.{
  ℕ, suc, ◌-◌, String, Bool, not, Option, none, some, List, [], ◌∷◌, ◌++◌, if◌then◌else◌, ltb,
  lookup, insert, remove,
}
use xtremflow.Accounts.{User, UserRow, Store}
use xtremflow.Accounts.Selection.{Choice, get_playlist, config_of}
use xtremflow.Slots.{register}
use xtremflow.Slots.Limits.{PlaylistConfig, account_key_of}
use xtremflow.Streaming.{World, Streaming, claim_upstream, viewer_grace}
use xtremflow.Streaming.Names.{is_valid_stream_id, live_target, join}

abbrev turbo_input : List String
turbo_input =
    "-hide_banner" ∷ "-loglevel" ∷ "warning" ∷ "-headers"
    ∷ "User-Agent: VLC/3.0.18 LibVLC/3.0.18\r\n" ∷ "-reconnect" ∷ "1" ∷ "-reconnect_streamed" ∷ "1"
    ∷ "-reconnect_at_eof" ∷ "1" ∷ "-reconnect_delay_max" ∷ "10" ∷ "-rw_timeout" ∷ "30000000"
    ∷ "-fflags" ∷ "nobuffer" ∷ "-flags" ∷ "low_delay" ∷ "-probesize" ∷ "1000000"
    ∷ "-analyzeduration" ∷ "1000000" ∷ "-i" ∷ []

abbrev turbo_output : List String
turbo_output =
    "-c:v" ∷ "copy" ∷ "-c:a" ∷ "aac" ∷ "-b:a" ∷ "160k" ∷ "-ac" ∷ "2" ∷ "-ar" ∷ "48000" ∷ "-af"
    ∷ "aresample=async=1" ∷ "-muxdelay" ∷ "0" ∷ "-muxpreload" ∷ "0" ∷ "-f" ∷ "mpegts" ∷ "pipe:1"
    ∷ []

unfoldable pub turbo_args : String → List String
turbo_args target = turbo_input ++ target ∷ turbo_output

-- Whether FFmpeg starts, and whether its output can be taken.
pub record Spawned : Type 0 where
  pub starts : Bool
  pub has_stdout : Bool

pub data Response : Type 0 where
  invalid_id no_playlist start_failed streams : Response

abbrev terminate : String → World → World
terminate id w = record w { turbos = remove id w.turbos }

abbrev delivered_at : ℕ → Option ℕ → ℕ
delivered_at started none = started
delivered_at started (some at) = at

-- The connection is watched while bytes reach the client.
abbrev watched : String → ℕ → World → Bool
watched id started w = ltb (w.ms - delivered_at started (lookup id w.turbos)) viewer_grace

-- A chunk that reaches the client.
unfoldable pub delivered : String → ℕ → Streaming → Streaming
delivered id now_ms st = record st {
  world = record st.world { turbos = insert id now_ms st.world.turbos; ms = now_ms };
}

unfoldable pub register_turbo : PlaylistConfig → String → ℕ → Streaming → Streaming
register_turbo p id now_ms st =
    let (slots, token) =
      register id (account_key_of p) (terminate id) (some (watched id now_ms)) st.slots in
    record st {
      slots = slots;
      world = record st.world { turbos = insert id now_ms st.world.turbos; ms = now_ms };
    }

-- Each request has an identifier of its own; `show` writes a number.
abbrev pub turbo_id : (ℕ → String) → String → Streaming → String
turbo_id show id st = join ("turbo_" ∷ id ∷ "_" ∷ show (suc st.turbo_counter) ∷ [])

abbrev claimed : (ℕ → String) → PlaylistConfig → String → ℕ → Streaming → Streaming
claimed show p id now st = record (claim_upstream p (turbo_id show id st) now st) {
  turbo_counter = suc st.turbo_counter;
}

unfoldable pub turbo :
    (ℕ → String)
    → (String → String)
    → (List UserRow → List UserRow)
    → Store
    → Option User
    → Choice
    → String
    → ℕ
    → ℕ
    → Spawned
    → Streaming
    → Streaming × Response
unfolding register_turbo turbo_args
turbo show trim by_name store user choice id now now_ms spawned st =
    if not (is_valid_stream_id id)
    then (st, invalid_id)
    else elim (get_playlist trim by_name user choice store) [
      | none ↦ (st, no_playlist)
      | some chosen ↦
          let p = config_of chosen in
          let upstream_id = turbo_id show id st in
          let st' = claimed show p id now st in
          let launched : Streaming = record st' {
            launched = turbo_args (live_target p id) ∷ st'.launched;
          } in
          let registered = register_turbo p upstream_id now_ms launched in
          if not spawned.starts
          then (st', start_failed)
          else if not spawned.has_stdout
          then (record registered { world = terminate upstream_id registered.world }, start_failed)
          else (registered, streams)
    ]
