-- ===== src/Streaming/Routes/Laws.antt =====
-- The session behind a reply: there where the playlist is served, and gone where FFmpeg failed.
use xtremflow.Base.{
  ℕ, ◌≡◌, refl, sym, ap, ◌∙◌, inl, inr, String, Bool, true, false, not, ◌&&◌, Option, none, some,
  List, arith, if◌then◌else◌, str_eq, Option-cases, ℤ, lookup, is_some, lookup-insert_self,
  lookup-remove_self,
}
use xtremflow.Slots.Limits.{PlaylistConfig}
use xtremflow.Sessions.{
  FfmpegSession, Sessions, needs_start, get_or_start, kill_session, touch, touched,
}
use xtremflow.Sessions.Laws.{get_or_start-lookup}
use xtremflow.Streaming.{
  Streaming, Answers, Attempt, run_session, run_with_gpu_fallback, attempt_from, register_for,
  register_upstream, claim_if, started_world, kill_in, available_at, World,
}
use xtremflow.Streaming.Routes.{
  Ask, Libraries, Reply, served, transcoder_failed, serve_attempt, serve_session_playlist,
  session_if, stream_playlist,
}
use xtremflow.Streaming.Names.{stream_session_id}

register_for-world :
    (u : Option PlaylistConfig) (id : String) (s : FfmpegSession) (st : Streaming)
    → (register_for u id s st).world ≡ st.world
unfolding register_upstream
register_for-world none id s st = refl
register_for-world (some p) id s st = refl

-- The attempt hands out what the table holds.
abbrev pub Held : String → Streaming × Attempt → Type 0
Held id r = r.1.session ≡ lookup id r.0.world.sessions

module _ (show_code : Option ℤ → String) where
  attempt_from-Held :
      (id : String) (starting : Bool) (n : ℕ) (u : Option PlaylistConfig) (a : Answers)
      (got : Option FfmpegSession) (st : Streaming)
      → got ≡ lookup id st.world.sessions
      → Held id (attempt_from show_code id starting n u a got st)
  attempt_from-Held id starting n u a none st e = e
  attempt_from-Held id true n u a (some s) st e =
      e ∙ ap (λ (w : World). lookup id w.sessions) (sym (register_for-world u id s st))
  attempt_from-Held id false n u a (some s) st e = e

  pub run_session-Held :
      (id : String) (is_live : Bool) (args : List String) (n : ℕ) (u : Option PlaylistConfig)
      (a : Answers) (st : Streaming)
      → Held id (run_session show_code id is_live args n u a st)
  unfolding run_session
  run_session-Held id is_live args n u a st =
      let starting = needs_start id is_live st.world.sessions in
      let claimed = claim_if starting u id a.clock.instant st in
      let (sessions, got) = get_or_start id is_live a.clock a.can_spawn claimed.world.sessions in
      attempt_from-Held id starting n u a got (started_world id starting args a sessions claimed)
        (get_or_start-lookup id is_live a.clock a.can_spawn claimed.world.sessions).0

  either-Held :
      (id : String) (b : Bool) (x y : Streaming × Attempt)
      → Held id x
      → Held id y
      → Held id (if b then x else y)
  either-Held id true x y h k = h
  either-Held id false x y h k = k

  pub run_with_gpu_fallback-Held :
      (gpu_text : String → Bool) (id : String) (is_live want_gpu : Bool)
      (build : Bool → List String) (n : ℕ) (u : Option PlaylistConfig) (a again : Answers)
      (st : Streaming)
      → Held id (run_with_gpu_fallback show_code gpu_text id is_live want_gpu build n u a again st)
  unfolding run_with_gpu_fallback
  run_with_gpu_fallback-Held gpu_text id is_live want_gpu build n u a again st =
      either-Held id _ _ _ (run_session-Held id is_live (build false) n u again _) (
        run_session-Held id is_live
          (build (want_gpu && available_at a.clock.instant st.unavailable_until)) n u a st)

-- What a reply says of the session.
abbrev pub Told : String → Streaming × Reply → Type 0
Told id r =
    ((text : String) → r.1 ≡ served text → is_some (lookup id r.0.world.sessions) ≡ true)
    × ((e : String) → r.1 ≡ transcoder_failed e → lookup id r.0.world.sessions ≡ none)

touch_present :
    (id : String) (ms : ℕ) (s : FfmpegSession) (m : Sessions)
    → lookup id m ≡ some s
    → is_some (lookup id (touch id ms m)) ≡ true
unfolding touch
touch_present id ms s m there = ground (arith, there, lookup-insert_self id (touched ms s) m)

serve_session_playlist-Told :
    (redact : String → String) (id : String) (attempt : Attempt) (k : Ask) (st : Streaming)
    → Held id (st, attempt)
    → Told id (serve_session_playlist redact id attempt k st)
unfolding serve_session_playlist serve_attempt kill_in kill_session
serve_session_playlist-Told redact id attempt k st held =
    elim (Option-cases (session_if attempt.ready attempt.session)) [
      | inl broken ↦
          (λ text e. ground arith, λ t e. ground (arith, lookup-remove_self id st.world.sessions))
      | inr (s, there) ↦
          let found : lookup id st.world.sessions ≡ some s = ground arith in
          (
            λ text e. ground (arith, touch_present id st.world.ms s st.world.sessions found),
            λ t e. ground arith,
          )
    ]

-- A playlist is served only of a session that the table holds; where FFmpeg failed the session is
-- gone, so that the next request starts a new one.
pub stream_playlist-Told :
    (lib : Libraries) (kind : String) (is_live : Bool) (build : Bool → List String)
    (p : PlaylistConfig) (k : Ask) (st : Streaming)
    → Told (stream_session_id kind p k.id k.quality) (stream_playlist lib kind is_live build p k st)
stream_playlist-Told lib kind is_live build p k st =
    let id = stream_session_id kind p k.id k.quality in
    let wanted = k.use_gpu && not (str_eq k.quality "source") in
    let run =
      run_with_gpu_fallback lib.show_code lib.gpu_text id is_live wanted build 1 (some p) k.first
        k.again st in
    serve_session_playlist-Told lib.redact_url id run.1 k run.0 (
      run_with_gpu_fallback-Held lib.show_code lib.gpu_text id is_live wanted build 1 (some p)
        k.first k.again st)
