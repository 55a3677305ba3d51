-- ===== src/Streaming/Routes.antt =====
-- The playlists of live streams, films and recordings (api/streaming.rs, `live_playlist`,
-- `vod_playlist`, `recording_playlist` and `serve_session_playlist`). What is read on the disk and
-- in a file comes with the request.
pub mod Laws
pub mod Access
use xtremflow.Base.{
  ℕ, ◌≡◌, String, Bool, true, false, not, ◌&&◌, ◌||◌, Option, none, some, List, [], ◌∷◌, ◌++◌, ℤ,
  if◌then◌else◌, str_eq, unwrap_or,
}
use xtremflow.Accounts.{User, UserRow, Store}
use xtremflow.Accounts.Selection.{Choice, get_playlist, config_of}
use xtremflow.Slots.Limits.{PlaylistConfig}
use xtremflow.Sessions.{FfmpegSession, touch, kill_idle_siblings}
use xtremflow.Recordings.{
  Recording, Reason, Status, Table, scheduled, recording, completed, failed, cancelled,
  other_status, get_recording_by_id,
}
use xtremflow.Streaming.{Streaming, Answers, Attempt, run_session, run_with_gpu_fallback, kill_in}
use xtremflow.Streaming.Args.{live_args, vod_args, recording_args}
use xtremflow.Streaming.Names.{is_valid_stream_id, live_target, vod_target, stream_session_id, join}

-- The libraries: how numbers and exit codes are written, the pattern of a GPU's failure, the
-- redaction of addresses, text functions, and the order of users by name.
pub record Libraries : Type 0 where
  pub show : ℕ → String
  pub show_code : Option ℤ → String
  pub gpu_text : String → Bool
  pub redact_url : String → String
  pub trim : String → String
  pub to_lowercase : String → String
  pub starts_with : String → String → Bool
  pub by_name : List UserRow → List UserRow

-- A request, with what its runs are answered, and the text of the playlist of FFmpeg where it can
-- be read. `use_gpu` is `is_nvidia_gpu_enabled`; `rewrite` is what the route does to the text.
pub record Ask : Type 0 where
  pub user : Option User
  pub choice : Choice
  pub id : String
  pub quality : String
  pub content_type : Option String
  pub ext : Option String
  pub start : ℕ
  pub codec : Option String
  pub file_exists : Bool
  pub use_gpu : Bool
  pub first : Answers
  pub again : Answers
  pub retry_first : Answers
  pub retry_again : Answers
  pub playlist_text : Option String
  pub rewrite : String → String

pub data Reply : Type 0 where
  invalid_id no_playlist playlist_missing : Reply
  transcoder_failed : String → Reply
  served : String → Reply
  no_recording forbidden not_yet no_path no_file : Reply
  recording_failed : Option Reason → Reply
  invalid_status : Status → Reply

abbrev pub session_if : Bool → Option FfmpegSession → Option FfmpegSession
session_if true s = s
session_if false s = none

abbrev read_reply : (String → String) → Option String → Reply
read_reply rewrite none = playlist_missing
read_reply rewrite (some text) = served (rewrite text)

abbrev pub killed : String → Streaming → Streaming
killed id st = record st { world = kill_in id st.world }

abbrev pub touch_in : String → Streaming → Streaming
touch_in id st = record st {
  world = record st.world { sessions = touch id st.world.ms st.world.sessions };
}

-- `after` is what follows the touch of the session.
unfoldable pub serve_attempt :
    (String → String)
    → String
    → Attempt
    → (Streaming → Streaming)
    → Ask
    → Streaming
    → Streaming × Reply
serve_attempt redact id attempt after k st = elim (session_if attempt.ready attempt.session) [
  | none ↦ (killed id st, transcoder_failed (redact (unwrap_or attempt.error "null")))
  | some s ↦ (after (touch_in id st), read_reply k.rewrite k.playlist_text)
]

unfoldable pub serve_session_playlist :
    (String → String) → String → Attempt → Ask → Streaming → Streaming × Reply
unfolding serve_attempt
serve_session_playlist redact id attempt k st = serve_attempt redact id attempt (λ s. s) k st

abbrev pub may_read : Option User → Recording → Bool
may_read none r = true
may_read (some u) r = u.is_admin || str_eq r.user_id u.id

module _ (lib : Libraries) where
  -- A stream of a playlist: the address and the commands differ.
  abbrev pub stream_playlist :
      String → Bool → (Bool → List String) → PlaylistConfig → Ask → Streaming → Streaming × Reply
  stream_playlist kind is_live build p k st =
      let id = stream_session_id kind p k.id k.quality in
      let (st', attempt) =
        run_with_gpu_fallback lib.show_code lib.gpu_text id is_live
          (k.use_gpu && not (str_eq k.quality "source")) build 1 (some p) k.first k.again st in
      serve_session_playlist lib.redact_url id attempt k st'

  unfoldable pub live_playlist : Store → Ask → Streaming → Streaming × Reply
  live_playlist store k st =
      if not (is_valid_stream_id k.id)
      then (st, invalid_id)
      else elim (get_playlist lib.trim lib.by_name k.user k.choice store) [
        | none ↦ (st, no_playlist)
        | some chosen ↦
            let p = config_of chosen in
            stream_playlist "live" true (live_args k.quality (live_target p k.id)) p k st
      ]

  unfoldable pub vod_playlist : Store → Ask → Streaming → Streaming × Reply
  vod_playlist store k st =
      if not (is_valid_stream_id k.id)
      then (st, invalid_id)
      else elim (get_playlist lib.trim lib.by_name k.user k.choice store) [
        | none ↦ (st, no_playlist)
        | some chosen ↦
            let p = config_of chosen in
            let target = vod_target lib.to_lowercase p k.content_type k.ext k.id in
            stream_playlist "vod" false (vod_args k.quality target) p k st
      ]

  -- A copy of the video, or a new encoding.
  unfoldable pub run_recording :
      Bool → String → String → Answers → Answers → Ask → Streaming → Streaming × Attempt
  run_recording copy_video id file a again k st =
      if copy_video
      then run_session lib.show_code id false (recording_args lib.show k.start file true false) 3
          none a st
      else run_with_gpu_fallback lib.show_code lib.gpu_text id false k.use_gpu
          (recording_args lib.show k.start file false) 3 none a again st

  abbrev pub recording_session_id : Ask → String
  recording_session_id k = join ("rec_" ∷ k.id ∷ "_t" ∷ lib.show k.start ∷ [])

  abbrev is_h264 : Option String → Bool
  is_h264 none = false
  is_h264 (some codec) = str_eq codec "h264"

  -- A copy that fails is followed by a new encoding.
  unfoldable pub attempt_recording : String → String → Ask → Streaming → Streaming × Attempt
  unfolding run_recording
  attempt_recording id file k st =
      let can_copy = is_h264 k.codec in
      let (st', attempt) = run_recording can_copy id file k.first k.again k st in
      if not attempt.ready && can_copy
      then run_recording false id file k.retry_first k.retry_again k (killed id st')
      else (st', attempt)

  -- `kill_idle_siblings`, once the session is launched.
  abbrev tidy : Ask → Streaming → Streaming
  tidy k st = record st {
    world = record st.world {
      sessions =
          kill_idle_siblings lib.starts_with (join ("rec_" ∷ k.id ∷ "_t" ∷ []))
            (recording_session_id k) st.world.ms st.world.sessions;
    };
  }

  abbrev serve_file : Ask → Option String → Streaming → Streaming × Reply
  serve_file k none st = (st, no_path)
  serve_file k (some file) st =
      if not k.file_exists
      then (st, no_file)
      else let (st', attempt) = attempt_recording (recording_session_id k) file k st in
        serve_attempt lib.redact_url (recording_session_id k) attempt (tidy k) k st'

  -- Only a recording that is completed or under way is played.
  abbrev pub answer_status :
      Status → Option Reason → Option String → Ask → Streaming → Streaming × Reply
  answer_status scheduled reason path k st = (st, not_yet)
  answer_status failed reason path k st = (st, recording_failed reason)
  answer_status completed reason path k st = serve_file k path st
  answer_status recording reason path k st = serve_file k path st
  answer_status cancelled reason path k st = (st, invalid_status cancelled)
  answer_status (other_status s) reason path k st = (st, invalid_status (other_status s))

  unfoldable pub recording_playlist : Table → Ask → Streaming → Streaming × Reply
  unfolding attempt_recording serve_attempt
  recording_playlist table k st =
      if not (is_valid_stream_id k.id)
      then (st, invalid_id)
      else elim (get_recording_by_id k.id table) [
        | none ↦ (st, no_recording)
        | some r ↦
            if not (may_read k.user r)
            then (st, forbidden)
            else answer_status r.status r.error_reason r.file_path k st
      ]
