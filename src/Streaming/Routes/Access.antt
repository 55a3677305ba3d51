-- ===== src/Streaming/Routes/Access.antt =====
-- Whose streams and recordings a request can reach.
use xtremflow.Base.{
  ◌≡◌, refl, sym, ap, ◌∙◌, ◌⊎◌, inl, inr, String, Bool, true, false, not, ◌&&◌, Option, none, some,
  List, [], arith, str_eq, Bool-cases, Option-cases, is_some, Among,
}
use xtremflow.Accounts.{User, Playlist, Store}
use xtremflow.Accounts.Selection.{get_playlist, config_of, get_playlist-Owned, get_playlist-Among}
use xtremflow.Recordings.{
  Recording, Status, Reason, Table, scheduled, recording, completed, failed, cancelled,
  other_status, get_recording_by_id,
}
use xtremflow.Streaming.{Streaming, Attempt, run_with_gpu_fallback}
use xtremflow.Slots.Limits.{PlaylistConfig}
use xtremflow.Streaming.Health.{Adds, Play, run_with_gpu_fallback-Adds}
use xtremflow.Streaming.Args.{live_args, vod_args}
use xtremflow.Streaming.Names.{is_valid_stream_id, live_target, vod_target, stream_session_id}
use xtremflow.Streaming.Routes.{
  Ask, Libraries, may_read, answer_status, live_playlist, vod_playlist, serve_session_playlist,
  serve_attempt, stream_playlist, recording_playlist,
}

-- A recording that the sender may read: its own, or any for an administrator or the server.
abbrev pub Readable : Table → Ask → Type 0
Readable table k =
    (r : Recording) × (get_recording_by_id k.id table ≡ some r)
    × (may_read k.user r ≡ true)
    × ((r.status ≡ completed) ⊎ (r.status ≡ recording))
    × (is_some r.file_path ≡ true)

abbrev Played : Status → Option String → Type 0
Played status path = ((status ≡ completed) ⊎ (status ≡ recording)) × (is_some path ≡ true)

answer_status-Played :
    (lib : Libraries) (status : Status) (reason : Option Reason) (path : Option String) (k : Ask)
    (st : Streaming)
    → ((answer_status lib status reason path k st).0 ≡ st) ⊎ Played status path
answer_status-Played lib completed reason none k st = inl refl
answer_status-Played lib completed reason (some file) k st = inr (inl refl, refl)
answer_status-Played lib recording reason none k st = inl refl
answer_status-Played lib recording reason (some file) k st = inr (inr refl, refl)
answer_status-Played lib scheduled reason path k st = inl refl
answer_status-Played lib failed reason path k st = inl refl
answer_status-Played lib cancelled reason path k st = inl refl
answer_status-Played lib (other_status s) reason path k st = inl refl

-- A request for a recording changes nothing, unless the sender may read the recording, which is
-- under way or completed and has a file.
pub recording_playlist-Readable :
    (lib : Libraries) (table : Table) (k : Ask) (st : Streaming)
    → ((recording_playlist lib table k st).0 ≡ st) ⊎ Readable table k
unfolding recording_playlist
recording_playlist-Readable lib table k st = elim (Bool-cases (is_valid_stream_id k.id)) [
  | inr bad ↦ inl (rw bad refl)
  | inl good ↦ elim (Option-cases (get_recording_by_id k.id table)) [
    | inl absent ↦ inl (rw (good, absent) refl)
    | inr (r, there) ↦ elim (Bool-cases (may_read k.user r)) [
      | inr other ↦ inl (rw (good, there, other) refl)
      | inl own ↦ elim (answer_status-Played lib r.status r.error_reason r.file_path k st) [
        | inl same ↦ inl (rw (good, there, own) same)
        | inr (status, path) ↦ inr (r, there, own, status, path)
      ]
    ]
  ]
]

-- A command for the live stream, from a playlist that stands in the table as the user's.
abbrev pub OwnLive : Store → String → Ask → List String → Type 0
OwnLive store owner k command =
    (p : Playlist) × Among p store.playlists
    × (str_eq p.user_id owner ≡ true)
    × ((gpu : Bool) × (command ≡ live_args k.quality (live_target (config_of p) k.id) gpu))

abbrev play_of : String → Bool → Bool → (Bool → List String) → PlaylistConfig → Ask → Play
play_of id is_live wanted build p k = record {
  id = id;
  is_live = is_live;
  want_gpu = wanted;
  build_args = build;
  min_segments = 1;
  upstream = some p;
  first = k.first;
  again = k.again;
}

serve_attempt-launched :
    (redact : String → String) (id : String) (attempt : Attempt) (k : Ask) (st : Streaming)
    → (serve_session_playlist redact id attempt k st).0.launched ≡ st.launched
unfolding serve_session_playlist serve_attempt
serve_attempt-launched redact id attempt k st = ground arith

stream_playlist-Adds :
    (lib : Libraries) (P : List String → Type 0) (kind : String) (is_live : Bool)
    (build : Bool → List String) (p : PlaylistConfig) (k : Ask) (st : Streaming)
    → ((gpu : Bool) → P (build gpu))
    → Adds P st (stream_playlist lib kind is_live build p k st).0
stream_playlist-Adds lib P kind is_live build p k st h =
    let id = stream_session_id kind p k.id k.quality in
    let wanted = k.use_gpu && not (str_eq k.quality "source") in
    let run =
      run_with_gpu_fallback lib.show_code lib.gpu_text id is_live wanted build 1 (some p) k.first
        k.again st in
    let (added, e, all) =
      run_with_gpu_fallback-Adds lib.show_code lib.gpu_text P (play_of id is_live wanted build p k)
        st h in
    (added, serve_attempt-launched lib.redact_url id run.1 k run.0 ∙ e, all)

-- FFmpeg connects for the live stream of a user who is no administrator only as a playlist says that
-- stands in the table as this user's, whichever one the request names.
pub live_playlist-OwnLive :
    (lib : Libraries) (store : Store) (u : User) (k : Ask) (st : Streaming)
    → u.is_admin ≡ false
    → k.user ≡ some u
    → Adds (OwnLive store u.id k) st (live_playlist lib store k st).0
unfolding live_playlist
live_playlist-OwnLive lib store u k st plain sent = elim (Bool-cases (is_valid_stream_id k.id)) [
  | inr bad ↦ rw bad ([], refl, tt)
  | inl good ↦ elim (Option-cases (get_playlist lib.trim lib.by_name k.user k.choice store)) [
    | inl absent ↦ rw (good, absent) ([], refl, tt)
    | inr (p, chosen) ↦
        let own = get_playlist-Owned lib.trim lib.by_name u k.choice store p plain (
          ap (λ user. get_playlist lib.trim lib.by_name user k.choice store) (sym sent) ∙ chosen) in
        let stored = get_playlist-Among lib.trim lib.by_name u k.choice store p (
          ap (λ user. get_playlist lib.trim lib.by_name user k.choice store) (sym sent) ∙ chosen) in
        let config = config_of p in
        rw (good, chosen)
          (stream_playlist-Adds lib (OwnLive store u.id k) "live" true
            (live_args k.quality (live_target config k.id)) config k st
            (λ gpu. (p, stored, own, (gpu, refl))))
  ]
]

-- The same of films.
abbrev pub OwnVod : (String → String) → Store → String → Ask → List String → Type 0
OwnVod to_lowercase store owner k command =
    (p : Playlist) × Among p store.playlists
    × (str_eq p.user_id owner ≡ true)
    × ((gpu : Bool) × (command
          ≡ vod_args k.quality (vod_target to_lowercase (config_of p) k.content_type k.ext k.id)
              gpu))

pub vod_playlist-OwnVod :
    (lib : Libraries) (store : Store) (u : User) (k : Ask) (st : Streaming)
    → u.is_admin ≡ false
    → k.user ≡ some u
    → Adds (OwnVod lib.to_lowercase store u.id k) st (vod_playlist lib store k st).0
unfolding vod_playlist
vod_playlist-OwnVod lib store u k st plain sent = elim (Bool-cases (is_valid_stream_id k.id)) [
  | inr bad ↦ rw bad ([], refl, tt)
  | inl good ↦ elim (Option-cases (get_playlist lib.trim lib.by_name k.user k.choice store)) [
    | inl absent ↦ rw (good, absent) ([], refl, tt)
    | inr (p, chosen) ↦
        let own = get_playlist-Owned lib.trim lib.by_name u k.choice store p plain (
          ap (λ user. get_playlist lib.trim lib.by_name user k.choice store) (sym sent) ∙ chosen) in
        let stored = get_playlist-Among lib.trim lib.by_name u k.choice store p (
          ap (λ user. get_playlist lib.trim lib.by_name user k.choice store) (sym sent) ∙ chosen) in
        let config = config_of p in
        let target = vod_target lib.to_lowercase config k.content_type k.ext k.id in
        rw (good, chosen)
          (stream_playlist-Adds lib (OwnVod lib.to_lowercase store u.id k) "vod" false
            (vod_args k.quality target) config k st (λ gpu. (p, stored, own, (gpu, refl))))
  ]
]
