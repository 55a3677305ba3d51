-- ===== src/Streaming/Dispatch.antt =====
-- The dispatch of streaming requests (api/streaming.rs, `live`, `vod`, `recording` and
-- `recording_segment`; server.rs, `protected_streaming`).
pub mod Segments
use xtremflow.Base.{
  ℕ, ◌≡◌, refl, ap, ◌∙◌, sym, ◌⊎◌, inl, inr, String, Bool, true, false, not, ◌&&◌, ◌||◌, Option,
  none, some, List, [], ◌∷◌, if◌then◌else◌, str_eq, arith, is_some, Bool-cases, Option-cases,
}
use xtremflow.Accounts.{User, UserRow, Store}
use xtremflow.Accounts.Requests.{Request, with_session_user}
use xtremflow.Accounts.Selection.{Choice, get_playlist, config_of}
use xtremflow.Streaming.Args.{sanitize_quality}
use xtremflow.Streaming.Names.{is_valid_stream_id, tag, join}

-- Where a request goes. A segment is served from the folder of a session.
pub data Route : Type 0 where
  not_found bad_request unauthorized : Route
  playlist : String → String → Route
  redirect : String → String → Route
  turbo : String → Route
  proxy : String → Route
  segment : String → String → Route
  recorded : String → Route

-- Tests on texts, those of the standard library; `key_ok` is whether an offset key can be read, and
-- `stem` what stands before `.ts` where a name is longer than that.
pub record TextTests : Type 0 where
  pub contains : String → String → Bool
  pub stem : String → Option String
  pub key_ok : String → Bool

abbrev tag_of : Option String → String
tag_of none = "default"
tag_of (some t) = t

module _ (tx : TextTests) where
  -- A segment of a live stream or a film; `tag` is that of the playlist of the request.
  abbrev pub stream_segment : String → Option String → String → String → String → Route
  stream_segment kind tag id quality name =
      if not (is_valid_stream_id id) || tx.contains name ".."
      then bad_request
      else segment
          (join (kind ∷ "_" ∷ tag_of tag ∷ "_" ∷ id ∷ "_" ∷ sanitize_quality (some quality) ∷ []))
          name

  abbrev pub by_stem : Option String → Route
  by_stem none = not_found
  by_stem (some id) = proxy id

  unfoldable pub live_route : Bool → Option String → Option String → List String → Route
  live_route is_get tag quality [] = not_found
  live_route is_get tag quality (file ∷ []) =
      if not is_get then not_found else by_stem (tx.stem file)
  live_route is_get tag quality (id ∷ last ∷ []) =
      if not is_get
      then not_found
      else if str_eq last "playlist.m3u8"
      then redirect id (sanitize_quality quality)
      else if str_eq last "turbo.ts"
      then turbo id
      else not_found
  live_route is_get tag quality (id ∷ q ∷ last ∷ []) =
      if not is_get
      then not_found
      else if str_eq last "playlist.m3u8"
      then playlist id (sanitize_quality (some q))
      else stream_segment "live" tag id q last
  live_route is_get tag quality (a ∷ b ∷ c ∷ d ∷ rest) = not_found

  unfoldable pub vod_route : Bool → Option String → Option String → List String → Route
  vod_route is_get tag quality [] = not_found
  vod_route is_get tag quality (file ∷ []) = not_found
  vod_route is_get tag quality (id ∷ last ∷ []) =
      if is_get && str_eq last "playlist.m3u8"
      then redirect id (sanitize_quality quality)
      else not_found
  vod_route is_get tag quality (id ∷ q ∷ last ∷ []) =
      if not is_get
      then not_found
      else if str_eq last "playlist.m3u8"
      then playlist id (sanitize_quality (some q))
      else stream_segment "vod" tag id q last
  vod_route is_get tag quality (a ∷ b ∷ c ∷ d ∷ rest) = not_found

  abbrev pub refuses_recorded : String → String → String → Bool
  refuses_recorded id offset_key name =
      not (is_valid_stream_id id)
      || (not (tx.key_ok offset_key) || (tx.contains name ".." || tx.contains name "/"))

  unfoldable pub recording_segment : String → String → String → Route
  recording_segment id offset_key name =
      if refuses_recorded id offset_key name
      then bad_request
      else segment (join ("rec_" ∷ id ∷ "_" ∷ offset_key ∷ [])) name

  unfoldable pub recording_route : Bool → List String → Route
  unfolding recording_segment
  recording_route is_get [] = not_found
  recording_route is_get (file ∷ []) = not_found
  recording_route is_get (id ∷ last ∷ []) =
      if not is_get
      then not_found
      else if str_eq last "playlist.m3u8"
      then recorded id
      else recording_segment id "t0" last
  recording_route is_get (id ∷ key ∷ last ∷ []) =
      if not is_get then not_found else recording_segment id key last
  recording_route is_get (a ∷ b ∷ c ∷ d ∷ rest) = not_found

-- The user of a streaming request: that of the session; a request without one passes only where it
-- comes from the machine itself and not through a proxy.
unfoldable pub protected_streaming : ℕ → Bool → Bool → Request → Store → Store × Option Request
unfolding with_session_user
protected_streaming now loopback via_proxy req st =
    let (st', authed) = with_session_user now req st in
    elim authed [
      | some r ↦ (st', some r)
      | none ↦ if loopback && not via_proxy then (st', some req) else (st', none)
    ]
