-- ===== src/Streaming/Dispatch/Segments.antt =====
-- The names under which segments are served.
use xtremflow.Base.{
  ◌≡◌, inl, inr, String, Bool, true, false, not, ◌&&◌, ◌||◌, Option, none, some, List, [], ◌∷◌,
  if◌then◌else◌, str_eq, arith, Bool-cases,
}
use xtremflow.Streaming.Args.{sanitize_quality}
use xtremflow.Streaming.Names.{is_valid_stream_id, join}
use xtremflow.Streaming.Dispatch.{
  Route, not_found, bad_request, unauthorized, playlist, redirect, turbo, proxy, segment, recorded,
  TextTests, stream_segment, refuses_recorded, recording_segment, by_stem, live_route, vod_route,
  recording_route,
}

-- A segment's name does not lead up.
abbrev pub Plain : TextTests → Route → Type 0
Plain tx not_found = Unit
Plain tx bad_request = Unit
Plain tx unauthorized = Unit
Plain tx (playlist id quality) = Unit
Plain tx (redirect id quality) = Unit
Plain tx (turbo id) = Unit
Plain tx (proxy id) = Unit
Plain tx (segment folder name) = tx.contains name ".." ≡ false
Plain tx (recorded id) = Unit

module _ (tx : TextTests) where
  Plain-if : (b : Bool) (r s : Route) → Plain tx r → Plain tx s → Plain tx (if b then r else s)
  Plain-if true r s p q = p
  Plain-if false r s p q = q

  Plain-refused : (b : Bool) (r : Route) → b ≡ true → Plain tx (if b then bad_request else r)
  Plain-refused b r e = rw e tt

  stream_segment-Plain :
      (kind : String) (tag : Option String) (id quality name : String)
      → Plain tx (stream_segment tx kind tag id quality name)
  stream_segment-Plain kind tag id quality name = elim (Bool-cases (tx.contains name "..")) [
    | inl up ↦
        let bad : not (is_valid_stream_id id) || tx.contains name ".." ≡ true =
          ground (arith, up) in
        rw bad tt
    | inr plain ↦
        Plain-if (not (is_valid_stream_id id) || tx.contains name "..") bad_request _ tt plain
  ]

  recording_segment-Plain : (id key name : String) → Plain tx (recording_segment tx id key name)
  unfolding recording_segment
  recording_segment-Plain id key name = elim (Bool-cases (tx.contains name "..")) [
    | inl up ↦
        let bad : refuses_recorded tx id key name ≡ true = ground (arith, up) in
        Plain-refused (refuses_recorded tx id key name)
          (segment (join ("rec_" ∷ id ∷ "_" ∷ key ∷ [])) name) bad
    | inr plain ↦
        Plain-if (refuses_recorded tx id key name) bad_request
          (segment (join ("rec_" ∷ id ∷ "_" ∷ key ∷ [])) name) tt plain
  ]

  by_stem-Plain : (o : Option String) → Plain tx (by_stem tx o)
  by_stem-Plain none = tt
  by_stem-Plain (some id) = tt

  live_route-Plain :
      (is_get : Bool) (tag quality : Option String) (segs : List String)
      → Plain tx (live_route tx is_get tag quality segs)
  unfolding live_route
  live_route-Plain is_get tag quality [] = tt
  live_route-Plain is_get tag quality (file ∷ []) =
      Plain-if (not is_get) not_found _ tt (by_stem-Plain (tx.stem file))
  live_route-Plain is_get tag quality (id ∷ last ∷ []) = Plain-if (not is_get) not_found _ tt (
      Plain-if (str_eq last "playlist.m3u8") (redirect id (sanitize_quality quality)) _ tt
        (Plain-if (str_eq last "turbo.ts") (turbo id) not_found tt tt))
  live_route-Plain is_get tag quality (id ∷ q ∷ last ∷ []) = Plain-if (not is_get) not_found _ tt (
      Plain-if (str_eq last "playlist.m3u8") (playlist id (sanitize_quality (some q))) _ tt
        (stream_segment-Plain "live" tag id q last))
  live_route-Plain is_get tag quality (a ∷ b ∷ c ∷ d ∷ rest) = tt

  vod_route-Plain :
      (is_get : Bool) (tag quality : Option String) (segs : List String)
      → Plain tx (vod_route tx is_get tag quality segs)
  unfolding vod_route
  vod_route-Plain is_get tag quality [] = tt
  vod_route-Plain is_get tag quality (file ∷ []) = tt
  vod_route-Plain is_get tag quality (id ∷ last ∷ []) =
      Plain-if (is_get && str_eq last "playlist.m3u8") (redirect id (sanitize_quality quality))
        not_found tt tt
  vod_route-Plain is_get tag quality (id ∷ q ∷ last ∷ []) = Plain-if (not is_get) not_found _ tt (
      Plain-if (str_eq last "playlist.m3u8") (playlist id (sanitize_quality (some q))) _ tt
        (stream_segment-Plain "vod" tag id q last))
  vod_route-Plain is_get tag quality (a ∷ b ∷ c ∷ d ∷ rest) = tt

  recording_route-Plain :
      (is_get : Bool) (segs : List String) → Plain tx (recording_route tx is_get segs)
  unfolding recording_route
  recording_route-Plain is_get [] = tt
  recording_route-Plain is_get (file ∷ []) = tt
  recording_route-Plain is_get (id ∷ last ∷ []) = Plain-if (not is_get) not_found _ tt (
      Plain-if (str_eq last "playlist.m3u8") (recorded id) _ tt
        (recording_segment-Plain id "t0" last))
  recording_route-Plain is_get (id ∷ key ∷ last ∷ []) =
      Plain-if (not is_get) not_found _ tt (recording_segment-Plain id key last)
  recording_route-Plain is_get (a ∷ b ∷ c ∷ d ∷ rest) = tt

-- Whatever a streaming request asks for, a segment is served only under a name that does not lead
-- up.
pub routes-Plain :
    (tx : TextTests) (is_get : Bool) (tag quality : Option String) (segs : List String)
    → Plain tx (live_route tx is_get tag quality segs)
      × Plain tx (vod_route tx is_get tag quality segs)
      × Plain tx (recording_route tx is_get segs)
routes-Plain tx is_get tag quality segs = (
  live_route-Plain tx is_get tag quality segs,
  vod_route-Plain tx is_get tag quality segs,
  recording_route-Plain tx is_get segs,
)
