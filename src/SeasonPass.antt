-- ===== src/SeasonPass.antt =====
-- Season passes (services/recording_scheduler.rs, `scan_season_pass` and `check_season_passes`).
-- What the panel lists for a channel comes as its answer, the dates read; lower case, the test
-- `contains` and the encoding of forms are those of the libraries.
pub mod Counts
pub mod Spared
use xtremflow.Base.{
  ℕ, suc, ◌+◌, ◌≡◌, String, Bool, true, false, not, ◌&&◌, ◌||◌, Option, none, some, List, [], ◌∷◌,
  ◌++◌, if◌then◌else◌, str_eq, leb, ltb, ◌==◌, minutes, or_option,
}
use xtremflow.Accounts.{Playlist, Store, get_playlist_by_id, get_playlists}
use xtremflow.Recordings.{
  Recording, Table, is_scheduled, new_recording, create_recording, update_recording_window,
  set_recording_playlist, find_recording_for_episode,
}
use Prim.Native.String

pub record SeasonPass : Type 0 where
  pub user_id : String
  pub show_title : String
  pub channel_id : String
  pub stream_url : String
  pub match_mode : String
  pub playlist_id : String

-- A programme that the panel lists: its title decoded, its window where both dates can be read,
-- and the identifier that is drawn where it is planned.
pub record Listing : Type 0 where
  pub title : String
  pub window : Option (ℕ × ℕ)
  pub new_id : String

-- `normalize` puts a title in lower case with single blanks, `lower` is SQLite's LOWER.
pub record Texts : Type 0 where
  pub normalize : String → String
  pub lower : String → String
  pub contains : String → String → Bool
  pub starts_with : String → String → Bool
  pub encode : String → String

unfoldable pub title_matches : Texts → String → String → String → Bool
title_matches tx title show_title match_mode =
    let t = tx.normalize title in
    let s = tx.normalize show_title in
    if str_eq s ""
    then false
    else if str_eq match_mode "contains"
    then tx.contains t s
    else str_eq t s

unfoldable pub stream_url_for_playlist : Texts → String → String → String
stream_url_for_playlist tx url playlist_id =
    if str_eq playlist_id "" || (not (tx.starts_with url "/api/") || tx.contains url "playlist=")
    then url
    else String.◌++◌ url (
        String.◌++◌ (if tx.contains url "?" then "&" else "?")
          (String.◌++◌ "playlist=" (tx.encode playlist_id)))

-- What a scan knows: the clock, and the cap on creations.
pub record Scan : Type 0 where
  pub texts : Texts
  pub now : ℕ
  pub max_per_scan : ℕ

module _ (scan : Scan) where
  -- The window of a scheduled recording follows the guide.
  unfoldable pub realign : Recording → ℕ → ℕ → Table → Table
  realign existing start end_at rows =
      if is_scheduled existing.status
        && (not (existing.start_time == start) || not (existing.end_time == end_at))
      then update_recording_window existing.id start end_at scan.now rows
      else rows

  unfoldable pub plan_episode : SeasonPass → Playlist → Listing → ℕ → ℕ → Table → Table
  plan_episode pass p l start end_at rows = set_recording_playlist l.new_id p.id (
      create_recording
        (new_recording l.new_id pass.user_id pass.channel_id
          (stream_url_for_playlist scan.texts pass.stream_url p.id) l.title start end_at scan.now)
        rows)

  -- A programme that concerns the pass and is not over.
  abbrev pub eligible : SeasonPass → Listing → Option (ℕ × ℕ)
  eligible pass l =
      if not (title_matches scan.texts l.title pass.show_title pass.match_mode)
      then none
      else elim l.window [
        | none ↦ none
        | some (start, end_at) ↦ if ltb end_at scan.now then none else some (start, end_at)
      ]

  -- The loop on the listings, with the count of creations.
  unfoldable pub scan_listings : SeasonPass → Playlist → List Listing → ℕ → Table → Table
  unfolding plan_episode realign
  scan_listings pass p [] created rows = rows
  scan_listings pass p (l ∷ ls) created rows = elim (eligible pass l) [
    | none ↦ scan_listings pass p ls created rows
    | some (start, end_at) ↦
        elim (find_recording_for_episode scan.texts.lower l.title start (minutes 2) rows) [
          | some existing ↦ scan_listings pass p ls created (realign existing start end_at rows)
          | none ↦
              if leb scan.max_per_scan created
              then rows
              else scan_listings pass p ls (suc created) (plan_episode pass p l start end_at rows)
        ]
  ]

  abbrev of_owner : String → Option Playlist → Option Playlist
  of_owner user_id none = none
  of_owner user_id (some p) = if str_eq p.user_id user_id then some p else none

  abbrev first : List Playlist → Option Playlist
  first [] = none
  first (p ∷ ps) = some p

  -- The playlist of the pass where the owner still has it, else the most recent of the owner.
  unfoldable pub pass_playlist : SeasonPass → Store → Option Playlist
  pass_playlist pass store =
      or_option (of_owner pass.user_id (get_playlist_by_id pass.playlist_id store))
        (first (get_playlists pass.user_id store))

  -- The answer of the panel is none where it cannot be had or read.
  unfoldable pub scan_season_pass : SeasonPass → Option (List Listing) → Store → Table → Table
  unfolding scan_listings pass_playlist
  scan_season_pass pass answer store rows = elim (pass_playlist pass store) [
    | none ↦ rows
    | some p ↦ elim answer [ none ↦ rows | some listings ↦ scan_listings pass p listings 0 rows ]
  ]

  -- Each pass with the answer that its scan is given.
  unfoldable pub check_season_passes :
      List (SeasonPass × Option (List Listing)) → Store → Table → Table
  unfolding scan_season_pass
  check_season_passes [] store rows = rows
  check_season_passes ((pass, answer) ∷ passes) store rows =
      check_season_passes passes store (scan_season_pass pass answer store rows)
