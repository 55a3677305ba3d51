-- ===== src/SeasonPass/Counts.antt =====
-- How many recordings a season pass adds.
use xtremflow.Base.{
  ℕ, suc, ◌+◌, ◌-◌, ◌≤◌, ◌≡◌, refl, ap, ◌∙◌, inl, inr, String, Option, none, some, List, [], ◌∷◌,
  arith, leb, length, length-append, Bool-cases, Option-cases, minutes,
}
use xtremflow.Accounts.{Playlist, Store}
use xtremflow.Recordings.{
  Recording, Table, create_recording, update_recording_window, set_recording_playlist,
  find_recording_for_episode, update_where,
}
use xtremflow.SeasonPass.{
  SeasonPass, Listing, Scan, realign, plan_episode, eligible, scan_listings, pass_playlist,
  scan_season_pass,
}

length-update_where :
    (id : String) (f : Recording → Recording) (rows : Table)
    → length (update_where id f rows) ≡ length rows
unfolding update_where
length-update_where id f [] = refl
length-update_where id f (r ∷ rows) = ap suc (length-update_where id f rows)

module _ (scan : Scan) where
  length-realign :
      (e : Recording) (start end_at : ℕ) (rows : Table)
      → length (realign scan e start end_at rows) ≡ length rows
  unfolding realign update_recording_window
  length-realign e start end_at rows = ground (
    arith,
    length-update_where e.id
        (λ r. record r { start_time = start; end_time = end_at; updated_at = scan.now }) rows,
  )

  length-plan_episode :
      (pass : SeasonPass) (p : Playlist) (l : Listing) (start end_at : ℕ) (rows : Table)
      → length (plan_episode scan pass p l start end_at rows) ≡ suc (length rows)
  unfolding plan_episode set_recording_playlist create_recording
  length-plan_episode pass p l start end_at rows =
      length-update_where l.new_id (λ r. record r { playlist_id = some p.id }) _
      ∙ omega (arith, length-append rows (_ ∷ []))

  scan_listings-le :
      (pass : SeasonPass) (p : Playlist) (ls : List Listing) (created : ℕ) (rows : Table)
      → (length rows ≤ length (scan_listings scan pass p ls created rows))
        × (length (scan_listings scan pass p ls created rows)
            ≤ length rows + (scan.max_per_scan - created))
  unfolding scan_listings
  scan_listings-le pass p [] created rows = (omega arith, omega arith)
  scan_listings-le pass p (l ∷ ls) created rows = elim (Option-cases (eligible scan pass l)) [
    | inl foreign ↦ rw (foreign, scan_listings) (scan_listings-le pass p ls created rows)
    | inr ((start, end_at), fits) ↦
        elim (Option-cases
          (find_recording_for_episode scan.texts.lower l.title start (minutes 2) rows)) [
            | inr (e, known) ↦
                let rows' = realign scan e start end_at rows in
                let (low, high) = scan_listings-le pass p ls created rows' in
                let same = length-realign e start end_at rows in
                rw (fits, known, scan_listings)
                  (omega (arith, low, same), omega (arith, high, same))
            | inl unknown ↦ elim (Bool-cases (leb scan.max_per_scan created)) [
              | inl full ↦ rw (fits, unknown, full, scan_listings) (omega arith, omega arith)
              | inr free ↦
                  let rows' = plan_episode scan pass p l start end_at rows in
                  let (low, high) = scan_listings-le pass p ls (suc created) rows' in
                  let more = length-plan_episode pass p l start end_at rows in
                  let below : suc created ≤ scan.max_per_scan = ground (arith, free) in
                  rw (fits, unknown, free, scan_listings)
                    (omega (arith, low, more), omega (arith, high, more, below))
            ]
          ]
  ]

-- No recording is dropped by a pass, and a scan plans at most as many as its cap.
pub scan_season_pass-le :
    (scan : Scan) (pass : SeasonPass) (answer : Option (List Listing)) (store : Store)
    (rows : Table)
    → (length rows ≤ length (scan_season_pass scan pass answer store rows))
      × (length (scan_season_pass scan pass answer store rows) ≤ length rows + scan.max_per_scan)
unfolding scan_season_pass
scan_season_pass-le scan pass none store rows =
    elim (Option-cases (pass_playlist scan pass store)) [
      | inl missing ↦ rw (missing, scan_season_pass) (omega arith, omega arith)
      | inr (p, there) ↦ rw (there, scan_season_pass) (omega arith, omega arith)
    ]
scan_season_pass-le scan pass (some ls) store rows =
    elim (Option-cases (pass_playlist scan pass store)) [
      | inl missing ↦ rw (missing, scan_season_pass) (omega arith, omega arith)
      | inr (p, there) ↦
          let (low, high) = scan_listings-le scan pass p ls 0 rows in
          rw (there, scan_season_pass) (low, omega (arith, high))
    ]
