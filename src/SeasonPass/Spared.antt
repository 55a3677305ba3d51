-- ===== src/SeasonPass/Spared.antt =====
-- What season passes leave alone.
use xtremflow.Base.{
  ℕ, suc, ◌≡◌, refl, sym, ap, ◌∙◌, inl, inr, String, Bool, true, false, not, ◌&&◌, ◌||◌, none, some,
  List, [], ◌∷◌, arith, if◌then◌else◌, str_eq, str_eq_iff, leb, ◌==◌, Bool-cases, Option-cases, All,
  find, minutes, some-ne-none, some-value, subst, str_eq_refl,
}
use xtremflow.Accounts.{Playlist, Store}
use xtremflow.Recordings.{
  Recording, Table, is_scheduled, new_recording, create_recording, update_recording_window,
  set_recording_playlist, find_recording_for_episode, get_recording_by_id, update_where, has_id,
}
use xtremflow.Recordings.Laws.{Unique, get-update_where, update_where-Unique, create-Unique}
use xtremflow.SeasonPass.{
  SeasonPass, Listing, Scan, realign, plan_episode, eligible, scan_listings, pass_playlist,
  stream_url_for_playlist, scan_season_pass,
}

-- The identifiers that are drawn are not in use, and differ.
abbrev pub Fresh : List Listing → Table → Type 0
Fresh [] rows = Unit
Fresh (l ∷ ls) rows =
    (get_recording_by_id l.new_id rows ≡ none)
    × All (λ (m : Listing). str_eq m.new_id l.new_id ≡ false) ls
    × Fresh ls rows

-- A row that is not scheduled.
abbrev pub Begun : String → Recording → Table → Type 0
Begun j r rows = (get_recording_by_id j rows ≡ some r) × (is_scheduled r.status ≡ false)

found-All :
    (P : Recording → Type 0) (q : Recording → Bool) (rows : Table) (e : Recording)
    → All P rows
    → find q rows ≡ some e
    → P e
found-All P q [] e all found = absurd (some-ne-none (sym found))
found-All P q (r ∷ rows) e (h, all) found = elim (Bool-cases (q r)) [
  | inl here ↦ let same : r ≡ e = some-value (rw here at found) in subst P same h
  | inr later ↦ found-All P q rows e all (rw later at found)
]

find-Unique :
    (q : Recording → Bool) (rows : Table) (e : Recording)
    → Unique rows
    → find q rows ≡ some e
    → get_recording_by_id e.id rows ≡ some e
unfolding get_recording_by_id
find-Unique q [] e u found = absurd (some-ne-none (sym found))
find-Unique q (r ∷ rows) e (new, u) found = elim (Bool-cases (q r)) [
  | inl here ↦
      let same : r ≡ e = some-value (rw here at found) in
      subst
        (λ (x : Recording). (if has_id x.id r then some r else find (has_id x.id) rows) ≡ some x)
        same (rw (str_eq_refl r.id) refl)
  | inr later ↦
      let deeper = find-Unique q rows e u (rw later at found) in
      let other =
        found-All (λ (x : Recording). str_eq x.id r.id ≡ false) q rows e new (rw later at found) in
      let differs : has_id e.id r ≡ false =
        ground (arith, other, str_eq_iff e.id r.id, str_eq_iff r.id e.id) in
      rw differs deeper
]

get_create_there :
    (j : String) (r x : Recording) (rows : Table)
    → get_recording_by_id j rows ≡ some r
    → get_recording_by_id j (create_recording x rows) ≡ some r
unfolding get_recording_by_id create_recording
get_create_there j r x [] e = absurd (some-ne-none (sym e))
get_create_there j r x (y ∷ rows) e = ground (arith, get_create_there j r x rows)

get_create_absent :
    (j : String) (x : Recording) (rows : Table)
    → get_recording_by_id j rows ≡ none
    → str_eq x.id j ≡ false
    → get_recording_by_id j (create_recording x rows) ≡ none
unfolding get_recording_by_id create_recording
get_create_absent j x [] e other = ground (arith, other)
get_create_absent j x (y ∷ rows) e other = ground (arith, get_create_absent j x rows)

clash : true ≡ false → ⊥
clash e = cc

drawn_differs :
    (new j : String) (r : Recording) (rows : Table)
    → get_recording_by_id new rows ≡ none
    → get_recording_by_id j rows ≡ some r
    → str_eq new j ≡ false
drawn_differs new j r rows absent found = elim (Bool-cases (str_eq new j)) [
  | inr differs ↦ differs
  | inl same ↦ absurd (
      some-ne-none (
        sym found
        ∙ (ap (λ k. get_recording_by_id k rows) (sym ((str_eq_iff new j).0 same)) ∙ absent)))
]

episode_there :
    (lower : String → String) (title : String) (start : ℕ) (rows : Table) (e : Recording)
    → Unique rows
    → find_recording_for_episode lower title start (minutes 2) rows ≡ some e
    → get_recording_by_id e.id rows ≡ some e
unfolding find_recording_for_episode
episode_there lower title start rows e unique known = find-Unique _ rows e unique known

get_update_absent :
    (id j : String) (f : Recording → Recording) (rows : Table)
    → ((r : Recording) → (f r).id ≡ r.id)
    → get_recording_by_id j rows ≡ none
    → get_recording_by_id j (update_where id f rows) ≡ none
get_update_absent id j f rows keep absent =
    ground (arith, get-update_where id j f rows keep, absent)

-- A row that is not scheduled stays, among rows with identifiers of their own.
abbrev pub Stays : String → Recording → Table → Type 0
Stays j r rows = Begun j r rows × Unique rows

module _ (scan : Scan) where
  abbrev window : ℕ → ℕ → Recording → Recording
  window start end_at r = record r { start_time = start; end_time = end_at; updated_at = scan.now }

  abbrev moved : Recording → ℕ → ℕ → Bool
  moved e start end_at =
      is_scheduled e.status && (not (e.start_time == start) || not (e.end_time == end_at))

  realign-Stays :
      (j : String) (r e : Recording) (start end_at : ℕ) (rows : Table)
      → get_recording_by_id e.id rows ≡ some e
      → Stays j r rows
      → Stays j r (realign scan e start end_at rows)
  unfolding realign update_recording_window
  realign-Stays j r e start end_at rows there ((found, begun), unique) =
      let moves = moved e start end_at in
      elim (Bool-cases (moves)) [
        | inr idle ↦ rw (idle, realign) ((found, begun), unique)
        | inl on ↦
            let planned : is_scheduled e.status ≡ true = ground (arith, on) in
            elim (Bool-cases (str_eq e.id j)) [
              | inl same ↦
                  let named : e.id ≡ j = (str_eq_iff e.id j).0 same in
                  let e_is_r : e ≡ r =
                    some-value (sym there ∙ (ap (λ k. get_recording_by_id k rows) named ∙ found)) in
                  absurd (
                    clash (
                      sym planned ∙ (ap (λ (x : Recording). is_scheduled x.status) e_is_r ∙ begun)))
              | inr other ↦
                  let f = window start end_at in
                  let kept : get_recording_by_id j (update_where e.id f rows) ≡ some r =
                    ground (arith, get-update_where e.id j f rows (λ x. refl), other, found) in
                  rw (on, realign)
                    ((kept, begun), update_where-Unique e.id f (λ x. refl) rows unique)
            ]
      ]

  realign-absent :
      (k : String) (e : Recording) (start end_at : ℕ) (rows : Table)
      → get_recording_by_id k rows ≡ none
      → get_recording_by_id k (realign scan e start end_at rows) ≡ none
  unfolding realign update_recording_window
  realign-absent k e start end_at rows absent =
      ground (arith, absent, get_update_absent e.id k (window start end_at) rows (λ x. refl) absent)

  abbrev marked : Playlist → Recording → Recording
  marked p r = record r { playlist_id = some p.id }

  plan_episode-Stays :
      (j : String) (r : Recording) (pass : SeasonPass) (p : Playlist) (l : Listing)
      (start end_at : ℕ) (rows : Table)
      → get_recording_by_id l.new_id rows ≡ none
      → Stays j r rows
      → Stays j r (plan_episode scan pass p l start end_at rows)
  unfolding plan_episode set_recording_playlist new_recording
  plan_episode-Stays j r pass p l start end_at rows absent ((found, begun), unique) =
      let made =
        new_recording l.new_id pass.user_id pass.channel_id
          (stream_url_for_playlist scan.texts pass.stream_url p.id) l.title start end_at scan.now in
      let added = create_recording made rows in
      let there = get_create_there j r made rows found in
      let differs : str_eq l.new_id j ≡ false = drawn_differs l.new_id j r rows absent found in
      let kept : get_recording_by_id j (update_where l.new_id (marked p) added) ≡ some r =
        ground (arith, get-update_where l.new_id j (marked p) added (λ x. refl), differs, there) in
      (
        (kept, begun),
        update_where-Unique l.new_id (marked p) (λ x. refl) added
            (create-Unique made rows absent unique),
      )

  plan_episode-absent :
      (k : String) (pass : SeasonPass) (p : Playlist) (l : Listing) (start end_at : ℕ)
      (rows : Table)
      → get_recording_by_id k rows ≡ none
      → str_eq l.new_id k ≡ false
      → get_recording_by_id k (plan_episode scan pass p l start end_at rows) ≡ none
  unfolding plan_episode set_recording_playlist new_recording
  plan_episode-absent k pass p l start end_at rows absent differs =
      let made =
        new_recording l.new_id pass.user_id pass.channel_id
          (stream_url_for_playlist scan.texts pass.stream_url p.id) l.title start end_at scan.now in
      get_update_absent l.new_id k (marked p) (create_recording made rows) (λ x. refl)
        (get_create_absent k made rows absent differs)

  -- What is drawn later stays fresh.
  Fresh-kept :
      (ls : List Listing) (rows rows' : Table) (id : String)
      → ((k : String)
          → get_recording_by_id k rows ≡ none
          → str_eq id k ≡ false
          → get_recording_by_id k rows' ≡ none)
      → All (λ (m : Listing). str_eq m.new_id id ≡ false) ls
      → Fresh ls rows
      → Fresh ls rows'
  Fresh-kept [] rows rows' id keep all fresh = tt
  Fresh-kept (l ∷ ls) rows rows' id keep (h, all) (absent, apart, fresh) = (
    keep l.new_id absent (ground (arith, h, str_eq_iff id l.new_id, str_eq_iff l.new_id id)),
    apart,
    Fresh-kept ls rows rows' id keep all fresh,
  )

  scan_listings-Stays :
      (j : String) (r : Recording) (pass : SeasonPass) (p : Playlist) (ls : List Listing)
      (created : ℕ) (rows : Table)
      → Fresh ls rows
      → Stays j r rows
      → Stays j r (scan_listings scan pass p ls created rows)
  unfolding scan_listings
  scan_listings-Stays j r pass p [] created rows fresh stays = stays
  scan_listings-Stays j r pass p (l ∷ ls) created rows (absent, apart, fresh) stays =
      elim (Option-cases (eligible scan pass l)) [
        | inl foreign ↦
            rw (foreign, scan_listings) (scan_listings-Stays j r pass p ls created rows fresh stays)
        | inr ((start, end_at), fits) ↦
            elim (Option-cases
              (find_recording_for_episode scan.texts.lower l.title start (minutes 2) rows)) [
                | inr (e, known) ↦
                    let rows' = realign scan e start end_at rows in
                    let there = episode_there scan.texts.lower l.title start rows e stays.1 known in
                    let fresh' =
                      Fresh-kept ls rows rows' l.new_id
                        (λ k gone differs. realign-absent k e start end_at rows gone) apart fresh in
                    rw (fits, known, scan_listings)
                      (scan_listings-Stays j r pass p ls created rows' fresh'
                        (realign-Stays j r e start end_at rows there stays))
                | inl unknown ↦ elim (Bool-cases (leb scan.max_per_scan created)) [
                  | inl full ↦ rw (fits, unknown, full, scan_listings) stays
                  | inr free ↦
                      let rows' = plan_episode scan pass p l start end_at rows in
                      let fresh' =
                        Fresh-kept ls rows rows' l.new_id
                          (λ k gone differs.
                            plan_episode-absent k pass p l start end_at rows gone differs)
                          apart fresh in
                      rw (fits, unknown, free, scan_listings)
                        (scan_listings-Stays j r pass p ls (suc created) rows' fresh'
                          (plan_episode-Stays j r pass p l start end_at rows absent stays))
                ]
              ]
      ]

-- The scan of a pass leaves every recording as it is that is under way or over, where the
-- identifiers are unique and the ones drawn are fresh.
pub scan_season_pass-spares :
    (scan : Scan) (pass : SeasonPass) (ls : List Listing) (store : Store) (rows : Table)
    (j : String) (r : Recording)
    → Unique rows
    → Fresh ls rows
    → get_recording_by_id j rows ≡ some r
    → is_scheduled r.status ≡ false
    → get_recording_by_id j (scan_season_pass scan pass (some ls) store rows) ≡ some r
unfolding scan_season_pass
scan_season_pass-spares scan pass ls store rows j r unique fresh found begun =
    elim (Option-cases (pass_playlist scan pass store)) [
      | inl missing ↦ rw (missing, scan_season_pass) found
      | inr (p, there) ↦
          rw (there, scan_season_pass)
            (scan_listings-Stays scan j r pass p ls 0 rows fresh ((found, begun), unique)).0.0
    ]
