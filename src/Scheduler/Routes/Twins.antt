-- ===== src/Scheduler/Routes/Twins.antt =====
-- No user follows the same show on the same channel twice.
use xtremflow.Base.{
  ◌≡◌, refl, inl, inr, String, Bool, true, false, not, ◌&&◌, ◌||◌, Option, none, some, List, [],
  ◌∷◌, ◌++◌, map, arith, if◌then◌else◌, str_eq, filter, any, All, All-filter, All-append,
  Bool-cases, Option-cases,
}
use xtremflow.Accounts.{User}
use xtremflow.Scheduler.Routes.{Host, url_in, is_read}
use xtremflow.Scheduler.Routes.Passes.{
  PassRow, PassFields, PassReq, PassOutcome, moved, set_season_pass_playlist, is_duplicate,
  get_season_passes_for_user, create_season_pass, attach_pass, insert_pass, create_pass,
  delete_pass, delete_season_pass, get_season_pass_by_id, list_passes, pass_route, pass_scope,
  may_delete, mode_of, error,
}

module _ (lower : String → String) where
  abbrev pub is_twin : PassRow → PassRow → Bool
  is_twin r s =
      str_eq r.user_id s.user_id
      && (str_eq (lower r.show_title) (lower s.show_title) && str_eq r.channel_id s.channel_id)

  abbrev pub Single : List PassRow → Type 0
  Single [] = Unit
  Single (r ∷ rows) = All (λ s. is_twin r s ≡ false) rows × Single rows

  Single-filter : (p : PassRow → Bool) (rows : List PassRow) → Single rows → Single (filter p rows)
  Single-filter p [] all = tt
  Single-filter p (r ∷ rows) (new, rest) = elim (Bool-cases (p r)) [
    | inl keep ↦
        rw keep (All-filter (λ s. is_twin r s ≡ false) p rows new, Single-filter p rows rest)
    | inr drop ↦ rw drop (Single-filter p rows rest)
  ]

  Single-append :
      (row : PassRow) (rows : List PassRow)
      → All (λ r. is_twin r row ≡ false) rows
      → Single rows
      → Single (rows ++ row ∷ [])
  Single-append row [] fresh all = (tt, tt)
  Single-append row (r ∷ rows) (other, fresh) (new, rest) = (
    All-append (λ s. is_twin r s ≡ false) rows (row ∷ []) new (other, tt),
    Single-append row rows fresh rest,
  )

  is_twin-moved :
      (id pid : String) (r s : PassRow) → is_twin (moved id pid r) (moved id pid s) ≡ is_twin r s
  is_twin-moved id pid r s = elim (Bool-cases (str_eq r.id id)) [
    | inl e ↦ elim (Bool-cases (str_eq s.id id)) [ inl f ↦ rw (e, f) refl | inr f ↦ rw (e, f) refl ]
    | inr e ↦ elim (Bool-cases (str_eq s.id id)) [ inl f ↦ rw (e, f) refl | inr f ↦ rw (e, f) refl ]
  ]

  All-moved :
      (id pid : String) (r : PassRow) (rows : List PassRow)
      → All (λ s. is_twin r s ≡ false) rows
      → All (λ s. is_twin (moved id pid r) s ≡ false) (map (moved id pid) rows)
  All-moved id pid r [] all = tt
  All-moved id pid r (s ∷ rows) (other, rest) =
      (rw (is_twin-moved id pid r s) other, All-moved id pid r rows rest)

  Single-moved :
      (id pid : String) (rows : List PassRow) → Single rows → Single (map (moved id pid) rows)
  Single-moved id pid [] all = tt
  Single-moved id pid (r ∷ rows) (new, rest) =
      (All-moved id pid r rows new, Single-moved id pid rows rest)

  -- Where the test for a duplicate finds none, the new row has no twin.
  any-fresh :
      (row : PassRow) (rows : List PassRow)
      → any
          (is_duplicate lower row.show_title row.channel_id)
          (get_season_passes_for_user row.user_id rows)
        ≡ false
      → All (λ r. is_twin r row ≡ false) rows
  unfolding get_season_passes_for_user
  any-fresh row [] unique = tt
  any-fresh row (r ∷ rows) unique = elim (Bool-cases (str_eq r.user_id row.user_id)) [
    | inl same ↦
        let apart : is_twin r row ≡ false = ground (arith, unique, same) in
        let rest : any (is_duplicate lower row.show_title row.channel_id)
              (get_season_passes_for_user row.user_id rows)
            ≡ false =
          ground (arith, unique, same) in
        (apart, any-fresh row rows rest)
    | inr other ↦
        let rest : any (is_duplicate lower row.show_title row.channel_id)
              (get_season_passes_for_user row.user_id rows)
            ≡ false =
          ground (arith, unique, other) in
        (ground (arith, other), any-fresh row rows rest)
  ]

module _ (host : Host) (check_syntax : String → Option String) where
  abbrev One : List PassRow → Type 0
  One = Single host.texts.lower

  Single-if : (b : Bool) (x y : PassOutcome) → One x.0 → One y.0 → One (if b then x else y).0
  Single-if true x y left right = left
  Single-if false x y left right = right

  Single-attach :
      (pid : Option String) (id : String) (made : List PassRow × PassRow)
      → One made.0
      → One (attach_pass pid id made).0
  unfolding set_season_pass_playlist
  Single-attach none id (rows, row) all = all
  Single-attach (some pid) id (rows, row) all = Single-moved host.texts.lower id pid rows all

  Single-insert_pass :
      (pid : Option String) (f : PassFields) (u : User) (rows : List PassRow)
      → One rows
      → One (insert_pass host check_syntax pid f u rows).0
  unfolding insert_pass create_season_pass
  Single-insert_pass pid f u rows all =
      let row : PassRow =
        (create_season_pass host.new_id u.id f.show_title f.channel_id
          (url_in host.texts pid f.stream_url) (mode_of f.match_mode) host.now rows).1 in
      elim (Bool-cases (
        any (is_duplicate host.texts.lower f.show_title f.channel_id)
          (get_season_passes_for_user u.id rows))) [
            | inl twice ↦ rw (twice, insert_pass) all
            | inr unique ↦
                rw (unique, insert_pass)
                  (Single-attach pid host.new_id _ (
                    Single-append host.texts.lower row rows
                      (any-fresh host.texts.lower row rows unique) all))
          ]

  Single-create_pass :
      (req : PassReq) (rows : List PassRow)
      → One rows
      → One (create_pass host check_syntax req rows).0
  unfolding create_pass
  Single-create_pass req rows all = elim (Option-cases req.body) [
    | inl n ↦ rw (n, create_pass) all
    | inr (f, asked) ↦
        rw (asked, create_pass)
          (Single-if (str_eq f.show_title "" || (str_eq f.channel_id "" || str_eq f.stream_url ""))
            _ _ all
            (elim (Option-cases (check_syntax f.stream_url)) [
              | inr (e, bad) ↦ rw bad all
              | inl good ↦ elim (Option-cases req.user) [
                | inl n ↦ rw (good, n) all
                | inr (u, who) ↦
                    rw (good, who)
                      (Single-insert_pass (pass_scope host check_syntax req) f u rows all)
              ]
            ]))
  ]

  Single-delete_pass :
      (req : PassReq) (id : String) (rows : List PassRow)
      → One rows
      → One (delete_pass host check_syntax req id rows).0
  unfolding delete_pass delete_season_pass
  Single-delete_pass req id rows all = elim (Option-cases (get_season_pass_by_id id rows)) [
    | inl n ↦ rw (n, delete_pass) all
    | inr (r, found) ↦
        rw (found, delete_pass)
          (Single-if (not (may_delete host check_syntax req.user r)) _ _ all
            (Single-filter host.texts.lower _ rows all))
  ]

  Single-list_passes :
      (req : PassReq) (rows : List PassRow)
      → One rows
      → One (list_passes host check_syntax req rows).0
  unfolding list_passes
  Single-list_passes req rows all = elim (Option-cases req.user) [
    | inl n ↦ rw (n, list_passes) all
    | inr (u, who) ↦ rw (who, list_passes) all
  ]

  -- Where no user has two season passes for the same show, case aside, on the same channel, no
  -- request brings that about.
  pub pass_route-Single :
      (req : PassReq) (rows : List PassRow) (segments : List String)
      → Single host.texts.lower rows
      → Single host.texts.lower (pass_route host check_syntax req rows segments).0
  unfolding pass_route
  pass_route-Single req rows [] all =
      let posted =
        Single-if (str_eq req.method "POST") (create_pass host check_syntax req rows)
          (rows, (404, error)) (Single-create_pass req rows all) all in
      Single-if (is_read req.method) (list_passes host check_syntax req rows)
        (if str_eq req.method "POST"
          then create_pass host check_syntax req rows
          else (rows, (404, error)))
        (Single-list_passes req rows all) posted
  pass_route-Single req rows (id ∷ []) all =
      Single-if (str_eq req.method "DELETE") (delete_pass host check_syntax req id rows)
        (rows, (404, error)) (Single-delete_pass req id rows all) all
  pass_route-Single req rows (a ∷ b ∷ rest) all = all
