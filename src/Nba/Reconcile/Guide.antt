-- ===== src/Nba/Reconcile/Guide.antt =====
-- The guide of beIN on the streams of the playlist, the retention of a rule and the repair of the
-- artwork (services/nba_autorec.rs).
use xtremflow.Base.{
  ℕ, ◌+◌, ◌-◌, ◌≡◌, refl, ◌↔◌, inl, inr, String, Bool, true, false, not, ◌&&◌, Option, none, some,
  List, [], ◌∷◌, ◌++◌, arith, if◌then◌else◌, str_eq, ltb, find, elem, All, hours, days, ℤ, pos_part,
  ◌∙◌, All-sort_by_key, All-filter, is_positive, is_some, Bool-cases,
}
use xtremflow.Recordings.{
  Recording, Table, is_finished, is_completed, delete_recording, get_user_recordings,
  get_recording_by_id,
}
use xtremflow.Recordings.Laws.{Unique, get-delete_recording, All-of_get}
use xtremflow.Nba.{EpgProgramme, Reading, AutoRule}

pub record BeinBroadcast : Type 0 where
  pub channel : String
  pub title : String
  pub start : ℕ
  pub end_at : ℕ
  pub live : Bool

abbrev pub programme_of : String → String → BeinBroadcast → EpgProgramme
programme_of channel_id label b = record {
  channel_id = channel_id;
  channel_label = label;
  title = b.title;
  description = "";
  start = b.start;
  end_at = b.end_at;
  is_live = b.live;
  previously_shown = not b.live;
}

-- The stream whose label reads like the channel.
abbrev pub stream_for : Reading → List (String × String) → String → Option (String × String)
stream_for rd labels channel =
    find (λ (l : String × String). str_eq (rd.normalize l.1) (rd.normalize channel)) labels

-- The loop, with the channels without a stream that were met, in their order.
unfoldable pub map_from :
    Reading
    → List (String × String)
    → List BeinBroadcast
    → List String
    → List EpgProgramme × List String
map_from rd labels [] unmapped = ([], unmapped)
map_from rd labels (b ∷ bs) unmapped = elim (stream_for rd labels b.channel) [
  | some l ↦
      let (mapped, missing) = map_from rd labels bs unmapped in
      (programme_of l.0 l.1 b ∷ mapped, missing)
  | none ↦
      let met =
        if b.live && not (elem b.channel unmapped) then unmapped ++ b.channel ∷ [] else unmapped in
      let (mapped, missing) = map_from rd labels bs met in
      (programme_of "" b.channel b ∷ mapped, missing)
]

unfoldable pub map_bein_broadcasts :
    Reading → List BeinBroadcast → List (String × String) → List EpgProgramme × List String
unfolding map_from
map_bein_broadcasts rd broadcasts labels = map_from rd labels broadcasts []

abbrev pub is_from : String → Option String → Bool
is_from rule none = false
is_from rule (some id) = str_eq id rule

-- `expired` of the retention, for a limit.
abbrev pub is_expired : AutoRule → ℕ → Recording → Bool
is_expired rule limit r =
    is_from rule.id r.source_rule_id && (is_finished r.status && ltb r.end_time limit)

unfoldable pub drop_expired : AutoRule → ℕ → List Recording → Table → Table
drop_expired rule limit [] rows = rows
drop_expired rule limit (r ∷ rest) rows =
    drop_expired rule limit rest
      (if is_expired rule limit r then delete_recording r.id rows else rows)

-- The files go with the rows.
unfoldable pub apply_retention : AutoRule → ℕ → Table → Table
unfolding drop_expired
apply_retention rule now rows = elim rule.keep_days [
  | none ↦ rows
  | some d ↦
      if is_positive d
      then drop_expired rule (now - days (pos_part d)) (get_user_recordings rule.user_id rows) rows
      else rows
]

pub data ArtworkRepair : Type 0 where
  full sidecars no_repair : ArtworkRepair

unfoldable pub plan_artwork_repair : Recording → Bool → Bool → Bool → ℕ → ArtworkRepair
plan_artwork_repair r file_ok has_sidecars layout_outdated now =
    if not (
      is_completed r.status
      && (is_some r.source_rule_id && (file_ok && ltb (r.end_time + hours 2) now)))
    then no_repair
    else if not has_sidecars
    then full
    else if layout_outdated
    then sidecars
    else no_repair

-- Artwork is made anew for a completed recording of a rule whose file is there and which ended
-- more than two hours ago, where the files beside it are missing; it is drawn again where only the
-- layout changed; in all other cases nothing is touched.
pub plan_artwork_repair_iff :
    (r : Recording) (file_ok has_sidecars outdated : Bool) (now : ℕ)
    → let eligible =
        is_completed r.status
        && (is_some r.source_rule_id && (file_ok && ltb (r.end_time + hours 2) now)) in
      ((plan_artwork_repair r file_ok has_sidecars outdated now ≡ full)
        ↔ ((eligible ≡ true) × (has_sidecars ≡ false)))
      × ((plan_artwork_repair r file_ok has_sidecars outdated now ≡ sidecars)
          ↔ ((eligible ≡ true) × (has_sidecars ≡ true) × (outdated ≡ true)))
unfolding plan_artwork_repair
plan_artwork_repair_iff r file_ok has_sidecars outdated now = (ground arith, ground arith)

drop_expired_spares :
    (rule : AutoRule) (limit : ℕ) (id : String) (olds : List Recording) (rows : Table)
    → All (λ o. (str_eq o.id id ≡ true) → is_expired rule limit o ≡ false) olds
    → get_recording_by_id id (drop_expired rule limit olds rows) ≡ get_recording_by_id id rows
unfolding drop_expired
drop_expired_spares rule limit id [] rows h = refl
drop_expired_spares rule limit id (o ∷ rest) rows (p, h) =
    let next = if is_expired rule limit o then delete_recording o.id rows else rows in
    let same : get_recording_by_id id next ≡ get_recording_by_id id rows =
      elim (Bool-cases (is_expired rule limit o)) [
        | inr young ↦ rw young
        | inl old ↦ rw old (get-delete_recording o.id id rows ∙ ground arith)
      ] in
    drop_expired_spares rule limit id rest next h ∙ same

abbrev Young : AutoRule → ℕ → String → Recording → Type 0
Young rule limit id o = str_eq o.id id ≡ true → is_expired rule limit o ≡ false

-- The retention keeps every recording that is not one of the rule's, has not ended, or ended no
-- longer ago than the days that the rule keeps.
pub apply_retention_spares :
    (rule : AutoRule) (now : ℕ) (d : ℤ) (id : String) (r : Recording) (rows : Table)
    → Unique rows
    → rule.keep_days ≡ some d
    → get_recording_by_id id rows ≡ some r
    → is_expired rule (now - days (pos_part d)) r ≡ false
    → get_recording_by_id id (apply_retention rule now rows) ≡ some r
unfolding apply_retention get_user_recordings
apply_retention_spares rule now d id r rows u kept found young =
    let limit = now - days (pos_part d) in
    elim (Bool-cases (is_positive d)) [
      | inr never ↦ rw (kept, never) found
      | inl counted ↦
          rw (kept, counted)
            (drop_expired_spares rule limit id (get_user_recordings rule.user_id rows) rows (
                All-sort_by_key (λ s. s.start_time) (Young rule limit id) _
                  (All-filter (Young rule limit id) _ rows
                    (All-of_get (λ o. is_expired rule limit o ≡ false) id r rows u found young)))
              ∙ found)
    ]
