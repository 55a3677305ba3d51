-- ===== src/Nba.antt =====
-- Automatic recordings of NBA games (services/nba_autorec.rs, models.rs): the search of the live
-- broadcast, the windows, and the decision for a game.
-- What services/nba_teams.rs reads in a text is the record `Reading`, any functions of a text; a
-- date written as text is the instant it stands for, `none` where it stands for none. Columns that
-- this code never reads (the kind of a rule, its default decision, identifiers of teams, dates of
-- rows) are left out.
pub mod Broadcast
pub mod Plan
pub mod Reconcile
use xtremflow.Base.{
  ℕ, ◌+◌, ◌-◌, min, max, String, Bool, true, false, not, ◌&&◌, ◌||◌, Option, none, some, List, [],
  ◌∷◌, ◌++◌, map, if◌then◌else◌, str_eq, leb, ltb, ◌==◌, filter, any, length, elem, abs_diff,
  unwrap_or, is_some, minutes, hours, num_minutes, num_seconds, ℤ, pos_part,
}
use xtremflow.Recordings.{Recording, Table, Status, recording, completed, failed, is_scheduled}
use Prim.Native.String

pub record EpgProgramme : Type 0 where
  pub channel_id : String
  pub channel_label : String
  pub title : String
  pub description : String
  pub start : ℕ
  pub end_at : ℕ
  pub is_live : Bool
  pub previously_shown : Bool

-- `by_abbr` (the abbreviation and the nickname), `extract_teams` (abbreviations), `mentions_nba`,
-- and `contains_words` of the normalized text for the two word lists.
pub record Reading : Type 0 where
  pub by_abbr : String → Option (String × String)
  pub extract_teams : String → List String
  pub mentions_nba : String → Bool
  pub says_rerun : String → Bool
  pub says_live : String → Bool
  pub normalize : String → String

pub record LiveBroadcast : Type 0 where
  pub programme : EpgProgramme
  pub confidence : ℕ

-- The words that the column `status` of a game holds.
pub data GameStatus : Type 0 where
  provisional confirmed planned recorded missed not_on_bein : GameStatus

pub data Decision : Type 0 where
  auto accepted refused : Decision

pub record AutoRule : Type 0 where
  pub id : String
  pub user_id : String
  pub enabled : Bool
  pub channel_ids : List String
  pub pad_before_min : ℤ
  pub pad_after_min : ℤ
  pub keep_days : Option ℤ
  pub playlist_id : Option String

pub record NbaGame : Type 0 where
  pub game_id : String
  pub rule_id : String
  pub home : String
  pub away : String
  pub home_tri : String
  pub away_tri : String
  pub tipoff_utc : Option ℕ
  pub status : GameStatus
  pub decision : Decision
  pub channel_id : Option String
  pub channel_name : Option String
  pub epg_title : Option String
  pub epg_start : Option ℕ
  pub epg_end : Option ℕ
  pub recording_id : Option String
  pub confidence : Option ℕ
  pub conflict : Bool

-- `EpgProgramme::text`
abbrev pub text : EpgProgramme → String
text p = String.◌++◌ (String.◌++◌ p.title " ") p.description

-- The abbreviations of the two teams that are known.
abbrev pub known : Reading → String → List String
known rd abbr = elim (rd.by_abbr abbr) [ none ↦ [] | some t ↦ t.0 ∷ [] ]

abbrev pub wanted_teams : Reading → String → String → List String
wanted_teams rd home away = known rd home ++ known rd away

abbrev pub in_window : ℕ → EpgProgramme → Bool
in_window tipoff p =
    leb (tipoff - minutes 45) p.start && (leb p.start (tipoff + minutes 20) && ltb p.start p.end_at)

-- What the teams named are worth; none where the programme is refused.
abbrev pub team_score : Reading → Bool → String → List String → Option ℕ
team_score rd nearby txt [] = if rd.mentions_nba txt && not nearby then some 10 else none
team_score rd nearby txt (_ ∷ []) = some 30
team_score rd nearby txt (_ ∷ _ ∷ _) = some 60

abbrev pub gap : ℕ → EpgProgramme → ℕ
gap tipoff p = num_minutes (abs_diff p.start tipoff)

abbrev pub full_score : Reading → ℕ → EpgProgramme → ℕ → ℕ
full_score rd tipoff p base =
    base
    + (if leb (gap tipoff p) 20 then 30 else 15)
    + (if p.is_live || rd.says_live (text p) then 10 else 0)

-- The closure of the `filter_map`.
unfoldable pub rate : Reading → List String → ℕ → Bool → EpgProgramme → Option LiveBroadcast
rate rd wanted tipoff nearby p =
    let teams = rd.extract_teams (text p) in
    if p.previously_shown || rd.says_rerun (text p)
    then none
    else if any (λ t. not (elem t wanted)) teams
    then none
    else elim (team_score rd nearby (text p) teams) [
      | none ↦ none
      | some base ↦
          let score = full_score rd tipoff p base in
          if leb 40 score then some (record { programme = p; confidence = score }) else none
    ]

-- The order of `max_by_key`: the confidence, then the smaller gap.
abbrev pub at_least : ℕ → LiveBroadcast → LiveBroadcast → Bool
at_least tipoff b a =
    ltb a.confidence b.confidence
    || (a.confidence == b.confidence && leb (gap tipoff b.programme) (gap tipoff a.programme))

-- `max_by_key`, which gives the last of the greatest.
unfoldable pub best : ℕ → Option LiveBroadcast → List LiveBroadcast → Option LiveBroadcast
best tipoff so_far [] = so_far
best tipoff none (b ∷ bs) = best tipoff (some b) bs
best tipoff (some a) (b ∷ bs) = best tipoff (some (if at_least tipoff b a then b else a)) bs

unfoldable pub rate_all : Reading → List String → ℕ → Bool → List EpgProgramme → List LiveBroadcast
rate_all rd wanted tipoff nearby [] = []
rate_all rd wanted tipoff nearby (p ∷ ps) =
    let rest = rate_all rd wanted tipoff nearby ps in
    if in_window tipoff p
    then elim (rate rd wanted tipoff nearby p) [ none ↦ rest | some b ↦ b ∷ rest ]
    else rest

unfoldable pub find_live_broadcast :
    Reading → String → String → ℕ → Bool → List EpgProgramme → Option LiveBroadcast
unfolding best rate_all rate
find_live_broadcast rd home away tipoff nearby programmes =
    best tipoff none (rate_all rd (wanted_teams rd home away) tipoff nearby programmes)

unfoldable pub wants : NbaGame → Bool
wants g = elim g.decision [ accepted ↦ true | _ ↦ false ]

abbrev pub min_end : ℕ → ℕ
min_end tipoff = tipoff + minutes 150

unfoldable pub recording_window : AutoRule → ℕ → EpgProgramme → ℕ × ℕ
recording_window rule tipoff b = (
  min b.start tipoff - minutes (pos_part rule.pad_before_min),
  max b.end_at (min_end tipoff) + minutes (pos_part rule.pad_after_min),
)

abbrev pub nick : Reading → String → String → String
nick rd abbr fallback = elim (rd.by_abbr abbr) [ none ↦ fallback | some t ↦ t.1 ]

unfoldable pub recording_title : Reading → NbaGame → String
recording_title rd g =
    String.◌++◌ "NBA - "
      (String.◌++◌ (nick rd g.away_tri g.away) (String.◌++◌ " @ " (nick rd g.home_tri g.home)))

pub data Action : Type 0 where
  set_status : GameStatus → Action
  create : ℕ → ℕ → Action
  realign : ℕ → ℕ → Action
  recreate : ℕ → ℕ → Action
  cancel : Action

unfoldable pub past_or : NbaGame → ℕ → ℕ → GameStatus → GameStatus
past_or g tipoff now otherwise =
    if ltb (tipoff + hours 3) now
    then elim g.status [ confirmed ↦ missed | _ ↦ not_on_bein ]
    else otherwise

-- A recording launched or ended decides the game's status alone.
unfoldable pub settled : Option Recording → Option GameStatus
settled none = none
settled (some r) = elim r.status [
  | recording ↦ some planned
  | completed ↦ some recorded
  | failed ↦ some missed
  | _ ↦ none
]

-- `recording.filter(|r| r.status == "scheduled")`
unfoldable pub still_scheduled : Option Recording → Option Recording
still_scheduled none = none
still_scheduled (some r) = if is_scheduled r.status then some r else none

abbrev pub is_moved : Recording → ℕ → ℕ → Bool
is_moved r start_at end_at =
    ltb 60 (num_seconds (abs_diff r.start_time start_at))
    || ltb 60 (num_seconds (abs_diff r.end_time end_at))

-- A wanted game with a broadcast on a channel of the playlist.
unfoldable pub plan_capture : ℕ × ℕ → EpgProgramme → Option Recording → ℕ → Action
plan_capture (start_at, end_at) p scheduled_row now =
    if leb end_at now then set_status missed else elim scheduled_row [
      | none ↦ create start_at end_at
      | some r ↦
          if not (str_eq r.channel_id p.channel_id)
          then recreate start_at end_at
          else if is_moved r start_at end_at
          then realign start_at end_at
          else set_status planned
    ]

unfoldable pub plan_action :
    AutoRule → NbaGame → ℕ → Option LiveBroadcast → Option Recording → ℕ → Action
unfolding settled still_scheduled past_or plan_capture recording_window wants
plan_action rule g tipoff live row now = elim (settled row) [
  | some s ↦ set_status s
  | none ↦
      let kept = still_scheduled row in
      if not (wants g)
      then elim kept [
        | some r ↦ cancel
        | none ↦
            if is_some live
            then set_status confirmed
            else set_status (past_or g tipoff now provisional)
      ]
      else elim live [
        | none ↦ elim kept [
          | some r ↦ set_status planned
          | none ↦ set_status (past_or g tipoff now provisional)
        ]
        | some l ↦
            if str_eq l.programme.channel_id ""
            then elim kept [ some r ↦ set_status planned | none ↦ set_status confirmed ]
            else plan_capture (recording_window rule tipoff l.programme) l.programme kept now
      ]
]
