-- ===== src/Guide.antt =====
-- The guide of programmes (services/xmltv.rs, `XmltvEpgService`): its index, the search of a channel
-- and the refresh. The readings of names are parameters; a download comes as its outcome.
pub mod Parse
pub mod Indexed
pub mod Refresh
pub mod Served
use xtremflow.Base.{
  ℕ, ◌+◌, ◌-◌, ◌≡◌, String, Bool, true, false, not, ◌&&◌, ◌||◌, Option, none, some, List, [], ◌∷◌,
  ◌++◌, map, if◌then◌else◌, str_eq, leb, ltb, Map, lookup, insert, is_some, hours,
}

pub record XmltvProgramme : Type 0 where
  pub title : String
  pub description : String
  pub start : ℕ
  pub stop : ℕ
  pub sub_title : Option String
  pub categories : List String
  pub is_new : Bool
  pub is_live : Bool
  pub is_premiere : Bool
  pub previously_shown : Bool

abbrev pub XmltvIndex : Type 0
XmltvIndex = Map (List XmltvProgramme)

-- The readings of names: `normalize_key`, `name_keys`, `loose_index_key` of `loose_key`,
-- `clean_channel_name`, and the base name of a channel that is an hour late, none where it is not.
pub record Names : Type 0 where
  pub normalize_key : String → String
  pub name_keys : String → List String
  pub loose : String → String
  pub cleaned : String → String
  pub plus_one : String → Option String
  pub dart_trim : String → String

abbrev of_option : (String → String) → Option String → String
of_option f none = ""
of_option f (some s) = f s

abbrev keys_of : (String → List String) → Option String → List String
keys_of f none = []
keys_of f (some s) = f s

abbrev is_nil : List XmltvProgramme → Bool
is_nil [] = true
is_nil (p ∷ ps) = false

-- The programmes of a key, where there are any.
abbrev pub hit : XmltvIndex → String → Option (List XmltvProgramme)
hit index key =
    if str_eq key ""
    then none
    else elim (lookup key index) [ none ↦ none | some ps ↦ if is_nil ps then none else some ps ]

unfoldable pub first_hit : XmltvIndex → List String → Option (List XmltvProgramme)
first_hit index [] = none
first_hit index (key ∷ keys) =
    let later = first_hit index keys in elim (hit index key) [ none ↦ later | some ps ↦ some ps ]

abbrev pub lookup_keys : Names → Option String → Option String → List String
lookup_keys nm channel_id display_name =
    of_option nm.normalize_key channel_id ∷ keys_of nm.name_keys display_name
    ++ of_option nm.loose channel_id ∷ keys_of (λ s. nm.loose (nm.cleaned s) ∷ []) display_name

-- `lookup`
unfoldable pub look_up :
    Names → XmltvIndex → Option String → Option String → Option (List XmltvProgramme)
unfolding first_hit
look_up nm index channel_id display_name = first_hit index (lookup_keys nm channel_id display_name)

abbrev pub an_hour_later : XmltvProgramme → XmltvProgramme
an_hour_later p = record p { start = p.start + hours 1; stop = p.stop + hours 1 }

abbrev or_nil : Option (List XmltvProgramme) → List XmltvProgramme
or_nil none = []
or_nil (some ps) = ps

abbrev base_name : Names → Option String → Option String
base_name nm none = none
base_name nm (some name) = nm.plus_one name

-- `programmes_for`, once the index is fresh.
unfoldable pub programmes_for :
    Names → XmltvIndex → Option String → Option String → List XmltvProgramme
unfolding look_up
programmes_for nm index channel_id display_name = elim (look_up nm index channel_id display_name) [
  | some ps ↦ ps
  | none ↦ elim (base_name nm display_name) [
    | none ↦ []
    | some base ↦ map an_hour_later (or_nil (look_up nm index none (some base)))
  ]
]

-- The state of the service; `in_flight` is whether a refresh runs.
pub record Service : Type 0 where
  pub index : XmltvIndex
  pub indexed_at : Option ℕ
  pub failed_at : Option ℕ
  pub in_flight : Bool

pub record XmltvConfig : Type 0 where
  pub sources : ℕ
  pub refresh_interval : ℕ
  pub retry_backoff : ℕ

abbrev within : ℕ → ℕ → Option ℕ → Bool
within span now none = false
within span now (some at) = ltb (now - at) span

-- Whether `ensure_fresh` starts a refresh: not without a source, while the index is fresh, soon
-- after a failure, or while one runs.
unfoldable pub starts_refresh : XmltvConfig → ℕ → Service → Bool
starts_refresh config now s =
    ltb 0 config.sources
    && (not (within config.refresh_interval now s.indexed_at)
        && (not (within config.retry_backoff now s.failed_at) && not s.in_flight))

unfoldable pub ensure_fresh : XmltvConfig → ℕ → Service → Service
unfolding starts_refresh
ensure_fresh config now s = if starts_refresh config now s then record s { in_flight = true } else s

-- What is absent is filled in.
unfoldable pub merge : XmltvIndex → XmltvIndex → XmltvIndex
merge [] merged = merged
merge ((key, ps) ∷ parsed) merged =
    merge parsed (if is_some (lookup key merged) then merged else insert key ps merged)

abbrev is_empty : XmltvIndex → Bool
is_empty [] = true
is_empty (e ∷ m) = false

abbrev pub add_source : XmltvIndex → XmltvIndex → XmltvIndex
add_source parsed merged = if is_empty merged then parsed else merge parsed merged

-- The sources in their order, none where one failed; the count is that of the ones served.
unfoldable pub merge_all : List (Option XmltvIndex) → XmltvIndex → Bool → XmltvIndex × Bool
unfolding merge
merge_all [] merged ok = (merged, ok)
merge_all (none ∷ rest) merged ok = merge_all rest merged ok
merge_all (some parsed ∷ rest) merged ok = merge_all rest (add_source parsed merged) true

-- The end of a refresh, with what each source gave.
unfoldable pub refresh : List (Option XmltvIndex) → ℕ → Service → Service
unfolding merge_all
refresh sources now s =
    let (merged, ok) = merge_all sources [] false in
    if not ok
    then record s { failed_at = some now; in_flight = false }
    else record { index = merged; indexed_at = some now; failed_at = none; in_flight = false }
