-- ===== src/Guide/Served.antt =====
-- The guide that is served for one channel (api/epg.rs, `EpgApi`): the order of the sources and the
-- caches. What a source gives comes as a value, with the end of a programme where it can be read;
-- `render` writes the answer.
pub mod Cascade
pub mod Cached
use xtremflow.Base.{
  ℕ, ◌+◌, ◌≡◌, String, Bool, true, false, not, ◌&&◌, ◌||◌, Option, none, some, List, [], ◌∷◌, ◌++◌,
  map, if◌then◌else◌, str_eq, ltb, Map, lookup, insert, remove, any, is_some, minutes, hours,
  filter, take, elem,
}
use xtremflow.Slots.Limits.{PlaylistConfig}
use xtremflow.Guide.{Names, XmltvIndex, XmltvProgramme, programmes_for}
use Prim.Native.String

-- A programme as it is served.
pub record Shown : Type 0 where
  pub title : String
  pub description : String
  pub end_at : Option ℕ

abbrev pub ends_after : ℕ → Shown → Bool
ends_after now p = elim p.end_at [ none ↦ false | some end_at ↦ ltb now end_at ]

unfoldable pub has_current_programme : ℕ → List Shown → Bool
has_current_programme now = any (ends_after now)

pub record Choice : Type 0 where
  pub programmes : List Shown
  pub source : String
  pub found : Bool

abbrev pub is_nil : List Shown → Bool
is_nil [] = true
is_nil (p ∷ ps) = false

-- The loop on the sources, each with what it gives.
unfoldable pub choose : ℕ → List (String × List Shown) → Choice → Choice
unfolding has_current_programme
choose now [] c = c
choose now ((name, candidate) ∷ rest) c =
    let taken : Choice = record { programmes = candidate; source = name; found = true } in
    let next : Choice = if not c.found || has_current_programme now candidate then taken else c in
    let skipped = choose now rest c in
    let later = choose now rest next in
    if is_nil candidate
    then skipped
    else if has_current_programme now candidate
    then next
    else later

abbrev pub nothing_found : Choice
nothing_found = record { programmes = []; source = "xtream"; found = false }

unfoldable pub programmes_with_source : ℕ → List Shown → List Shown → List Shown → Choice
unfolding choose
programmes_with_source now panel xmltv xtream =
    choose now (("panel-xmltv", panel) ∷ ("xmltv", xmltv) ∷ ("xtream", xtream) ∷ []) nothing_found

-- The tables of the channels of an account.
pub record ChannelMap : Type 0 where
  pub epg_ids : Map String
  pub names : Map String
  pub category_ids : Map String
  pub categories : Map String
  pub expires_at : Option ℕ

abbrev to_shown : XmltvProgramme → Shown
to_shown p = record { title = p.title; description = p.description; end_at = some p.stop }

-- The programmes of an index that are not over, where the channel is known.
unfoldable pub programmes_from_xmltv :
    Names → Option XmltvIndex → ChannelMap → ℕ → String → List Shown
programmes_from_xmltv nm none channels now channel_id = []
programmes_from_xmltv nm (some index) channels now channel_id =
    let epg_id = lookup channel_id channels.epg_ids in
    let name = lookup channel_id channels.names in
    if not (is_some epg_id || is_some name)
    then []
    else map to_shown (
        take 64
          (filter (λ (p : XmltvProgramme). ltb now p.stop) (programmes_for nm index epg_id name)))

-- An item of the panel's table: the fields that are there and not empty.
pub record Item : Type 0 where
  pub stream_id : Option String
  pub epg_channel_id : Option String
  pub category_id : Option String
  pub name : Option String

abbrev insert_if : String → Option String → Map String → Map String
insert_if key none m = m
insert_if key (some v) m = if str_eq v "" then m else insert key v m

unfoldable pub parse_channel_table : List Item → ChannelMap → ChannelMap
parse_channel_table [] table = table
parse_channel_table (item ∷ items) table = parse_channel_table items (elim item.stream_id [
  | none ↦ table
  | some id ↦ if str_eq id "" then table else record table {
    epg_ids = insert_if id item.epg_channel_id table.epg_ids;
    category_ids = insert_if id item.category_id table.category_ids;
    names = insert_if id item.name table.names;
  }
])

abbrev pub no_channels : ChannelMap
no_channels = record {
  epg_ids = [];
  names = [];
  category_ids = [];
  categories = [];
  expires_at = none;
}

abbrev no_names : Map String → Bool
no_names [] = true
no_names (e ∷ m) = false

abbrev table_of : Option (List Item) → ChannelMap
table_of none = no_channels
table_of (some items) = parse_channel_table items no_channels

-- The answer of the panel is none where it cannot be had; an empty table is kept for two minutes.
unfoldable pub load_channel_map : Option (List Item) → Map String → ℕ → ChannelMap
unfolding parse_channel_table
load_channel_map answer categories now =
    let table = table_of answer in
    let empty : Bool = no_names table.names in
    record table {
      categories = if empty then [] else categories;
      expires_at = some (now + (if empty then minutes 2 else hours 6));
    }

-- The caches: answers by account and channel, tables by account, and the downloads in flight.
pub record EpgApi : Type 0 where
  pub cache : Map (String × ℕ)
  pub channel_maps : Map ChannelMap
  pub in_flight : List String

abbrev pub account_key : PlaylistConfig → String
account_key p = String.◌++◌ p.dns (String.◌++◌ "|" p.username)

abbrev pub cache_key : PlaylistConfig → String → String
cache_key p channel_id =
    String.◌++◌ p.dns (String.◌++◌ "|" (String.◌++◌ p.username (String.◌++◌ "|" channel_id)))

abbrev unexpired : ℕ → Option ChannelMap → Option ChannelMap
unexpired now none = none
unexpired now (some m) = elim m.expires_at [
  | none ↦ none
  | some expires ↦ if ltb now expires then some m else none
]

-- The table of an account, none where the caller waits for a download: one at a time.
unfoldable pub channel_map_for : PlaylistConfig → ℕ → EpgApi → EpgApi × Option ChannelMap
channel_map_for p now api =
    let key : String = account_key p in
    elim (unexpired now (lookup key api.channel_maps)) [
      | some m ↦ (api, some m)
      | none ↦
          if elem key api.in_flight
          then (api, none)
          else (record api { in_flight = key ∷ api.in_flight }, none)
    ]

-- The end of a download.
unfoldable pub channels_loaded : String → ChannelMap → EpgApi → EpgApi
channels_loaded key m api = record api {
  channel_maps = insert key m api.channel_maps;
  in_flight = filter (λ k. not (str_eq k key)) api.in_flight;
}

-- The answer that has not expired.
abbrev pub fresh : ℕ → Option (String × ℕ) → Option String
fresh now none = none
fresh now (some (body, expires)) = if ltb now expires then some body else none

pub data Reply : Type 0 where
  forbidden : Reply
  hit : String → Reply
  miss : String → String → Reply

abbrev pub ttl : Bool → ℕ
ttl found = if found then minutes 30 else minutes 5

-- `at_end` is the clock when the sources have answered.
unfoldable pub handle :
    (String → List Shown → String)
    → Option PlaylistConfig
    → String
    → ℕ
    → ℕ
    → Choice
    → EpgApi
    → EpgApi × Reply
handle render none channel_id now at_end c api = (api, forbidden)
handle render (some p) channel_id now at_end c api =
    let key : String = cache_key p channel_id in
    let body : String = render channel_id c.programmes in
    elim (fresh now (lookup key api.cache)) [
      | some kept ↦ (api, hit kept)
      | none ↦ (
        record api { cache = insert key (body, at_end + ttl c.found) api.cache },
        miss body c.source,
      )
    ]
