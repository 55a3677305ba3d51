-- ===== src/Guide/Parse.antt =====
-- The parser of the guide (services/xmltv.rs, `parse`) over the events of the XML reader: texts
-- come decoded and dates read. The memory of the last key is left out: it only saves work.
use xtremflow.Base.{
  ℕ, String, Bool, true, false, not, ◌&&◌, ◌||◌, Option, none, some, List, [], ◌∷◌, ◌++◌,
  if◌then◌else◌, str_eq, ltb, lookup, insert, is_some, sort_by_key, any,
}
use xtremflow.Guide.{XmltvProgramme, XmltvIndex, Names}
use Prim.Native.String

pub data TextTag : Type 0 where
  title desc sub_title category display_name : TextTag

-- The names of elements; the marks are `new`, `live`, `premiere` and `previously-shown`.
pub data Element : Type 0 where
  channel programme : Element
  text_of : TextTag → Element
  mark_new mark_live mark_premiere mark_shown other : Element

-- The attributes that are read: `id`, `channel`, `start` and `stop`.
pub record Attrs : Type 0 where
  pub id : String
  pub channel : String
  pub start : Option ℕ
  pub stop : Option ℕ

pub data Event : Type 0 where
  begins : Element → Attrs → Bool → Event
  text : String → Event
  ends : Element → Event

pub record ProgrammeMeta : Type 0 where
  pub sub_title : String
  pub category : String
  pub categories : List String
  pub is_new : Bool
  pub is_live : Bool
  pub is_premiere : Bool
  pub previously_shown : Bool

pub record Parser : Type 0 where
  pub by_channel : XmltvIndex
  pub aliases : List (String × String)
  pub channel_id : Option String
  pub programme_channel : Option String
  pub start : Option ℕ
  pub stop : Option ℕ
  pub current_tag : Option TextTag
  pub title : String
  pub desc : String
  pub info : ProgrammeMeta
  pub display_name : String
  pub display_names : List String

abbrev pub no_meta : ProgrammeMeta
no_meta = record {
  sub_title = "";
  category = "";
  categories = [];
  is_new = false;
  is_live = false;
  is_premiere = false;
  previously_shown = false;
}

abbrev pub new_parser : Parser
new_parser = record {
  by_channel = [];
  aliases = [];
  channel_id = none;
  programme_channel = none;
  start = none;
  stop = none;
  current_tag = none;
  title = "";
  desc = "";
  info = no_meta;
  display_name = "";
  display_names = [];
}

abbrev with_tag : TextTag → Parser → Parser
with_tag category ps = record ps {
  current_tag = some category;
  info = record ps.info { category = "" };
}
with_tag t ps = record ps { current_tag = some t }

-- The start of an element.
unfoldable pub begin : Element → Attrs → Parser → Parser
begin channel a ps = record ps { channel_id = some a.id; display_name = ""; display_names = [] }
begin programme a ps = record ps {
  programme_channel = some a.channel;
  start = a.start;
  stop = a.stop;
  title = "";
  desc = "";
  info = no_meta;
}
begin (text_of t) a ps = with_tag t ps
begin mark_new a ps = record ps { info = record ps.info { is_new = true } }
begin mark_live a ps = record ps { info = record ps.info { is_live = true } }
begin mark_premiere a ps = record ps { info = record ps.info { is_premiere = true } }
begin mark_shown a ps = record ps { info = record ps.info { previously_shown = true } }
begin other a ps = ps

unfoldable pub push_text : String → Option TextTag → Parser → Parser
push_text s none ps = ps
push_text s (some title) ps = record ps { title = String.◌++◌ ps.title s }
push_text s (some desc) ps = record ps { desc = String.◌++◌ ps.desc s }
push_text s (some sub_title) ps = record ps {
  info = record ps.info { sub_title = String.◌++◌ ps.info.sub_title s };
}
push_text s (some category) ps = record ps {
  info = record ps.info { category = String.◌++◌ ps.info.category s };
}
push_text s (some display_name) ps = record ps { display_name = String.◌++◌ ps.display_name s }

-- The first alias of a name stays.
abbrev put_alias : String → String → List (String × String) → List (String × String)
put_alias name id aliases =
    if any (λ (a : String × String). str_eq a.0 name) aliases
    then aliases
    else aliases ++ (name, id) ∷ []

abbrev has_text : Option String → String
has_text none = ""
has_text (some s) = s

abbrev pub sorted : XmltvIndex → XmltvIndex
sorted [] = []
sorted ((key, ps) ∷ index) = (key, sort_by_key (λ (p : XmltvProgramme). p.start) ps) ∷ sorted index

-- An alias of a channel that is there; a key that is there stays.
abbrev pub add_alias : String → Option (List XmltvProgramme) → XmltvIndex → XmltvIndex
add_alias name none index = index
add_alias name (some ps) index = if is_some (lookup name index) then index else insert name ps index

unfoldable pub apply : List (String × String) → XmltvIndex → XmltvIndex
apply [] index = index
apply ((name, id) ∷ aliases) index = apply aliases (add_alias name (lookup id index) index)

abbrev pub listed : Option (List XmltvProgramme) → List XmltvProgramme
listed none = []
listed (some ps) = ps

abbrev pub push : String → XmltvProgramme → XmltvIndex → XmltvIndex
push key p index = insert key (listed (lookup key index) ++ p ∷ []) index

module _ (nm : Names) (cutoff limit : ℕ) where
  abbrev put_names : String → List String → List (String × String) → List (String × String)
  put_names id [] aliases = aliases
  put_names id (raw ∷ raws) aliases =
      let name : String = nm.normalize_key raw in
      put_names id raws (
        if str_eq id "" || (str_eq name "" || str_eq id name)
        then aliases
        else put_alias name id aliases)

  abbrev put_loose : String → List String → List (String × String) → List (String × String)
  put_loose id [] aliases = aliases
  put_loose id (raw ∷ raws) aliases =
      let name : String = nm.loose raw in
      put_loose id raws
        (if str_eq id "" || str_eq name "" then aliases else put_alias name id aliases)

  -- The end of a channel: its names become aliases.
  unfoldable pub end_channel : Parser → Parser
  end_channel ps =
      let raw : String = has_text ps.channel_id in
      let id : String = nm.normalize_key raw in
      record ps {
        aliases = put_loose id (raw ∷ ps.display_names) (put_names id ps.display_names ps.aliases);
        channel_id = none;
      }

  abbrev none_if_empty : String → Option String
  none_if_empty s = if str_eq s "" then none else some s

  abbrev pub made : Parser → ℕ → ℕ → XmltvProgramme
  made ps start stop = record {
    title = nm.dart_trim ps.title;
    description = nm.dart_trim ps.desc;
    start = start;
    stop = stop;
    sub_title = none_if_empty (nm.dart_trim ps.info.sub_title);
    categories = ps.info.categories;
    is_new = ps.info.is_new;
    is_live = ps.info.is_live;
    is_premiere = ps.info.is_premiere;
    previously_shown = ps.info.previously_shown;
  }

  -- A programme of the window is kept.
  abbrev pub keep : Option String → Option ℕ → Option ℕ → Parser → Parser
  keep (some raw) (some start) (some stop) ps =
      if not (ltb cutoff stop && ltb start limit) || str_eq (nm.normalize_key raw) ""
      then ps
      else record ps {
        by_channel = push (nm.normalize_key raw) (made ps start stop) ps.by_channel;
        info = no_meta;
      }
  keep (some raw) (some start) none ps = ps
  keep (some raw) none stop ps = ps
  keep none start stop ps = ps

  unfoldable pub end_programme : Parser → Parser
  end_programme ps = record (keep ps.programme_channel ps.start ps.stop ps) {
    programme_channel = none;
    start = none;
    stop = none;
  }

  abbrev end_category : Parser → Parser
  end_category ps =
      let category : String = nm.dart_trim ps.info.category in
      record ps {
        info = record ps.info {
          categories =
              if str_eq category ""
              then ps.info.categories
              else ps.info.categories ++ category ∷ [];
          category = "";
        };
      }

  -- The end of an element.
  unfoldable pub finish : Element → Parser → Parser
  unfolding end_channel end_programme
  finish (text_of display_name) ps = record ps {
    display_names = ps.display_names ++ ps.display_name ∷ [];
    display_name = "";
  }
  finish (text_of category) ps = end_category ps
  finish channel ps = end_channel ps
  finish programme ps = end_programme ps
  finish e ps = ps

  unfoldable pub step : Event → Parser → Parser
  unfolding begin push_text finish
  step (begins e a is_empty) ps =
      let begun = begin e a ps in if is_empty then record begun { current_tag = none } else begun
  step (text s) ps = push_text s ps.current_tag ps
  step (ends e) ps = record (finish e ps) { current_tag = none }

  unfoldable pub run : List Event → Parser → Parser
  unfolding step
  run [] ps = ps
  run (e ∷ es) ps = run es (step e ps)

  -- `parse`, on a text that can be read to its end.
  unfoldable pub parse : List Event → XmltvIndex
  unfolding run apply
  parse es = let ps = run es new_parser in apply ps.aliases (sorted ps.by_channel)
