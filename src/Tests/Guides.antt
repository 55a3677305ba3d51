-- ===== src/Tests/Guides.antt =====
-- The theorems on the guide, at concrete inputs.
use xtremflow.Base.{
  or_option, find, ℕ, ◌+◌, ◌≡◌, refl, String, true, false, Option, none, some, List, [], ◌∷◌,
  if◌then◌else◌, ltb, lookup, sort_by_key, insert_by, insert,
}
use xtremflow.Guide.{XmltvIndex, XmltvProgramme, Names, Service, refresh}
use xtremflow.Guide.Parse.{
  Event, begins, ends, text, Attrs, programme, text_of, title, parse, run, step, begin, push_text,
  finish, end_programme, end_channel, apply,
}
use xtremflow.Guide.Indexed.{Listed}
use xtremflow.Guide.Refresh.{first_listing, any_served}
use xtremflow.Slots.Limits.{PlaylistConfig}
use xtremflow.Guide.Served.{
  Shown, Choice, EpgApi, hit, miss, handle, ttl, nothing_found, programmes_with_source,
}
use xtremflow.Guide.Served.Cascade.{chosen, is_current, is_filled}
use xtremflow.Guide.Indexed.{parse-Listed}
use xtremflow.Guide.Served.Cascade.{programmes_with_source_rule}
use xtremflow.Guide.Served.Cached.{handle-handle}
use xtremflow.Guide.Refresh.{lookup-refresh}

abbrev nm : Names
nm = record {
  normalize_key = λ s. s;
  name_keys = λ s. s ∷ [];
  loose = λ s. "";
  cleaned = λ s. s;
  plus_one = λ s. none;
  dart_trim = λ s. s;
}

abbrev at_ten : Attrs
at_ten = record { id = ""; channel = "tf1"; start = some 10; stop = some 20 }

abbrev news : XmltvProgramme
news = record {
  title = "News";
  description = "";
  start = 10;
  stop = 20;
  sub_title = none;
  categories = [];
  is_new = false;
  is_live = false;
  is_premiere = false;
  previously_shown = false;
}

abbrev dump : List Event
dump =
    begins programme at_ten false
    ∷ begins (text_of title) at_ten false
    ∷ text "News"
    ∷ ends (text_of title)
    ∷ ends programme
    ∷ []

abbrev one : List XmltvProgramme
one = news ∷ []

abbrev answers : List (Option XmltvIndex)
answers = none ∷ some (("tf1", one) ∷ []) ∷ []

abbrev service : Service
service = record { index = []; indexed_at = none; failed_at = none; in_flight = true }

abbrev account : PlaylistConfig
account = record { id = "p"; dns = "http://panel"; username = "u"; password = "w" }

abbrev shown : ℕ → Shown
shown end_at = record { title = "News"; description = ""; end_at = some end_at }

abbrev over : List Shown
over = shown 3 ∷ []

abbrev running : List Shown
running = shown 30 ∷ []

abbrev silent : List Shown
silent = []

abbrev api : EpgApi
api = record { cache = []; channel_maps = []; in_flight = [] }

abbrev choice : Choice
choice = record { programmes = running; source = "xmltv"; found = true }

abbrev write : String → List Shown → String
write id ps = "{}"

parse-Listed_example : Listed 5 50 one
unfolding parse run step begin push_text finish end_programme end_channel apply lookup insert
    sort_by_key insert_by
parse-Listed_example = parse-Listed nm 5 50 dump "tf1" one refl

programmes_with_source_rule_example :
    let sources : List (String × List Shown) =
      ("panel-xmltv", over) ∷ ("xmltv", running) ∷ ("xtream", silent) ∷ [] in
    programmes_with_source 9 over running silent
    ≡ chosen (or_option (find (is_current 9) sources) (find is_filled sources)) nothing_found
programmes_with_source_rule_example = programmes_with_source_rule 9 over running silent

handle-handle_example :
    let api' = (handle write (some account) "7" 1 2 choice api).0 in
    (handle write (some account) "7" 5 6 nothing_found api').1 ≡ (
      if ltb 5 (2 + ttl choice.found)
      then hit ("{}")
      else miss (write "7" nothing_found.programmes) nothing_found.source)
unfolding handle lookup
handle-handle_example =
    handle-handle write account "7" "{}" "xmltv" 1 2 5 6 choice nothing_found api refl

lookup-refresh_example :
    lookup "tf1" (refresh answers 9 service).index
    ≡ (if any_served answers then first_listing "tf1" answers else lookup "tf1" service.index)
lookup-refresh_example = lookup-refresh "tf1" answers 9 service
