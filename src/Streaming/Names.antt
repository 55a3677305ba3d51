-- ===== src/Streaming/Names.antt =====
-- Identifiers and addresses of streams (api/streaming.rs; models.rs, `tag`). Lower case, trimming
-- and form encoding are those of the libraries.
use xtremflow.Base.{
  ℕ, suc, zero, String, Bool, true, not, ◌&&◌, ◌||◌, Option, none, some, List, [], ◌∷◌, map,
  if◌then◌else◌, str_eq, leb, ◌==◌, length,
}
use xtremflow.Accounts.{codes}
use xtremflow.Slots.Limits.{PlaylistConfig}
use Prim.Native.Char.{code}
use Prim.Native.String

abbrev is_digit : ℕ → Bool
is_digit c = leb b'0' c && leb c b'9'

abbrev is_lower : ℕ → Bool
is_lower c = leb b'a' c && leb c b'z'

abbrev is_upper : ℕ → Bool
is_upper c = leb b'A' c && leb c b'Z'

abbrev is_ascii_alphanumeric : ℕ → Bool
is_ascii_alphanumeric c = is_digit c || (is_lower c || is_upper c)

abbrev pub all_of : (ℕ → Bool) → List ℕ → Bool
all_of f [] = true
all_of f (c ∷ cs) = f c && all_of f cs

-- `^[a-zA-Z0-9_-]+$`
unfoldable pub is_valid_stream_id : String → Bool
is_valid_stream_id id =
    not (length (codes id) == 0)
    && all_of (λ c. is_ascii_alphanumeric c || (c == b'_' || c == b'-')) (codes id)

-- `^[a-z0-9]{2,5}$`
abbrev is_container : String → Bool
is_container ext =
    (leb 2 (length (codes ext)) && leb (length (codes ext)) 5)
    && all_of (λ c. is_lower c || is_digit c) (codes ext)

unfoldable pub vod_container_extension : (String → String) → Option String → String
vod_container_extension to_lowercase none = "mkv"
vod_container_extension to_lowercase (some ext) =
    if is_container (to_lowercase ext) then to_lowercase ext else "mkv"

abbrev alphanumerics : String → String
alphanumerics String.[] = String.[]
alphanumerics (String.◌∷◌ c s) =
    if is_ascii_alphanumeric (code c) then String.◌∷◌ c (alphanumerics s) else alphanumerics s

abbrev take_chars : ℕ → String → String
take_chars zero s = String.[]
take_chars (suc n) String.[] = String.[]
take_chars (suc n) (String.◌∷◌ c s) = String.◌∷◌ c (take_chars n s)

unfoldable pub tag : PlaylistConfig → String
tag p = let t : String = take_chars 12 (alphanumerics p.id) in if str_eq t "" then "default" else t

-- The pieces of a text, in their order.
abbrev pub join : List String → String
join [] = ""
join (s ∷ ss) = String.◌++◌ s (join ss)

unfoldable pub live_target : PlaylistConfig → String → String
live_target p id = join (p.dns ∷ "/live/" ∷ p.username ∷ "/" ∷ p.password ∷ "/" ∷ id ∷ ".ts" ∷ [])

abbrev base_path : Option String → String
base_path none = "movie"
base_path (some content_type) = if str_eq content_type "series" then "series" else "movie"

unfoldable pub vod_target :
    (String → String) → PlaylistConfig → Option String → Option String → String → String
unfolding vod_container_extension
vod_target to_lowercase p content_type ext id = join (
    p.dns
    ∷ "/"
    ∷ base_path content_type
    ∷ "/"
    ∷ p.username
    ∷ "/"
    ∷ p.password
    ∷ "/"
    ∷ id
    ∷ "."
    ∷ vod_container_extension to_lowercase ext
    ∷ [])

-- `live` or `vod`, the playlist, the stream and the quality.
unfoldable pub stream_session_id : String → PlaylistConfig → String → String → String
unfolding tag
stream_session_id kind p id quality = join (kind ∷ "_" ∷ tag p ∷ "_" ∷ id ∷ "_" ∷ quality ∷ [])

-- One line of `with_segment_query`; `has` is `contains` for a character, `starts` is
-- `starts_with` for one.
abbrev segment_line :
    (String → String) → (String → Bool) → (String → Bool) → String → String → String
segment_line trim starts_hash has_query enc line =
    let t = trim line in
    if str_eq t "" || starts_hash t
    then line
    else if has_query t
    then join (t ∷ "&playlist=" ∷ enc ∷ [])
    else join (t ∷ "?playlist=" ∷ enc ∷ [])

unfoldable pub with_segment_query :
    (String → String) → (String → Bool) → (String → Bool) → String → List String → List String
with_segment_query trim starts_hash has_query enc =
    map (segment_line trim starts_hash has_query enc)
