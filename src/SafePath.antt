-- ===== src/SafePath.antt =====
-- The confinement of paths (util/safe_path.rs). A path is the list of what `split('/')` gives for
-- it, with whether it starts with a slash; a normalized path is the list of its parts, which hold
-- no slash, so that a prefix of texts that ends at a slash is a prefix of the lists.
pub mod Laws
use xtremflow.Base.{
  String, Bool, true, false, ◌&&◌, ◌||◌, Option, none, some, List, [], ◌∷◌, ◌++◌, if◌then◌else◌,
  str_eq,
}

pub record FilePath : Type 0 where
  pub is_absolute : Bool
  pub segments : List String

-- `parts.pop()`
abbrev pub pop : List String → List String
pop [] = []
pop (x ∷ []) = []
pop (x ∷ y ∷ xs) = x ∷ pop (y ∷ xs)

-- One segment of the loop.
abbrev pub take_segment : List String → String → List String
take_segment parts s =
    if str_eq s "" || str_eq s "."
    then parts
    else if str_eq s ".."
    then pop parts
    else parts ++ s ∷ []

unfoldable pub normalize_from : List String → List String → List String
normalize_from parts [] = parts
normalize_from parts (s ∷ rest) = normalize_from (take_segment parts s) rest

unfoldable pub normalize : List String → List String
unfolding normalize_from
normalize segments = normalize_from [] segments

-- `absolute`, with the segments of the working directory.
abbrev pub absolute : List String → FilePath → List String
absolute cwd p = if p.is_absolute then p.segments else cwd ++ p.segments

abbrev pub starts_with : List String → List String → Bool
starts_with xs [] = true
starts_with [] (y ∷ ys) = false
starts_with (x ∷ xs) (y ∷ ys) = str_eq x y && starts_with xs ys

unfoldable pub resolve_within : List String → FilePath → FilePath → Option (List String)
unfolding normalize
resolve_within cwd base_dir candidate =
    let base = normalize (absolute cwd base_dir) in
    let resolved =
      if candidate.is_absolute
      then normalize candidate.segments
      else normalize (base ++ candidate.segments) in
    if starts_with resolved base then some resolved else none
