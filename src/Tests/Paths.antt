-- ===== src/Tests/Paths.antt =====
-- The theorems on the confinement of paths, at concrete inputs.
use xtremflow.Base.{◌≡◌, refl, String, true, false, List, [], ◌∷◌, ◌++◌}
use xtremflow.SafePath.{FilePath, resolve_within, normalize, normalize_from, absolute}
use xtremflow.SafePath.Laws.{Plain}
use xtremflow.SafePath.Laws.{resolve_within-Plain}

abbrev base : FilePath
base = record { is_absolute = true; segments = "" ∷ "app" ∷ "recordings" ∷ [] }

abbrev film : FilePath
film = record { is_absolute = false; segments = "x" ∷ ".." ∷ "a.ts" ∷ [] }

abbrev resolved_film : List String
resolved_film = "app" ∷ "recordings" ∷ "a.ts" ∷ []

abbrev parts : List String
parts = "a.ts" ∷ []

abbrev root : List String
root = []

resolve_within-Plain_example :
    Plain resolved_film
    × ((rest : List String) × (resolved_film ≡ normalize (absolute root base) ++ rest))
unfolding resolve_within normalize normalize_from
resolve_within-Plain_example = resolve_within-Plain root base film resolved_film refl
