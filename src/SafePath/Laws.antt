-- ===== src/SafePath/Laws.antt =====
-- A resolved path stays below its folder.
use xtremflow.Base.{
  ◌≡◌, refl, sym, ◌∙◌, ap, inl, inr, String, Bool, true, false, not, ◌&&◌, ◌||◌, some, List, [],
  ◌∷◌, ◌++◌, arith, if◌then◌else◌, str_eq, str_eq_iff, Bool-cases, All, All-append,
}
use xtremflow.SafePath.{
  FilePath, pop, take_segment, normalize_from, normalize, absolute, starts_with, resolve_within,
}

-- A part that a path may keep.
abbrev pub is_plain : String → Bool
is_plain s = not (str_eq s "") && (not (str_eq s ".") && not (str_eq s ".."))

abbrev pub Plain : List String → Type 0
Plain = All (λ s. is_plain s ≡ true)

pop-Plain : (parts : List String) → Plain parts → Plain (pop parts)
pop-Plain [] p = tt
pop-Plain (x ∷ []) p = tt
pop-Plain (x ∷ y ∷ xs) (h, p) = (h, pop-Plain (y ∷ xs) p)

take_segment-Plain : (parts : List String) (s : String) → Plain parts → Plain (take_segment parts s)
take_segment-Plain parts s p = elim (Bool-cases (str_eq s "" || str_eq s ".")) [
  | inl skipped ↦ rw skipped p
  | inr kept ↦ elim (Bool-cases (str_eq s "..")) [
    | inl up ↦ rw (kept, up) (pop-Plain parts p)
    | inr down ↦
        rw (kept, down) (All-append (λ t. is_plain t ≡ true) parts (s ∷ []) p (ground arith, tt))
  ]
]

normalize_from-Plain :
    (parts segments : List String) → Plain parts → Plain (normalize_from parts segments)
unfolding normalize_from
normalize_from-Plain parts [] p = p
normalize_from-Plain parts (s ∷ rest) p =
    normalize_from-Plain (take_segment parts s) rest (take_segment-Plain parts s p)

normalize-Plain : (segments : List String) → Plain (normalize segments)
unfolding normalize
normalize-Plain segments = normalize_from-Plain [] segments tt

-- Plain segments are kept as they are.
append_assoc :
    (xs : List String) (y : String) (ys : List String) → (xs ++ y ∷ []) ++ ys ≡ xs ++ y ∷ ys
append_assoc [] y ys = refl
append_assoc (x ∷ xs) y ys = ap (◌∷◌ x) (append_assoc xs y ys)

append_nil : (xs : List String) → xs ++ [] ≡ xs
append_nil [] = refl
append_nil (x ∷ xs) = ap (◌∷◌ x) (append_nil xs)

normalize_from_lem :
    (parts segments : List String)
    → Plain segments
    → normalize_from parts segments ≡ parts ++ segments
unfolding normalize_from
normalize_from_lem parts [] p = sym (append_nil parts)
normalize_from_lem parts (s ∷ rest) (h, p) =
    let kept : take_segment parts s ≡ parts ++ s ∷ [] = ground arith in
    rw kept (normalize_from_lem (parts ++ s ∷ []) rest p ∙ append_assoc parts s rest)

below : (xs ys : List String) → starts_with xs ys ≡ true → (rest : List String) × (xs ≡ ys ++ rest)
below xs [] e = (xs, refl)
below [] (y ∷ ys) e = cc
below (x ∷ xs) (y ∷ ys) e =
    let (rest, same) = below xs ys (ground arith) in
    let head : x ≡ y = (str_eq_iff x y).0 (ground arith) in
    (rest, ap (λ z. z ∷ xs) head ∙ ap (◌∷◌ y) same)

starts_with-append : (ys rest : List String) → starts_with (ys ++ rest) ys ≡ true
starts_with-append [] [] = refl
starts_with-append [] (x ∷ rest) = refl
starts_with-append (y ∷ ys) rest = ground (arith, starts_with-append ys rest, str_eq_iff y y)

-- What an accepted path was normalized from.
abbrev input_of : List String → FilePath → FilePath → List String
input_of cwd base_dir candidate =
    if candidate.is_absolute
    then candidate.segments
    else normalize (absolute cwd base_dir) ++ candidate.segments

accepted :
    (cwd : List String) (base_dir candidate : FilePath) (resolved : List String)
    → resolve_within cwd base_dir candidate ≡ some resolved
    → (normalize (input_of cwd base_dir candidate) ≡ resolved)
      × (starts_with
            (normalize (input_of cwd base_dir candidate))
            (normalize (absolute cwd base_dir))
          ≡ true)
unfolding resolve_within
accepted cwd base_dir candidate resolved e = ground arith

-- What `resolve_within` gives lies below the folder, part by part, and has no part that leads up or
-- nowhere.
pub resolve_within-Plain :
    (cwd : List String) (base_dir candidate : FilePath) (resolved : List String)
    → resolve_within cwd base_dir candidate ≡ some resolved
    → Plain resolved
      × ((rest : List String) × (resolved ≡ normalize (absolute cwd base_dir) ++ rest))
unfolding resolve_within
resolve_within-Plain cwd base_dir candidate resolved e =
    let base = normalize (absolute cwd base_dir) in
    let (same, inside) = accepted cwd base_dir candidate resolved e in
    let (rest, lies) = below resolved base (rw (← same) inside) in
    (rw (← same) (normalize-Plain (input_of cwd base_dir candidate)), (rest, lies))

-- A relative path of plain parts is accepted, and lies where it says.
pub resolve_within_relative :
    (cwd : List String) (base_dir : FilePath) (names : List String)
    → Plain names
    → resolve_within cwd base_dir (record { is_absolute = false; segments = names })
      ≡ some (normalize (absolute cwd base_dir) ++ names)
unfolding resolve_within normalize
resolve_within_relative cwd base_dir names p =
    let base = normalize (absolute cwd base_dir) in
    let whole : normalize (base ++ names) ≡ base ++ names = normalize_from_lem [] (base ++ names) (
      All-append (λ t. is_plain t ≡ true) base names (normalize-Plain (absolute cwd base_dir)) p) in
    rw (whole, starts_with-append base names)
