-- ===== src/Base/Sorting.antt =====
-- `sort_by_key` of the standard library, as a stable insertion sort, with a key into the numbers.
use Prim.Native.Nat.{ℕ, zero, suc, ◌≤◌}
use mathlib.Core.Path.{◌≡◌, refl}
use mathlib.Core.Logic.{inl, inr}
use mathlib.Core.Bool.{true, false}
use mathlib.Core.List.{List, [], ◌∷◌}
use native.Mathlib.Omega.{arith}
use xtremflow.Base.Tests.{leb, if◌then◌else◌, Bool-cases}
use xtremflow.Base.Lists.{All, All-map, All-drop, length, take, drop}

module _ {ℓ} {A : Type ℓ} (key : A → ℕ) where
  -- An entry goes in front of the first one whose key is at least its own.
  unfoldable pub insert_by : A → List A → List A
  insert_by a [] = a ∷ []
  insert_by a (x ∷ xs) = if leb (key a) (key x) then a ∷ x ∷ xs else x ∷ insert_by a xs

  unfoldable pub sort_by_key : List A → List A
  unfolding insert_by
  sort_by_key [] = []
  sort_by_key (x ∷ xs) = insert_by x (sort_by_key xs)

  pub length-insert_by : (a : A) (xs : List A) → length (insert_by a xs) ≡ suc (length xs)
  unfolding insert_by
  length-insert_by a [] = refl
  length-insert_by a (x ∷ xs) = ground (arith, length-insert_by a xs)

  pub length-sort_by_key : (xs : List A) → length (sort_by_key xs) ≡ length xs
  unfolding sort_by_key
  length-sort_by_key [] = refl
  length-sort_by_key (x ∷ xs) =
      omega (arith, length-insert_by x (sort_by_key xs), length-sort_by_key xs)

  -- Every key is at most those behind it.
  abbrev pub IsSorted : List A → Type ℓ
  IsSorted [] = Unit
  IsSorted (x ∷ xs) = All (λ y. key x ≤ key y) xs × IsSorted xs

  module _ {κ} (P : A → Type κ) where
    pub All-insert_by : (a : A) (xs : List A) → P a → All P xs → All P (insert_by a xs)
    unfolding insert_by
    All-insert_by a [] p h = (p, tt)
    All-insert_by a (x ∷ xs) p (q, h) =
        let rest = All-insert_by a xs p h in
        elim (leb (key a) (key x)) as (λ b. All P (if b then a ∷ x ∷ xs else x ∷ insert_by a xs)) [
          | true ↦ (p, (q, h))
          | false ↦ (q, rest)
        ]

    pub All-sort_by_key : (xs : List A) → All P xs → All P (sort_by_key xs)
    unfolding sort_by_key
    All-sort_by_key [] h = tt
    All-sort_by_key (x ∷ xs) (p, h) = All-insert_by x (sort_by_key xs) p (All-sort_by_key xs h)

    pub All-of_insert_by : (a : A) (xs : List A) → All P (insert_by a xs) → P a × All P xs
    unfolding insert_by
    All-of_insert_by a [] (p, _) = (p, tt)
    All-of_insert_by a (x ∷ xs) h =
        let rest = All-of_insert_by a xs in
        (elim (leb (key a) (key x))
            as (λ b. All P (if b then a ∷ x ∷ xs else x ∷ insert_by a xs) → P a × All P (x ∷ xs)) [
              | true ↦ λ h. h
              | false ↦ λ h. ((rest h.1).0, (h.0, (rest h.1).1))
            ])
          h

    pub All-of_sort_by_key : (xs : List A) → All P (sort_by_key xs) → All P xs
    unfolding sort_by_key
    All-of_sort_by_key [] h = tt
    All-of_sort_by_key (x ∷ xs) h =
        let (p, rest) = All-of_insert_by x (sort_by_key xs) h in (p, All-of_sort_by_key xs rest)

  insert_by-IsSorted : (a : A) (xs : List A) → IsSorted xs → IsSorted (insert_by a xs)
  unfolding insert_by
  insert_by-IsSorted a [] s = (tt, tt)
  insert_by-IsSorted a (x ∷ xs) (below, s) =
      let rest = insert_by-IsSorted a xs s in
      elim (Bool-cases (leb (key a) (key x))) [
        | inl le ↦
            let first : key a ≤ key x = ground arith in
            rw le (
              (
                (
                  first,
                  All-map (λ y. key x ≤ key y) (λ y. key a ≤ key y) (λ y h. omega arith) xs below,
                ),
                (below, s),
              ))
        | inr gt ↦
            let first : key x ≤ key a = ground arith in
            rw gt (All-insert_by (λ y. key x ≤ key y) a xs first below, rest)
      ]

  -- The sort puts the keys in order.
  pub sort_by_key-IsSorted : (xs : List A) → IsSorted (sort_by_key xs)
  unfolding sort_by_key
  sort_by_key-IsSorted [] = tt
  sort_by_key-IsSorted (x ∷ xs) = insert_by-IsSorted x (sort_by_key xs) (sort_by_key-IsSorted xs)

  -- What is taken from the front of a sorted list stands below the rest.
  pub take-le-drop :
      (n : ℕ) (xs : List A)
      → IsSorted xs
      → All (λ x. All (λ y. key x ≤ key y) (drop n xs)) (take n xs)
  take-le-drop zero xs s = tt
  take-le-drop (suc n) [] s = tt
  take-le-drop (suc n) (x ∷ xs) (below, s) =
      (All-drop (λ y. key x ≤ key y) n xs below, take-le-drop n xs s)
