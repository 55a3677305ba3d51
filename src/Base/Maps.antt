-- ===== src/Base/Maps.antt =====
-- Maps with text keys (HashMap<String, V>) as association lists.
use Prim.Native.Nat.{ℕ, zero, suc, ◌+◌, ◌≤◌}
use Prim.Native.String.{String}
use mathlib.Core.Path.{◌≡◌, refl, sym, ◌∙◌, ap, subst}
use mathlib.Core.Logic.{inl, inr, ◌≢◌}
use mathlib.Core.Bool.{Bool, true, false}
use mathlib.Core.Option.{Option, none, some}
use mathlib.Core.List.{List, [], ◌∷◌}
use native.Mathlib.Omega.{arith}
use xtremflow.Base.Tests.{if◌then◌else◌, str_eq, str_eq_iff, str_eq_refl, Bool-cases, is_some, leb}
use xtremflow.Base.Lists.{
  All, All-map, All-filter, All-take, filter, count, take, drop, elem, length,
}
use xtremflow.Base.Sorting.{insert_by, sort_by_key, All-insert_by, All-sort_by_key}

abbrev pub Map {ℓ} : Type ℓ → Type ℓ
Map V = List (String × V)

pub some-ne-none {ℓ} : {A : Type ℓ} {a : A} → some a ≢ none
some-ne-none e = cc

pub some-value {ℓ} : {A : Type ℓ} {a b : A} → some a ≡ some b → a ≡ b
some-value e = cc

module _ {ℓ} {V : Type ℓ} where
  unfoldable pub lookup : String → Map V → Option V
  lookup k [] = none
  lookup k ((j, v) ∷ m) = if str_eq j k then some v else lookup k m

  -- A new key goes to the end: the order of a HashMap is not observable.
  unfoldable pub insert : String → V → Map V → Map V
  insert k v [] = (k, v) ∷ []
  insert k v ((j, w) ∷ m) = if str_eq j k then (k, v) ∷ m else (j, w) ∷ insert k v m

  unfoldable pub remove : String → Map V → Map V
  remove k [] = []
  remove k ((j, w) ∷ m) = if str_eq j k then remove k m else (j, w) ∷ remove k m

  abbrev pub contains_key : String → Map V → Bool
  contains_key k m = is_some (lookup k m)

  abbrev pub keys : Map V → List String
  keys [] = []
  keys ((k, v) ∷ m) = k ∷ keys m

  abbrev pub values : Map V → List V
  values [] = []
  values ((k, v) ∷ m) = v ∷ values m

  pub lookup-insert :
      (k j : String) (v : V) (m : Map V)
      → lookup j (insert k v m) ≡ (if str_eq k j then some v else lookup j m)
  unfolding lookup insert
  lookup-insert k j v [] = refl
  lookup-insert k j v ((i, w) ∷ m) =
      ground (arith, str_eq_iff k j, str_eq_iff i k, str_eq_iff i j, lookup-insert k j v m)

  pub lookup-remove :
      (k j : String) (m : Map V) → lookup j (remove k m) ≡ (if str_eq k j then none else lookup j m)
  unfolding lookup remove
  lookup-remove k j [] = ground arith
  lookup-remove k j ((i, w) ∷ m) =
      ground (arith, str_eq_iff k j, str_eq_iff i k, str_eq_iff i j, lookup-remove k j m)

  pub lookup-insert_self : (k : String) (v : V) (m : Map V) → lookup k (insert k v m) ≡ some v
  lookup-insert_self k v m = simp (lookup-insert, str_eq_refl)

  pub lookup-remove_self : (k : String) (m : Map V) → lookup k (remove k m) ≡ none
  lookup-remove_self k m = simp (lookup-remove, str_eq_refl)

  -- No key stands twice.
  abbrev pub Distinct : Map V → Type ℓ
  Distinct [] = Unit
  Distinct ((k, v) ∷ m) = (lookup k m ≡ none) × Distinct m

  pub insert-Distinct : (k : String) (v : V) (m : Map V) → Distinct m → Distinct (insert k v m)
  unfolding lookup insert
  insert-Distinct k v [] d = (refl, tt)
  insert-Distinct k v ((j, w) ∷ m) (n, d) =
      ground (arith, str_eq_iff j k, str_eq_iff k j, insert-Distinct k v m d, lookup-insert k j v m)

  pub remove-Distinct : (k : String) (m : Map V) → Distinct m → Distinct (remove k m)
  unfolding lookup remove
  remove-Distinct k [] d = tt
  remove-Distinct k ((j, w) ∷ m) (n, d) =
      ground (arith, str_eq_iff j k, remove-Distinct k m d, lookup-remove k j m)

  pub remove_absent : (k : String) (m : Map V) → lookup k m ≡ none → remove k m ≡ m
  unfolding lookup remove
  remove_absent k [] h = refl
  remove_absent k ((j, w) ∷ m) h = ground (arith, remove_absent k m)

module _ {ℓ κ} {V : Type ℓ} (P : String × V → Type κ) where
  pub All-remove : (k : String) (m : Map V) → All P m → All P (remove k m)
  unfolding remove
  All-remove k [] h = tt
  All-remove k ((j, w) ∷ m) (p, h) =
      let rest = All-remove k m h in
      elim (str_eq j k) as (λ b. All P (if b then remove k m else (j, w) ∷ remove k m)) [
        | true ↦ rest
        | false ↦ (p, rest)
      ]

  pub All-lookup : (k : String) {v : V} (m : Map V) → All P m → lookup k m ≡ some v → P (k, v)
  unfolding lookup
  All-lookup k {v} [] h e = cc
  All-lookup k {v} ((j, w) ∷ m) (p, h) e = elim (Bool-cases (str_eq j k)) [
    | inl same ↦
        let here : ◌≡◌ {A = String × V} (j, w) (k, v) =
          ground (arith, str_eq_iff j k, rw (same, lookup) at e) in
        subst P here p
    | inr other ↦ All-lookup k m h (rw (other, lookup) at e)
  ]

module _ {ℓ} {V : Type ℓ} where
  -- No entry has the key `k`.
  abbrev pub Lacks : String → Map V → Type 0
  Lacks k m = All (λ e. str_eq e.0 k ≡ false) m

  pub Lacks-of_lookup : (k : String) (m : Map V) → lookup k m ≡ none → Lacks k m
  unfolding lookup
  Lacks-of_lookup k [] h = tt
  Lacks-of_lookup k ((j, w) ∷ m) h = elim (Bool-cases (str_eq j k)) [
    | inl same ↦ absurd (some-ne-none (rw (same, lookup) at h))
    | inr other ↦ (other, Lacks-of_lookup k m (rw (other, lookup) at h))
  ]

  pub lookup-of_Lacks : (k : String) (m : Map V) → Lacks k m → lookup k m ≡ none
  unfolding lookup
  lookup-of_Lacks k [] h = refl
  lookup-of_Lacks k ((j, w) ∷ m) (ne, h) = rw (ne, lookup) (lookup-of_Lacks k m h)

  -- An entry of a map without repeated keys is what its key is looked up to.
  pub All-lookup_self : (m : Map V) → Distinct m → All (λ e. lookup e.0 m ≡ some e.1) m
  unfolding lookup
  All-lookup_self [] d = tt
  All-lookup_self ((k, v) ∷ m) (n, d) = (
    rw (str_eq_refl k),
    All-map _ _
        (λ e h. elim (Bool-cases (str_eq k e.0)) [
          | inl same ↦
              let key : k ≡ e.0 = (str_eq_iff _ _).0 same in
              absurd (some-ne-none (sym h ∙ rw key at n))
          | inr other ↦ rw (other, lookup) h
        ])
        m (All-lookup_self m d),
  )

  pub filter-Distinct : (p : String × V → Bool) (m : Map V) → Distinct m → Distinct (filter p m)
  filter-Distinct p [] d = tt
  filter-Distinct p ((k, v) ∷ m) (n, d) =
      let rest = filter-Distinct p m d in
      let fresh =
        lookup-of_Lacks k (filter p m)
          (All-filter (λ e. str_eq e.0 k ≡ false) p m (Lacks-of_lookup k m n)) in
      elim (p (k, v)) as (λ b. Distinct (if b then (k, v) ∷ filter p m else filter p m)) [
        | true ↦ (fresh, rest)
        | false ↦ rest
      ]

  pub insert_by-Distinct :
      (key : String × V → ℕ) (k : String) (v : V) (m : Map V)
      → Lacks k m
      → Distinct m
      → Distinct (insert_by key (k, v) m)
  unfolding insert_by lookup
  insert_by-Distinct key k v [] l d = (refl, tt)
  insert_by-Distinct key k v ((j, w) ∷ m) (ne, l) (n, d) =
      let rest = insert_by-Distinct key k v m l d in
      let other : str_eq k j ≡ false = ground (arith, str_eq_iff k j, str_eq_iff j k) in
      let fresh =
        lookup-of_Lacks j (insert_by key (k, v) m)
          (All-insert_by key (λ e. str_eq e.0 j ≡ false) (k, v) m other (Lacks-of_lookup j m n)) in
      elim (leb (key (k, v)) (key (j, w)))
        as (λ b. Distinct (if b then (k, v) ∷ (j, w) ∷ m else (j, w) ∷ insert_by key (k, v) m)) [
          | true ↦ (lookup-of_Lacks k ((j, w) ∷ m) (ne, l), (n, d))
          | false ↦ (fresh, rest)
        ]

  pub sort_by_key-Distinct :
      (key : String × V → ℕ) (m : Map V) → Distinct m → Distinct (sort_by_key key m)
  unfolding sort_by_key
  sort_by_key-Distinct key [] d = tt
  sort_by_key-Distinct key ((k, v) ∷ m) (n, d) =
      insert_by-Distinct key k v (sort_by_key key m)
        (All-sort_by_key key (λ e. str_eq e.0 k ≡ false) m (Lacks-of_lookup k m n))
        (sort_by_key-Distinct key m d)

  pub take-Distinct : (n : ℕ) (m : Map V) → Distinct m → Distinct (take n m)
  take-Distinct zero m d = tt
  take-Distinct (suc n) [] d = tt
  take-Distinct (suc n) ((k, v) ∷ m) (h, d) = (
    lookup-of_Lacks k (take n m) (All-take (λ e. str_eq e.0 k ≡ false) n m (Lacks-of_lookup k m h)),
    take-Distinct n m d,
  )

  -- Removing a key that passes a test leaves one entry less that passes it.
  pub count-remove :
      (p : String × V → Bool) (k : String) (v : V) (m : Map V)
      → Distinct m
      → lookup k m ≡ some v
      → p (k, v) ≡ true
      → count p (remove k m) + 1 ≡ count p m
  unfolding lookup remove
  count-remove p k v [] d e t = cc
  count-remove p k v ((j, w) ∷ m) (n, d) e t = elim (Bool-cases (str_eq j k)) [
    | inl same ↦
        let key : j ≡ k = (str_eq_iff _ _).0 same in
        let value : w ≡ v = some-value (rw (same, lookup) at e) in
        let gone : remove k m ≡ m = remove_absent k m (rw key at n) in
        let test : p (j, w) ≡ true = rw (key, value) t in rw (same, test, gone) (omega arith)
    | inr other ↦
        let found : lookup k m ≡ some v = rw (other, lookup) at e in
        let rest = count-remove p k v m d found t in rw other (ground (arith, rest))
  ]

module _ {ℓ} {V : Type ℓ} where
  -- A key is listed where it can be looked up.
  pub elem-keys : (k : String) (m : Map V) → elem k (keys m) ≡ is_some (lookup k m)
  unfolding lookup
  elem-keys k [] = refl
  elem-keys k ((j, v) ∷ m) = ground (arith, elem-keys k m)

  pub lookup-filter :
      (p : String × V → Bool) (k : String) (v : V) (m : Map V)
      → lookup k m ≡ some v
      → p (k, v) ≡ true
      → lookup k (filter p m) ≡ some v
  unfolding lookup
  lookup-filter p k v [] e t = cc
  lookup-filter p k v ((j, w) ∷ m) e t = elim (Bool-cases (str_eq j k)) [
    | inl same ↦
        let key : j ≡ k = (str_eq_iff _ _).0 same in
        let value : w ≡ v = some-value (rw (same, lookup) at e) in
        let test : p (j, w) ≡ true = rw (key, value) t in rw (test, lookup, same) (ap some value)
    | inr other ↦
        let rest = lookup-filter p k v m (rw (other, lookup) at e) t in
        elim (Bool-cases (p (j, w))) [
          | inl kept ↦ rw (kept, lookup, other) rest
          | inr dropped ↦ rw dropped rest
        ]
  ]

  lookup-insert_by :
      (key : String × V → ℕ) (j : String) (v : V) (k : String) (m : Map V)
      → Lacks j m
      → lookup k (insert_by key (j, v) m) ≡ (if str_eq j k then some v else lookup k m)
  unfolding insert_by lookup
  lookup-insert_by key j v k [] l = refl
  lookup-insert_by key j v k ((i, w) ∷ m) (ne, l) =
      ground
        (arith, lookup-insert_by key j v k m l, ne, str_eq_iff i j, str_eq_iff i k, str_eq_iff j k)

  -- Sorting a map without repeated keys changes no entry.
  pub lookup-sort_by_key :
      (key : String × V → ℕ) (k : String) (m : Map V)
      → Distinct m
      → lookup k (sort_by_key key m) ≡ lookup k m
  unfolding sort_by_key lookup
  lookup-sort_by_key key k [] d = refl
  lookup-sort_by_key key k ((j, v) ∷ m) (n, d) =
      lookup-insert_by key j v k (sort_by_key key m)
        (All-sort_by_key key (λ e. str_eq e.0 j ≡ false) m (Lacks-of_lookup j m n))
      ∙ rw (lookup-sort_by_key key k m d)

  pub lookup-drop :
      (n : ℕ) (k : String) (m : Map V)
      → elem k (keys (take n m)) ≡ false
      → lookup k (drop n m) ≡ lookup k m
  unfolding lookup
  lookup-drop zero k m h = refl
  lookup-drop (suc n) k [] h = refl
  lookup-drop (suc n) k ((j, v) ∷ m) h = ground (arith, lookup-drop n k m)

module _ {ℓ κ} {V : Type ℓ} (P : String → Type κ) where
  pub All-keys : (m : Map V) → All (λ e. P e.0) m → All P (keys m)
  All-keys [] h = tt
  All-keys ((k, v) ∷ m) (p, h) = (p, All-keys m h)

  pub All-of_keys : (m : Map V) → All P (keys m) → All (λ e. P e.0) m
  All-of_keys [] h = tt
  All-of_keys ((k, v) ∷ m) (p, h) = (p, All-of_keys m h)

pub length-keys {ℓ} : {V : Type ℓ} (m : Map V) → length (keys m) ≡ length m
length-keys [] = refl
length-keys ((k, v) ∷ m) = ap suc (length-keys m)

-- Every text of a list is a member of it.
pub All-elem : (ks : List String) → All (λ k. elem k ks ≡ true) ks
All-elem [] = tt
All-elem (k ∷ ks) = (rw (str_eq_refl k), All-map _ _ (λ j h. rw h (ground arith)) ks (All-elem ks))

module _ {ℓ} {V : Type ℓ} where
  pub length-insert-le : (k : String) (v : V) (m : Map V) → length (insert k v m) ≤ length m + 1
  unfolding insert
  length-insert-le k v [] = omega arith
  length-insert-le k v ((j, w) ∷ m) = ground (arith, length-insert-le k v m)

  -- Overwriting an entry adds none.
  pub length-insert_present :
      (k : String) (v : V) (m : Map V)
      → is_some (lookup k m) ≡ true
      → length (insert k v m) ≡ length m
  unfolding insert lookup
  length-insert_present k v [] h = cc
  length-insert_present k v ((j, w) ∷ m) h = ground (arith, length-insert_present k v m)

  pub length-remove-le : (k : String) (m : Map V) → length (remove k m) ≤ length m
  unfolding remove
  length-remove-le k [] = omega arith
  length-remove-le k ((j, w) ∷ m) = ground (arith, length-remove-le k m)

module _ {ℓ κ} {V : Type ℓ} (P : String × V → Type κ) where
  pub All-insert : (k : String) (v : V) (m : Map V) → P (k, v) → All P m → All P (insert k v m)
  unfolding insert
  All-insert k v [] p h = (p, tt)
  All-insert k v ((j, w) ∷ m) p (q, h) =
      let rest = All-insert k v m p h in
      elim (str_eq j k) as (λ b. All P (if b then (k, v) ∷ m else (j, w) ∷ insert k v m)) [
        | true ↦ (p, h)
        | false ↦ (q, rest)
      ]
