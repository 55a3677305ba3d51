-- ===== src/Recordings/Laws.antt =====
-- Laws of the table, in terms of the rows with an identifier.
use xtremflow.Base.{
  ◌≡◌, ◌⊎◌, inl, inr, String, true, false, not, none, some, [], ◌∷◌, arith, if◌then◌else◌, str_eq,
  str_eq_iff, Bool-cases, All, All-map, All-filter, All-append, some-ne-none, some-value,
}
use xtremflow.Recordings.{
  Recording, Table, has_id, get_recording_by_id, update_where, delete_recording, create_recording,
}

-- A statement over the row that an identifier names.
pub get-update_where :
    (id j : String) (f : Recording → Recording) (rows : Table)
    → ((r : Recording) → (f r).id ≡ r.id)
    → get_recording_by_id j (update_where id f rows) ≡ (
        if str_eq id j
        then elim (get_recording_by_id j rows) [ none ↦ none | some r ↦ some (f r) ]
        else get_recording_by_id j rows)
unfolding get_recording_by_id update_where
get-update_where id j f [] keep = ground arith
get-update_where id j f (r ∷ rows) keep = ground (
  arith,
  get-update_where id j f rows keep,
  keep r,
  str_eq_iff r.id id,
  str_eq_iff r.id j,
  str_eq_iff id j,
  str_eq_iff (f r).id j,
)

pub get-delete_recording :
    (id j : String) (rows : Table)
    → get_recording_by_id j (delete_recording id rows)
      ≡ (if str_eq id j then none else get_recording_by_id j rows)
unfolding get_recording_by_id delete_recording
get-delete_recording id j [] = ground arith
get-delete_recording id j (r ∷ rows) =
    ground (
      arith,
      get-delete_recording id j rows,
      str_eq_iff r.id id,
      str_eq_iff r.id j,
      str_eq_iff id j,
    )

module _ {κ} (P : Recording → Type κ) where
  -- What holds of every row, and of the changed ones, holds after a change.
  pub All-update_where :
      (id : String) (f : Recording → Recording)
      → ((r : Recording) → str_eq r.id id ≡ true → P r → P (f r))
      → (rows : Table) → All P rows
      → All P (update_where id f rows)
  unfolding update_where
  All-update_where id f keep [] h = tt
  All-update_where id f keep (r ∷ rows) (p, h) =
      (go (Bool-cases (str_eq r.id id)), All-update_where id f keep rows h)
    where
      go :
          (str_eq r.id id ≡ true) ⊎ (str_eq r.id id ≡ false) → P (if str_eq r.id id then f r else r)
      go (inl e) = rw e (keep r e p)
      go (inr e) = rw e p

  pub All-delete_recording :
      (id : String) (rows : Table) → All P rows → All P (delete_recording id rows)
  unfolding delete_recording
  All-delete_recording id rows h = All-filter P (λ r. not (has_id id r)) rows h

-- The primary key: no identifier stands twice.
abbrev pub Unique : Table → Type 0
Unique [] = Unit
Unique (r ∷ rows) = All (λ s. str_eq s.id r.id ≡ false) rows × Unique rows

All-changed :
    (id k : String) (f : Recording → Recording)
    → ((r : Recording) → (f r).id ≡ r.id)
    → (rows : Table) → All (λ s. str_eq s.id k ≡ false) rows
    → All (λ s. str_eq s.id k ≡ false) (update_where id f rows)
All-changed id k f keep =
    All-update_where (λ s. str_eq s.id k ≡ false) id f (λ r same h. rw (keep r) h)

pub update_where-Unique :
    (id : String) (f : Recording → Recording)
    → ((r : Recording) → (f r).id ≡ r.id)
    → (rows : Table) → Unique rows
    → Unique (update_where id f rows)
unfolding update_where
update_where-Unique id f keep [] u = tt
update_where-Unique id f keep (r ∷ rows) (new, u) =
    let rest = update_where-Unique id f keep rows u in
    let ids = All-changed id r.id f keep rows new in
    elim (has_id id r)
      as (λ b.
        All (λ s. str_eq s.id (if b then f r else r).id ≡ false) (update_where id f rows)
        × Unique (update_where id f rows)) [ true ↦ rw (keep r) (ids, rest) | false ↦ (ids, rest) ]

pub delete-Unique : (id : String) (rows : Table) → Unique rows → Unique (delete_recording id rows)
unfolding delete_recording
delete-Unique id [] u = tt
delete-Unique id (r ∷ rows) (new, u) =
    let rest = delete-Unique id rows u in
    let ids = All-filter (λ s. str_eq s.id r.id ≡ false) (λ s. not (has_id id s)) rows new in
    elim (not (has_id id r))
      as (λ b. Unique (if b then r ∷ delete_recording id rows else delete_recording id rows)) [
        | true ↦ (ids, rest)
        | false ↦ rest
      ]

pub create-Unique :
    (r : Recording) (rows : Table)
    → get_recording_by_id r.id rows ≡ none
    → Unique rows
    → Unique (create_recording r rows)
unfolding create_recording get_recording_by_id
create-Unique r [] fresh u = (tt, tt)
create-Unique r (s ∷ rows) fresh (new, u) = elim (Bool-cases (str_eq s.id r.id)) [
  | inl same ↦ absurd (some-ne-none (rw same at fresh))
  | inr other ↦
      let rest = create-Unique r rows (rw other at fresh) u in
      (
        All-append (λ t. str_eq t.id s.id ≡ false) rows (r ∷ []) new
            (ground (arith, str_eq_iff r.id s.id, str_eq_iff s.id r.id), tt),
        rest,
      )
]

-- Where identifiers are unique, the row found by one is the only row with it.
pub All-of_get :
    (P : Recording → Type 0) (id : String) (r : Recording) (rows : Table)
    → Unique rows
    → get_recording_by_id id rows ≡ some r
    → P r
    → All (λ s. str_eq s.id id ≡ true → P s) rows
unfolding get_recording_by_id
All-of_get P id r [] u e p = tt
All-of_get P id r (s ∷ rows) (new, u) e p = elim (Bool-cases (str_eq s.id id)) [
  | inl same ↦
      let found : s ≡ r = some-value (rw same at e) in
      let key : s.id ≡ id = (str_eq_iff _ _).0 same in
      (
        λ _. rw found p,
        All-map _ _ (λ t other same'. absurd (clash t (rw key at other) same')) rows new,
      )
  | inr other ↦ (λ same. absurd (clash s other same), All-of_get P id r rows u (rw other at e) p)
]
  where
    clash : (t : Recording) → str_eq t.id id ≡ false → str_eq t.id id ≡ true → ⊥
    clash t a b = cc

-- The row found by an identifier has it.
pub get-id :
    (id : String) (r : Recording) (rows : Table) → get_recording_by_id id rows ≡ some r → r.id ≡ id
unfolding get_recording_by_id
get-id id r [] e = cc
get-id id r (s ∷ rows) e = ground (arith, get-id id r rows, str_eq_iff s.id id)
