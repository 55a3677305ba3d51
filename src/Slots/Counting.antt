-- ===== src/Slots/Counting.antt =====
-- What `take_out` leaves in the registry, and what it hands back.
use xtremflow.Base.{
  ℕ, ◌+◌, ◌≡◌, refl, ap, String, Bool, true, false, none, some, List, [], ◌∷◌, arith, if◌then◌else◌,
  str_eq, str_eq_iff, Map, lookup, remove, keys, Distinct, Lacks, Lacks-of_lookup, lookup-remove,
  remove-Distinct, count-remove, count, length, elem, All,
}
use xtremflow.Slots.{Slot, take_out, release_all}

module _ {W : Type 0} where
  -- Every chosen connection is registered, as `P` describes it.
  abbrev pub Chosen {κ} : (String → Slot W → Type κ) → Map (Slot W) → List (String × ℕ) → Type κ
  Chosen P slots = All (λ o. (s : Slot W) × (lookup o.0 slots ≡ some s) × P o.0 s)

  module _ {κ} (P : String → Slot W → Type κ) where
    pub Chosen-remove :
        (id : String) (slots : Map (Slot W)) (chosen : List (String × ℕ))
        → Lacks id chosen
        → Chosen P slots chosen
        → Chosen P (remove id slots) chosen
    Chosen-remove id slots [] l c = tt
    Chosen-remove id slots ((j, n) ∷ chosen) (ne, l) ((s, found, p), c) =
        let other : str_eq id j ≡ false = ground (arith, str_eq_iff id j, str_eq_iff j id) in
        ((s, rw (lookup-remove id j slots, other) found, p), Chosen-remove id slots chosen l c)

  -- Exactly the chosen connections are gone.
  pub lookup-take_out :
      (j : String) (chosen : List (String × ℕ)) (slots : Map (Slot W))
      → lookup j (take_out chosen slots).0 ≡ (if elem j (keys chosen) then none else lookup j slots)
  unfolding take_out
  lookup-take_out j [] slots = refl
  lookup-take_out j ((id, n) ∷ chosen) slots = ground (
    arith,
    lookup-take_out j chosen slots,
    lookup-take_out j chosen (remove id slots),
    lookup-remove id j slots,
    str_eq_iff id j,
  )

  pub take_out-Distinct :
      (chosen : List (String × ℕ)) (slots : Map (Slot W))
      → Distinct slots
      → Distinct (take_out chosen slots).0
  unfolding take_out
  take_out-Distinct [] slots d = d
  take_out-Distinct ((id, n) ∷ chosen) slots d = ground (
    arith,
    take_out-Distinct chosen slots d,
    take_out-Distinct chosen (remove id slots) (remove-Distinct id slots d),
  )

  module _ {κ} (P : String → Slot W → Type κ) where
    -- The names handed back are the chosen ones, in their order.
    pub keys-take_out :
        (chosen : List (String × ℕ)) (slots : Map (Slot W))
        → Distinct chosen
        → Chosen P slots chosen
        → keys (take_out chosen slots).1 ≡ keys chosen
    unfolding take_out
    keys-take_out [] slots d c = refl
    keys-take_out ((id, n) ∷ chosen) slots (new, d) ((s, found, p), c) =
        let rest =
          keys-take_out chosen (remove id slots) d
            (Chosen-remove P id slots chosen (Lacks-of_lookup id chosen new) c) in
        rw (found, take_out) (ap (◌∷◌ id) rest)

    -- Where the chosen ones pass a test, that many fewer pass it afterwards.
    pub count-take_out :
        (p : String × Slot W → Bool)
        → ((id : String) (s : Slot W) → P id s → p (id, s) ≡ true)
        → (chosen : List (String × ℕ)) (slots : Map (Slot W)) → Distinct slots
        → Distinct chosen
        → Chosen P slots chosen
        → count p (take_out chosen slots).0 + length chosen ≡ count p slots
    unfolding take_out
    count-take_out p test [] slots ds d c = omega arith
    count-take_out p test ((id, n) ∷ chosen) slots ds (new, d) ((s, found, q), c) =
        let rest =
          count-take_out p test chosen (remove id slots) (remove-Distinct id slots ds) d
            (Chosen-remove P id slots chosen (Lacks-of_lookup id chosen new) c) in
        let one = count-remove p id s slots ds found (test id s q) in
        rw (found, take_out) (omega (arith, rest, one))

  -- The cuts are made one after the other, and every name is reported.
  pub keys-release_all :
      (released : List (String × (W → W))) (w : W) → (release_all released w).1 ≡ keys released
  unfolding release_all
  keys-release_all [] w = refl
  keys-release_all ((id, r) ∷ rest) w = ap (◌∷◌ id) (keys-release_all rest (r w))
