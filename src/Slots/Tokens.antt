-- ===== src/Slots/Tokens.antt =====
-- Tokens: any history keeps the registry well formed, and an old token never removes a newer
-- connection.
use xtremflow.Base.{
  ℕ, true, All-lookup, insert, some-value, Bool-cases, str_eq_iff, inl, inr, sym, ap, ◌+◌, ◌%◌,
  take, ◌≤◌, ◌<◌, ◌≡◌, refl, ◌∙◌, String, Bool, false, Option, none, some, List, [], ◌∷◌, arith,
  str_eq, Map, lookup, remove, Distinct, insert-Distinct, remove-Distinct, All-remove, All-insert,
  lookup-insert_self, lookup-insert, lookup-remove_self, lookup-remove, length, All, All-map, ℤ,
  pos, negsuc,
}
use xtremflow.Slots.{
  Slot, Inner, u64_mod, new_slot, empty, register, unregister, take_out, make_room, excess, orphans,
}
use xtremflow.Slots.Counting.{take_out-Distinct, lookup-take_out}

-- What the rest of the server asks of the registry.
pub data Call (W : Type 0) : Type 0 where
  registers : String → String → (W → W) → Option (W → Bool) → Call W
  unregisters : String → Option ℕ → Call W
  makes_room : String → ℤ → String → Call W

module _ {W : Type 0} where
  -- A connection's rank is its token, and both were issued.
  abbrev pub Issued : ℕ → String × Slot W → Type 0
  Issued n e = (e.1.since ≡ e.1.token) × (e.1.token ≤ n)

  -- A token tells its connection from every other.
  abbrev pub Unshared : Map (Slot W) → Type 0
  Unshared slots =
      (i j : String) (s t : Slot W)
      → lookup i slots ≡ some s
      → lookup j slots ≡ some t
      → s.token ≡ t.token
      → str_eq i j ≡ true

  -- One connection to an identifier, tokens up to the counter, and no token twice.
  pub record IsValid (inner : Inner W) : Type 0 where
    pub distinct : Distinct inner.slots
    pub issued : All (Issued inner.next) inner.slots
    pub unshared : Unshared inner.slots

  -- What was in the registry before is still unshared.
  Unshared-within :
      (slots slots' : Map (Slot W))
      → ((i : String) (s : Slot W) → lookup i slots' ≡ some s → lookup i slots ≡ some s)
      → Unshared slots
      → Unshared slots'
  Unshared-within slots slots' within u i j s t at_i at_j same =
      u i j s t (within i s at_i) (within j t at_j) same

  lookup-Issued :
      (n : ℕ) (slots : Map (Slot W)) (i : String) (s : Slot W)
      → All (Issued n) slots
      → lookup i slots ≡ some s
      → s.token ≤ n
  lookup-Issued n slots i s all found = (All-lookup (Issued n) i slots all found).1

  insert-Unshared :
      (id : String) (slot : Slot W) (n : ℕ) (slots : Map (Slot W))
      → n < slot.token
      → All (Issued n) slots
      → Unshared slots
      → Unshared (insert id slot slots)
  insert-Unshared id slot n slots newer all u i j s t at_i at_j same =
      let in_i = sym (lookup-insert id i slot slots) ∙ at_i in
      let in_j = sym (lookup-insert id j slot slots) ∙ at_j in
      elim (Bool-cases (str_eq id i)) [
        | inl here ↦ elim (Bool-cases (str_eq id j)) [
          | inl there ↦
              ground (arith, here, there, str_eq_iff id i, str_eq_iff id j, str_eq_iff i j)
          | inr other ↦
              let own : slot ≡ s = some-value (rw here at in_i) in
              let old : t.token ≤ n = lookup-Issued n slots j t all (rw other at in_j) in
              let mine : slot.token ≡ t.token = ap (λ (x : Slot W). x.token) own ∙ same in
              absurd (late mine old)
        ]
        | inr elsewhere ↦
            let old_i : lookup i slots ≡ some s = rw elsewhere at in_i in
            elim (Bool-cases (str_eq id j)) [
              | inl there ↦
                  let own : slot ≡ t = some-value (rw there at in_j) in
                  let old : s.token ≤ n = lookup-Issued n slots i s all old_i in
                  let mine : slot.token ≡ s.token = ap (λ (x : Slot W). x.token) own ∙ sym same in
                  absurd (late mine old)
              | inr other ↦ u i j s t old_i (rw other at in_j) same
            ]
      ]
    where
      late : {m : ℕ} → slot.token ≡ m → m ≤ n → ⊥
      late e le = omega arith

  unregister-within :
      (id : String) (token : Option ℕ) (inner : Inner W) (i : String) (s : Slot W)
      → lookup i (unregister id token inner).slots ≡ some s
      → lookup i inner.slots ≡ some s
  unfolding unregister
  unregister-within id token inner i s found = ground (arith, found, lookup-remove id i inner.slots)

  make_room-within :
      (account : String) (max : ℤ) (keep : String) (w : W) (inner : Inner W) (i : String)
      (s : Slot W)
      → lookup i (make_room account max keep w inner).0.slots ≡ some s
      → lookup i inner.slots ≡ some s
  unfolding make_room
  make_room-within account (negsuc _) keep w inner i s found = found
  make_room-within account (pos max) keep w inner i s found =
      let chosen =
        take (excess account max keep inner.slots) (orphans w account keep inner.slots) in
      ground (arith, found, lookup-take_out i chosen inner.slots)

  Issued-mono :
      (m n : ℕ) (slots : Map (Slot W)) → m ≤ n → All (Issued m) slots → All (Issued n) slots
  Issued-mono m n slots le = All-map (Issued m) (Issued n) (λ e h. (h.0, omega arith)) slots

  take_out-Issued :
      (n : ℕ) (chosen : List (String × ℕ)) (slots : Map (Slot W))
      → All (Issued n) slots
      → All (Issued n) (take_out chosen slots).0
  unfolding take_out
  take_out-Issued n [] slots h = h
  take_out-Issued n ((id, _) ∷ chosen) slots h = ground (
    arith,
    take_out-Issued n chosen slots h,
    take_out-Issued n chosen (remove id slots) (All-remove (Issued n) id slots h),
  )

  register-IsValid :
      (id account : String) (release : W → W) (is_active : Option (W → Bool)) (inner : Inner W)
      → inner.next + 1 < u64_mod
      → IsValid inner
      → IsValid (register id account release is_active inner).0
  unfolding register
  register-IsValid id account release is_active inner room v =
      let bound : (inner.next + 1) % u64_mod ≡ inner.next + 1 = omega arith in
      record {
        distinct = insert-Distinct id _ inner.slots v.distinct;
        issued = rw bound (
            All-insert (Issued (inner.next + 1)) id _ inner.slots (refl, omega arith)
              (Issued-mono inner.next (inner.next + 1) inner.slots (omega arith) v.issued));
        unshared =
            insert-Unshared id (new_slot account release is_active inner) inner.next inner.slots
              (omega arith) v.issued v.unshared;
      }

  unregister-IsValid :
      (id : String) (token : Option ℕ) (inner : Inner W)
      → IsValid inner
      → IsValid (unregister id token inner)
  unfolding unregister
  unregister-IsValid id token inner v = record {
    distinct = ground (arith, remove-Distinct id inner.slots v.distinct, v.distinct);
    issued = ground (arith, All-remove (Issued inner.next) id inner.slots v.issued, v.issued);
    unshared =
        Unshared-within inner.slots (unregister id token inner).slots
          (unregister-within id token inner) v.unshared;
  }

  make_room-IsValid :
      (account : String) (max : ℤ) (keep : String) (w : W) (inner : Inner W)
      → IsValid inner
      → IsValid (make_room account max keep w inner).0
  unfolding make_room
  make_room-IsValid account (negsuc _) keep w inner v = v
  make_room-IsValid account (pos max) keep w inner v =
      let chosen =
        take (excess account max keep inner.slots) (orphans w account keep inner.slots) in
      record {
        distinct = ground (arith, take_out-Distinct chosen inner.slots v.distinct, v.distinct);
        issued = ground (arith, take_out-Issued inner.next chosen inner.slots v.issued, v.issued);
        unshared =
            Unshared-within inner.slots (make_room account (pos max) keep w inner).0.slots
              (make_room-within account (pos max) keep w inner) v.unshared;
      }

  pub step : W × Inner W → Call W → W × Inner W
  step (w, inner) (registers id account release is_active) =
      (w, (register id account release is_active inner).0)
  step (w, inner) (unregisters id token) = (w, unregister id token inner)
  step (w, inner) (makes_room account max keep) =
      let (inner', w', ids) = make_room account max keep w inner in (w', inner')

  pub run : W × Inner W → List (Call W) → W × Inner W
  run st [] = st
  run st (c ∷ cs) = run (step st c) cs

  step-next :
      (st : W × Inner W) (c : Call W) → st.1.next + 1 < u64_mod → (step st c).1.next ≤ st.1.next + 1
  unfolding step register unregister make_room
  step-next (w, inner) (registers id account release is_active) h = omega arith
  step-next (w, inner) (unregisters id token) h = ground arith
  step-next (w, inner) (makes_room account (negsuc m) keep) h = omega arith
  step-next (w, inner) (makes_room account (pos m) keep) h = ground arith

  step-IsValid :
      (st : W × Inner W) (c : Call W)
      → st.1.next + 1 < u64_mod
      → IsValid st.1
      → IsValid (step st c).1
  unfolding step
  step-IsValid (w, inner) (registers id account release is_active) h v =
      register-IsValid id account release is_active inner h v
  step-IsValid (w, inner) (unregisters id token) h v = unregister-IsValid id token inner v
  step-IsValid (w, inner) (makes_room account max keep) h v =
      make_room-IsValid account max keep w inner v

  run-IsValid_from :
      (st : W × Inner W) (cs : List (Call W))
      → st.1.next + length cs < u64_mod
      → IsValid st.1
      → IsValid (run st cs).1
  unfolding run
  run-IsValid_from st [] h v = v
  run-IsValid_from st (c ∷ cs) h v =
      run-IsValid_from (step st c) cs (omega (arith, step-next st c (omega arith)))
        (step-IsValid st c (omega arith) v)

  -- After any history shorter than the range of the tokens, no identifier stands twice, every token
  -- was issued, and no two connections have the same one.
  pub run-IsValid :
      (w : W) (cs : List (Call W)) → length cs < u64_mod → IsValid (run (w, empty) cs).1
  unfolding lookup
  run-IsValid w cs h =
      run-IsValid_from (w, empty) cs (omega arith)
        (record { distinct = tt; issued = tt; unshared = λ i j s t at_i at_j same. cc })

  unregister_stale :
      (id : String) (t : ℕ) (inner : Inner W) (s : Slot W)
      → lookup id inner.slots ≡ some s
      → t < s.token
      → unregister id (some t) inner ≡ inner
  unfolding unregister
  unregister_stale id t inner s found older = rw (found, unregister) (ground arith)

  unregister_own :
      (id : String) (inner : Inner W) (s : Slot W)
      → lookup id inner.slots ≡ some s
      → (unregister id (some s.token) inner).slots ≡ remove id inner.slots
  unfolding unregister
  unregister_own id inner s found = rw (found, unregister) (ground arith)

  -- A session registered again under its identifier: the end of the old process, with any token
  -- issued before, changes nothing; the new token takes the connection out, and no other one.
  pub unregister-register :
      (id account : String) (release : W → W) (is_active : Option (W → Bool)) (inner : Inner W)
      (old : ℕ)
      → inner.next + 1 < u64_mod
      → old ≤ inner.next
      → let r = register id account release is_active inner in
        (unregister id (some old) r.0 ≡ r.0)
        × (lookup id (unregister id (some r.1) r.0).slots ≡ none)
        × ((other : String)
            → str_eq id other ≡ false
            → lookup other (unregister id (some r.1) r.0).slots ≡ lookup other inner.slots)
  unfolding register
  unregister-register id account release is_active inner old room issued =
      let r = register id account release is_active inner in
      let found = lookup-insert_self id (new_slot account release is_active inner) inner.slots in
      (
        unregister_stale id old r.0 _ found (omega arith),
        rw (unregister_own id r.0 _ found) (lookup-remove_self id r.0.slots),
        λ other ne.
            rw (unregister_own id r.0 _ found, lookup-remove id other r.0.slots, ne)
              (lookup-insert id other (new_slot account release is_active inner) inner.slots
                ∙ rw ne),
      )
