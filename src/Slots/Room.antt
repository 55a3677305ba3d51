-- ===== src/Slots/Room.antt =====
-- What `make_room` promises: which connections it cuts, how many, and in which order.
use xtremflow.Base.{
  ℕ, suc, ◌+◌, ◌-◌, ◌≤◌, ◌≡◌, Option, refl, ap, sym, ◌∙◌, ◌⊎◌, inl, inr, String, true, false, not,
  none, some, List, [], ◌∷◌, map, arith, ◌==◌, str_eq, min, Bool-cases, Map, lookup, keys, Distinct,
  All-lookup_self, str_eq_iff, remove, lookup-remove, Lacks, Lacks-of_lookup, filter-Distinct,
  sort_by_key-Distinct, take-Distinct, count, length, length-take, length-map, length-sort_by_key,
  filter-filter, filter, elem, All, All-map, All-take, All-filter_test, All-map_list, All-zip,
  All-keys, All-of_keys, All-elem, length-keys, lookup-filter, lookup-sort_by_key, lookup-drop,
  All-lookup, take-le-drop, sort_by_key-IsSorted, IsSorted, some-value, All-sort_by_key, take,
  sort_by_key, pos,
}
use xtremflow.Slots.{
  Slot, Inner, is_other, is_orphan, active, dated, orphans, excess, take_out, release_all,
  make_room,
}
use xtremflow.Slots.Counting.{
  Chosen, Chosen-remove, lookup-take_out, keys-take_out, count-take_out, keys-release_all,
}

facts :
    {W : Type 0} (w : W) (account keep id : String) (s : Slot W)
    → is_orphan w account keep (id, s) ≡ true
    → (str_eq s.account account ≡ true) × (str_eq id keep ≡ false) × (active w s ≡ false)
facts w account keep id s h = ground arith

known : (n : ℕ) → (suc n == 0) ≡ false
known n = ground arith

lookup-dated :
    {W : Type 0} (k : String) (m : Map (Slot W)) → lookup k m ≡ none → lookup k (map dated m) ≡ none
unfolding lookup
lookup-dated k [] h = refl
lookup-dated k ((j, s) ∷ m) h = ground (arith, lookup-dated k m)

lookup-dated-some :
    {W : Type 0} (k : String) (s : Slot W) (m : Map (Slot W))
    → lookup k m ≡ some s
    → lookup k (map dated m) ≡ some s.since
unfolding lookup
lookup-dated-some k s [] h = cc
lookup-dated-some k s ((j, t) ∷ m) h = ground (arith, lookup-dated-some k s m)

map-dated-Distinct : {W : Type 0} (m : Map (Slot W)) → Distinct m → Distinct (map dated m)
map-dated-Distinct [] d = tt
map-dated-Distinct ((k, s) ∷ m) (n, d) = (lookup-dated k m n, map-dated-Distinct m d)

module _ {W : Type 0} (w : W) (account keep : String) (slots : Map (Slot W)) where
  -- The connection `id` was an orphan of the account.
  abbrev pub IsOrphan : String → Slot W → Type 0
  IsOrphan id s = is_orphan w account keep (id, s) ≡ true

  orphan_list :
      orphans w account keep slots
      ≡ sort_by_key (λ o. o.1) (map dated (filter (is_orphan w account keep) slots))
  unfolding orphans
  orphan_list = rw (filter-filter (is_other account keep) (λ e. not (active w e.1)) slots)

  pub length-orphans :
      length (orphans w account keep slots) ≡ count (is_orphan w account keep) slots
  length-orphans = rw orphan_list (
      length-sort_by_key (λ o. o.1) (map dated (filter (is_orphan w account keep) slots))
      ∙ length-map dated (filter (is_orphan w account keep) slots))

  pub orphans-Distinct : Distinct slots → Distinct (orphans w account keep slots)
  orphans-Distinct d = rw orphan_list (
      sort_by_key-Distinct (λ o. o.1) (map dated (filter (is_orphan w account keep) slots))
        (map-dated-Distinct _ (filter-Distinct (is_orphan w account keep) slots d)))

  pub orphans-Chosen : Distinct slots → Chosen IsOrphan slots (orphans w account keep slots)
  orphans-Chosen d = rw orphan_list (
      All-sort_by_key (λ o. o.1) _ _
        (All-map_list _ dated _ (
          All-map _ _ (λ e h. (e.1, h.0, h.1)) _
            (All-filter_test _ (is_orphan w account keep) slots (All-lookup_self slots d)))))

  -- The list carries the date of each.
  abbrev IsDated : String × ℕ → Type 0
  IsDated o = (s : Slot W) × (lookup o.0 slots ≡ some s) × (s.since ≡ o.1)

  pub orphans-IsDated : Distinct slots → All IsDated (orphans w account keep slots)
  orphans-IsDated d = rw orphan_list (
      All-sort_by_key (λ o. o.1) _ _
        (All-map_list _ dated _ (
          All-map _ _ (λ e h. (e.1, h.0, refl)) _
            (All-filter_test _ (is_orphan w account keep) slots (All-lookup_self slots d)))))

  -- An orphan is listed under its date.
  pub lookup-orphans :
      Distinct slots
      → (id : String) (s : Slot W) → lookup id slots ≡ some s
      → is_orphan w account keep (id, s) ≡ true
      → lookup id (orphans w account keep slots) ≡ some s.since
  lookup-orphans d id s found orphan = rw orphan_list (
      lookup-sort_by_key (λ o. o.1) id _
        (map-dated-Distinct _ (filter-Distinct (is_orphan w account keep) slots d))
      ∙ lookup-dated-some id s (filter (is_orphan w account keep) slots)
          (lookup-filter (is_orphan w account keep) id s slots found orphan))

  pub orphans-IsSorted : IsSorted (λ (o : String × ℕ). o.1) (orphans w account keep slots)
  unfolding orphans
  orphans-IsSorted = sort_by_key-IsSorted _ _

abbrev release_of : {W : Type 0} → Option (Slot W) → W → W
release_of none world = world
release_of (some s) world = s.release world

-- What the world comes to when the connections named are released one after the other.
abbrev pub released_in : {W : Type 0} → Map (Slot W) → List String → W → W
released_in slots [] world = world
released_in slots (id ∷ ids) world = released_in slots ids (release_of (lookup id slots) world)

module _ {W : Type 0} (P : String → Slot W → Type 0) where
  released_in-remove :
      (id : String) (slots : Map (Slot W)) (chosen : List (String × ℕ)) (world : W)
      → Lacks id chosen
      → released_in (remove id slots) (keys chosen) world ≡ released_in slots (keys chosen) world
  released_in-remove id slots [] world l = refl
  released_in-remove id slots ((j, n) ∷ chosen) world (ne, l) =
      let other : str_eq id j ≡ false = ground (arith, str_eq_iff id j, str_eq_iff j id) in
      let same : lookup j (remove id slots) ≡ lookup j slots =
        lookup-remove id j slots ∙ rw other refl in
      released_in-remove id slots chosen (release_of (lookup j (remove id slots)) world) l
      ∙ ap (λ o. released_in slots (keys chosen) (release_of o world)) same

  -- The closures of the chosen connections are called, in the order of the choice.
  release_all-take_out :
      (chosen : List (String × ℕ)) (slots : Map (Slot W)) (world : W)
      → Distinct chosen
      → Chosen P slots chosen
      → (release_all (take_out chosen slots).1 world).0 ≡ released_in slots (keys chosen) world
  unfolding take_out release_all
  release_all-take_out [] slots world d c = refl
  release_all-take_out ((id, n) ∷ chosen) slots world (new, d) ((s, found, p), c) =
      let lacks = Lacks-of_lookup id chosen new in
      rw (found, take_out)
        (release_all-take_out chosen (remove id slots) (s.release world) d
            (Chosen-remove P id slots chosen lacks c)
          ∙ (released_in-remove id slots chosen (s.release world) lacks
              ∙ ap (λ o. released_in slots (keys chosen) (release_of o world)) (sym found)))

module _ {W : Type 0} (account : String) (n : ℕ) (keep : String) (w : W) (inner : Inner W)
    (d : Distinct inner.slots) where
  -- The connections that a call with quota n + 1 cuts.
  abbrev pub cut : List (String × ℕ)
  cut = take (excess account (suc n) keep inner.slots) (orphans w account keep inner.slots)

  cut-Distinct : Distinct cut
  cut-Distinct = take-Distinct _ _ (orphans-Distinct w account keep inner.slots d)

  cut-Chosen : Chosen (IsOrphan w account keep inner.slots) inner.slots cut
  cut-Chosen = All-take _ _ _ (orphans-Chosen w account keep inner.slots d)

  -- The registry after the call, and the names that it reports.
  pub make_room_slots :
      (make_room account (pos (suc n)) keep w inner).0.slots ≡ (take_out cut inner.slots).0
  unfolding make_room
  make_room_slots = elim (Bool-cases (excess account (suc n) keep inner.slots == 0)) [
    | inl e ↦
        let none_over : excess account (suc n) keep inner.slots ≡ 0 = ground arith in
        rw none_over (ground arith)
    | inr e ↦ rw (known n, e)
  ]

  make_room_names : (make_room account (pos (suc n)) keep w inner).2 ≡ keys cut
  unfolding make_room
  make_room_names = elim (Bool-cases (excess account (suc n) keep inner.slots == 0)) [
    | inl e ↦
        let none_over : excess account (suc n) keep inner.slots ≡ 0 = ground arith in
        rw none_over (ground arith)
    | inr e ↦
        rw (known n, e)
          (keys-release_all (take_out cut inner.slots).1 w
            ∙ keys-take_out (IsOrphan w account keep inner.slots) cut inner.slots cut-Distinct
                cut-Chosen)
  ]

  make_room_world :
      (make_room account (pos (suc n)) keep w inner).1 ≡ released_in inner.slots (keys cut) w
  unfolding make_room
  make_room_world = elim (Bool-cases (excess account (suc n) keep inner.slots == 0)) [
    | inl e ↦
        let none_over : excess account (suc n) keep inner.slots ≡ 0 = ground arith in
        rw none_over (ground arith)
    | inr e ↦
        rw (known n, e)
          (release_all-take_out (IsOrphan w account keep inner.slots) cut inner.slots w cut-Distinct
            cut-Chosen)
  ]

  -- A quota of n + 1: the connections cut were registered on the account, none is `keep` and none
  -- is watched; they are gone afterwards, and every other connection is as it was.
  pub make_room_cuts :
      let r = make_room account (pos (suc n)) keep w inner in
      All
        (λ id.
          (s : Slot W) × (lookup id inner.slots ≡ some s)
          × (str_eq s.account account ≡ true)
          × (str_eq id keep ≡ false)
          × (active w s ≡ false)
          × (lookup id r.0.slots ≡ none))
        r.2
      × ((id : String) → elem id r.2 ≡ false → lookup id r.0.slots ≡ lookup id inner.slots)
  make_room_cuts =
      rw (make_room_slots, make_room_names)
        (
          All-keys _ cut (
              All-map _ _
                (λ o h. (
                  h.0.0,
                  h.0.1,
                  (facts w account keep o.0 h.0.0 h.0.2).0,
                  (facts w account keep o.0 h.0.0 h.0.2).1,
                  (facts w account keep o.0 h.0.0 h.0.2).2,
                  rw (lookup-take_out o.0 cut inner.slots, h.1),
                ))
                cut
                (All-zip _ _ cut cut-Chosen
                  (All-of_keys (λ k. elem k (keys cut) ≡ true) cut (All-elem (keys cut))))),
          λ id other. rw (lookup-take_out id cut inner.slots, other),
        )

  fewer_others :
      count (is_other account keep) (take_out cut inner.slots).0 + length cut
      ≡ count (is_other account keep) inner.slots
  fewer_others =
      count-take_out (IsOrphan w account keep inner.slots) (is_other account keep)
        (λ id s h. ground (arith, facts w account keep id s h)) cut inner.slots d cut-Distinct
        cut-Chosen

  fewer_orphans :
      count (is_orphan w account keep) (take_out cut inner.slots).0 + length cut
      ≡ count (is_orphan w account keep) inner.slots
  fewer_orphans =
      count-take_out (IsOrphan w account keep inner.slots) (is_orphan w account keep) (λ id s h. h)
        cut inner.slots d cut-Distinct cut-Chosen

  cut-length :
      length cut
      ≡ min
          (count (is_other account keep) inner.slots - n)
          (count (is_orphan w account keep) inner.slots)
  unfolding excess
  cut-length = omega (
    arith,
    length-take (excess account (suc n) keep inner.slots) (orphans w account keep inner.slots),
    length-orphans w account keep inner.slots,
  )

  -- A quota of n + 1: as many connections are cut as the quota asks for and orphans there are; so
  -- afterwards either the account has room for one more, or all its other connections are watched.
  -- The world is what it comes to when exactly the connections reported are released, in order.
  pub make_room_enough :
      let r = make_room account (pos (suc n)) keep w inner in
      (count (is_other account keep) r.0.slots + length r.2
        ≡ count (is_other account keep) inner.slots)
      × (length r.2
          ≡ min
              (count (is_other account keep) inner.slots - n)
              (count (is_orphan w account keep) inner.slots))
      × ((count (is_other account keep) r.0.slots ≤ n)
          ⊎ (count (is_orphan w account keep) r.0.slots ≡ 0))
      × (r.1 ≡ released_in inner.slots r.2 w)
  make_room_enough =
      rw (make_room_slots, make_room_names)
        (
          omega (arith, fewer_others, length-keys cut),
          omega (arith, length-keys cut, cut-length),
          omega (arith, fewer_others, fewer_orphans, cut-length),
          make_room_world,
        )

  -- The oldest go first: an orphan that stays is no older than any connection that was cut.
  pub make_room_oldest :
      (id : String) (s : Slot W)
      → lookup id (make_room account (pos (suc n)) keep w inner).0.slots ≡ some s
      → is_orphan w account keep (id, s) ≡ true
      → All
          (λ gone. (t : Slot W) → lookup gone inner.slots ≡ some t → t.since ≤ s.since)
          (make_room account (pos (suc n)) keep w inner).2
  make_room_oldest =
      rw (make_room_slots, make_room_names)
        λ id s stays orphan.
          let gone_not : elem id (keys cut) ≡ false =
            ground (arith, lookup-take_out id cut inner.slots) in
          let before : lookup id inner.slots ≡ some s =
            sym (lookup-take_out id cut inner.slots ∙ rw gone_not) ∙ stays in
          let kept =
            lookup-drop (excess account (suc n) keep inner.slots) id
              (orphans w account keep inner.slots) gone_not
            ∙ lookup-orphans w account keep inner.slots d id s before orphan in
          All-keys _ cut (
            All-map _ _
              (λ o h t found.
                let same : t ≡ h.1.0 = some-value (sym found ∙ h.1.1) in
                let date : t.since ≡ o.1 = rw same h.1.2 in
                rw date (All-lookup (λ y. o.1 ≤ y.1) id _ h.0 kept))
              cut
              (All-zip _ _ cut
                (take-le-drop (λ o. o.1) (excess account (suc n) keep inner.slots) _
                  (orphans-IsSorted w account keep inner.slots))
                (All-take _ _ _ (orphans-IsDated w account keep inner.slots d))))
