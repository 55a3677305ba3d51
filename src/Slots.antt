-- ===== src/Slots.antt =====
-- The registry of open upstream connections (services/upstream_slots.rs, `UpstreamSlots`).
-- `W` is the state of the world that a connection's closures read and change; a `release` that
-- panics is caught by the caller, so it is a plain function on the world.
pub mod Counting
pub mod Room
pub mod Tokens
pub mod Limits
use xtremflow.Base.{
  ℕ, suc, ◌+◌, ◌-◌, ◌%◌, ◌^◌, ◌≡◌, String, Bool, true, false, not, ◌&&◌, ◌||◌, Option, none, some,
  List, [], ◌∷◌, map, if◌then◌else◌, str_eq, ◌==◌, Map, lookup, insert, remove, keys, values,
  filter, count, length, take, sort_by_key, ℤ, pos, negsuc,
}

pub record Slot (W : Type 0) : Type 0 where
  pub token : ℕ
  pub account : String
  pub since : ℕ
  pub release : W → W
  pub is_active : Option (W → Bool)

pub record Inner (W : Type 0) : Type 0 where
  pub slots : Map (Slot W)
  pub next : ℕ

abbrev pub u64_mod : ℕ
u64_mod = 2 ^ 64

abbrev ask : {W : Type 0} → Option (W → Bool) → W → Bool
ask none w = false
ask (some f) w = f w

module _ {W : Type 0} where
  -- `Slot::active`
  abbrev pub active : W → Slot W → Bool
  active w s = ask s.is_active w

  abbrev pub empty : Inner W
  empty = record { slots = []; next = 0 }

  abbrev pub new_slot : String → (W → W) → Option (W → Bool) → Inner W → Slot W
  new_slot account release is_active inner = record {
    token = (inner.next + 1) % u64_mod;
    account = account;
    since = (inner.next + 1) % u64_mod;
    release = release;
    is_active = is_active;
  }

  unfoldable pub register : String → String → (W → W) → Option (W → Bool) → Inner W → Inner W × ℕ
  register id account release is_active inner =
      let slot = new_slot account release is_active inner in
      (record { slots = insert id slot inner.slots; next = slot.token }, slot.token)

  abbrev token_differs : Option ℕ → Slot W → Bool
  token_differs none s = false
  token_differs (some t) s = not (t == s.token)

  unfoldable pub unregister : String → Option ℕ → Inner W → Inner W
  unregister id token inner = elim (lookup id inner.slots) [
    | none ↦ inner
    | some s ↦
        if token_differs token s then inner else record inner { slots = remove id inner.slots }
  ]

  abbrev pub on_account : String → String × Slot W → Bool
  on_account account e = str_eq e.1.account account

  unfoldable pub count_for : String → Inner W → ℕ
  count_for account inner = count (on_account account) inner.slots

  -- The other connections of the account.
  abbrev pub is_other : String → String → String × Slot W → Bool
  is_other account keep e = str_eq e.1.account account && not (str_eq e.0 keep)

  -- Those that nobody watches.
  abbrev pub is_orphan : W → String → String → String × Slot W → Bool
  is_orphan w account keep e = is_other account keep e && not (active w e.1)

  abbrev pub dated : String × Slot W → String × ℕ
  dated e = (e.0, e.1.since)

  -- `orphans`, oldest first.
  unfoldable pub orphans : W → String → String → Map (Slot W) → List (String × ℕ)
  orphans w account keep slots =
      let others = filter (is_other account keep) slots in
      sort_by_key (λ (o : String × ℕ). o.1) (map dated (filter (λ e. not (active w e.1)) others))

  -- The `filter_map` that takes the chosen connections out of the registry.
  unfoldable pub take_out :
      List (String × ℕ) → Map (Slot W) → Map (Slot W) × List (String × (W → W))
  take_out [] slots = (slots, [])
  take_out ((id, _) ∷ chosen) slots = elim (lookup id slots) [
    | none ↦ take_out chosen slots
    | some s ↦
        let (left, released) = take_out chosen (remove id slots) in
        (left, (id, s.release) ∷ released)
  ]

  -- The cuts, outside the lock.
  unfoldable pub release_all : List (String × (W → W)) → W → W × List String
  release_all [] w = (w, [])
  release_all ((id, release) ∷ rest) w =
      let (w', ids) = release_all rest (release w) in (w', id ∷ ids)

  -- `excess = others.len() as i64 - (max - 1)`, with `max` at least 1; none where it is negative.
  unfoldable pub excess : String → ℕ → String → Map (Slot W) → ℕ
  excess account max keep slots = count (is_other account keep) slots - (max - 1)

  unfoldable pub make_room : String → ℤ → String → W → Inner W → Inner W × W × List String
  unfolding release_all take_out orphans excess
  make_room account (negsuc _) keep w inner = (inner, w, [])
  make_room account (pos max) keep w inner =
      if max == 0 || excess account max keep inner.slots == 0
      then (inner, w, [])
      else let chosen =
          take (excess account max keep inner.slots) (orphans w account keep inner.slots) in
        let (left, released) = take_out chosen inner.slots in
        let (w', ids) = release_all released w in (record inner { slots = left }, w', ids)
