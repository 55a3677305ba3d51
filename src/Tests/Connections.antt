-- ===== src/Tests/Connections.antt =====
-- The theorems on the upstream connections and the quotas, at concrete inputs.
use xtremflow.Base.{
  ℕ, suc, ◌+◌, ◌-◌, ◌≤◌, min, ◌≡◌, refl, ◌⊎◌, String, true, false, none, some, List, [], ◌∷◌, arith,
  str_eq, elem, count, length, lookup, All, pos, sort_by_key, insert_by, remove,
}
use xtremflow.Slots.{
  Slot, Inner, empty, is_other, is_orphan, active, make_room, take_out, orphans, release_all,
  excess,
}
use xtremflow.Slots.Room.{released_in}
use xtremflow.Slots.Tokens.{Call, registers, run, IsValid}
use xtremflow.Slots.Limits.{
  PlaylistConfig, account_key_of, asks, new_limits, tasks_of, run as run_limits,
}
use xtremflow.Slots.Room.{make_room_cuts, make_room_enough, make_room_oldest}
use xtremflow.Slots.Tokens.{run-IsValid}
use xtremflow.Slots.Limits.{tasks_of-le_one}

-- Three sessions of one account; the world counts the cuts.
abbrev calls : List (Call ℕ)
calls =
    registers "a" "x" (λ w. suc w) none
    ∷ registers "b" "x" (λ w. suc w) none
    ∷ registers "c" "x" (λ w. suc w) (some (λ w. true))
    ∷ []

abbrev three : Inner ℕ
three = record {
  slots =
      ("a", record { token = 1; account = "x"; since = 1; release = λ w. suc w; is_active = none })
      ∷ (
        "b",
        record { token = 2; account = "x"; since = 2; release = λ w. suc w; is_active = none },
      )
      ∷ [];
  next = 2;
}

abbrev slot_b : Slot ℕ
slot_b = record { token = 2; account = "x"; since = 2; release = λ w. suc w; is_active = none }

abbrev account : PlaylistConfig
account = record { id = "p"; dns = "http://panel"; username = "u"; password = "w" }

make_room_cuts_example :
    let r = make_room "x" (pos (suc 1)) "c" 0 three in
    All
      (λ id.
        (s : Slot ℕ) × (lookup id three.slots ≡ some s)
        × (str_eq s.account "x" ≡ true)
        × (str_eq id "c" ≡ false)
        × (active 0 s ≡ false)
        × (lookup id r.0.slots ≡ none))
      r.2
    × ((id : String) → elem id r.2 ≡ false → lookup id r.0.slots ≡ lookup id three.slots)
unfolding lookup
make_room_cuts_example = make_room_cuts "x" 1 "c" 0 three (refl, (refl, tt))

make_room_enough_example :
    let r = make_room "x" (pos (suc 1)) "c" 0 three in
    (count (is_other "x" "c") r.0.slots + length r.2 ≡ count (is_other "x" "c") three.slots)
    × (length r.2
        ≡ min (count (is_other "x" "c") three.slots - 1) (count (is_orphan 0 "x" "c") three.slots))
    × ((count (is_other "x" "c") r.0.slots ≤ 1) ⊎ (count (is_orphan 0 "x" "c") r.0.slots ≡ 0))
    × (r.1 ≡ released_in three.slots r.2 0)
unfolding lookup
make_room_enough_example = make_room_enough "x" 1 "c" 0 three (refl, (refl, tt))

make_room_oldest_example :
    All
      (λ gone. (t : Slot ℕ) → lookup gone three.slots ≡ some t → t.since ≤ slot_b.since)
      (make_room "x" (pos (suc 1)) "c" 0 three).2
unfolding lookup make_room take_out orphans release_all excess sort_by_key insert_by remove
make_room_oldest_example =
    make_room_oldest "x" 1 "c" 0 three (refl, (refl, tt)) "b" slot_b refl refl

run-IsValid_example : IsValid (run (0, empty) calls).1
run-IsValid_example = run-IsValid 0 calls (omega arith)

tasks_of-le_one_example :
    tasks_of
      (account_key_of account)
      (run_limits (new_limits 60) (asks account 1 ∷ asks account 2 ∷ []))
    ≤ 1
tasks_of-le_one_example =
    tasks_of-le_one 60 (asks account 1 ∷ asks account 2 ∷ []) (account_key_of account)
