-- ===== src/Slots/Limits.antt =====
-- The connection quota of each account (services/upstream_slots.rs, `AccountLimits`). The panel's
-- answer to a read comes as an event: `fetch` is code outside the repository (the panel).
use xtremflow.Base.{
  ℕ, ◌+◌, ◌-◌, ◌≤◌, ◌<◌, ◌≡◌, refl, String, Bool, true, false, not, Option, none, some, List, [],
  ◌∷◌, arith, if◌then◌else◌, str_eq, str_eq_iff, leb, Map, lookup, insert, lookup-insert,
  lookup-insert_self, filter, All, elem, count, ℤ, pos,
}
use Prim.Native.String

-- `PlaylistConfig` of models.rs.
pub record PlaylistConfig : Type 0 where
  pub id : String
  pub dns : String
  pub username : String
  pub password : String

unfoldable pub account_key_of : PlaylistConfig → String
account_key_of p = String.◌++◌ (String.◌++◌ p.dns "|") p.username

-- `in_flight` lists the tasks spawned and not yet finished, by key.
pub record AccountLimits : Type 0 where
  pub ttl : ℕ
  pub cache : Map (ℤ × ℕ)
  pub refreshing : List String
  pub in_flight : List String

abbrev pub fallback : ℤ
fallback = pos 1

abbrev pub new_limits : ℕ → AccountLimits
new_limits ttl = record { ttl = ttl; cache = []; refreshing = []; in_flight = [] }

abbrev pub without : String → List String → List String
without k = filter (λ j. not (str_eq j k))

-- `refresh`: one read at a time for a key.
unfoldable pub refresh : String → AccountLimits → AccountLimits
refresh key l =
    if elem key l.refreshing
    then l
    else record l { refreshing = key ∷ l.refreshing; in_flight = key ∷ l.in_flight }

-- `cached.is_none_or(|(_, at)| at.elapsed() >= ttl)`
abbrev is_stale : ℕ → ℕ → Option (ℤ × ℕ) → Bool
is_stale ttl now none = true
is_stale ttl now (some (_, at)) = leb ttl (now - at)

abbrev cached_max : Option (ℤ × ℕ) → ℤ
cached_max none = fallback
cached_max (some (max, _)) = max

unfoldable pub max_for : PlaylistConfig → ℕ → AccountLimits → AccountLimits × ℤ
unfolding refresh
max_for p now l =
    let key = account_key_of p in
    let cached = lookup key l.cache in
    (if is_stale l.ttl now cached then refresh key l else l, cached_max cached)

-- The end of the task for `key`, with what the panel answered.
abbrev store : String → ℕ → Option ℤ → Map (ℤ × ℕ) → Map (ℤ × ℕ)
store key now none cache = cache
store key now (some v) cache = insert key (v, now) cache

abbrev remove_one : String → List String → List String
remove_one k [] = []
remove_one k (j ∷ js) = if str_eq j k then js else j ∷ remove_one k js

unfoldable pub finish_refresh : String → ℕ → Option ℤ → AccountLimits → AccountLimits
finish_refresh key now answer l = record l {
  cache = store key now answer l.cache;
  refreshing = without key l.refreshing;
  in_flight = remove_one key l.in_flight;
}

-- A stream asks for its quota, or a task in flight ends.
pub data Event : Type 0 where
  asks : PlaylistConfig → ℕ → Event
  answers : String → ℕ → Option ℤ → Event

unfoldable pub step : AccountLimits → Event → AccountLimits
unfolding max_for finish_refresh
step l (asks p now) = (max_for p now l).0
step l (answers key now answer) =
    if elem key l.in_flight then finish_refresh key now answer l else l

unfoldable pub run : AccountLimits → List Event → AccountLimits
run l [] = l
run l (e ∷ es) = run (step l e) es

-- The tasks of a key in flight.
abbrev pub tasks_of : String → AccountLimits → ℕ
tasks_of key l = count (λ j. str_eq j key) l.in_flight

abbrev marks_of : String → AccountLimits → ℕ
marks_of key l = count (λ j. str_eq j key) l.refreshing

-- A key has as many tasks in flight as it has marks, and at most one.
abbrev pub Single : AccountLimits → Type 0
Single l = (key : String) → (tasks_of key l ≡ marks_of key l) × (tasks_of key l ≤ 1)

count_of_elem : (k : String) (js : List String) → elem k js ≡ false → count (λ j. str_eq j k) js ≡ 0
count_of_elem k [] h = refl
count_of_elem k (j ∷ js) h = ground (arith, count_of_elem k js)

count-without_self : (k : String) (js : List String) → count (λ j. str_eq j k) (without k js) ≡ 0
count-without_self k [] = refl
count-without_self k (j ∷ js) = ground (arith, count-without_self k js)

count-without_other :
    (k i : String) (js : List String)
    → str_eq k i ≡ false
    → count (λ j. str_eq j i) (without k js) ≡ count (λ j. str_eq j i) js
count-without_other k i [] h = refl
count-without_other k i (j ∷ js) h =
    ground (arith, count-without_other k i js h, str_eq_iff j k, str_eq_iff j i, str_eq_iff k i)

count-remove_one :
    (k i : String) (js : List String)
    → elem k js ≡ true
    → count (λ j. str_eq j i) (remove_one k js) + (if str_eq k i then 1 else 0)
      ≡ count (λ j. str_eq j i) js
count-remove_one k i [] h = cc
count-remove_one k i (j ∷ js) h =
    ground (arith, count-remove_one k i js, str_eq_iff j k, str_eq_iff j i, str_eq_iff k i)

refresh-Single : (key : String) (l : AccountLimits) → Single l → Single (refresh key l)
unfolding refresh
refresh-Single key l s i =
    ground (arith, s i, s key, count_of_elem key l.refreshing, str_eq_iff key i)

step-Single : (l : AccountLimits) (e : Event) → Single l → Single (step l e)
unfolding step
step-Single l (asks p now) s i = ground (arith, s i, refresh-Single (account_key_of p) l s i)
step-Single l (answers key now answer) s i = ground (
  arith,
  s i,
  s key,
  str_eq_iff key i,
  count-without_self key l.refreshing,
  count-without_other key i l.refreshing,
  count-remove_one key i l.in_flight,
)

run-Single : (l : AccountLimits) (es : List Event) → Single l → Single (run l es)
unfolding run
run-Single l [] s = s
run-Single l (e ∷ es) s = run-Single (step l e) es (step-Single l e s)

-- Whatever the streams ask and the panel answers, an account has at most one read in flight.
pub tasks_of-le_one :
    (ttl : ℕ) (es : List Event) (key : String) → tasks_of key (run (new_limits ttl) es) ≤ 1
tasks_of-le_one ttl es key = (run-Single (new_limits ttl) es (λ i. (refl, omega arith)) key).1

-- The quota that a stream of the account gets.
abbrev pub served : String → AccountLimits → ℤ
served key l = cached_max (lookup key l.cache)

-- The quotas that the panel gave for a key.
abbrev pub given : String → List Event → List ℤ
given key [] = []
given key (asks p now ∷ es) = given key es
given key (answers j now none ∷ es) = given key es
given key (answers j now (some v) ∷ es) = if str_eq j key then v ∷ given key es else given key es

-- Asking changes no cached quota.
cache-asks :
    (l : AccountLimits) (p : PlaylistConfig) (now : ℕ) → (step l (asks p now)).cache ≡ l.cache
unfolding step
cache-asks l p now = ground arith

module _ (P : ℤ → Type 0) (key : String) where
  served-finish_refresh :
      (j : String) (now : ℕ) (answer : Option ℤ) (l : AccountLimits) (es : List Event)
      → P (served key l)
      → All P (given key (answers j now answer ∷ es))
      → P (served key (finish_refresh j now answer l)) × All P (given key es)
  unfolding finish_refresh
  served-finish_refresh j now none l es h g = (h, g)
  served-finish_refresh j now (some v) l es h g =
      rw (lookup-insert j key (v, now) l.cache) (go (str_eq j key) g)
    where
      go :
          (b : Bool)
          → All P (if b then v ∷ given key es else given key es)
          → P (cached_max (if b then some (v, now) else lookup key l.cache)) × All P (given key es)
      go true (p, g) = (p, g)
      go false g = (h, g)

  served-answers :
      (j : String) (now : ℕ) (answer : Option ℤ) (l : AccountLimits) (es : List Event)
      → P (served key l)
      → All P (given key (answers j now answer ∷ es))
      → P (served key (step l (answers j now answer))) × All P (given key es)
  unfolding step
  served-answers j now answer l es h g =
      let done = served-finish_refresh j now answer l es h g in
      elim (elem j l.in_flight)
        as (λ b.
          P (served key (if b then finish_refresh j now answer l else l)) × All P (given key es)) [
            | true ↦ done
            | false ↦ (h, done.1)
          ]

  served-run_from :
      (l : AccountLimits) (es : List Event)
      → P (served key l)
      → All P (given key es)
      → P (served key (run l es))
  unfolding run
  served-run_from l [] h g = h
  served-run_from l (asks p now ∷ es) h g =
      served-run_from (step l (asks p now)) es (rw (cache-asks l p now) h) g
  served-run_from l (answers j now answer ∷ es) h g =
      let (h', g') = served-answers j now answer l es h g in
      served-run_from (step l (answers j now answer)) es h' g'

-- The quota is the fallback or a value that the panel gave for this account: what holds of all
-- these holds of it.
pub served-run :
    (P : ℤ → Type 0) (p : PlaylistConfig) (ttl now : ℕ) (es : List Event)
    → P fallback
    → All P (given (account_key_of p) es)
    → P (max_for p now (run (new_limits ttl) es)).1
unfolding max_for lookup
served-run P p ttl now es h g = served-run_from P (account_key_of p) (new_limits ttl) es h g

elem_of_count : (k : String) (js : List String) → 0 < count (λ j. str_eq j k) js → elem k js ≡ true
elem_of_count k [] h = absurd (omega arith)
elem_of_count k (j ∷ js) h = ground (arith, elem_of_count k js)

count_pos_of_elem :
    (k : String) (js : List String) → elem k js ≡ true → 0 < count (λ j. str_eq j k) js
count_pos_of_elem k [] h = cc
count_pos_of_elem k (j ∷ js) h = ground (arith, count_pos_of_elem k js)

refresh_marks : (key : String) (l : AccountLimits) → 0 < marks_of key (refresh key l)
unfolding refresh
refresh_marks key l = ground (arith, str_eq_iff key key, count_pos_of_elem key l.refreshing)

served_fresh :
    (key : String) (now : ℕ) (v : ℤ) (l : AccountLimits)
    → served key (finish_refresh key now (some v) l) ≡ v
unfolding finish_refresh
served_fresh key now v l = rw (lookup-insert_self key (v, now) l.cache)

-- Once the cached quota is stale (or absent), asking for it and the panel's answer to the read
-- that this starts, or that was under way, make the answer the quota of the account.
pub served-answers_asks :
    (p : PlaylistConfig) (ttl now later : ℕ) (v : ℤ) (es : List Event)
    → is_stale
        (run (new_limits ttl) es).ttl
        now
        (lookup (account_key_of p) (run (new_limits ttl) es).cache)
      ≡ true
    → served (account_key_of p) (
        step
          (step (run (new_limits ttl) es) (asks p now))
          (answers (account_key_of p) later (some v)))
      ≡ v
unfolding step
served-answers_asks p ttl now later v es stale =
    let l = run (new_limits ttl) es in
    let key = account_key_of p in
    let single =
      refresh-Single key l (run-Single (new_limits ttl) es (λ i. (refl, omega arith))) key in
    let marked = refresh_marks key l in
    let flying : elem key (refresh key l).in_flight ≡ true =
      elem_of_count key (refresh key l).in_flight (omega arith) in
    rw (stale, flying) (served_fresh key later v (refresh key l))
