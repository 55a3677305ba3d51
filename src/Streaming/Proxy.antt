-- ===== src/Streaming/Proxy.antt =====
-- The raw proxy of a live stream with its reconnections (api/streaming.rs, `direct_proxy`). What an
-- upstream connection delivers, and what each opening is answered, come as values.
use xtremflow.Base.{
  ℕ, zero, suc, ◌+◌, ◌-◌, ◌*◌, ◌≤◌, ◌≡◌, refl, inl, inr, String, Bool, true, false, not, ◌&&◌,
  Option, none, some, List, [], ◌∷◌, ◌++◌, arith, if◌then◌else◌, ltb, ◌==◌, length, seconds,
  Bool-cases,
}
use xtremflow.Accounts.{User, UserRow, Store}
use xtremflow.Accounts.Selection.{Choice, get_playlist, config_of}
use xtremflow.Streaming.{Streaming, claim_upstream}
use xtremflow.Streaming.Names.{join}

abbrev pub live_proxy_max_retries : ℕ
live_proxy_max_retries = 4

-- A connection to the provider until its end or its break: what it delivers, how long it lasts,
-- and the status of the k-th opening that follows it, none where the provider is out of reach.
pub record Upstream : Type 0 where
  pub chunks : List (List ℕ)
  pub lasted : ℕ
  pub opened : ℕ → Option ℕ

abbrev pub is_ok : Option ℕ → Bool
is_ok none = false
is_ok (some status) = status == 200

-- The openings tried until one succeeds or the retries are used up: how many have been used, and
-- whether the last one succeeded. Each opening uses one retry, so `live_proxy_max_retries` rounds
-- are enough.
unfoldable pub reopen : ℕ → (ℕ → Option ℕ) → ℕ → ℕ × Bool
reopen zero opened attempt = (attempt, false)
reopen (suc rounds) opened attempt =
    let later = reopen rounds opened (suc attempt) in
    if not (ltb attempt live_proxy_max_retries)
    then (attempt, false)
    else if is_ok (opened (suc attempt))
    then (suc attempt, true)
    else later

abbrev pub concat : List (List ℕ) → List ℕ
concat [] = []
concat (c ∷ cs) = c ++ concat cs

abbrev pub was_healthy : Upstream → Bool
was_healthy u = ltb (seconds 60) u.lasted && ltb 0 (length (concat u.chunks))

-- What the client is given, how many openings were made, and whether the source was given up.
pub record Relayed : Type 0 where
  pub body : List ℕ
  pub openings : ℕ
  pub gave_up : Bool

abbrev pub prepend : List ℕ → ℕ → Relayed → Relayed
prepend chunk openings r = record {
  body = chunk ++ r.body;
  openings = openings + r.openings;
  gave_up = r.gave_up;
}

-- The connections in their order; the last one is open when the client leaves.
abbrev pub given_up : Relayed
given_up = record { body = []; openings = 0; gave_up = true }

unfoldable pub relay : List Upstream → ℕ → Relayed
relay [] attempt = record { body = []; openings = 0; gave_up = false }
relay (u ∷ more) attempt =
    let kept = if was_healthy u then 0 else attempt in
    let (used, found) = reopen live_proxy_max_retries u.opened kept in
    let rest = relay more used in
    prepend (concat u.chunks) (used - kept) (if found then rest else given_up)

-- What the first opening decides of the response.
pub data Response : Type 0 where
  no_playlist unreachable : Response
  upstream_refused : ℕ → Response
  streams : Relayed → Response

-- `trim` and `by_name` are those of the choice of a playlist; `first` is the answer to the first
-- opening.
unfoldable pub direct_proxy :
    (String → String)
    → (List UserRow → List UserRow)
    → Store
    → Option User
    → Choice
    → String
    → ℕ
    → Option ℕ
    → List Upstream
    → Streaming
    → Streaming × Response
unfolding relay
direct_proxy trim by_name store user choice id now first us st =
    elim (get_playlist trim by_name user choice store) [
      | none ↦ (st, no_playlist)
      | some p ↦ (
        claim_upstream (config_of p) (join ("direct_" ∷ id ∷ [])) now st,
        elim first [
          | none ↦ unreachable
          | some status ↦
              if not (status == 200) then upstream_refused status else streams (relay us 0)
        ],
      )
    ]

clash : true ≡ false → ⊥
clash e = cc

-- Enough rounds: without success, the retries are used up; the count only grows, up to the limit.
reopen_spent :
    (rounds : ℕ) (opened : ℕ → Option ℕ) (attempt : ℕ)
    → attempt ≤ live_proxy_max_retries
    → live_proxy_max_retries ≤ rounds + attempt
    → let r = reopen rounds opened attempt in
      (attempt ≤ r.0)
      × (r.0 ≤ live_proxy_max_retries)
      × (r.1 ≡ false → r.0 ≡ live_proxy_max_retries)
unfolding reopen
reopen_spent zero opened attempt below enough =
    (omega (arith, below), omega (arith, below), λ e. omega (arith, below, enough))
reopen_spent (suc rounds) opened attempt below enough =
    elim (Bool-cases (ltb attempt live_proxy_max_retries)) [
      | inr spent ↦
          let at : attempt ≡ live_proxy_max_retries = ground arith in
          rw (spent, reopen) (omega arith, omega (arith, below), λ e. at)
      | inl left ↦
          let more : suc attempt ≤ live_proxy_max_retries = ground arith in
          elim (Bool-cases (is_ok (opened (suc attempt)))) [
            | inl good ↦ rw (left, good, reopen) (omega arith, more, λ e. absurd (clash e))
            | inr bad ↦
                let (low, high, all) =
                  reopen_spent rounds opened (suc attempt) more (omega (arith, enough)) in
                rw (left, bad, reopen) (omega (arith, low), high, all)
          ]
    ]

-- The turns that were healthy.
abbrev pub healthy_turns : List Upstream → ℕ
healthy_turns [] = 0
healthy_turns (u ∷ us) = (if was_healthy u then 1 else 0) + healthy_turns us

-- The openings of one turn and of the later ones.
reopened_bound :
    (kept used : ℕ) (found : Bool) (rest : Relayed) (n : ℕ)
    → (found ≡ false → used ≡ live_proxy_max_retries)
    → kept ≤ used
    → rest.openings + used ≤ live_proxy_max_retries * suc n
    → (used - kept) + (if found then rest else given_up).openings + kept
      ≤ live_proxy_max_retries * suc n
reopened_bound kept used true rest n all low later = omega (arith, later, low)
reopened_bound kept used false rest n all low later = omega (arith, all refl, low)

relay_bound :
    (us : List Upstream) (attempt : ℕ)
    → attempt ≤ live_proxy_max_retries
    → (relay us attempt).openings + attempt ≤ live_proxy_max_retries * suc (healthy_turns us)
unfolding relay
relay_bound [] attempt below = omega (arith, below)
relay_bound (u ∷ us) attempt below = elim (Bool-cases (was_healthy u)) [
  | inl healthy ↦
      let (low, high, all) =
        reopen_spent live_proxy_max_retries u.opened 0 (omega arith) (omega arith) in
      let (used, found) = reopen live_proxy_max_retries u.opened 0 in
      let later = relay_bound us used high in
      let step = reopened_bound 0 used found (relay us used) (healthy_turns us) all low later in
      rw (healthy, relay) (omega (arith, step, below))
  | inr failing ↦
      let (low, high, all) =
        reopen_spent live_proxy_max_retries u.opened attempt below (omega arith) in
      let (used, found) = reopen live_proxy_max_retries u.opened attempt in
      let later = relay_bound us used high in
      let step =
        reopened_bound attempt used found (relay us used) (healthy_turns us) all low later in
      rw (failing, relay) (omega (arith, step))
]

-- The provider is asked again at most four times for each connection that was healthy, and four
-- times more: a source that stays down does not keep the loop going.
pub relay-openings :
    (us : List Upstream) → (relay us 0).openings ≤ live_proxy_max_retries * suc (healthy_turns us)
relay-openings us = omega (arith, relay_bound us 0 (omega arith))
