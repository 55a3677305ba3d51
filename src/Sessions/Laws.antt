-- ===== src/Sessions/Laws.antt =====
-- What the operations on the sessions do to each of them.
use xtremflow.Base.{
  ℕ, zero, suc, ◌≤◌, ◌*◌, ℤ, ◌+◌, ◌-◌, Option, ◌<◌, ◌≡◌, ◌⊎◌, ◌↔◌, seconds, some-ne-none, refl, sym,
  ◌∙◌, inl, inr, ◌≢◌, String, Bool, true, false, ◌&&◌, none, some, List, [], ◌∷◌, ltb, leb, arith,
  if◌then◌else◌, str_eq, str_eq_iff, Bool-cases, Option-cases, is_some, filter, any, elem, lookup,
  remove, keys, values, Distinct, All, All-filter_test, All-lookup, All-lookup_self, lookup-insert,
  lookup-insert_self, lookup-remove, lookup-remove_self, lookup-filter, elem-keys, some-value,
}
use xtremflow.Sessions.{
  FfmpegSession, Sessions, Clock, touched, needs_start_for, needs_start, new_session, get_or_start,
  ready, pending, look, segments_of, is_playable, exited, ended_well, Polling, Wait, died,
  timed_out, poll_period, wait_loop, wait_for_playlist, kill_session, kill_listed, is_stale,
  kill_idle_siblings, kill_all, is_stalled, is_reaped, reap_listed, reap,
}

-- The session handed out is the one that the table then holds, and none on an error; it needs no
-- further start; a session that needed none is the old one, and one that did is new. No other
-- identifier is affected.
pub get_or_start-lookup :
    (id : String) (is_live : Bool) (clock : Clock) (can_spawn : Bool) (m : Sessions)
    → let r = get_or_start id is_live clock can_spawn m in
      (r.1 ≡ lookup id r.0)
      × (is_some r.1 ≡ true → needs_start id is_live r.0 ≡ false)
      × (needs_start id is_live m ≡ true
          → r.1 ≡ (if can_spawn then some (new_session id is_live clock) else none))
      × ((s : FfmpegSession)
          → lookup id m ≡ some s
          → needs_start id is_live m ≡ false
          → r.1 ≡ some (touched clock.ms s))
      × ((j : String) → str_eq id j ≡ false → lookup j r.0 ≡ lookup j m)
unfolding get_or_start needs_start needs_start_for
get_or_start-lookup id is_live clock can_spawn m =
    let fresh = new_session id is_live clock in
    let n1 = lookup-insert_self id fresh m in
    let n2 = lookup-insert_self id fresh (remove id m) in
    let gone = lookup-remove_self id m in
    elim (Option-cases (lookup id m)) [
      | inl absent ↦ (
        ground (arith, n1),
        ground (arith, n1),
        λ starts. ground arith,
        λ s' found' idle. ground arith,
        λ j ne. ground (arith, lookup-insert id j fresh m),
      )
      | inr (s, found) ↦ (
        ground (arith, n2, gone, lookup-insert_self id (touched clock.ms s) m),
        ground (arith, n2, gone, lookup-insert_self id (touched clock.ms s) m),
        λ starts. ground arith,
        λ s' found' idle. ground arith,
        λ j ne. ground (
          arith,
          lookup-insert id j fresh (remove id m),
          lookup-remove id j m,
          lookup-insert id j (touched clock.ms s) m,
        ),
      )
    ]

lookup-kill_listed :
    (j : String) (ids : List String) (m : Sessions)
    → lookup j (kill_listed ids m) ≡ (if elem j ids then none else lookup j m)
unfolding kill_listed kill_session
lookup-kill_listed j [] m = refl
lookup-kill_listed j (id ∷ ids) m =
    ground (arith, lookup-kill_listed j ids (remove id m), lookup-remove id j m)

-- After `kill_all` no session is left.
pub kill_all-none : (j : String) (m : Sessions) → lookup j (kill_all m) ≡ none
unfolding kill_all
kill_all-none j m = ground (arith, lookup-kill_listed j (keys m) m, elem-keys j m)

clash : {b : Bool} → b ≡ false → b ≡ true → ⊥
clash e f = cc

-- Exactly the stale sisters go: those of the content, other than the one kept, that nobody has
-- used for 30 s.
pub lookup-kill_idle_siblings :
    (starts_with : String → String → Bool) (prefix keep : String) (now_ms : ℕ) (m : Sessions)
    (id : String) (s : FfmpegSession)
    → Distinct m
    → lookup id m ≡ some s
    → lookup id (kill_idle_siblings starts_with prefix keep now_ms m)
      ≡ (if is_stale starts_with prefix keep now_ms (id, s) then none else some s)
unfolding kill_idle_siblings
lookup-kill_idle_siblings starts_with prefix keep now_ms m id s d found =
    let p = is_stale starts_with prefix keep now_ms in
    let cut = lookup-kill_listed id (keys (filter p m)) m in
    elim (Bool-cases (p (id, s))) [
      | inl stale ↦
          rw stale (cut ∙ rw (elem-keys id (filter p m), lookup-filter p id s m found stale))
      | inr used ↦ rw used (cut ∙ rw (elem-keys id (filter p m), spared p used) found)
    ]
  where
    spared : (p : String × FfmpegSession → Bool) → p (id, s) ≡ false → lookup id (filter p m) ≡ none
    spared p used = elim (Option-cases (lookup id (filter p m))) [
      | inl gone ↦ gone
      | inr (t, left) ↦
          let kept : (lookup id m ≡ some t) × (p (id, t) ≡ true) =
            All-lookup (λ e. (lookup e.0 m ≡ some e.1) × (p e ≡ true)) id (filter p m)
              (All-filter_test (λ e. lookup e.0 m ≡ some e.1) p m (All-lookup_self m d)) left in
          let same : t ≡ s = some-value (sym kept.0 ∙ found) in
          absurd (clash used (rw same at kept.1))
    ]

-- A session stands under its own identifier.
abbrev pub Keyed : String × FfmpegSession → Type 0
Keyed e = e.1.id ≡ e.0

lookup-reap_listed :
    (clock : Clock) (id : String) (ss : List FfmpegSession) (m : Sessions)
    → lookup id (reap_listed clock ss m) ≡ (
        if any (λ (t : FfmpegSession). str_eq t.id id && is_reaped clock t) ss
        then none
        else lookup id m)
unfolding reap_listed kill_session
lookup-reap_listed clock id [] m = refl
lookup-reap_listed clock id (s ∷ ss) m = ground (
  arith,
  lookup-reap_listed clock id ss m,
  lookup-reap_listed clock id ss (remove s.id m),
  lookup-remove s.id id m,
)

reaped_absent :
    (clock : Clock) (id : String) (m : Sessions)
    → All Keyed m
    → lookup id m ≡ none
    → any (λ (t : FfmpegSession). str_eq t.id id && is_reaped clock t) (values m) ≡ false
unfolding lookup
reaped_absent clock id [] k e = refl
reaped_absent clock id ((j, t) ∷ m) (q, k) e = ground (arith, reaped_absent clock id m k)

reaped_present :
    (clock : Clock) (id : String) (s : FfmpegSession) (m : Sessions)
    → All Keyed m
    → Distinct m
    → lookup id m ≡ some s
    → any (λ (t : FfmpegSession). str_eq t.id id && is_reaped clock t) (values m)
      ≡ is_reaped clock s
unfolding lookup
reaped_present clock id s [] k d e = cc
reaped_present clock id s ((j, t) ∷ m) (q, k) (n, d) e = elim (Bool-cases (str_eq j id)) [
  | inl same ↦
      let key : j ≡ id = (str_eq_iff j id).0 same in
      let here : t ≡ s = some-value (rw same at e) in
      let rest = reaped_absent clock id m k (rw key at n) in
      let own : str_eq t.id id ≡ true = rw (q) same in rw (own, rest, here) (ground arith)
  | inr other ↦
      let rest = reaped_present clock id s m k d (rw other at e) in
      let own : str_eq t.id id ≡ false = rw (q) other in rw (own, rest)
]

-- Nobody has used the session for four minutes, or for fifteen where it is not live.
abbrev pub Idle : Clock → FfmpegSession → Type 0
Idle clock s =
    ((s.is_live ≡ true) × (s.last_access_ms + 240_000 < clock.ms))
    ⊎ ((s.is_live ≡ false) × (s.last_access_ms + 900_000 < clock.ms))

-- A live encoder runs, and 45 s have gone by since it last wrote its playlist, or since its start
-- where it has written none.
abbrev pub Stalled : Clock → FfmpegSession → Type 0
Stalled clock s =
    (s.is_live ≡ true)
    × (s.exit ≡ none)
    × (((s.playlist ≡ none) × (s.started_at + seconds 45 < clock.instant))
        ⊎ ((n : ℕ) × (closed : Bool) × (modified : ℕ) × (s.playlist ≡ some (n, closed, modified))
            × (modified + seconds 45 < clock.system)))

overdue :
    (clock : Clock) (s : FfmpegSession) → is_reaped clock s ≡ true → Idle clock s ⊎ Stalled clock s
unfolding is_stalled
overdue clock s h = elim (Bool-cases s.is_live) [
  | inr film ↦ inl (inr (film, ground (arith, h, film)))
  | inl live ↦ elim (Bool-cases (ltb 240_000 (clock.ms - s.last_access_ms))) [
    | inl late ↦ inl (inl (live, ground (arith, late)))
    | inr used ↦
        let runs : s.exit ≡ none = ground (arith, h, live, used) in
        elim (Option-cases s.playlist) [
          | inl bare ↦ inr (live, runs, inl (bare, ground (arith, h, live, used, runs, bare)))
          | inr ((n, closed, modified), written) ↦ inr (
            live,
            runs,
            inr (n, closed, modified, written, ground (arith, h, live, used, runs, written)),
          )
        ]
  ]
]

is_reaped-Idle : (clock : Clock) (s : FfmpegSession) → Idle clock s → is_reaped clock s ≡ true
is_reaped-Idle clock s (inl (live, late)) = ground (arith, live, late)
is_reaped-Idle clock s (inr (film, late)) = ground (arith, film, late)

is_reaped-Stalled : (clock : Clock) (s : FfmpegSession) → Stalled clock s → is_reaped clock s ≡ true
unfolding is_stalled
is_reaped-Stalled clock s (live, runs, inl (bare, late)) = ground (arith, live, runs, bare, late)
is_reaped-Stalled clock s (live, runs, inr (n, closed, modified, written, late)) =
    ground (arith, live, runs, written, late)

lookup-reap_test :
    (clock : Clock) (m : Sessions) (id : String) (s : FfmpegSession)
    → All Keyed m
    → Distinct m
    → lookup id m ≡ some s
    → lookup id (reap clock m) ≡ (if is_reaped clock s then none else some s)
unfolding reap
lookup-reap_test clock m id s k d found =
    lookup-reap_listed clock id (values m) m ∙ rw (reaped_present clock id s m k d found, found)

-- A round of `reap` takes out a session of the table, under whose identifier it stands, exactly
-- where it is idle for longer than its limit or is a live one that runs without writing for 45 s;
-- every other session stays as it is.
pub lookup-reap :
    (clock : Clock) (m : Sessions) (id : String) (s : FfmpegSession)
    → All Keyed m
    → Distinct m
    → lookup id m ≡ some s
    → ((lookup id (reap clock m) ≡ none) ↔ (Idle clock s ⊎ Stalled clock s))
      × ((lookup id (reap clock m) ≡ none) ⊎ (lookup id (reap clock m) ≡ some s))
lookup-reap clock m id s k d found =
    let left = lookup-reap_test clock m id s k d found in
    elim (Bool-cases (is_reaped clock s)) [
      | inl old ↦
          let gone : lookup id (reap clock m) ≡ none = left ∙ rw old refl in
          ((λ _. overdue clock s old, λ _. gone), inl gone)
      | inr young ↦
          let stays : lookup id (reap clock m) ≡ some s = left ∙ rw young refl in
          (
            (
              λ gone. absurd (some-ne-none (sym stays ∙ gone)),
              λ due. absurd (clash young (reaped due)),
            ),
            inr stays,
          )
    ]
  where
    reaped : Idle clock s ⊎ Stalled clock s → is_reaped clock s ≡ true
    reaped (inl idle) = is_reaped-Idle clock s idle
    reaped (inr stalled) = is_reaped-Stalled clock s stalled

-- What a wait that has come to its end says of what was seen from `from` on.
abbrev pub Verdict : ℕ → ℕ → ℕ → Polling → Wait → Type 0
Verdict min_segments deadline from p w =
    (w ≢ pending)
    × (w ≡ ready
        → (at : ℕ) × (from ≤ at)
          × ((min_segments ≤ segments_of (p.seen at).playlist)
              ⊎ (0 < segments_of (p.seen at).playlist)))
    × (w ≡ timed_out → (at : ℕ) × (deadline ≤ at) × (segments_of (p.seen at).playlist ≡ 0))

playable :
    (n : ℕ) (playlist : Option (ℕ × Bool × ℕ))
    → is_playable n playlist ≡ true
    → (n ≤ segments_of playlist) ⊎ (0 < segments_of playlist)
playable n none shown = absurd (clash refl shown)
playable n (some (k, closed, modified)) shown = elim (Bool-cases (leb n k)) [
  | inl enough ↦ inl (ground (arith, enough))
  | inr few ↦ inr (ground (arith, shown, few))
]

look-cases :
    (n : ℕ) (s : FfmpegSession)
    → (look n s ≡ pending)
      ⊎ (((look n s ≡ ready) × ((n ≤ segments_of s.playlist) ⊎ (0 < segments_of s.playlist)))
          ⊎ ((code : Option ℤ) × (look n s ≡ died code)))
unfolding look
look-cases n s = elim (Bool-cases (is_playable n s.playlist)) [
  | inl shown ↦ inr (inl (ground (arith, shown), playable n s.playlist shown))
  | inr not_yet ↦ elim (Bool-cases (exited s)) [
    | inr runs ↦ inl (ground (arith, not_yet, runs))
    | inl over ↦ elim (Bool-cases (ended_well s.exit && ltb 0 (segments_of s.playlist))) [
      | inl short ↦ inr (inl (ground (arith, not_yet, over, short), inr (ground (arith, short))))
      | inr lost ↦ inr (inr (s.exit, ground (arith, not_yet, over, lost)))
    ]
  ]
]

later-Verdict :
    (n deadline from from' : ℕ) (p : Polling) (w : Wait)
    → from ≤ from'
    → Verdict n deadline from' p w
    → Verdict n deadline from p w
later-Verdict n deadline from from' p w le (ends, seen, late) =
    (ends, λ r. let (at, after, segments) = seen r in (at, omega arith, segments), late)

-- One round, where the rounds after it come to a verdict.
one_round :
    (rounds n : ℕ) (p : Polling) (deadline at : ℕ)
    → (at < deadline
        → Verdict n deadline
            (at + poll_period + p.overrun at)
            p
            (wait_loop rounds n p deadline (at + poll_period + p.overrun at)))
    → Verdict n deadline at p (wait_loop (suc rounds) n p deadline at)
unfolding wait_loop
one_round rounds n p deadline at later = elim (Bool-cases (ltb at deadline)) [
  | inr late ↦ elim (Bool-cases (ltb 0 (segments_of (p.seen at).playlist))) [
    | inl some_shown ↦
        let w : wait_loop (suc rounds) n p deadline at ≡ ready =
          rw (late, wait_loop) (ground (arith, some_shown)) in
        rw w (
          λ e. ground (arith, e),
          λ _. (at, omega arith, inr (ground (arith, some_shown))),
          λ e. ground (arith, e),
        )
    | inr bare ↦
        let w : wait_loop (suc rounds) n p deadline at ≡ timed_out =
          rw (late, wait_loop) (ground (arith, bare)) in
        rw w (
          λ e. ground (arith, e),
          λ e. ground (arith, e),
          λ _. (at, ground (arith, late), ground (arith, bare)),
        )
  ]
  | inl early ↦ elim (look-cases n (p.seen at)) [
    | inr (inl (shown, segments)) ↦
        let w : wait_loop (suc rounds) n p deadline at ≡ ready =
          rw (early, shown, wait_loop) refl in
        rw w (λ e. ground (arith, e), λ _. (at, omega arith, segments), λ e. ground (arith, e))
    | inr (inr (code, gone)) ↦
        let w : wait_loop (suc rounds) n p deadline at ≡ died code =
          rw (early, gone, wait_loop) refl in
        rw w (λ e. ground (arith, e), λ e. ground (arith, e), λ e. ground (arith, e))
    | inl again ↦
        let next = at + poll_period + p.overrun at in
        let w : wait_loop (suc rounds) n p deadline at ≡ wait_loop rounds n p deadline next =
          rw (early, again, wait_loop) refl in
        rw w (later-Verdict n deadline at next p _ (omega arith) (later (ground (arith, early))))
  ]
]

wait_loop-Verdict :
    (rounds n : ℕ) (p : Polling) (deadline at : ℕ)
    → deadline ≤ at + poll_period * rounds
    → Verdict n deadline at p (wait_loop (suc rounds) n p deadline at)
wait_loop-Verdict zero n p deadline at enough =
    one_round zero n p deadline at (λ early. absurd (over early enough))
  where
    over : at < deadline → deadline ≤ at + poll_period * 0 → ⊥
    over early enough = omega arith
wait_loop-Verdict (suc rounds) n p deadline at enough =
    one_round (suc rounds) n p deadline at (λ early.
      wait_loop-Verdict rounds n p deadline (at + poll_period + p.overrun at) (omega arith))

-- A wait comes to its end within 301 rounds, however long they take: it is ready only where a look
-- from its start on showed the segments asked for, or at least one; and out of time only where a
-- look after the 30 s showed none.
pub wait_for_playlist-Verdict :
    (min_segments : ℕ) (p : Polling) (at : ℕ)
    → Verdict min_segments (at + seconds 30) at p (wait_for_playlist min_segments p at)
unfolding wait_for_playlist
wait_for_playlist-Verdict n p at = wait_loop-Verdict 300 n p (at + seconds 30) at (omega arith)
