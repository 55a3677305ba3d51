-- ===== src/RateLimit/Window.antt =====
-- No address passes more often than the limit within a minute.
use xtremflow.Base.{
  ℕ, ◌+◌, ◌≤◌, ◌<◌, ◌≡◌, refl, sym, ap, ◌∙◌, inl, inr, String, Bool, true, ◌&&◌, Option, none, some,
  List, [], ◌∷◌, ◌++◌, arith, if◌then◌else◌, leb, ltb, length, filter, count, seconds, lookup,
  insert, str_eq, Bool-cases, lookup-insert, Distinct, insert-Distinct, str_eq_iff, subst,
}
use xtremflow.RateLimit.{
  History, pop_old, times_of, times_in, admit, allow, is_recent, is_empty, clean,
}

empty_nil : (xs : List ℕ) → is_empty xs ≡ true → xs ≡ []
empty_nil [] e = refl
empty_nil (x ∷ xs) e = cc

abbrev recent_of : ℕ → Option (List ℕ) → Option (List ℕ)
recent_of now none = none
recent_of now (some times) =
    let kept = filter (is_recent now) times in if is_empty kept then none else some kept

-- Whether an instant lies in the minute that starts at `start`.
abbrev pub within : ℕ → ℕ → Bool
within start t = leb start t && ltb t (start + seconds 60)

count_le_length : (p : ℕ → Bool) (xs : List ℕ) → count p xs ≤ length xs
count_le_length p [] = omega arith
count_le_length p (x ∷ xs) = ground (arith, count_le_length p xs)

count-snoc : (p : ℕ → Bool) (xs : List ℕ) (x : ℕ) → count p (xs ++ x ∷ []) ≡ count p (x ∷ xs)
count-snoc p [] x = refl
count-snoc p (y ∷ ys) x = ground (arith, count-snoc p ys x)

-- What leaves the history is out of every minute that is not over.
count-pop_old :
    (start now : ℕ) (times : List ℕ)
    → now < start + seconds 60
    → count (within start) (pop_old now times) ≡ count (within start) times
unfolding pop_old
count-pop_old start now [] open_still = refl
count-pop_old start now (t ∷ times) open_still =
    ground (arith, count-pop_old start now times open_still)

count-recent :
    (start now : ℕ) (times : List ℕ)
    → now < start + seconds 60
    → count (within start) (filter (is_recent now) times) ≡ count (within start) times
count-recent start now [] open_still = refl
count-recent start now (t ∷ times) open_still =
    ground (arith, count-recent start now times open_still)

-- The log of the requests that passed, the last one first, fits the limit, and the history holds
-- what the minutes that are not over need.
abbrev pub Fits : ℕ → ℕ → List ℕ → List ℕ → Type 0
Fits limit now times log =
    ((start : ℕ) → count (within start) log ≤ limit)
    × ((start : ℕ)
        → now < start + seconds 60
        → count (within start) log ≤ count (within start) times)

abbrev logged : ℕ → Bool → List ℕ → List ℕ
logged now passes log = if passes then now ∷ log else log

module _ (limit : ℕ) where
  admit-Fits :
      (before now : ℕ) (times log : List ℕ)
      → before ≤ now
      → Fits limit before times log
      → let r = admit limit now (pop_old now times) in Fits limit now r.0 (logged now r.1 log)
  admit-Fits before now times log later (total, recent) =
      let kept = pop_old now times in
      elim (Bool-cases (leb limit (length kept))) [
        | inl full ↦ rw full (
          total,
          λ start still. omega (
            arith,
            recent start (omega (arith, still, later)),
            count-pop_old start now times still,
          ),
        )
        | inr room ↦
            let held : (start : ℕ)
                → now < start + seconds 60
                → count (within start) log ≤ count (within start) kept =
              λ start still. omega (
                arith,
                recent start (omega (arith, still, later)),
                count-pop_old start now times still,
              ) in
            rw room (
              λ start. elim (Bool-cases (within start now)) [
                | inr out ↦ rw out (total start)
                | inl within_it ↦
                    let still : now < start + seconds 60 = ground (arith, within_it) in
                    let free : length kept < limit = ground (arith, room) in
                    rw within_it
                      (omega (arith, held start still, count_le_length (within start) kept, free))
              ],
              λ start still.
                  rw (count-snoc (within start) kept now) (ground (arith, held start still)),
            )
      ]

-- A request of an address, or the housekeeping.
pub data Event : Type 0 where
  request : String → ℕ → Event
  cleaning : ℕ → Event

abbrev pub time_of : Event → ℕ
time_of (request ip now) = now
time_of (cleaning now) = now

-- The events do not go back in time.
abbrev pub Ordered : ℕ → List Event → Type 0
Ordered now [] = Unit
Ordered now (e ∷ es) = (now ≤ time_of e) × Ordered (time_of e) es

module _ (limit : ℕ) (ip : String) where
  -- The instants at which requests of `ip` pass, the last one first.
  abbrev pub passes_at : Event → History → List ℕ → List ℕ
  passes_at (request other now) history log =
      if str_eq other ip then logged now (allow limit other now history).1 log else log
  passes_at (cleaning now) history log = log

  abbrev pub step : Event → History → History
  step (request other now) history = (allow limit other now history).0
  step (cleaning now) history = clean now history

  abbrev pub log_of : List Event → History → List ℕ → List ℕ
  log_of [] history log = log
  log_of (e ∷ es) history log = log_of es (step e history) (passes_at e history log)

  abbrev Inv : ℕ → History → List ℕ → Type 0
  Inv now history log = Fits limit now (times_of ip history) log × Distinct history

  lookup-clean :
      (now : ℕ) (key : String) (history : History)
      → Distinct history
      → lookup key (clean now history) ≡ recent_of now (lookup key history)
  unfolding clean lookup
  lookup-clean now key [] d = refl
  lookup-clean now key ((j, times) ∷ history) (new, d) = elim (Bool-cases (str_eq j key)) [
    | inl same ↦
        let absent : lookup key history ≡ none =
          ap (λ k. lookup k history) (sym ((str_eq_iff j key).0 same)) ∙ new in
        ground (arith, same, absent, lookup-clean now key history d)
    | inr other ↦ ground (arith, other, lookup-clean now key history d)
  ]

  recent_of-times :
      (now : ℕ) (o : Option (List ℕ))
      → times_in (recent_of now o) ≡ filter (is_recent now) (times_in o)
  recent_of-times now none = refl
  recent_of-times now (some times) = elim (Bool-cases (is_empty (filter (is_recent now) times))) [
    | inl gone ↦ rw gone (sym (empty_nil _ gone))
    | inr left ↦ rw left refl
  ]

  clean-Distinct : (now : ℕ) (history : History) → Distinct history → Distinct (clean now history)
  unfolding clean
  clean-Distinct now [] d = tt
  clean-Distinct now ((j, times) ∷ history) (new, d) =
      let absent : lookup j (clean now history) ≡ none =
        lookup-clean now j history d ∙ ap (recent_of now) new in
      elim (Bool-cases (is_empty (filter (is_recent now) times))) [
        | inl gone ↦ rw (gone, clean) (clean-Distinct now history d)
        | inr left ↦ rw (left, clean) (absent, clean-Distinct now history d)
      ]

  clean-Fits :
      (before now : ℕ) (times log : List ℕ)
      → before ≤ now
      → Fits limit before times log
      → Fits limit now (filter (is_recent now) times) log
  clean-Fits before now times log later (total, recent) = (
    total,
    λ start still.
        omega
          (arith, recent start (omega (arith, still, later)), count-recent start now times still),
  )

  wait-Fits :
      (before now : ℕ) (times log : List ℕ)
      → before ≤ now
      → Fits limit before times log
      → Fits limit now times log
  wait-Fits before now times log later (total, recent) =
      (total, λ start still. recent start (omega (arith, still, later)))

  step-Inv :
      (before : ℕ) (e : Event) (history : History) (log : List ℕ)
      → before ≤ time_of e
      → Inv before history log
      → Inv (time_of e) (step e history) (passes_at e history log)
  unfolding allow
  step-Inv before (cleaning now) history log later (fits, d) = (
    subst (λ times. Fits limit now times log)
        (sym
          (ap times_in (lookup-clean now ip history d) ∙ recent_of-times now (lookup ip history)))
        (clean-Fits before now (times_of ip history) log later fits),
    clean-Distinct now history d,
  )
  step-Inv before (request other now) history log later (fits, d) =
      let (times, passes) = admit limit now (pop_old now (times_of other history)) in
      let unique = insert-Distinct other times history d in
      elim (Bool-cases (str_eq other ip)) [
        | inl same ↦
            let named : other ≡ ip = (str_eq_iff other ip).0 same in
            let there : times_of other history ≡ times_of ip history =
              ap (λ k. times_of k history) named in
            let found : lookup ip (insert other times history) ≡ some times =
              ground (arith, lookup-insert other ip times history, same) in
            let fits' : Fits limit before (times_of other history) log =
              subst (λ l. Fits limit before l log) (sym there) fits in
            rw same (
              subst (λ l. Fits limit now l (logged now passes log)) (sym (ap times_in found))
                  (admit-Fits limit before now (times_of other history) log later fits'),
              unique,
            )
        | inr differs ↦
            let found : lookup ip (insert other times history) ≡ lookup ip history =
              ground (arith, lookup-insert other ip times history, differs) in
            let kept : times_of ip (insert other times history) ≡ times_of ip history =
              ap times_in found in
            rw differs (
              subst (λ l. Fits limit now l log) (sym kept)
                  (wait-Fits before now (times_of ip history) log later fits),
              unique,
            )
      ]

  run-Fits :
      (before : ℕ) (es : List Event) (history : History) (log : List ℕ)
      → Ordered before es
      → Inv before history log
      → (start : ℕ) → count (within start) (log_of es history log) ≤ limit
  run-Fits before [] history log o ((total, recent), d) start = total start
  run-Fits before (e ∷ es) history log (later, o) inv start =
      run-Fits (time_of e) es (step e history) (passes_at e history log) o
        (step-Inv before e history log later inv) start

-- Whatever addresses ask and however the history is cleaned up, no more requests of an address
-- pass within any minute than the limit.
pub log_of-within :
    (limit : ℕ) (ip : String) (es : List Event) (start : ℕ)
    → Ordered 0 es
    → count (within start) (log_of limit ip es [] []) ≤ limit
log_of-within limit ip es start o =
    run-Fits limit ip 0 es [] [] o ((λ s. omega arith, λ s still. omega arith), tt) start
