-- ===== src/Nba/Broadcast.antt =====
-- What the broadcast found for a game is, and that none better was left.
use xtremflow.Base.{
  ℕ, ◌+◌, ◌-◌, ◌≤◌, ◌<◌, ◌≡◌, refl, ◌⊎◌, inl, inr, String, Bool, true, false, not, none, some, List,
  [], ◌∷◌, arith, if◌then◌else◌, any, elem, All, All-map, Bool-cases, Option-cases, some-ne-none,
  some-value, minutes, sym, subst, ◌∙◌,
}
use xtremflow.Nba.{
  EpgProgramme, Reading, LiveBroadcast, text, wanted_teams, in_window, gap, rate, at_least, best,
  rate_all, find_live_broadcast,
}

-- The programme is in the guide, starts around the tip-off, is no rerun and names no other team;
-- the confidence reaches the threshold.
pub record Sound (rd : Reading) (wanted : List String) (tipoff : ℕ) (b : LiveBroadcast)
    : Type 0 where
  pub early : tipoff - minutes 45 ≤ b.programme.start
  pub late : b.programme.start ≤ tipoff + minutes 20
  pub lasts : b.programme.start < b.programme.end_at
  pub first_run : b.programme.previously_shown ≡ false
  pub no_rerun : rd.says_rerun (text b.programme) ≡ false
  pub own_teams : any (λ t. not (elem t wanted)) (rd.extract_teams (text b.programme)) ≡ false
  pub sure : 40 ≤ b.confidence

rate-Sound :
    (rd : Reading) (wanted : List String) (tipoff : ℕ) (nearby : Bool) (p : EpgProgramme)
    (b : LiveBroadcast)
    → in_window tipoff p ≡ true
    → rate rd wanted tipoff nearby p ≡ some b
    → Sound rd wanted tipoff b
unfolding rate
rate-Sound rd wanted tipoff nearby p b inside e = record {
  early = ground arith;
  late = ground arith;
  lasts = ground arith;
  first_run = ground arith;
  no_rerun = ground arith;
  own_teams = ground arith;
  sure = ground arith;
}

rate_all-Sound :
    (rd : Reading) (wanted : List String) (tipoff : ℕ) (nearby : Bool) (ps : List EpgProgramme)
    → All (Sound rd wanted tipoff) (rate_all rd wanted tipoff nearby ps)
unfolding rate_all
rate_all-Sound rd wanted tipoff nearby [] = tt
rate_all-Sound rd wanted tipoff nearby (p ∷ ps) =
    let rest = rate_all-Sound rd wanted tipoff nearby ps in
    elim (Bool-cases (in_window tipoff p)) [
      | inr outside ↦ rw (outside, rate_all) rest
      | inl inside ↦ elim (Option-cases (rate rd wanted tipoff nearby p)) [
        | inl refused ↦ rw (inside, refused, rate_all) rest
        | inr (b, rated) ↦
            rw (inside, rated, rate_all) (rate-Sound rd wanted tipoff nearby p b inside rated, rest)
      ]
    ]

-- `b` comes at or after `a` in the order of the choice.
abbrev pub AtLeast : ℕ → LiveBroadcast → LiveBroadcast → Type 0
AtLeast tipoff b a =
    (a.confidence < b.confidence)
    ⊎ ((a.confidence ≡ b.confidence) × (gap tipoff b.programme ≤ gap tipoff a.programme))

module _ {κ} (P : LiveBroadcast → Type κ) (tipoff : ℕ) where
  best_holds :
      (a : LiveBroadcast) (bs : List LiveBroadcast) (c : LiveBroadcast)
      → P a
      → All P bs
      → best tipoff (some a) bs ≡ some c
      → P c
  unfolding best
  best_holds a [] c pa ps e = subst P (some-value e) pa
  best_holds a (b ∷ bs) c pa (pb, ps) e =
      best_holds (if at_least tipoff b a then b else a) bs c
        (elim (at_least tipoff b a) as (λ t. P (if t then b else a)) [ true ↦ pb | false ↦ pa ]) ps
        e

  pub best_of :
      (bs : List LiveBroadcast) (c : LiveBroadcast) → All P bs → best tipoff none bs ≡ some c → P c
  unfolding best
  best_of [] c ps e = absurd (some-ne-none (sym e))
  best_of (b ∷ bs) c (pb, ps) e = best_holds b bs c pb ps e

best_greatest :
    (tipoff : ℕ) (a : LiveBroadcast) (bs : List LiveBroadcast)
    → (c : LiveBroadcast) × (best tipoff (some a) bs ≡ some c)
      × AtLeast tipoff c a
      × All (AtLeast tipoff c) bs
unfolding best
best_greatest tipoff a [] = (a, refl, inr (refl, omega arith), tt)
best_greatest tipoff a (b ∷ bs) =
    let next = if at_least tipoff b a then b else a in
    let (c, e, top, rest) = best_greatest tipoff next bs in
    let over_a : AtLeast tipoff c a = ground arith in
    let over_b : AtLeast tipoff c b = ground arith in (c, e, over_a, (over_b, rest))

best-All :
    (tipoff : ℕ) (bs : List LiveBroadcast)
    → All (λ a. (c : LiveBroadcast) × (best tipoff none bs ≡ some c) × AtLeast tipoff c a) bs
unfolding best
best-All tipoff [] = tt
best-All tipoff (b ∷ bs) =
    let (c, e, top, rest) = best_greatest tipoff b bs in
    ((c, e, top), All-map (AtLeast tipoff c) _ (λ a h. (c, e, h)) bs rest)

clash : {b : Bool} → b ≡ false → b ≡ true → ⊥
clash e f = cc

-- The broadcast found starts from 45 minutes before the tip-off to 20 after, is not a rerun, names
-- no team of another game, and is sure enough to be recorded.
pub find_live_broadcast-Sound :
    (rd : Reading) (home away : String) (tipoff : ℕ) (nearby : Bool) (ps : List EpgProgramme)
    (b : LiveBroadcast)
    → find_live_broadcast rd home away tipoff nearby ps ≡ some b
    → Sound rd (wanted_teams rd home away) tipoff b
unfolding find_live_broadcast
find_live_broadcast-Sound rd home away tipoff nearby ps b e =
    let wanted = wanted_teams rd home away in
    best_of (Sound rd wanted tipoff) tipoff (rate_all rd wanted tipoff nearby ps) b
      (rate_all-Sound rd wanted tipoff nearby ps) e

module _ {κ} (rd : Reading) (wanted : List String) (tipoff : ℕ) (nearby : Bool)
    (Q : LiveBroadcast → Type κ) where
  All-rated :
      (ps : List EpgProgramme)
      → All Q (rate_all rd wanted tipoff nearby ps)
      → All
          (λ p.
            (a : LiveBroadcast)
            → in_window tipoff p ≡ true
            → rate rd wanted tipoff nearby p ≡ some a
            → Q a)
          ps
  unfolding rate_all
  All-rated [] qs = tt
  All-rated (p ∷ ps) qs = elim (Bool-cases (in_window tipoff p)) [
    | inr outside ↦
        (λ a inside e. absurd (clash outside inside), All-rated ps (rw (outside, rate_all) at qs))
    | inl inside ↦ elim (Option-cases (rate rd wanted tipoff nearby p)) [
      | inl refused ↦ (
        λ a h e. absurd (some-ne-none (sym e ∙ refused)),
        All-rated ps (rw (inside, refused, rate_all) at qs),
      )
      | inr (b, rated) ↦
          let both : Q b × All Q (rate_all rd wanted tipoff nearby ps) =
            rw (inside, rated, rate_all) at qs in
          (λ a h e. subst Q (some-value (sym rated ∙ e)) both.0, All-rated ps both.1)
    ]
  ]

-- Each programme of the guide that would be a live broadcast of the game is no better than the one
-- found, and there is one found.
pub find_live_broadcast_greatest :
    (rd : Reading) (home away : String) (tipoff : ℕ) (nearby : Bool) (ps : List EpgProgramme)
    → All
        (λ p.
          (a : LiveBroadcast)
          → in_window tipoff p ≡ true
          → rate rd (wanted_teams rd home away) tipoff nearby p ≡ some a
          → (c : LiveBroadcast) × (find_live_broadcast rd home away tipoff nearby ps ≡ some c)
            × AtLeast tipoff c a)
        ps
unfolding find_live_broadcast
find_live_broadcast_greatest rd home away tipoff nearby ps =
    let wanted = wanted_teams rd home away in
    All-rated rd wanted tipoff nearby _ ps (best-All tipoff (rate_all rd wanted tipoff nearby ps))
