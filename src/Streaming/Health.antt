-- ===== src/Streaming/Health.antt =====
-- The fallback from the GPU to the processor, over the runs of all routes.
use xtremflow.Base.{
  ℕ, ◌+◌, ◌<◌, ◌≡◌, refl, sym, ap, ◌∙◌, ◌⊎◌, inl, inr, String, Bool, true, false, ◌&&◌, Option,
  none, some, List, [], ◌∷◌, arith, if◌then◌else◌, All, ℤ, ◌++◌, All-append, append_assoc,
}
use xtremflow.Slots.Limits.{PlaylistConfig}
use xtremflow.Sessions.{needs_start, get_or_start, FfmpegSession}
use xtremflow.Streaming.{
  Streaming, Answers, Attempt, run_session, run_with_gpu_fallback, run_on, available_at, breaks,
  claim_for, claim_if, attempt_from, launch, register_for, claim_upstream, register_upstream,
  mark_failed_at, kill_in, started_world,
}

-- One request for a stream, with what its two runs are answered.
pub record Play : Type 0 where
  pub id : String
  pub is_live : Bool
  pub want_gpu : Bool
  pub build_args : Bool → List String
  pub min_segments : ℕ
  pub upstream : Option PlaylistConfig
  pub first : Answers
  pub again : Answers

-- What a run leaves of the commands and of the health of the GPU.
abbrev Same : Streaming → Streaming → Type 0
Same st st' =
    (st'.launched ≡ st.launched)
    × (st'.unavailable_until ≡ st.unavailable_until)
    × (st'.cooldown ≡ st.cooldown)

claim_for-Same :
    (u : Option PlaylistConfig) (id : String) (now : ℕ) (st : Streaming)
    → Same st (claim_for u id now st)
unfolding claim_upstream
claim_for-Same none id now st = (refl, refl, refl)
claim_for-Same (some p) id now st = (refl, refl, refl)

register_for-Same :
    (u : Option PlaylistConfig) (id : String) (s : FfmpegSession) (st : Streaming)
    → Same st (register_for u id s st)
unfolding register_upstream
register_for-Same none id s st = (refl, refl, refl)
register_for-Same (some p) id s st = (refl, refl, refl)

claim_if-Same :
    (starting : Bool) (u : Option PlaylistConfig) (id : String) (now : ℕ) (st : Streaming)
    → Same st (claim_if starting u id now st)
claim_if-Same true u id now st = claim_for-Same u id now st
claim_if-Same false u id now st = (refl, refl, refl)

-- The same, but for one command more at most.
abbrev pub Launches : List String → Streaming → Streaming → Type 0
Launches args st st' =
    ((st'.launched ≡ st.launched) ⊎ (st'.launched ≡ args ∷ st.launched))
    × (st'.unavailable_until ≡ st.unavailable_until)
    × (st'.cooldown ≡ st.cooldown)

launch-cases :
    (b : Bool) (args : List String) (cs : List (List String))
    → (launch b args cs ≡ cs) ⊎ (launch b args cs ≡ args ∷ cs)
launch-cases true args cs = inr refl
launch-cases false args cs = inl refl

module _ (show_code : Option ℤ → String) where
  attempt_from-Same :
      (id : String) (starting : Bool) (n : ℕ) (u : Option PlaylistConfig) (a : Answers)
      (got : Option FfmpegSession) (st : Streaming)
      → Same st (attempt_from show_code id starting n u a got st).0
  attempt_from-Same id starting n u a none st = (refl, refl, refl)
  attempt_from-Same id true n u a (some s) st = register_for-Same u id s st
  attempt_from-Same id false n u a (some s) st = (refl, refl, refl)

  pub run_session-Launches :
      (id : String) (is_live : Bool) (args : List String) (n : ℕ) (u : Option PlaylistConfig)
      (a : Answers) (st : Streaming)
      → Launches args st (run_session show_code id is_live args n u a st).0
  unfolding run_session
  run_session-Launches id is_live args n u a st =
      let starting = needs_start id is_live st.world.sessions in
      let claimed = claim_if starting u id a.clock.instant st in
      let (sessions, got) = get_or_start id is_live a.clock a.can_spawn claimed.world.sessions in
      let begun = started_world id starting args a sessions claimed in
      let (c1, c2, c3) = claim_if-Same starting u id a.clock.instant st in
      let (f1, f2, f3) = attempt_from-Same id starting n u a got begun in
      (
        elim (launch-cases (starting && a.can_spawn) args claimed.launched) [
          | inl e ↦ inl (f1 ∙ (e ∙ c1))
          | inr e ↦ inr (f1 ∙ (e ∙ ap (λ cs. args ∷ cs) c1))
        ],
        f2 ∙ c2,
        f3 ∙ c3,
      )

-- The commands that a run adds satisfy P.
abbrev pub Adds : (List String → Type 0) → Streaming → Streaming → Type 0
Adds P st st' = (added : List (List String)) × (st'.launched ≡ added ++ st.launched) × All P added

module _ (P : List String → Type 0) where
  Adds-of_Launches :
      (args : List String) (st st' : Streaming) → Launches args st st' → P args → Adds P st st'
  Adds-of_Launches args st st' (l, u, c) h = elim l [
    | inl e ↦ ([], e, tt)
    | inr e ↦ (args ∷ [], e, (h, tt))
  ]

  Adds-trans : (st st' st'' : Streaming) → Adds P st st' → Adds P st' st'' → Adds P st st''
  Adds-trans st st' st'' (new, e, h) (newer, e', h') = (
    newer ++ new,
    e' ∙ (ap (λ cs. newer ++ cs) e ∙ sym (append_assoc newer new st.launched)),
    All-append P newer new h' h,
  )

module _ (show_code : Option ℤ → String) (gpu_text : String → Bool) where
  abbrev pub play : Play → Streaming → Streaming
  play r st =
      (run_with_gpu_fallback show_code gpu_text r.id r.is_live r.want_gpu r.build_args
        r.min_segments r.upstream r.first r.again st).0

  abbrev pub plays : List Play → Streaming → Streaming
  plays [] st = st
  plays (r ∷ rs) st = plays rs (play r st)

  abbrev pub uses_gpu : Play → Streaming → Bool
  uses_gpu r st = r.want_gpu && available_at r.first.clock.instant st.unavailable_until

  abbrev first_run : Play → Streaming → Streaming × Attempt
  first_run r st =
      run_session show_code r.id r.is_live (r.build_args (uses_gpu r st)) r.min_segments r.upstream
        r.first st

  -- Whether the run falls back.
  abbrev pub falls_back : Play → Streaming → Bool
  falls_back r st = breaks show_code gpu_text (uses_gpu r st) (first_run r st).1

  Adds-if :
      (P : List String → Type 0) (st : Streaming) (b : Bool) (x y : Streaming × Attempt)
      → Adds P st x.0
      → Adds P st y.0
      → Adds P st (if b then x else y).0
  Adds-if P st true x y h k = h
  Adds-if P st false x y h k = k

  -- A run launches only what the route builds.
  pub run_with_gpu_fallback-Adds :
      (P : List String → Type 0) (r : Play) (st : Streaming)
      → ((gpu : Bool) → P (r.build_args gpu))
      → Adds P st (play r st)
  unfolding run_with_gpu_fallback mark_failed_at
  run_with_gpu_fallback-Adds P r st h =
      let first = first_run r st in
      let args = r.build_args (uses_gpu r st) in
      let l =
        run_session-Launches show_code r.id r.is_live args r.min_segments r.upstream r.first st in
      let failed = mark_failed_at r.again.clock.instant first.0 in
      let retried = record failed { world = kill_in r.id failed.world } in
      let cpu = r.build_args false in
      let second =
        run_session show_code r.id r.is_live cpu r.min_segments r.upstream r.again retried in
      let m =
        run_session-Launches show_code r.id r.is_live cpu r.min_segments r.upstream r.again
          retried in
      let begun = Adds-of_Launches P args st first.0 l (h (uses_gpu r st)) in
      let redone = Adds-of_Launches P cpu retried second.0 m (h false) in
      Adds-if P st _ second first (Adds-trans P st first.0 second.0 begun redone) begun

  if-true : {A : Type 0} {b : Bool} {x : A} (y : A) → b ≡ true → (if b then x else y) ≡ x
  if-true y e = rw e refl

  unbroken : (a : Attempt) → breaks show_code gpu_text false a ≡ false
  unbroken a = ground arith

  module _ (P : List String → Type 0) where
    run_on-Cpu :
        (r : Play) (st : Streaming) (gpu : Bool)
        → gpu ≡ false
        → P (r.build_args false)
        → let st' =
            (run_on show_code gpu_text gpu r.id r.is_live r.build_args r.min_segments r.upstream
              r.first r.again st).0 in
          Adds P st st' × (st'.unavailable_until ≡ st.unavailable_until)
    run_on-Cpu r st gpu e h =
        let args = r.build_args false in
        let run = run_session show_code r.id r.is_live args r.min_segments r.upstream r.first st in
        let l =
          run_session-Launches show_code r.id r.is_live args r.min_segments r.upstream r.first st in
        rw (e, unbroken run.1) (Adds-of_Launches P args st run.0 l h, l.1)

    play-Cpu :
        (r : Play) (st : Streaming) (until : ℕ)
        → st.unavailable_until ≡ some until
        → r.first.clock.instant < until
        → P (r.build_args false)
        → Adds P st (play r st) × ((play r st).unavailable_until ≡ some until)
    unfolding run_with_gpu_fallback available_at
    play-Cpu r st until e early h =
        let idle : uses_gpu r st ≡ false = ground arith in
        let (all', same) = run_on-Cpu r st (uses_gpu r st) idle h in (all', same ∙ e)

    plays-Cpu :
        (rs : List Play) (st : Streaming) (until : ℕ)
        → st.unavailable_until ≡ some until
        → All (λ (r : Play). r.first.clock.instant < until) rs
        → All (λ (r : Play). P (r.build_args false)) rs
        → Adds P st (plays rs st)
    plays-Cpu [] st until e early h = ([], refl, tt)
    plays-Cpu (r ∷ rs) st until e (early, earlier) (h, hs) =
        let (all', e') = play-Cpu r st until e early h in
        Adds-trans P st (play r st) (plays rs (play r st)) all'
          (plays-Cpu rs (play r st) until e' earlier hs)

  play-falls_back :
      (r : Play) (st : Streaming)
      → falls_back r st ≡ true
      → (play r st).unavailable_until ≡ some (r.again.clock.instant + st.cooldown)
  unfolding run_with_gpu_fallback mark_failed_at
  play-falls_back r st broke =
      let first = first_run r st in
      let args = r.build_args (uses_gpu r st) in
      let l =
        run_session-Launches show_code r.id r.is_live args r.min_segments r.upstream r.first st in
      let failed = mark_failed_at r.again.clock.instant first.0 in
      let retried = record failed { world = kill_in r.id failed.world } in
      let again =
        run_session-Launches show_code r.id r.is_live (r.build_args false) r.min_segments r.upstream
          r.again retried in
      ap (λ (o : Streaming × Attempt). o.0.unavailable_until) (if-true _ broke)
      ∙ (again.1 ∙ ap (λ c. some (r.again.clock.instant + c)) l.2)

  -- Once a run has fallen back, the runs of the cooldown, of whichever stream, launch only the
  -- commands that they build for the processor.
  pub plays_after-falls_back :
      (P : List String → Type 0) (r : Play) (rs : List Play) (st : Streaming)
      → falls_back r st ≡ true
      → All (λ (q : Play). q.first.clock.instant < r.again.clock.instant + st.cooldown) rs
      → All (λ (q : Play). P (q.build_args false)) rs
      → Adds P (play r st) (plays rs (play r st))
  plays_after-falls_back P r rs st broke early h =
      plays-Cpu P rs (play r st) (r.again.clock.instant + st.cooldown) (play-falls_back r st broke)
        early h
