-- ===== src/Nba/Plan.antt =====
-- What the decision for a game guarantees.
use xtremflow.Base.{
  ℕ, ◌+◌, ◌≤◌, ◌<◌, ◌≡◌, refl, ◌≢◌, ◌↔◌, inl, inr, true, false, Option, none, some, arith, str_eq,
  Bool-cases, Option-cases, minutes,
}
use xtremflow.Recordings.{Recording, is_scheduled, is_pending}
use xtremflow.Nba.{
  EpgProgramme, LiveBroadcast, AutoRule, NbaGame, Action, set_status, create, realign, recreate,
  cancel, planned, wants, recording_window, settled, still_scheduled, plan_capture, plan_action,
}

-- The window of a recording holds the programme and the two hours and a half after the tip-off.
pub recording_window_covers :
    (rule : AutoRule) (tipoff : ℕ) (b : EpgProgramme)
    → let w = recording_window rule tipoff b in
      (w.0 ≤ b.start) × (w.0 ≤ tipoff) × (b.end_at ≤ w.1) × (tipoff + minutes 150 ≤ w.1)
unfolding recording_window
recording_window_covers rule tipoff b = (omega arith, omega arith, omega arith, omega arith)

-- A decision that starts a recording, or moves one, has this behind it.
abbrev pub Founded : AutoRule → NbaGame → ℕ → Option LiveBroadcast → ℕ → ℕ → ℕ → Type 0
Founded rule g tipoff live now s e =
    (wants g ≡ true)
    × (now < e)
    × ((l : LiveBroadcast) × (live ≡ some l)
        × (str_eq l.programme.channel_id "" ≡ false)
        × (recording_window rule tipoff l.programme ≡ (s, e)))

no_window : {w : ℕ × ℕ} → none ≡ some w → ⊥
no_window h = cc

-- The window that a decision gives a recording.
abbrev pub window_of : Action → Option (ℕ × ℕ)
window_of (create s e) = some (s, e)
window_of (realign s e) = some (s, e)
window_of (recreate s e) = some (s, e)
window_of _ = none

plan_capture_window :
    (win : ℕ × ℕ) (p : EpgProgramme) (row : Option Recording) (now s e : ℕ)
    → window_of (plan_capture win p row now) ≡ some (s, e)
    → (now < e) × (win ≡ (s, e))
unfolding plan_capture
plan_capture_window (a, b) p none now s e h = ground arith
plan_capture_window (a, b) p (some r) now s e h = ground arith

-- A recording is started, replaced or moved only for a game that the user accepted, with a
-- broadcast on a channel of the playlist, over the window of that broadcast, which is not over.
pub plan_action_window :
    (rule : AutoRule) (g : NbaGame) (tipoff : ℕ) (live : Option LiveBroadcast)
    (row : Option Recording) (now s e : ℕ)
    → window_of (plan_action rule g tipoff live row now) ≡ some (s, e)
    → Founded rule g tipoff live now s e
unfolding plan_action
plan_action_window rule g tipoff live row now s e h = elim (Option-cases (settled row)) [
  | inr (t, over) ↦ absurd (no_window (rw (over, plan_action) at h))
  | inl going ↦ elim (Bool-cases (wants g)) [
    | inr refused ↦ ground (arith, rw (going, refused, plan_action) at h)
    | inl wanted ↦ elim (Option-cases live) [
      | inl silent ↦ ground (arith, rw (going, wanted, silent, plan_action) at h)
      | inr (l, found) ↦ elim (Bool-cases (str_eq l.programme.channel_id "")) [
        | inl absent ↦ ground (arith, rw (going, wanted, found, absent, plan_action) at h)
        | inr there ↦
            let (ahead, same) =
              plan_capture_window (recording_window rule tipoff l.programme) l.programme
                (still_scheduled row) now s e
                (rw (going, wanted, found, there, plan_action) at h) in
            (wanted, ahead, (l, found, there, same))
      ]
    ]
  ]
]

-- A recording that was launched or has ended is never touched.
pub plan_action_settled :
    (rule : AutoRule) (g : NbaGame) (tipoff : ℕ) (live : Option LiveBroadcast) (r : Recording)
    (now : ℕ)
    → is_scheduled r.status ≡ false
    → is_pending r.status ≡ true
    → plan_action rule g tipoff live (some r) now ≡ set_status planned
unfolding plan_action settled
plan_action_settled rule g tipoff live r now a b = ground arith

-- For a recording still to start the decision is to cancel it exactly where the user no longer
-- accepts the game, never to create one beside it, and to replace it only where the broadcast is on
-- another channel; an accepted game that the guide is silent about keeps it.
pub plan_action_cancel :
    (rule : AutoRule) (g : NbaGame) (tipoff : ℕ) (live : Option LiveBroadcast) (r : Recording)
    (now : ℕ)
    → is_scheduled r.status ≡ true
    → ((plan_action rule g tipoff live (some r) now ≡ cancel) ↔ (wants g ≡ false))
      × ((s e : ℕ) → plan_action rule g tipoff live (some r) now ≢ create s e)
      × ((s e : ℕ)
          → plan_action rule g tipoff live (some r) now ≡ recreate s e
          → (l : LiveBroadcast) × (live ≡ some l)
            × (str_eq r.channel_id l.programme.channel_id ≡ false))
      × (live ≡ none
          → wants g ≡ true
          → plan_action rule g tipoff live (some r) now ≡ set_status planned)
unfolding plan_action settled still_scheduled plan_capture
plan_action_cancel rule g tipoff none r now w =
    (ground arith, λ s e. ground arith, λ s e h. ground arith, ground arith)
plan_action_cancel rule g tipoff (some l) r now w =
    (ground arith, λ s e. ground arith, λ s e h. (l, refl, ground arith), ground arith)
