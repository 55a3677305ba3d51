-- ===== src/Decision/Laws.antt =====
-- What the decisions amount to.
use native.Mathlib.Nat.{le_refl, zero-add}
use xtremflow.Base.{
  ℕ, zero, suc, ◌+◌, ◌-◌, ◌*◌, ◌≤◌, ◌<◌, min, ◌≡◌, refl, ◌≢◌, ◌↔◌, Bool, true, false, Option, none,
  some, List, String, arith, seconds,
}
use xtremflow.Decision.{
  start, wait, fail, idle, decide_recording_action, server_down, stalled, capacity,
  decide_miss_cause, resume, finish, give_up, decide_orphan_action, ffmpeg_retry_delay,
}

-- Each action is taken in exactly one situation: failed once the window is over, nothing up to its
-- start, and within it a start where a slot is free and a wait where none is.
pub decide_recording_action_iff :
    (now start_at end_at active max : ℕ)
    → start_at ≤ end_at
    → ((decide_recording_action now start_at end_at active max ≡ fail) ↔ (end_at < now))
      × ((decide_recording_action now start_at end_at active max ≡ idle) ↔ (now ≤ start_at))
      × ((decide_recording_action now start_at end_at active max ≡ wait)
          ↔ ((start_at < now) × (now ≤ end_at) × (max ≤ active)))
      × ((decide_recording_action now start_at end_at active max ≡ start)
          ↔ ((start_at < now) × (now ≤ end_at) × (active < max)))
unfolding decide_recording_action
decide_recording_action_iff now start_at end_at active max h =
    (ground arith, ground arith, ground arith, ground arith)

delay_capped : (n : ℕ) → ffmpeg_retry_delay (suc (suc (suc (suc (suc n))))) ≡ 30
unfolding ffmpeg_retry_delay
delay_capped n = let steps : min (suc (suc (suc (suc (suc n)))) - 1) 4 ≡ 4 = omega arith in rw steps

-- The delay starts at 3 s, doubles with each failure in a row, and stops growing at 30 s.
pub ffmpeg_retry_delay_doubles :
    (n : ℕ)
    → (ffmpeg_retry_delay 1 ≡ 3)
      × (ffmpeg_retry_delay (suc (suc n)) ≡ min 30 (2 * ffmpeg_retry_delay (suc n)))
unfolding ffmpeg_retry_delay
ffmpeg_retry_delay_doubles zero = (refl, refl)
ffmpeg_retry_delay_doubles (suc zero) = (refl, refl)
ffmpeg_retry_delay_doubles (suc (suc zero)) = (refl, refl)
ffmpeg_retry_delay_doubles (suc (suc (suc zero))) = (refl, refl)
ffmpeg_retry_delay_doubles (suc (suc (suc (suc n)))) =
    (refl, rw (delay_capped n, delay_capped (suc n)))

delay_range : (n : ℕ) → (3 ≤ ffmpeg_retry_delay n) × (ffmpeg_retry_delay n ≤ 30)
unfolding ffmpeg_retry_delay
delay_range zero = omega arith
delay_range (suc zero) = omega arith
delay_range (suc (suc n)) = omega (arith, (ffmpeg_retry_delay_doubles n).1, delay_range (suc n))

delay_step : (n : ℕ) → ffmpeg_retry_delay n ≤ ffmpeg_retry_delay (suc n)
unfolding ffmpeg_retry_delay
delay_step zero = omega arith
delay_step (suc n) = omega (arith, (ffmpeg_retry_delay_doubles n).1, delay_range (suc n))

delay_mono : (k m : ℕ) → ffmpeg_retry_delay m ≤ ffmpeg_retry_delay (k + m)
delay_mono zero m = rw zero-add (le_refl _)
delay_mono (suc k) m =
    let e : suc k + m ≡ suc (k + m) = omega arith in
    rw e (omega (arith, delay_mono k m, delay_step (k + m)))

-- Every delay is between 3 s and 30 s, and more failures never shorten it.
pub ffmpeg_retry_delay_bounds :
    (m n : ℕ)
    → m ≤ n
    → (3 ≤ ffmpeg_retry_delay m)
      × (ffmpeg_retry_delay m ≤ ffmpeg_retry_delay n)
      × (ffmpeg_retry_delay n ≤ 30)
ffmpeg_retry_delay_bounds m n h =
    let e : n ≡ (n - m) + m = omega arith in
    ((delay_range m).0, rw e (delay_mono (n - m) m), (delay_range n).1)

-- An orphan is resumed exactly while more than a minute is left, whatever is on the disk; after
-- that a file decides, and a recording with data is never failed.
pub decide_orphan_action_iff :
    (now end_at : ℕ) (has_file : Bool)
    → ((decide_orphan_action now end_at has_file ≡ resume) ↔ (now + seconds 60 < end_at))
      × (has_file ≡ true → decide_orphan_action now end_at has_file ≢ give_up)
      × (has_file ≡ false → decide_orphan_action now end_at has_file ≢ finish)
unfolding decide_orphan_action
decide_orphan_action_iff now end_at has_file = (ground arith, ground arith, ground arith)

-- A miss is put down to full slots exactly where the recording had to wait, with the captures that
-- held them; else to the server being down exactly where this is its first round.
pub decide_miss_cause_iff :
    (start_at : ℕ) (previous : Option ℕ) (waited : Option (List String)) (busy : List String)
    (t : ℕ)
    → ((decide_miss_cause start_at previous waited ≡ capacity busy) ↔ (waited ≡ some busy))
      × ((decide_miss_cause start_at previous waited ≡ server_down)
          ↔ ((waited ≡ none) × (previous ≡ none)))
      × ((decide_miss_cause start_at previous waited ≡ stalled t)
          ↔ ((waited ≡ none) × (previous ≡ some t) × (t < start_at)))
unfolding decide_miss_cause
decide_miss_cause_iff start_at previous waited busy t = (ground arith, ground arith, ground arith)
