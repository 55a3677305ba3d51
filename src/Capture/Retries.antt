-- ===== src/Capture/Retries.antt =====
-- The pauses between the connections of a capture.
use xtremflow.Base.{
  ℕ, ◌+◌, ◌≤◌, ◌≡◌, refl, Option, none, some, ◌⊎◌, inl, inr, List, [], ◌∷◌, arith, length, All,
  String, Bool-cases,
}
use xtremflow.Decision.{ffmpeg_retry_delay}
use xtremflow.Decision.Laws.{ffmpeg_retry_delay_bounds}
use xtremflow.Capture.{
  PumpEnd, stop, cut, Turn, Capture, connect, after_cut, hand_on, run_turns, run_capture,
}

abbrev pub InBounds : List ℕ → Type 0
InBounds = All (λ d. (3 ≤ d) × (d ≤ 30))

-- What the pauses and the failures in a row are bounded by.
abbrev pub Paced : ℕ → Capture → Capture → Type 0
Paced n c c' =
    InBounds c'.delays
    × (c'.consecutive_failures ≤ c.consecutive_failures + n)
    × (length c'.delays ≤ length c.delays + n)

delay_bounds : (n : ℕ) → (3 ≤ ffmpeg_retry_delay n) × (ffmpeg_retry_delay n ≤ 30)
delay_bounds n = let (low, mono, high) = ffmpeg_retry_delay_bounds n n (omega arith) in (low, high)

after_cut-Paced :
    (reason : String) (lasted bytes : ℕ) (c : Capture)
    → InBounds c.delays
    → Paced 1 c (after_cut reason lasted bytes c)
unfolding after_cut
after_cut-Paced reason lasted bytes c h = ((delay_bounds _, h), ground (arith), omega arith)

PumpEnd-cases : (e : PumpEnd) → (e ≡ stop) ⊎ ((reason : String) × (e ≡ cut reason))
PumpEnd-cases stop = inl refl
PumpEnd-cases (cut reason) = inr (reason, refl)

-- Every pause of the loop is between 3 s and 30 s, and there is at most one for each connection.
pub run_turns-Paced :
    (turns : List Turn) (c : Capture)
    → InBounds c.delays
    → Paced (length turns) c (run_turns turns c)
unfolding run_turns
run_turns-Paced [] c h = (h, omega arith, omega arith)
run_turns-Paced (t ∷ turns) c h =
    let p = connect t.opening c.out in
    let kept : Capture = record c { out = p.out } in
    let flushed : Capture = record kept { out = hand_on t.flushed p.out } in
    elim (PumpEnd-cases p.end) [
      | inl stopping ↦ rw (stopping, run_turns) (h, omega arith, omega arith)
      | inr (reason, cutting) ↦
          let paused = after_cut reason t.lasted p.bytes flushed in
          let (bounds, failures, pauses) = after_cut-Paced reason t.lasted p.bytes flushed h in
          let (later_bounds, later_failures, later_pauses) = run_turns-Paced turns paused bounds in
          elim (Bool-cases t.stopped_in_pause) [
            | inl quits ↦
                rw (cutting, quits, run_turns)
                  (bounds, omega (arith, failures), omega (arith, pauses))
            | inr waits ↦
                rw (cutting, waits, run_turns)
                  (
                    later_bounds,
                    omega (arith, failures, later_failures),
                    omega (arith, pauses, later_pauses),
                  )
          ]
    ]

-- The same of a whole capture, whether or not its file can be opened.
pub run_capture-Paced :
    (opening : Option String) (turns : List Turn) (flushed : ℕ) (c : Capture)
    → InBounds c.delays
    → Paced (length turns) c (run_capture opening turns flushed c)
unfolding run_capture
run_capture-Paced (some e) turns flushed c h = (h, omega arith, omega arith)
run_capture-Paced none turns flushed c h = run_turns-Paced turns c h
