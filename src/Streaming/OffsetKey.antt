-- ===== src/Streaming/OffsetKey.antt =====
-- The keys of the playback sessions of a recording (api/recording_playlist.rs,
-- `recording_offset_key` and `parse_recording_offset_key`). Texts are lists of ASCII codes; the
-- decimal writing and reading of a u64 are those of the language.
use xtremflow.Base.{
  ℕ, zero, suc, ◌+◌, ◌-◌, ◌*◌, ◌/◌, ◌%◌, ◌≤◌, ◌<◌, ◌≡◌, refl, ◌∙◌, inl, inr, Bool, true, false, not,
  ◌&&◌, ◌||◌, Option, none, some, List, [], ◌∷◌, arith, if◌then◌else◌, ltb, leb, ◌==◌, Bool-cases,
}
use xtremflow.Slots.{u64_mod}

-- The digits of n before those already written; `n + 1` rounds are enough.
unfoldable pub emit : ℕ → ℕ → List ℕ → List ℕ
emit zero n out = out
emit (suc rounds) n out =
    let more = emit rounds (n / 10) ((b'0' + n % 10) ∷ out) in
    if ltb n 10 then (b'0' + n) ∷ out else more

-- `format!("t{start}")`
unfoldable pub recording_offset_key : ℕ → List ℕ
unfolding emit
recording_offset_key start = b't' ∷ emit (suc start) start []

abbrev pub is_digit : ℕ → Bool
is_digit c = leb b'0' c && leb c b'9'

-- The digits of a u64, none where it overflows.
unfoldable pub scan : List ℕ → ℕ → Option ℕ
scan [] n = some n
scan (c ∷ cs) n =
    let read = n * 10 + (c - b'0') in
    let rest = scan cs read in if is_digit c && ltb read u64_mod then rest else none

abbrev pub is_empty : List ℕ → Bool
is_empty [] = true
is_empty (c ∷ cs) = false

abbrev pub without_plus : List ℕ → List ℕ
without_plus [] = []
without_plus (c ∷ cs) = if c == b'+' then cs else c ∷ cs

-- `parse::<u64>`: a sign `+` is allowed.
unfoldable pub parse_u64 : List ℕ → Option ℕ
unfolding scan
parse_u64 cs = if is_empty (without_plus cs) then none else scan (without_plus cs) 0

abbrev pub all_digits : List ℕ → Bool
all_digits [] = true
all_digits (c ∷ cs) = (is_digit c || c == b'+') && all_digits cs

unfoldable pub parse_recording_offset_key : List ℕ → Option ℕ
unfolding parse_u64
parse_recording_offset_key [] = none
parse_recording_offset_key (c ∷ digits) =
    if not (c == b't')
    then none
    else if is_empty digits || not (all_digits digits)
    then none
    else parse_u64 digits

-- One digit read after a number.
scan_digit :
    (a d n : ℕ) (out : List ℕ)
    → d < 10
    → n ≡ a * 10 + d
    → n < u64_mod
    → scan ((b'0' + d) ∷ out) a ≡ scan out n
unfolding scan
scan_digit a d n out small e fits =
    let read : a * 10 + ((b'0' + d) - b'0') ≡ n = omega (arith, e) in
    let digit : is_digit (b'0' + d) ≡ true = ground (arith, small) in
    let below : ltb n u64_mod ≡ true = ground (arith, fits) in rw (read, digit, below) refl

scan-emit :
    (rounds n : ℕ) (out : List ℕ)
    → n < rounds
    → n < u64_mod
    → scan (emit rounds n out) 0 ≡ scan out n
unfolding emit
scan-emit zero n out enough fits = absurd (omega (arith, enough))
scan-emit (suc rounds) n out enough fits = elim (Bool-cases (ltb n 10)) [
  | inl last ↦ rw (last, emit) (scan_digit 0 n n out (ground (arith, last)) (omega arith) fits)
  | inr more ↦
      let big : 10 ≤ n = ground (arith, more) in
      rw (more, emit)
        (scan-emit rounds (n / 10) ((b'0' + n % 10) ∷ out) (omega (arith, enough, big))
            (omega (arith, fits))
          ∙ scan_digit (n / 10) (n % 10) n out (omega arith) (omega arith) fits)
]

all_digits_digit : (d : ℕ) (out : List ℕ) → d < 10 → all_digits ((b'0' + d) ∷ out) ≡ all_digits out
all_digits_digit d out small = ground (arith, small)

all_digits-emit : (rounds n : ℕ) (out : List ℕ) → all_digits (emit rounds n out) ≡ all_digits out
unfolding emit
all_digits-emit zero n out = refl
all_digits-emit (suc rounds) n out = elim (Bool-cases (ltb n 10)) [
  | inl last ↦ rw (last, emit) (all_digits_digit n out (ground (arith, last)))
  | inr more ↦
      rw (more, emit)
        (all_digits-emit rounds (n / 10) ((b'0' + n % 10) ∷ out)
          ∙ all_digits_digit (n % 10) out (omega arith))
]

-- What is written starts with a digit.
emit_unsigned :
    (rounds n : ℕ) (out : List ℕ)
    → n < rounds
    → (without_plus (emit rounds n out) ≡ emit rounds n out)
      × (is_empty (emit rounds n out) ≡ false)
unfolding emit
emit_unsigned zero n out enough = absurd (omega (arith, enough))
emit_unsigned (suc rounds) n out enough = elim (Bool-cases (ltb n 10)) [
  | inl last ↦ rw (last, emit) (ground arith, refl)
  | inr more ↦
      let big : 10 ≤ n = ground (arith, more) in
      rw (more, emit)
        (emit_unsigned rounds (n / 10) ((b'0' + n % 10) ∷ out) (omega (arith, enough, big)))
]

-- The key of every start that fits in a u64 is read back as that start.
pub parse-recording_offset_key :
    (start : ℕ)
    → start < u64_mod
    → parse_recording_offset_key (recording_offset_key start) ≡ some start
unfolding parse_recording_offset_key recording_offset_key parse_u64
parse-recording_offset_key start fits =
    let (unsigned, filled) = emit_unsigned (suc start) start [] (omega arith) in
    let digits : all_digits (emit (suc start) start []) ≡ true =
      all_digits-emit (suc start) start [] in
    rw (filled, digits, unsigned, filled) (scan-emit (suc start) start [] (omega arith) fits)
