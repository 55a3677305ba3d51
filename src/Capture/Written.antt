-- ===== src/Capture/Written.antt =====
-- What the connections delivered, one after the other, is what was written.
use xtremflow.Base.{
  Option, zero, suc, take, drop, ℕ, ◌+◌, ◌≡◌, refl, sym, ap, ◌∙◌, String, Bool, true, false, none,
  some, List, [], ◌∷◌, ◌++◌, if◌then◌else◌, length, append_assoc,
}
use xtremflow.Capture.{
  Writer, write_all, hand_on, taken_of, Reads, stopped, silent, finished, broken, chunk, PumpEnd,
  stop, cut, pump, Opening, stopped_first, refused, connected, Turn, Capture,
}

-- What was written in all: the file, and behind it what the writer still holds back.
abbrev pub contents : Writer → List ℕ
contents out = out.disk ++ out.buffer

-- What a connection delivers up to its end, or up to the place where a write fails.
abbrev pub delivered : Reads → List ℕ
delivered stopped = []
delivered silent = []
delivered finished = []
delivered (broken e) = []
delivered (chunk part moved (some (n, e)) rest) = take n part
delivered (chunk part moved none rest) = part ++ delivered rest

-- Whether a connection ends with the stop.
abbrev pub ends_stopped : Reads → Bool
ends_stopped stopped = true
ends_stopped silent = false
ends_stopped finished = false
ends_stopped (broken e) = false
ends_stopped (chunk part moved (some (n, e)) rest) = false
ends_stopped (chunk part moved none rest) = ends_stopped rest

abbrev pub of_opening : Opening → List ℕ
of_opening stopped_first = []
of_opening (refused reason) = []
of_opening (connected reads) = delivered reads

abbrev pub stops : Opening → Bool
stops stopped_first = true
stops (refused reason) = false
stops (connected reads) = ends_stopped reads

-- What all turns deliver, up to the one that sees the stop.
abbrev pub of_turns : List Turn → List ℕ
of_turns [] = []
of_turns (t ∷ turns) =
    of_opening t.opening
    ++ (let rest = of_turns turns in
        if stops t.opening then [] else if t.stopped_in_pause then [] else rest)

append_nil : (xs : List ℕ) → xs ++ [] ≡ xs
append_nil [] = refl
append_nil (x ∷ xs) = ap (λ l. x ∷ l) (append_nil xs)

take-drop : (n : ℕ) (xs : List ℕ) → take n xs ++ drop n xs ≡ xs
take-drop zero xs = refl
take-drop (suc n) [] = refl
take-drop (suc n) (x ∷ xs) = ap (λ l. x ∷ l) (take-drop n xs)

contents-hand_on : (n : ℕ) (out : Writer) → contents (hand_on n out) ≡ contents out
contents-hand_on n out =
    append_assoc out.disk (take n out.buffer) (drop n out.buffer)
    ∙ ap (λ l. out.disk ++ l) (take-drop n out.buffer)

contents-write_all :
    (part : List ℕ) (moved : ℕ) (failed : Option (ℕ × String)) (out : Writer)
    → contents (write_all part moved failed out) ≡ contents out ++ taken_of part failed
unfolding write_all
contents-write_all part moved failed out =
    contents-hand_on moved (record out { buffer = out.buffer ++ taken_of part failed })
    ∙ sym (append_assoc out.disk out.buffer (taken_of part failed))

-- A connection appends what it delivers to what was written.
pub pump-delivered :
    (reads : Reads) (out : Writer) (bytes : ℕ)
    → contents (pump reads out bytes).out ≡ contents out ++ delivered reads
unfolding pump
pump-delivered stopped out bytes = sym (append_nil (contents out))
pump-delivered silent out bytes = sym (append_nil (contents out))
pump-delivered finished out bytes = sym (append_nil (contents out))
pump-delivered (broken e) out bytes = sym (append_nil (contents out))
pump-delivered (chunk part moved (some (n, e)) rest) out bytes =
    contents-write_all part moved (some (n, e)) out
pump-delivered (chunk part moved none rest) out bytes =
    let written = contents-write_all part moved none out in
    pump-delivered rest (write_all part moved none out) (bytes + length part)
    ∙ (ap (λ l. l ++ delivered rest) written ∙ append_assoc (contents out) part (delivered rest))

abbrev is_stop : PumpEnd → Bool
is_stop stop = true
is_stop (cut reason) = false

module _ (t : Turn) (turns : List Turn) where
  abbrev here : List ℕ
  here = of_opening t.opening

  abbrev next : Bool → Bool → List ℕ
  next halts quits = here ++ (if halts then [] else if quits then [] else of_turns turns)
