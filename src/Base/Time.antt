-- ===== src/Base/Time.antt =====
-- Instants and durations. An instant (`DateTime<Utc>`, `Instant`) is the count of nanoseconds from
-- the earliest one that its type holds, so that it is a natural number; a duration counts
-- nanoseconds too. Leaving the range of the type panics in the source, which is not modelled.
use Prim.Native.Nat.{ℕ, ◌*◌, ◌/◌}

abbrev pub seconds : ℕ → ℕ
seconds n = n * 1_000_000_000

abbrev pub minutes : ℕ → ℕ
minutes n = n * 60_000_000_000

abbrev pub hours : ℕ → ℕ
hours n = n * 3_600_000_000_000

abbrev pub days : ℕ → ℕ
days n = n * 86_400_000_000_000

-- `num_seconds` and `num_minutes` of a duration that is not negative.
abbrev pub num_seconds : ℕ → ℕ
num_seconds d = d / 1_000_000_000

abbrev pub num_minutes : ℕ → ℕ
num_minutes d = d / 60_000_000_000
