-- ===== src/Scheduler/Tick/Settled.antt =====
-- What a round leaves behind: no recording is overlooked.
use xtremflow.Scheduler.Tick.Due.{Due}
