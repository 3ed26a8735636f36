-- ===== src/Timers.antt =====
-- The three counters of src/core/timers.c.
pub mod State
pub mod Counter
pub mod Registers
pub mod Raise
pub mod Crossing
pub mod CatchUp
pub mod Periods
pub mod Loop
pub mod Settled
pub mod Boundary
