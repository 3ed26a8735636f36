-- ===== src/Gte/Wf.antt =====
-- The invariant of the registers.
pub mod Flag
pub mod Core
pub mod Stages
pub mod Commands
pub mod Access
