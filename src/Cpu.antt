-- ===== src/Cpu.antt =====
-- The R3000A interpreter of src/cpu/.
pub mod Regs
pub mod Fields
pub mod Exceptions
pub mod Alu
pub mod MulDiv
pub mod Branch
pub mod ICache
pub mod Partial
pub mod Unaligned
pub mod LoadStore
pub mod RamRead
pub mod LoadPair
pub mod PlannedStore
pub mod StorePart
pub mod Cop0
pub mod Cop2
pub mod Decode
pub mod Step
pub mod LoadDelay
pub mod ExceptionReturn
pub mod Arithmetic
pub mod Division
pub mod Timing
pub mod Latency
pub mod CacheHit
pub mod Wf
