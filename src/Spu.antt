-- ===== src/Spu.antt =====
-- The sound processor: src/spu/.
pub mod Adsr
pub mod Envelope
pub mod Trap
pub mod Transfer
pub mod ManualFifo
pub mod Window
pub mod RoundTrip
