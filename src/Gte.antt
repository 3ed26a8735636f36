-- ===== src/Gte.antt =====
-- The geometry coprocessor: src/gte/gte.c, gte_internal.h and gte_ops.c.
pub mod Reg
pub mod Ctl
pub mod State
pub mod Saturate
pub mod Divide
pub mod Pipeline
pub mod Transform
pub mod Colour
pub mod Registers
pub mod Execute
pub mod Wf
pub mod FlagReset
pub mod Overflow
pub mod Saturation
pub mod Reciprocal
pub mod RoundTrip
pub mod RegisterMap
pub mod Device
pub mod Moves
