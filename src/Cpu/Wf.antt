-- ===== src/Cpu/Wf.antt =====
-- The well-formedness of the CPU, by the parts of src/cpu/.
pub mod Core
pub mod Alu
pub mod MulDiv
pub mod Branch
pub mod Cop0
pub mod Devices
pub mod Loads
pub mod Stores
pub mod LoadStore
pub mod Cop2
pub mod Fetch
pub mod Decode
pub mod Step
