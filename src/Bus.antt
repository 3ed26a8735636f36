-- ===== src/Bus.antt =====
-- The memory side of the bus: src/core/ram.c, the memory part of src/core/bus.c and
-- src/core/bios.c, and the interrupt lines of src/core/bus_irq.c.
pub mod Bytes
pub mod Ram
pub mod Access
pub mod Irq
pub mod FastPath
pub mod IrqEdges
pub mod RoundTrip
