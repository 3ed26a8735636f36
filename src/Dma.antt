-- ===== src/Dma.antt =====
-- The DMA controller's registers and its interrupt: src/core/dma.c.
pub mod State
pub mod Registers
pub mod Interrupt
pub mod RoundTrip
