-- ===== src/Lib.antt =====
-- ZoniStation One: the processor with its geometry coprocessor, the memory bus, the interrupt lines,
-- the event scheduler, the timers, the registers of the DMA controller, and the envelope of a voice.
--
-- The program is an emulator of the PlayStation in C. A frame is a loop of `cpu_step`
-- (src/cpu/cpu_execution.c), which takes a pending interrupt or else fetches an instruction through
-- the instruction cache (src/cpu/cpu_icache.c), decodes it (src/cpu/cpu_decode.c), runs its handler
-- (src/cpu/cpu_instructions.c), moves the load delay on, and charges cycles; when the downcount is
-- used up the event scheduler runs. Loads and stores go through the bus (src/core/bus.c), which
-- dispatches to RAM (src/core/ram.c), the BIOS, the scratchpad or a device; devices raise interrupt
-- lines (src/core/bus_irq.c), which the CPU sees in I_STAT and I_MASK.
--
-- Files and what they model:
-- - Machine: the state, `Cpu` (include/cpu.h) and `Interconnect` (include/interconnect.h), and
--   `Env`, what the devices, the GTE, the debugger and the BIOS call hooks do. All of these are
--   parameters, with the laws of `EnvIsWf` (Cpu/Wf/Devices) where a theorem needs them; Gte/Device
--   fills in the GTE. The timers and the DMA controller are states of their own beside the
--   `Interconnect` that they raise lines and schedule events in.
-- - Bus/Bytes, Bus/Ram: little-endian access, src/core/ram.c.
-- - Bus/Access: `interconnect_load32` and its kin with the address map and the stalls
--   (src/core/bus.c), and the inlined fast path to RAM (include/cpu_mem.h).
-- - Bus/Irq: the interrupt lines (src/core/bus_irq.c) and the registers of src/core/bus.c.
-- - Cpu/Regs, Cpu/Fields, Cpu/Exceptions: register access with the load delay, the fields of an
--   instruction, src/cpu/cpu_exceptions.c.
-- - Cpu/Alu, Cpu/MulDiv, Cpu/Branch, Cpu/LoadStore, Cpu/Partial, Cpu/Cop0, Cpu/Cop2: the handlers
--   of src/cpu/cpu_instructions.c, with the merges of include/cpu_mem.h in Cpu/Partial.
-- - Cpu/Decode, Cpu/ICache, Cpu/Step: src/cpu/cpu_decode.c, src/cpu/cpu_icache.c,
--   src/cpu/cpu_execution.c.
-- - Events/Queue: `eventq_schedule`, `eventq_dispatch_due` and the anchor of the next event
--   (src/core/event_scheduler.c). The handlers of the twelve events are a parameter.
-- - Spu/Adsr: the envelope of a voice (src/spu/spu_adsr.c).
-- - Gte/Reg, Gte/Ctl, Gte/State, Gte/Saturate, Gte/Divide, Gte/Pipeline: the registers, flags,
--   saturation, division and stages of the geometry coprocessor (src/gte/gte_internal.h).
-- - Gte/Transform, Gte/Colour: the commands (src/gte/gte_ops.c). Gte/Registers, Gte/Execute: register
--   access and dispatch (src/gte/gte.c). Gte/Device puts them in place of the operations of `Env`.
-- - Timers/State, Timers/Counter, Timers/Registers: the three counters (src/core/timers.c). The ratios
--   of the CPU's clock to the dot clock and to the scanline rate, which the program computes in
--   `double` from the video mode, are the parameter `video_rate`.
-- - Dma/State, Dma/Registers: the channels, the registers and the interrupt of the DMA controller
--   (src/core/dma.c).
-- - Spu/Trap, Spu/Transfer: the IRQ address (src/spu/spu_irq.c) and the transfers to and from the
--   sound RAM (src/spu/spu_dma.c).
-- - Bus/FastPath, Bus/RoundTrip, Bus/IrqEdges, Cpu/Unaligned, Cpu/RamRead, Cpu/LoadPair,
--   Cpu/PlannedStore, Cpu/StorePart, Cpu/LoadDelay, Cpu/ExceptionReturn, Cpu/Arithmetic,
--   Cpu/Division, Cpu/CacheHit, Cpu/Timing, Cpu/Latency, Events/Anchor, Spu/Envelope,
--   Spu/ManualFifo, Spu/RoundTrip, Spu/Window, Gte/RegisterMap, Gte/Moves, Gte/FlagReset,
--   Gte/Overflow, Gte/Saturation, Gte/Reciprocal, Gte/RoundTrip, Timers/Raise,
--   Timers/Crossing, Timers/CatchUp, Timers/Periods, Timers/Loop, Timers/Settled,
--   Timers/Boundary, Dma/Interrupt, Dma/RoundTrip and the modules of Cpu/Wf and Gte/Wf hold
--   the theorems, Tests the concrete machines.
--
-- A C integer is the number of its bit pattern, and wrap-around is written out; `int32_t` operations
-- go through `signed32`. A fixed array is a function from its index. The downcount of the CPU stands
-- in `Interconnect`, since the bus and the scheduler write it too. A mutable structure is passed and
-- returned, so each function is a function of states. The loop of a frame has fuel, which counts
-- instructions: the program's own loop has no bound (it is ended by the VBlank event, a pause or the
-- cycle cap), so the model returns `none` where the fuel does not reach, and no theorem is
-- about it. The dispatch of events has fuel that counts passes, of which a result below gives
-- the number; so has the loop over periods that a timer's division is compared with.
--
-- Not modelled: the DMA transfers of src/core/bus.c, the GPU, the CD-ROM, the MDEC, the serial
-- port, the voices and the output of the SPU, the debugger, Lua, savestates, disc images and the
-- front end. Logging is left out, except that the first logged exception freezes the execution
-- trace.
pub mod Base
pub mod Machine
pub mod Cpu
pub mod Bus
pub mod Dma
pub mod Events
pub mod Gte
pub mod Spu
pub mod Timers
pub mod Tests
