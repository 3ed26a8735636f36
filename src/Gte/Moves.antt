-- ===== src/Gte/Moves.antt =====
-- MTC2 and MFC2 of src/cpu/cpu_instructions.c with the coprocessor of gte.c behind them.
use zonistation_one.Machine.{Cpu}
