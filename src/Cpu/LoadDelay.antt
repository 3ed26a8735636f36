-- ===== src/Cpu/LoadDelay.antt =====
-- The load delay slot: `cpu_retire_load_delay`, `cpu_flush_load_delay` and `cpu_set_reg`.
use zonistation_one.Base.{ℕ, ◌≡◌, refl, ◌≢◌, arith}
use zonistation_one.Cpu.Regs.{
  cpu_reg, cpu_set_reg, cpu_retire_load_delay, flush_delayed, flush_issued, cpu_flush_load_delay,
  schedule_load,
}
use zonistation_one.Machine.{Cpu}

module _ {D G : Type 0} where
  -- After a load is issued to a register other than R0, the instruction in its delay slot reads
  -- there what the register holds without the load (or the value of the load before it), the one
  -- after reads the loaded value, and a write in the delay slot wins over the load.
  pub load_delay_lem :
      (cpu : Cpu D G) (rt v w : ℕ)
      → rt ≢ 0
      → (cpu_reg (cpu_retire_load_delay (schedule_load cpu rt v)) rt
          ≡ cpu_reg (cpu_retire_load_delay cpu) rt)
        × (cpu_reg (cpu_retire_load_delay (cpu_retire_load_delay (schedule_load cpu rt v))) rt ≡ v)
        × (cpu_reg
              (cpu_retire_load_delay
                (cpu_set_reg (cpu_retire_load_delay (schedule_load cpu rt v)) rt w))
              rt
            ≡ w)
  unfolding cpu_reg cpu_retire_load_delay schedule_load cpu_set_reg
  load_delay_lem cpu rt v w ne = (refl, ground arith, ground arith)

  -- Draining the pipeline on the way into a handler leaves in every register what two retired
  -- instructions would leave there, the newer load winning, and nothing in flight.
  pub flush_load_delay_lem :
      (cpu : Cpu D G) (r : ℕ)
      → (cpu_reg (cpu_flush_load_delay cpu) r
          ≡ cpu_reg (cpu_retire_load_delay (cpu_retire_load_delay cpu)) r)
        × ((cpu_flush_load_delay cpu).delay_load_reg ≡ 0)
        × ((cpu_flush_load_delay cpu).load_reg_idx ≡ 0)
  unfolding cpu_reg cpu_retire_load_delay cpu_flush_load_delay flush_delayed flush_issued
  flush_load_delay_lem cpu r = ground arith
