-- ===== src/Spu/Trap.antt =====
-- The IRQ address of the sound RAM: src/spu/spu_irq.c, over the part of `Spu` that the transfers
-- and the interrupt use. `inter` is taken not to be null.
use zonistation_one.Base.{
  ltb, ◌==◌, if◌then◌else◌, sub32, bit, set_bit, clear_bit, ℕ, ◌*◌, ◌%◌, Bool, true, false, not,
}
use zonistation_one.Bus.Irq.{interconnect_set_irq_line}
use zonistation_one.Machine.{Interconnect}

abbrev pub spu_ram_size : ℕ
spu_ram_size = 0x8_0000

abbrev pub irq_spu : ℕ
irq_spu = 9

-- The RAM is an array of `uint16_t`; the transfer address counts bytes, the IRQ address eight.
pub record SpuPort : Type 0 where
  pub ram : ℕ → ℕ
  pub control : ℕ  -- uint16_t
  pub status : ℕ  -- uint16_t
  pub transfer_addr_reg : ℕ  -- uint16_t
  pub transfer_addr : ℕ  -- uint32_t
  pub irq_addr : ℕ  -- uint16_t
  pub irq9_flag : Bool
  pub manual_fifo : ℕ → ℕ
  pub manual_fifo_count : ℕ  -- uint8_t

-- The SPU with the Interconnect that its functions are given.
pub record SpuOnBus (D : Type 0) : Type 0 where
  pub spu : SpuPort
  pub inter : Interconnect D

module _ {D : Type 0} where
  abbrev pub spu_raise_irq9 : SpuOnBus D → SpuOnBus D
  spu_raise_irq9 s = record {
    spu = record (s.spu) { irq9_flag = true; status = set_bit s.spu.status 6 };
    inter = interconnect_set_irq_line s.inter irq_spu true;
  }

  -- One halfword access.
  unfoldable pub spu_check_irq : SpuOnBus D → ℕ → Bool × SpuOnBus D
  spu_check_irq s address =
      if not (bit s.spu.control 6)
      then (false, s)
      else if s.spu.irq9_flag
      then (false, s)
      else if not (s.spu.irq_addr * 8 == address)
      then (false, s)
      else (true, spu_raise_irq9 s)

  -- A read of `len` bytes, wrapping at the end of the RAM.
  unfoldable pub spu_check_irq_range : SpuOnBus D → ℕ → ℕ → Bool × SpuOnBus D
  spu_check_irq_range s start len =
      if not (bit s.spu.control 6)
      then (false, s)
      else if s.spu.irq9_flag
      then (false, s)
      else if not (ltb (sub32 (s.spu.irq_addr * 8) start % spu_ram_size) len)
      then (false, s)
      else (true, spu_raise_irq9 s)

  unfoldable pub spu_irq_acknowledge : SpuOnBus D → SpuOnBus D
  spu_irq_acknowledge s = record {
    spu = record (s.spu) { irq9_flag = false; status = clear_bit s.spu.status 6 };
    inter = interconnect_set_irq_line s.inter irq_spu false;
  }
