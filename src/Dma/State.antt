-- ===== src/Dma/State.antt =====
-- dma.h and dma.c: the channels, the slices in flight and the interrupt.
use zonistation_one.Base.{
  ltb, leb, ◌==◌, ◌!=◌, if◌then◌else◌, to_nat, u16, u32, add32, sub32, ◌<<<◌, ◌>>>◌, bit, clear_bit,
  ℕ, ◌+◌, ◌-◌, ◌*◌, ◌/◌, ◌%◌, ◌^◌, Bool, true, false, not, ◌&&◌, ◌||◌,
}
use zonistation_one.Base.Int.{ℤ}
use zonistation_one.Base.Map.{update}
use zonistation_one.Bus.Irq.{interconnect_set_irq_line}
use zonistation_one.Machine.{Interconnect}
use zonistation_one.Spu.Transfer.{next_addr}

pub data DmaDirection : Type 0 where
  to_ram : DmaDirection
  from_ram : DmaDirection

pub data DmaStep : Type 0 where
  increment : DmaStep
  decrement : DmaStep

pub data DmaSync : Type 0 where
  manual : DmaSync
  request : DmaSync
  linked_list : DmaSync

pub record DmaChannel : Type 0 where
  pub enable : Bool
  pub direction : DmaDirection
  pub step : DmaStep
  pub chopping : Bool
  pub sync : DmaSync
  pub trigger : Bool
  pub chopping_dma_sz : ℕ
  pub chopping_cpu_sz : ℕ
  pub base_addr : ℕ
  pub block_size : ℕ  -- uint16_t
  pub block_count : ℕ  -- uint16_t

-- A sliced transfer: the next address, the words left, the bytes from a word to the next.
pub record Slice : Type 0 where
  pub addr : ℕ
  pub remaining : ℕ
  pub step : ℤ
  pub active : Bool

-- `stat_ch2_uploads`, which the debug view alone reads, is left out.
pub record Dma : Type 0 where
  pub control : ℕ
  pub force_irq : Bool
  pub channel_irq_enable : ℕ  -- uint8_t
  pub master_irq_enable : Bool
  pub channel_irq_flags : ℕ  -- uint8_t
  pub master_irq_flag : Bool
  pub dicr_unknown_rw : ℕ  -- uint8_t
  pub channels : ℕ → DmaChannel
  pub gpu_ll_addr : ℕ
  pub gpu_ll_active : Bool
  pub gpu_req : Slice
  pub mdec_in : Slice
  pub mdec_out : Slice

-- The controller with the Interconnect that its `inter` points to, and the file-scope
-- `s_guest_regs_during_transfer`.
pub record Controller (D : Type 0) : Type 0 where
  pub dma : Dma
  pub inter : Interconnect D
  pub guest_regs_during_transfer : ℕ  -- uint8_t

abbrev pub irq_dma : ℕ
irq_dma = 3

-- The values of the enumerations.
abbrev pub direction_code : DmaDirection → ℕ
direction_code DmaDirection.to_ram = 0
direction_code DmaDirection.from_ram = 1

abbrev pub step_code : DmaStep → ℕ
step_code DmaStep.increment = 0
step_code DmaStep.decrement = 1

abbrev pub sync_code : DmaSync → ℕ
sync_code DmaSync.manual = 0
sync_code DmaSync.request = 1
sync_code DmaSync.linked_list = 2

-- The word of CHCR.
unfoldable pub channel_get_control : DmaChannel → ℕ
channel_get_control ch =
    direction_code ch.direction
    + step_code ch.step <<< 1
    + to_nat (ch.chopping) <<< 8
    + sync_code ch.sync <<< 9
    + ch.chopping_dma_sz <<< 16
    + ch.chopping_cpu_sz <<< 20
    + to_nat (ch.enable) <<< 24
    + to_nat (ch.trigger) <<< 28

-- Sync mode 3 leaves the mode as it was.
abbrev pub decoded_sync : ℕ → DmaSync → DmaSync
decoded_sync bits old =
    if bits == 0
    then DmaSync.manual
    else if bits == 1
    then DmaSync.request
    else if bits == 2
    then DmaSync.linked_list
    else old

unfoldable pub channel_set_control : DmaChannel → ℕ → DmaChannel
channel_set_control ch value = record ch {
  direction = if bit value 0 then DmaDirection.from_ram else DmaDirection.to_ram;
  step = if bit value 1 then DmaStep.decrement else DmaStep.increment;
  chopping = bit value 8;
  sync = decoded_sync ((value >>> 9) % 4) ch.sync;
  chopping_dma_sz = (value >>> 16) % 8;
  chopping_cpu_sz = (value >>> 20) % 8;
  enable = bit value 24;
  trigger = bit value 28;
}

unfoldable pub dma_channel_is_active : DmaChannel → Bool
dma_channel_is_active ch =
    if ch.enable then elim ch.sync [ DmaSync.manual ↦ ch.trigger | _ ↦ true ] else false

unfoldable pub dma_channel_done : DmaChannel → DmaChannel
dma_channel_done ch = record ch { enable = false; trigger = false }

unfoldable pub dma_cancel_slice : Dma → ℕ → Dma
dma_cancel_slice dma channel_index =
    if channel_index == 0
    then record dma { mdec_in = record (dma.mdec_in) { active = false } }
    else if channel_index == 1
    then record dma { mdec_out = record (dma.mdec_out) { active = false } }
    else if channel_index == 2
    then record dma { gpu_ll_active = false; gpu_req = record (dma.gpu_req) { active = false } }
    else dma

unfoldable pub dma_slice_running : Dma → ℕ → Bool
dma_slice_running dma channel =
    if channel == 0
    then dma.mdec_in.active
    else if channel == 1
    then dma.mdec_out.active
    else if channel == 2
    then dma.gpu_ll_active || dma.gpu_req.active
    else false

-- Bits 23 to 2 of an address, over bits 1 and 0 of MADR as written.
abbrev pub progressed_addr : ℕ → ℕ → ℕ
progressed_addr madr old = (madr % 2 ^ 24) / 4 * 4 + old % 4

-- MADR and BCR of a transfer with `remaining` words to move, the next at `next_addr`.
unfoldable pub dma_channel_progress : DmaChannel → ℕ → ℕ → DmaChannel
dma_channel_progress ch next_addr remaining = elim ch.sync [
  | DmaSync.request ↦
      let bs = if ch.block_size != 0 then ch.block_size else 0x1_0000 in
      let blocks_left = (remaining + bs - 1) / bs in
      let done = u32 (blocks_left * bs - remaining) in
      let madr : ℕ = elim ch.step [
        | DmaStep.increment ↦ sub32 next_addr (u32 (4 * done))
        | DmaStep.decrement ↦ add32 next_addr (u32 (4 * done))
      ] in
      record ch { base_addr = progressed_addr madr ch.base_addr; block_count = u16 blocks_left }
  | DmaSync.manual ↦
      if ch.chopping
      then record ch {
        base_addr = progressed_addr next_addr ch.base_addr;
        block_size = u16 remaining;
      }
      else ch
  | DmaSync.linked_list ↦ ch
]

-- The master flag of DICR, and the interrupt line on its edges.
abbrev pub master_of : Dma → Bool
master_of dma = dma.force_irq || dma.master_irq_enable && dma.channel_irq_flags != 0

module _ {D : Type 0} where
  unfoldable pub dma_update_irq : Controller D → Controller D
  dma_update_irq c =
      let prev = c.dma.master_irq_flag in
      let now = master_of c.dma in
      record c {
        dma = record (c.dma) { master_irq_flag = now };
        inter =
            if not prev && now
            then interconnect_set_irq_line c.inter irq_dma true
            else if prev && not now
            then interconnect_set_irq_line c.inter irq_dma false
            else c.inter;
      }

  unfoldable pub dma_flag_bus_error : Controller D → Controller D
  dma_flag_bus_error c =
      if c.dma.force_irq
      then c
      else dma_update_irq (record c { dma = record (c.dma) { force_irq = true } })

  -- A channel's bit of `guest_regs_during_transfer`.
  abbrev pub guest_wrote : Controller D → ℕ → Bool
  guest_wrote c channel = leb 7 channel || bit c.guest_regs_during_transfer channel

  unfoldable pub dma_writeback_begin : Controller D → ℕ → Controller D
  dma_writeback_begin c channel =
      if ltb channel 7
      then record c { guest_regs_during_transfer = clear_bit c.guest_regs_during_transfer channel }
      else c

  abbrev pub set_channel : Controller D → ℕ → DmaChannel → Controller D
  set_channel c i ch = record c { dma = record (c.dma) { channels = update c.dma.channels i ch } }

  unfoldable pub dma_writeback : Controller D → ℕ → ℕ → ℕ → Controller D
  dma_writeback c channel next_addr remaining =
      if guest_wrote c channel
      then c
      else set_channel c channel (dma_channel_progress (c.dma.channels channel) next_addr remaining)

  unfoldable pub dma_writeback_list : Controller D → ℕ → ℕ → Controller D
  dma_writeback_list c channel madr =
      if guest_wrote c channel
      then c
      else set_channel c channel (record (c.dma.channels channel) { base_addr = madr % 2 ^ 24 })
