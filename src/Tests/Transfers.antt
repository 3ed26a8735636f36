-- ===== src/Tests/Transfers.antt =====
-- The controller of src/core/dma.c with the completion of channel 2 pending.
use zonistation_one.Base.{bit, ◌≡◌, refl, true, false, arith}
use zonistation_one.Dma.Interrupt.{IrqIsWf, dma_write-IrqIsWf, complete, complete-dma_write}
use zonistation_one.Dma.Registers.{idle_slice, write_dicr, dma_write}
use zonistation_one.Dma.RoundTrip.{register_at, dma_slice_running-dma_write}
use zonistation_one.Dma.State.{
  DmaDirection, DmaStep, DmaSync, DmaChannel, Controller, dma_slice_running,
}
use zonistation_one.Tests.{bus}

abbrev idle_channel : DmaChannel
idle_channel = record {
  enable = false;
  direction = DmaDirection.to_ram;
  step = DmaStep.increment;
  chopping = false;
  sync = DmaSync.manual;
  trigger = false;
  chopping_dma_sz = 0;
  chopping_cpu_sz = 0;
  base_addr = 0;
  block_size = 0;
  block_count = 0;
}

abbrev controller : Controller Unit
controller = record {
  dma = record {
    control = 0x0765_4321;
    force_irq = false;
    channel_irq_enable = 4;
    master_irq_enable = true;
    channel_irq_flags = 4;
    master_irq_flag = true;
    dicr_unknown_rw = 0;
    channels = λ i. idle_channel;
    gpu_ll_addr = 0;
    gpu_ll_active = true;
    gpu_req = idle_slice;
    mdec_in = idle_slice;
    mdec_out = idle_slice;
  };
  inter = record bus { irq_line_state = 8; irq_status = 8 };
  guest_regs_during_transfer = 0;
}

controller-IrqIsWf : IrqIsWf controller
controller-IrqIsWf = record { current = refl; follows = λ e. absurd (ground (arith, e)) }

dma_write-IrqIsWf_example : IrqIsWf (dma_write controller 0x74 0x0484_0000).1
dma_write-IrqIsWf_example = dma_write-IrqIsWf controller 0x74 0x0484_0000 controller-IrqIsWf

-- The flag is acknowledged; the next completion of the channel is an edge again.
complete-dma_write_example :
    bit (complete (dma_write controller 0x74 0x0484_0000).1 4).inter.irq_status 3 ≡ true
unfolding write_dicr
complete-dma_write_example =
    complete-dma_write controller 0x0484_0000 4 controller-IrqIsWf refl refl

dma_slice_running-dma_write_example :
    (dma_write controller (register_at 2 8) 0x0000_0401).0 ≡ false
    × dma_slice_running (dma_write controller (register_at 2 8) 0x0000_0401).1.dma 2 ≡ false
dma_slice_running-dma_write_example =
    dma_slice_running-dma_write controller 2 0x0000_0401 (omega arith) refl
